-- ===== src/Common/Idempotency.antt =====
-- Requests that are sent twice: src/common/interceptors/idempotency.interceptor.ts. The key store
-- of Redis and JSON are parameters, with what is documented of the commands that the code sends.
pub mod Steps
pub mod Once
pub mod Replays
use Prim.Native.String.{◌++◌, count}
use text.Mathlib.Text.{◌==◌ as str_eq}
use bomboli_server.Prelude.{
  ℕ, ◌==◌, ltb, ◌≡◌, Bool, true, false, not, ◌||◌, String, Option, none, some, List, [], ◌∷◌,
  if◌then◌else◌, or_default,
}
use bomboli_server.Db.{Error, ErrorCode}

-- The keys of a Redis database, with `SET`, `SET … NX` and `GET`.
pub record KeyStore : Type 1 where
  pub S : Type 0
  pub empty : S
  pub get : S → String → Option String
  pub set : S → String → String → S
  pub set_nx : S → String → String → Bool × S
  pub get-empty : (k : String) → get empty k ≡ none
  pub get-set :
      (s : S) (k v j : String) → get (set s k v) j ≡ (if str_eq k j then some v else get s j)
  pub set_nx-new : (s : S) (k v : String) → get s k ≡ none → set_nx s k v ≡ (true, set s k v)
  pub set_nx-taken : (s : S) (k v w : String) → get s k ≡ some w → set_nx s k v ≡ (false, s)

-- JSON texts of the responses; the marker is not one.
pub record Json (R : Type 0) (marker : String) : Type 0 where
  pub stringify : R → String
  pub parse : String → Option R
  pub parse-stringify : (r : R) → parse (stringify r) ≡ some r
  pub parse-marker : parse marker ≡ none

abbrev pub in_flight_marker : String
in_flight_marker = "__bomboli:in-flight__"

pub record Request : Type 0 where
  pub user : Option String
  pub method : String
  pub path : String
  pub key : Option String

unfoldable pub build_cache_key : Request → String → String
build_cache_key request key =
    "idem:"
    ++ or_default "anon" request.user
    ++ ":"
    ++ request.method
    ++ ":"
    ++ request.path
    ++ ":"
    ++ key

-- What the interceptor does with a request: it calls the handler without keeping its answer, it
-- calls the handler and keeps the answer under a key, it answers what was kept, or it throws.
pub data Decision (R : Type 0) : Type 0 where
  pass_through : Decision R
  run_handler : String → Decision R
  replay : R → Decision R
  refuse : Error → Decision R

module _ (redis : KeyStore) {R : Type 0} (json : Json R in_flight_marker) where
  open redis use {S, get, set, set_nx}

  parsed : Option R → Decision R
  parsed none = refuse (Error.domain ErrorCode.unknown 400)
  parsed (some r) = replay r

  -- What follows a `SET … NX` that was not granted.
  unfoldable pub look_up : String → S → Decision R
  unfolding parsed
  look_up k s = elim (get s k) [
    | none ↦ refuse Error.conflict
    | some stored ↦
        if str_eq stored in_flight_marker then refuse Error.conflict else parsed (json.parse stored)
  ]

  unfoldable pub acquire : String → S → Bool × S
  acquire k s = set_nx s k in_flight_marker

  unfoldable pub lock_or_look_up : String → S → Decision R × S
  unfolding acquire look_up
  lock_or_look_up k s =
      let (acquired, s') = acquire k s in (if acquired then run_handler k else look_up k s', s')

  unfoldable pub intercept : Bool → Request → S → Decision R × S
  unfolding lock_or_look_up
  intercept is_idempotent request s = elim request.key [
    | none ↦ (if is_idempotent then refuse Error.bad_request else pass_through, s)
    | some key ↦
        if not is_idempotent
        then (pass_through, s)
        else if count key == 0 || ltb 200 (count key)
        then (refuse Error.bad_request, s)
        else lock_or_look_up (build_cache_key request key) s
  ]

  -- `storeResponse`, unless Redis fails, which is logged only.
  unfoldable pub store_response : String → R → S → S
  store_response k r s = set s k (json.stringify r)
