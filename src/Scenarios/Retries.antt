-- ===== src/Scenarios/Retries.antt =====
-- Requests sent twice, over a key store kept as a list and answers that are truth values.
use text.Mathlib.Text.{◌==◌ as str_eq}
use bomboli_server.Prelude.{
  ◌<◌, ◌≤◌, ◌≡◌, refl, Bool, true, false, String, Option, none, some, List, [], ◌∷◌, length,
  if◌then◌else◌, arith,
}
use bomboli_server.Db.{Error}
use bomboli_server.Common.Idempotency.{
  KeyStore, Json, in_flight_marker, replay, refuse, run_handler, Request, build_cache_key,
  intercept, lock_or_look_up,
}
use bomboli_server.Common.Idempotency.Steps.{
  times, answers, World, start, begun, arrived, finished, failed, arrive, Reach, here, next,
}
use bomboli_server.Common.Idempotency.Replays

get : List (String × String) → String → Option String
get [] j = none
get ((k, v) ∷ s) j = if str_eq k j then some v else get s j

set_nx : List (String × String) → String → String → Bool × List (String × String)
set_nx s k v = elim (get s k) [ none ↦ (true, (k, v) ∷ s) | some _ ↦ (false, s) ]

get-empty : (k : String) → get [] k ≡ none
unfolding get
get-empty k = refl

get-set :
    (s : List (String × String)) (k v j : String)
    → get ((k, v) ∷ s) j ≡ (if str_eq k j then some v else get s j)
unfolding get
get-set s k v j = refl

set_nx-new :
    (s : List (String × String)) (k v : String) → get s k ≡ none → set_nx s k v ≡ (true, (k, v) ∷ s)
unfolding set_nx
set_nx-new s k v h = ground arith

set_nx-taken :
    (s : List (String × String)) (k v w : String) → get s k ≡ some w → set_nx s k v ≡ (false, s)
unfolding set_nx
set_nx-taken s k v w h = ground arith

abbrev redis : KeyStore
redis = record {
  S = List (String × String);
  empty = [];
  get = get;
  set = λ s k v. (k, v) ∷ s;
  set_nx = set_nx;
  get-empty = get-empty;
  get-set = get-set;
  set_nx-new = set_nx-new;
  set_nx-taken = set_nx-taken;
}

stringify : Bool → String
stringify true = "true"
stringify false = "false"

parse : String → Option Bool
parse s = if str_eq s "true" then some true else if str_eq s "false" then some false else none

parse-stringify : (b : Bool) → parse (stringify b) ≡ some b
unfolding parse stringify
parse-stringify true = refl
parse-stringify false = refl

parse-marker : parse in_flight_marker ≡ none
unfolding parse
parse-marker = refl

abbrev json : Json Bool in_flight_marker
json = record {
  stringify = stringify;
  parse = parse;
  parse-stringify = parse-stringify;
  parse-marker = parse-marker;
}

abbrev idle : World redis json
idle = start redis json

abbrev order : Request
order = record { user = some "u"; method = "POST"; path = "/v1/orders"; key = some "k" }

-- Its cache key.
abbrev slot : String
slot = "idem:u:POST:/v1/orders:k"

-- The request has come in, and its handler is running.
abbrev busy : World redis json
busy = arrived redis json true order idle

reach_busy : Reach redis json idle busy
reach_busy = next here (arrive idle true order)

busy_runs : 0 < times slot busy.running
unfolding times arrived intercept build_cache_key begun set_nx get
busy_runs = omega arith

first_time : (intercept redis json true order []).0 ≡ run_handler slot
unfolding intercept build_cache_key set_nx get
first_time = refl

no_key : intercept redis json true (record order { key = none }) [] ≡ (refuse Error.bad_request, [])
unfolding intercept
no_key = refl

Reach-Once_example :
    (times slot busy.started ≤ 1)
    × (length (answers slot busy.answered) ≤ 1)
    × Replays.AgreesWith redis json busy slot (intercept redis json true order busy.store).0
unfolding build_cache_key
Reach-Once_example =
    Replays.Reach-Once redis json busy order "k" refl (omega arith) (omega arith) reach_busy

abbrev answered : World redis json
answered = arrived redis json true order (finished redis json slot true busy)

Reach-finished_example :
    (lock_or_look_up redis json slot answered.store ≡ (replay true, answered.store))
    × (times slot answered.started ≡ 1)
Reach-finished_example =
    Replays.Reach-finished redis json busy answered slot true reach_busy busy_runs
      (next here (arrive (finished redis json slot true busy) true order))

abbrev thrown : World redis json
thrown = arrived redis json true order (failed redis json slot busy)

Reach-failed_example :
    (lock_or_look_up redis json slot thrown.store ≡ (refuse Error.conflict, thrown.store))
    × (times slot thrown.running ≡ 0)
    × (times slot thrown.started ≡ 1)
    × (answers slot thrown.answered ≡ [])
Reach-failed_example =
    Replays.Reach-failed redis json busy thrown slot reach_busy busy_runs
      (next here (arrive (failed redis json slot busy) true order))
