-- ===== src/Common/Idempotency/Steps.antt =====
-- The interleavings of requests, handlers and stored responses behind
-- src/common/interceptors/idempotency.interceptor.ts, while no key expires.
use text.Mathlib.Text.{◌==◌ as str_eq}
use text.Mathlib.TextEquality.{eq_iff}
use bomboli_server.Prelude.{
  ℕ, suc, ◌-◌, ◌<◌, ◌≡◌, refl, Bool, false, String, List, [], ◌∷◌, if◌then◌else◌, arith,
}
use bomboli_server.Common.Idempotency.{
  KeyStore, Json, in_flight_marker, Request, Decision, run_handler, intercept, store_response,
}

-- The texts of a list that are k, counted.
unfoldable pub times : String → List String → ℕ
times k [] = 0
times k (j ∷ js) = let rest = times k js in if str_eq k j then suc rest else rest

unfoldable pub without : String → List String → List String
without k [] = []
without k (j ∷ js) = let rest = without k js in if str_eq k j then js else j ∷ rest

pub times-without_self : (k : String) (js : List String) → times k (without k js) ≡ times k js - 1
unfolding times without
times-without_self k [] = refl
times-without_self k (j ∷ js) = ground (arith, times-without_self k js)

pub times-without_ne :
    (j k : String) (js : List String) → str_eq k j ≡ false → times j (without k js) ≡ times j js
unfolding times without
times-without_ne j k [] h = refl
times-without_ne j k (x ∷ js) h =
    ground (arith, eq_iff k x, eq_iff j x, eq_iff k j, times-without_ne j k js h)

pub eq_comm : (j k : String) → str_eq j k ≡ str_eq k j
eq_comm j k = ground (arith, eq_iff j k, eq_iff k j)

-- The answers of the handlers that ran for a key.
unfoldable pub answers : {R : Type 0} → String → List (String × R) → List R
answers k [] = []
answers k ((j, r) ∷ done) = let rest = answers k done in if str_eq k j then r ∷ rest else rest

module _ (redis : KeyStore) {R : Type 0} (json : Json R in_flight_marker) where
  -- The key store, the keys whose handler is running, the handlers started so far, and what the
  -- handlers answered.
  pub record World : Type 0 where
    pub store : redis.S
    pub running : List String
    pub started : List String
    pub answered : List (String × R)

  abbrev pub start : World
  start = record { store = redis.empty; running = []; started = []; answered = [] }

  -- What the interceptor's decision starts.
  unfoldable pub begun : Decision R → redis.S → World → World
  begun (run_handler k) s w = record w {
    store = s;
    running = k ∷ w.running;
    started = k ∷ w.started;
  }
  begun _ s w = record w { store = s }

  unfoldable pub arrived : Bool → Request → World → World
  unfolding begun
  arrived is_idempotent request w =
      let (decision, s) = intercept redis json is_idempotent request w.store in begun decision s w

  unfoldable pub finished : String → R → World → World
  finished k r w = record w {
    store = store_response redis json k r w.store;
    running = without k w.running;
    answered = (k, r) ∷ w.answered;
  }

  unfoldable pub lost : String → R → World → World
  lost k r w = record w { running = without k w.running; answered = (k, r) ∷ w.answered }

  unfoldable pub failed : String → World → World
  failed k w = record w { running = without k w.running }

  -- A request comes in, on a route that is marked `@Idempotent()` or not; a running handler answers, and its answer is stored or Redis fails; a
  -- running handler throws.
  pub data Step : World → World → Type 0 where
    arrive :
        (w : World) (is_idempotent : Bool) (request : Request)
        → Step w (arrived is_idempotent request w)
    finish : (w : World) (k : String) (r : R) → 0 < times k w.running → Step w (finished k r w)
    lose : (w : World) (k : String) (r : R) → 0 < times k w.running → Step w (lost k r w)
    fail : (w : World) (k : String) → 0 < times k w.running → Step w (failed k w)

  pub data Reach : World → World → Type 0 where
    here : {w : World} → Reach w w
    next : {u v w : World} → Reach u v → Step v w → Reach u w
