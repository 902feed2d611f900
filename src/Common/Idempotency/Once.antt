-- ===== src/Common/Idempotency/Once.antt =====
-- How often a handler runs behind src/common/interceptors/idempotency.interceptor.ts while its key
-- has not expired, over every interleaving of requests, handlers and stored responses.
use Prim.Native.String.{count}
use text.Mathlib.Text.{◌==◌ as str_eq}
use text.Mathlib.TextEquality.{eq_iff}
use text.Mathlib.TextPositions.{eq_refl}
use bomboli_server.Prelude.{
  ℕ, suc, ◌+◌, ◌-◌, ◌<◌, ◌≤◌, ◌≡◌, inl, inr, refl, ap, sym, subst, ◌∙◌, ◌⊎◌, Bool, false, ◌==◌, ltb,
  ◌||◌, String, Option, none, some, List, [], ◌∷◌, length, arith, Bool-cases, Option-cases,
}
use bomboli_server.Common.Idempotency.{
  KeyStore, Json, in_flight_marker, Request, acquire, look_up, lock_or_look_up, intercept,
  store_response, build_cache_key,
}
use bomboli_server.Common.Idempotency.Steps.{
  times, without, times-without_self, times-without_ne, eq_comm, World, answers, start, begun,
  arrived, finished, lost, failed, Step, arrive, finish, lose, fail, Reach, here, next,
}

module _ (redis : KeyStore) {R : Type 0} (json : Json R in_flight_marker) where
  -- What the store holds under a key, against the number of handlers started, the number of
  -- handlers running and the answers.
  pub data IsOnce (kept : Option String) (starts runs : ℕ) (done : List R) : Type 0 where
    untouched : kept ≡ none → starts ≡ 0 → runs ≡ 0 → done ≡ [] → IsOnce kept starts runs done
    in_flight :
        kept ≡ some in_flight_marker
        → starts ≡ 1
        → runs + length done ≤ 1
        → IsOnce kept starts runs done
    stored :
        (r : R)
        → kept ≡ some (json.stringify r)
        → starts ≡ 1
        → runs ≡ 0
        → done ≡ r ∷ []
        → IsOnce kept starts runs done

  abbrev pub AllOnce : World redis json → Type 0
  AllOnce w =
      (k : String)
      → IsOnce (redis.get w.store k) (times k w.started) (times k w.running) (answers k w.answered)

  IsOnce-arrive :
      (starts runs : ℕ) (done : List R)
      → IsOnce none starts runs done
      → IsOnce (some in_flight_marker) (suc starts) (suc runs) done
  IsOnce-arrive starts runs done (untouched g s n a) =
      in_flight refl (omega arith) (rw a (omega arith))
  IsOnce-arrive starts runs done (in_flight g s n) = absurd (cc)
  IsOnce-arrive starts runs done (stored r g s n a) = absurd (cc)

  pub done-nil : (runs : ℕ) (done : List R) → 0 < runs → runs + length done ≤ 1 → done ≡ []
  done-nil runs [] p h = refl
  done-nil runs (x ∷ xs) p h = absurd (omega arith)

  IsOnce-finish :
      (kept : Option String) (starts runs : ℕ) (done : List R) (r : R)
      → 0 < runs
      → IsOnce kept starts runs done
      → IsOnce (some (json.stringify r)) starts (runs - 1) (r ∷ done)
  IsOnce-finish kept starts runs done r p (untouched g s n a) = absurd (omega arith)
  IsOnce-finish kept starts runs done r p (in_flight g s n) =
      stored r refl s (omega arith) (ap (◌∷◌ r) (done-nil runs done p n))
  IsOnce-finish kept starts runs done r p (stored q g s n a) = absurd (omega arith)

  IsOnce-lose :
      (kept : Option String) (starts runs : ℕ) (done : List R) (r : R)
      → 0 < runs
      → IsOnce kept starts runs done
      → IsOnce kept starts (runs - 1) (r ∷ done)
  IsOnce-lose kept starts runs done r p (untouched g s n a) = absurd (omega arith)
  IsOnce-lose kept starts runs done r p (in_flight g s n) = in_flight g s (omega arith)
  IsOnce-lose kept starts runs done r p (stored q g s n a) = absurd (omega arith)

  IsOnce-fail :
      (kept : Option String) (starts runs : ℕ) (done : List R)
      → 0 < runs
      → IsOnce kept starts runs done
      → IsOnce kept starts (runs - 1) done
  IsOnce-fail kept starts runs done p (untouched g s n a) = absurd (omega arith)
  IsOnce-fail kept starts runs done p (in_flight g s n) = in_flight g s (omega arith)
  IsOnce-fail kept starts runs done p (stored q g s n a) = absurd (omega arith)

  -- A request that starts the handler of a key.
  abbrev pub Starts : World redis json → World redis json → String → Type 0
  Starts w w' k =
      (redis.get w.store k ≡ none)
      × (w' ≡ record w {
        store = redis.set w.store k in_flight_marker;
        running = k ∷ w.running;
        started = k ∷ w.started;
      })

  look_up-begun :
      (k : String) (s : redis.S) (w : World redis json)
      → begun redis json (look_up redis json k s) s w ≡ record w { store = s }
  unfolding look_up begun
  look_up-begun k s w = elim (Option-cases (redis.get s k)) [
    | inl e ↦ ground (arith, e)
    | inr (v, e) ↦ elim (Bool-cases (str_eq v in_flight_marker)) [
      | inl t ↦ ground (arith, e, t)
      | inr t ↦ elim (Option-cases (json.parse v)) [
        | inl n ↦ ground (arith, e, t, n)
        | inr (r, n) ↦ ground (arith, e, t, n)
      ]
    ]
  ]

  taken-kept :
      (k v : String) (w : World redis json)
      → redis.get w.store k ≡ some v
      → let (decision, s) = lock_or_look_up redis json k w.store in
        begun redis json decision s w ≡ w
  unfolding lock_or_look_up acquire
  taken-kept k v w h =
      rw (redis.set_nx-taken w.store k in_flight_marker v h) (look_up-begun k w.store w)

  free-started :
      (k : String) (w : World redis json)
      → redis.get w.store k ≡ none
      → let (decision, s) = lock_or_look_up redis json k w.store in
        Starts w (begun redis json decision s w) k
  unfolding lock_or_look_up acquire begun
  free-started k w h = (h, rw (redis.set_nx-new w.store k in_flight_marker h) refl)

  lock_or_look_up-cases :
      (k : String) (w : World redis json)
      → let (decision, s) = lock_or_look_up redis json k w.store in
        let w' = begun redis json decision s w in (w' ≡ w) ⊎ ((j : String) × Starts w w' j)
  lock_or_look_up-cases k w = elim (Option-cases (redis.get w.store k)) [
    | inr (v, e) ↦ inl (taken-kept k v w e)
    | inl e ↦ inr (k, free-started k w e)
  ]

  -- A request leaves everything as it was, or it starts the handler of a key that was free.
  pub arrived-cases :
      (is_idempotent : Bool) (request : Request) (w : World redis json)
      → (arrived redis json is_idempotent request w ≡ w)
        ⊎ ((k : String) × Starts w (arrived redis json is_idempotent request w) k)
  unfolding arrived intercept begun build_cache_key
  arrived-cases is_idempotent request w = elim (Option-cases request.key) [
    | inl e ↦ inl (ground (arith, e, Bool-cases is_idempotent))
    | inr (key, e) ↦ rw e (elim (Bool-cases is_idempotent) [
      | inr n ↦ inl (rw n refl)
      | inl n ↦ rw n (elim (Bool-cases (count key == 0 || ltb 200 (count key))) [
        | inl bad ↦ inl (rw bad refl)
        | inr good ↦ rw good (lock_or_look_up-cases (build_cache_key request key) w)
      ])
    ])
  ]

  arrived-AllOnce :
      (is_idempotent : Bool) (request : Request) (w : World redis json)
      → AllOnce w
      → AllOnce (arrived redis json is_idempotent request w)
  unfolding times
  arrived-AllOnce b request w all j = elim (arrived-cases b request w) [
    | inl same ↦ rw same (all j)
    | inr (k, (e, moved)) ↦
        rw (moved, redis.get-set w.store k in_flight_marker j)
          (elim (Bool-cases (str_eq k j)) [
            | inr other ↦ rw (other, eq_comm j k, other) (all j)
            | inl same ↦
                let free = ap (redis.get w.store) (sym ((eq_iff k j).0 same)) ∙ e in
                rw (same, eq_comm j k, same)
                  (IsOnce-arrive _ _ _ (
                    subst
                      (λ v. IsOnce v (times j w.started) (times j w.running) (answers j w.answered))
                      free (all j)))
          ])
  ]

  -- A handler that ends leaves the other keys alone.
  ended-AllOnce :
      (k : String) (w w' : World redis json)
      → AllOnce w
      → w'.started ≡ w.started
      → w'.running ≡ without k w.running
      → ((j : String)
          → str_eq k j ≡ false
          → (redis.get w'.store j ≡ redis.get w.store j)
            × (answers j w'.answered ≡ answers j w.answered))
      → IsOnce
          (redis.get w'.store k)
          (times k w.started)
          (times k w.running - 1)
          (answers k w'.answered)
      → AllOnce w'
  ended-AllOnce k w w' all s n others ended j = elim (Bool-cases (str_eq k j)) [
    | inr other ↦
        rw (s, n, (others j other).0, (others j other).1, times-without_ne j k w.running other)
          (all j)
    | inl same ↦
        subst
          (λ x.
            IsOnce (redis.get w'.store x) (times x w'.started) (times x w'.running)
              (answers x w'.answered))
          ((eq_iff k j).0 same) (rw (s, n, times-without_self k w.running) ended)
  ]

  Step-AllOnce : {u v : World redis json} → Step redis json u v → AllOnce u → AllOnce v
  unfolding store_response answers finished lost failed
  Step-AllOnce (arrive w b request) all = arrived-AllOnce b request w all
  Step-AllOnce (finish w k r p) all =
      ended-AllOnce k w (finished redis json k r w) all refl refl
        (λ j other. (rw (redis.get-set, other) refl, rw (eq_comm j k, other) refl))
        (rw (redis.get-set, eq_refl k) (IsOnce-finish _ _ _ _ r p (all k)))
  Step-AllOnce (lose w k r p) all =
      ended-AllOnce k w (lost redis json k r w) all refl refl
        (λ j other. (refl, rw (eq_comm j k, other) refl))
        (rw (eq_refl k) (IsOnce-lose _ _ _ _ r p (all k)))
  Step-AllOnce (fail w k p) all =
      ended-AllOnce k w (failed redis json k w) all refl refl (λ j other. (refl, refl))
        (IsOnce-fail _ _ _ _ p (all k))

  pub Reach-AllOnce : {u v : World redis json} → Reach redis json u v → AllOnce u → AllOnce v
  Reach-AllOnce here all = all
  Reach-AllOnce (next r st) all = Step-AllOnce st (Reach-AllOnce r all)

  pub start-AllOnce : AllOnce (start redis json)
  unfolding times answers
  start-AllOnce k = untouched (redis.get-empty k) refl refl refl
