-- ===== src/Common/Idempotency/Replays.antt =====
-- How often a handler runs, and what later requests are answered
-- (src/common/interceptors/idempotency.interceptor.ts), while no key expires.
use Prim.Native.String.{count}
use text.Mathlib.Text.{◌==◌ as str_eq}
use text.Mathlib.TextEquality.{eq_iff}
use text.Mathlib.TextPositions.{eq_refl}
use bomboli_server.Prelude.{
  ℕ, ◌<◌, ◌≤◌, ◌≡◌, ◌⊎◌, inl, inr, refl, ap, ◌∙◌, true, false, ◌==◌, ltb, ◌||◌, String, none, some,
  List, [], ◌∷◌, length, arith, Bool-cases,
}
use bomboli_server.Db.{Error}
use bomboli_server.Common.Idempotency.{
  KeyStore, Json, in_flight_marker, Request, Decision, run_handler, replay, refuse, acquire,
  build_cache_key, lock_or_look_up, look_up, intercept, store_response,
}
use bomboli_server.Common.Idempotency.Steps.{
  times, times-without_self, times-without_ne, eq_comm, World, answers, start, finished, lost,
  failed, Step, arrive, finish, lose, fail, Reach, here, next,
}
use bomboli_server.Common.Idempotency.Once.{
  IsOnce, untouched, in_flight, stored, AllOnce, Reach-AllOnce, start-AllOnce, arrived-cases,
  done-nil,
}

module _ (redis : KeyStore) {R : Type 0} (json : Json R in_flight_marker) where
  look_up-marker :
      (k : String) (s : redis.S)
      → redis.get s k ≡ some in_flight_marker
      → look_up redis json k s ≡ refuse Error.conflict
  unfolding look_up
  look_up-marker k s h = ground (arith, eq_refl in_flight_marker)

  stringify-ne : (r : R) → str_eq (json.stringify r) in_flight_marker ≡ false
  stringify-ne r = elim (Bool-cases (str_eq (json.stringify r) in_flight_marker)) [
    | inr other ↦ other
    | inl same ↦
        let e = ap json.parse ((eq_iff (json.stringify r) in_flight_marker).0 same) in
        absurd (ground (arith, e, json.parse-stringify r, json.parse-marker))
  ]

  look_up-stored :
      (k : String) (s : redis.S) (r : R)
      → redis.get s k ≡ some (json.stringify r)
      → look_up redis json k s ≡ replay r
  unfolding look_up
  look_up-stored k s r h = ground (arith, stringify-ne r, json.parse-stringify r)

  -- A key that is kept, with no handler running for it.
  record IsSettled (k kept : String) (starts : ℕ) (done : List R) (w : World redis json)
      : Type 0 where
    pub holds : redis.get w.store k ≡ some kept
    pub idle : times k w.running ≡ 0
    pub begun : times k w.started ≡ starts
    pub told : answers k w.answered ≡ done

  other_running :
      (j k : String) (running : List String)
      → 0 < times j running
      → times k running ≡ 0
      → str_eq j k ≡ false
  other_running j k running p z = elim (Bool-cases (str_eq j k)) [
    | inr other ↦ other
    | inl same ↦
        let e = ap (λ (x : String). times x running) ((eq_iff j k).0 same) in
        absurd (omega (arith, e))
  ]

  free_ne :
      (j k : String) (s : redis.S) (kept : String)
      → redis.get s j ≡ none
      → redis.get s k ≡ some kept
      → str_eq j k ≡ false
  free_ne j k s kept free held = elim (Bool-cases (str_eq j k)) [
    | inr other ↦ other
    | inl same ↦
        let e = ap (redis.get s) ((eq_iff j k).0 same) in absurd (ground (arith, e, free, held))
  ]

  Step-IsSettled :
      (k kept : String) (starts : ℕ) (done : List R) {u v : World redis json}
      → Step redis json u v
      → IsSettled k kept starts done u
      → IsSettled k kept starts done v
  unfolding times answers finished lost failed store_response
  Step-IsSettled k kept starts done (arrive w b request) h =
      elim (arrived-cases redis json b request w) [
        | inl same ↦ rw same h
        | inr (j, (e, moved)) ↦
            let other = free_ne j k w.store kept e h.holds in
            rw moved (record {
              holds = rw (redis.get-set, other) h.holds;
              idle = rw (eq_comm k j, other) h.idle;
              begun = rw (eq_comm k j, other) h.begun;
              told = h.told;
            })
      ]
  Step-IsSettled k kept starts done (finish w j r p) h =
      let other = other_running j k w.running p h.idle in
      record {
        holds = rw (redis.get-set, other) h.holds;
        idle = times-without_ne k j w.running other ∙ h.idle;
        begun = h.begun;
        told = rw (eq_comm k j, other) h.told;
      }
  Step-IsSettled k kept starts done (lose w j r p) h =
      let other = other_running j k w.running p h.idle in
      record {
        holds = h.holds;
        idle = times-without_ne k j w.running other ∙ h.idle;
        begun = h.begun;
        told = rw (eq_comm k j, other) h.told;
      }
  Step-IsSettled k kept starts done (fail w j p) h =
      let other = other_running j k w.running p h.idle in
      record {
        holds = h.holds;
        idle = times-without_ne k j w.running other ∙ h.idle;
        begun = h.begun;
        told = h.told;
      }

  Reach-IsSettled :
      (k kept : String) (starts : ℕ) (done : List R) {u v : World redis json}
      → Reach redis json u v
      → IsSettled k kept starts done u
      → IsSettled k kept starts done v
  Reach-IsSettled k kept starts done here h = h
  Reach-IsSettled k kept starts done (next r st) h =
      Step-IsSettled k kept starts done st (Reach-IsSettled k kept starts done r h)

  intercept-keyed :
      (request : Request) (key : String) (s : redis.S)
      → request.key ≡ some key
      → 0 < count key
      → count key ≤ 200
      → intercept redis json true request s
        ≡ lock_or_look_up redis json (build_cache_key request key) s
  unfolding intercept build_cache_key
  intercept-keyed request key s e low high =
      let good : (count key == 0 || ltb 200 (count key)) ≡ false = ground arith in
      rw e (rw good refl)

  locked :
      (k : String) (s : redis.S)
      → redis.get s k ≡ none
      → (lock_or_look_up redis json k s).0 ≡ run_handler k
  unfolding lock_or_look_up acquire
  locked k s h = rw (redis.set_nx-new s k in_flight_marker h) refl

  looked_up :
      (k v : String) (s : redis.S)
      → redis.get s k ≡ some v
      → (lock_or_look_up redis json k s).0 ≡ look_up redis json k s
  unfolding lock_or_look_up acquire
  looked_up k v s h = rw (redis.set_nx-taken s k in_flight_marker v h) refl

  -- What the interceptor decides for a key, against the handlers that it has started for it.
  abbrev pub AgreesWith : World redis json → String → Decision R → Type 0
  AgreesWith w k decision =
      ((decision ≡ run_handler k) × (times k w.started ≡ 0))
      ⊎ ((decision ≡ refuse Error.conflict) × (times k w.started ≡ 1))
      ⊎ ((r : R) × (decision ≡ replay r)
          × (times k w.started ≡ 1)
          × (answers k w.answered ≡ r ∷ []))

  lock_or_look_up-AgreesWith :
      (w : World redis json) (k : String)
      → IsOnce redis json
          (redis.get w.store k)
          (times k w.started)
          (times k w.running)
          (answers k w.answered)
      → (times k w.started ≤ 1)
        × (length (answers k w.answered) ≤ 1)
        × AgreesWith w k (lock_or_look_up redis json k w.store).0
  lock_or_look_up-AgreesWith w k (untouched g s n a) =
      (omega arith, rw a (omega arith), inl (locked k w.store g, s))
  lock_or_look_up-AgreesWith w k (in_flight g s n) = (
    omega arith,
    omega arith,
    inr (inl (looked_up k in_flight_marker w.store g ∙ look_up-marker k w.store g, s)),
  )
  lock_or_look_up-AgreesWith w k (stored q g s n a) = (
    omega arith,
    rw a (omega arith),
    inr (inr (q, looked_up k (json.stringify q) w.store g ∙ look_up-stored k w.store q g, s, a)),
  )

  -- However requests, handlers and stored responses interleave from an empty store, and while no
  -- key expires: under the cache key of a request to an idempotent route whose header has 1 to 200
  -- characters, a handler has been started at most once and has answered at most once; and the
  -- interceptor lets the request's handler run exactly if none was started, or refuses it with 409
  -- where one was started, or answers what the one handler answered.
  pub Reach-Once :
      (w : World redis json) (request : Request) (key : String)
      → request.key ≡ some key
      → 0 < count key
      → count key ≤ 200
      → Reach redis json (start redis json) w
      → let k = build_cache_key request key in
        (times k w.started ≤ 1)
        × (length (answers k w.answered) ≤ 1)
        × AgreesWith w k (intercept redis json true request w.store).0
  Reach-Once w request key e low high reached =
      let k = build_cache_key request key in
      rw (intercept-keyed request key w.store e low high) (
        lock_or_look_up-AgreesWith w k
          (Reach-AllOnce redis json reached (start-AllOnce redis json) k))

  finished-IsSettled :
      (k : String) (r : R) (w : World redis json)
      → 0 < times k w.running
      → AllOnce redis json w
      → IsSettled k (json.stringify r) 1 (r ∷ []) (finished redis json k r w)
  unfolding finished store_response answers
  finished-IsSettled k r w p all = settle (all k)
    where
      settle :
          IsOnce redis json
            (redis.get w.store k)
            (times k w.started)
            (times k w.running)
            (answers k w.answered)
          → IsSettled k (json.stringify r) 1 (r ∷ []) (finished redis json k r w)
      settle (untouched g s n a) = absurd (omega arith)
      settle (stored q g s n a) = absurd (omega arith)
      settle (in_flight g s n) = record {
        holds = rw (redis.get-set, eq_refl k) refl;
        idle = times-without_self k w.running ∙ omega arith;
        begun = s;
        told = rw (eq_refl k) (ap (◌∷◌ r) (done-nil redis json _ _ p n));
      }

  failed-IsSettled :
      (k : String) (w : World redis json)
      → 0 < times k w.running
      → AllOnce redis json w
      → IsSettled k in_flight_marker 1 [] (failed redis json k w)
  unfolding failed
  failed-IsSettled k w p all = settle (all k)
    where
      settle :
          IsOnce redis json
            (redis.get w.store k)
            (times k w.started)
            (times k w.running)
            (answers k w.answered)
          → IsSettled k in_flight_marker 1 [] (failed redis json k w)
      settle (untouched g s n a) = absurd (omega arith)
      settle (stored q g s n a) = absurd (omega arith)
      settle (in_flight g s n) = record {
        holds = g;
        idle = times-without_self k w.running ∙ omega arith;
        begun = s;
        told = done-nil redis json _ _ p n;
      }

  -- From the moment that the answer of a running handler is stored, every later request under the
  -- key is answered exactly that, and the handler has run once, however other requests interleave
  -- before and after, while the key does not expire.
  pub Reach-finished :
      (w w' : World redis json) (k : String) (r : R)
      → Reach redis json (start redis json) w
      → 0 < times k w.running
      → Reach redis json (finished redis json k r w) w'
      → (lock_or_look_up redis json k w'.store ≡ (replay r, w'.store)) × (times k w'.started ≡ 1)
  unfolding lock_or_look_up acquire
  Reach-finished w w' k r reached p later =
      let all = Reach-AllOnce redis json reached (start-AllOnce redis json) in
      let h =
        Reach-IsSettled k (json.stringify r) 1 (r ∷ []) later (finished-IsSettled k r w p all) in
      let taken = redis.set_nx-taken w'.store k in_flight_marker (json.stringify r) h.holds in
      (rw (taken, look_up-stored k w'.store r h.holds) refl, h.begun)

  -- A handler that throws leaves its key taken: while the key does not expire, every later request
  -- under it is refused with 409 as one in flight, and the handler never runs again, although
  -- none is running and none has answered.
  pub Reach-failed :
      (w w' : World redis json) (k : String)
      → Reach redis json (start redis json) w
      → 0 < times k w.running
      → Reach redis json (failed redis json k w) w'
      → (lock_or_look_up redis json k w'.store ≡ (refuse Error.conflict, w'.store))
        × (times k w'.running ≡ 0)
        × (times k w'.started ≡ 1)
        × (answers k w'.answered ≡ [])
  unfolding lock_or_look_up acquire
  Reach-failed w w' k reached p later =
      let all = Reach-AllOnce redis json reached (start-AllOnce redis json) in
      let h = Reach-IsSettled k in_flight_marker 1 [] later (failed-IsSettled k w p all) in
      let taken = redis.set_nx-taken w'.store k in_flight_marker in_flight_marker h.holds in
      (rw (taken, look_up-marker k w'.store h.holds) refl, h.idle, h.begun, h.told)
