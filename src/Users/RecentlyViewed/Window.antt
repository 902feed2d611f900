-- ===== src/Users/RecentlyViewed/Window.antt =====
-- The recently viewed listings against an ideal history that forgets nothing
-- (src/modules/users/recently-viewed/recently-viewed.service.ts).
use bomboli_server.Prelude.{
  ℕ, zero, suc, ◌<◌, ◌≤◌, ◌==◌, ◌≡◌, ◌⊎◌, ◌∙◌, refl, ap, subst, List, [], ◌∷◌, map, All,
  All-map_impl, length, take, take-All, length-take-le, map-take, delete, Bool-cases, inl, inr,
  arith, ==→eq,
}
use bomboli_server.Users.RecentlyViewed.{
  Entry, from_end, SortedSets, max_entries, Store, set_key, record_view, list, clear,
}
use bomboli_server.Users.RecentlyViewed.Histories.{
  Call, view, clear_all, expire, Histories, forget, note, notes, IsOrdered, Distinct, delete-All,
  delete-Distinct, delete-leaves, take-view, take-Distinct, length-take-le_length, notes-Distinct,
}

map-delete :
    (m : ℕ) (es : List Entry)
    → map (λ e. e.member) (delete (λ e. e.member == m) es)
      ≡ delete (λ j. j == m) (map (λ e. e.member) es)
unfolding delete
map-delete m [] = refl
map-delete m (e ∷ es) = ground (arith, map-delete m es)

module _ (redis : SortedSets) where
  open redis use {Z, missing, ranked}

  unfoldable pub run : List Call → Store redis → Store redis
  unfolding record_view clear set_key
  run [] store = store
  run (view now user listing ∷ calls) store = run calls (record_view redis now user listing store)
  run (clear_all user ∷ calls) store = run calls (clear redis user store)
  run (expire user ∷ calls) store = run calls (set_key redis user missing store)

  -- A user's set is the window of the history, and no score lies ahead of the clock.
  record Tracks (t : ℕ) (z : Z) (h : List ℕ) : Type 0 where
    pub window : map (λ e. e.member) (ranked z) ≡ take max_entries h
    pub past : All (λ e. e.score ≤ t) (ranked z)
    pub distinct : Distinct h

  abbrev AllTrack : ℕ → Store redis → Histories → Type 0
  AllTrack t store h = (u : ℕ) → Tracks t (store u) (h u)

  Tracks-missing : (t : ℕ) → Tracks t missing []
  unfolding take
  Tracks-missing t = record {
    window = rw redis.ranked-missing refl;
    past = rw redis.ranked-missing tt;
    distinct = tt;
  }

  Tracks-later : (t now : ℕ) (z : Z) (h : List ℕ) → t < now → Tracks t z h → Tracks now z h
  Tracks-later t now z h later held = record {
    window = held.window;
    distinct = held.distinct;
    past =
        All-map_impl (λ (e : Entry). e.score ≤ t) (λ e. e.score ≤ now) (λ e p. omega arith)
          (ranked z) held.past;
  }

  AllTrack-forget :
      (t user : ℕ) (store : Store redis) (h : Histories)
      → AllTrack t store h
      → AllTrack t (set_key redis user missing store) (forget user h)
  unfolding set_key forget
  AllTrack-forget t user store h all u = elim (Bool-cases (u == user)) [
    | inl e ↦ rw (e) (Tracks-missing t)
    | inr e ↦ rw (e) (all u)
  ]

  -- The pipeline puts the listing first and drops what no longer fits.
  Tracks-view :
      (t now listing : ℕ) (z : Z) (h : List ℕ)
      → t < now
      → Tracks t z h
      → Tracks now
          (redis.zremrangebyrank (redis.zadd z now listing) 0 (from_end (suc max_entries)))
          (listing ∷ delete (λ j. j == listing) h)
  Tracks-view t now listing z h later held =
      let newest =
        All-map_impl (λ (e : Entry). e.score ≤ t) (λ e. e.score < now) (λ e p. omega arith)
          (ranked z) held.past in
      let added = redis.ranked-zadd z now listing newest in
      let kept = redis.ranked-zremrangebyrank (redis.zadd z now listing) max_entries in
      let first : Entry = record { member = listing; score = now } in
      let older =
        All-map_impl (λ (e : Entry). e.score < now) (λ e. e.score ≤ now) (λ e p. omega arith)
          (ranked z) newest in
      let fits : (now ≤ now)
          × All (λ (e : Entry). e.score ≤ now) (delete (λ e. e.member == listing) (ranked z)) =
        (
          omega arith,
          delete-All (λ (e : Entry). e.score ≤ now) (λ e. e.member == listing) (ranked z) older,
        ) in
      record {
        window =
            rw
              (
                kept,
                added,
                map-take (λ (e : Entry). e.member) max_entries
                    (first ∷ delete (λ e. e.member == listing) (ranked z)),
                map-delete listing (ranked z),
                held.window,
              )
              (take-view max_entries listing h held.distinct);
        past =
            rw (kept, added)
              (take-All (λ (e : Entry). e.score ≤ now) max_entries
                (first ∷ delete (λ e. e.member == listing) (ranked z)) fits);
        distinct = (delete-leaves listing h, delete-Distinct _ h held.distinct);
      }

  AllTrack-view :
      (t now user listing : ℕ) (store : Store redis) (h : Histories)
      → t < now
      → AllTrack t store h
      → AllTrack now (record_view redis now user listing store) (note (view now user listing) h)
  unfolding record_view set_key note
  AllTrack-view t now user listing store h later all u = elim (Bool-cases (u == user)) [
    | inl e ↦
        let same = ==→eq u user e in
        rw e (
          subst
            (λ (x : ℕ).
              Tracks now
                (redis.zremrangebyrank (redis.zadd (store x) now listing) 0
                  (from_end (suc max_entries)))
                (listing ∷ delete (λ j. j == listing) (h u)))
            same (Tracks-view t now listing (store u) (h u) later (all u)))
    | inr e ↦ rw e (Tracks-later t now (store u) (h u) later (all u))
  ]

  run-Tracks :
      (t : ℕ) (calls : List Call) (store : Store redis) (h : Histories)
      → IsOrdered t calls
      → AllTrack t store h
      → (now : ℕ) × AllTrack now (run calls store) (notes calls h)
  unfolding run notes clear
  run-Tracks t [] store h o all = (t, all)
  run-Tracks t (view now user listing ∷ calls) store h o all =
      run-Tracks now calls _ _ o.1 (AllTrack-view t now user listing store h o.0 all)
  run-Tracks t (clear_all user ∷ calls) store h o all =
      run-Tracks t calls _ _ o (AllTrack-forget t user store h all)
  run-Tracks t (expire user ∷ calls) store h o all =
      run-Tracks t calls _ _ o (AllTrack-forget t user store h all)

  list-positive :
      (user n : ℕ) (store : Store redis)
      → list redis user (suc n) store ≡ take (suc n) (map (λ e. e.member) (ranked (store user)))
  unfolding list
  list-positive user n store =
      let z = store user in
      let members = map-take (λ (e : Entry). e.member) (suc n) (ranked z) in
      ground (arith, redis.zrevrange-at z n, members)

  -- Over any sequence of views by a clock that moves on between them, clearings and expirations,
  -- from empty keys: what `list` answers to a positive limit is that many of the first 50 entries
  -- of the user's ideal history (the latest first, each listing once, nothing of other users), and
  -- to the limit 0 it is all 50, not none.
  pub list-run :
      (calls : List Call)
      → IsOrdered 0 calls
      → (user n : ℕ)
      → (list redis user (suc n) (run calls (λ _. missing))
          ≡ take (suc n) (take max_entries (notes calls (λ _. []) user)))
        × (list redis user 0 (run calls (λ _. missing))
            ≡ take max_entries (notes calls (λ _. []) user))
  unfolding list
  list-run calls o user n =
      let (now, all) = run-Tracks 0 calls (λ _. missing) (λ _. []) o (λ u. Tracks-missing 0) in
      let store = run calls (λ _. missing) in
      (
        list-positive user n store ∙ ap (take (suc n)) (all user).window,
        redis.zrevrange-from_end (store user) ∙ (all user).window,
      )

  -- In the same runs, for every limit: the answer never holds more than 50 listings, never more
  -- than the limit unless that is 0, and no listing twice.
  list_bounds :
      (calls : List Call)
      → IsOrdered 0 calls
      → (user limit : ℕ)
      → let answer = list redis user limit (run calls (λ _. missing)) in
        (length answer ≤ 50) × ((limit ≡ 0) ⊎ (length answer ≤ limit)) × Distinct answer
  list_bounds calls o user zero =
      let kept = notes calls (λ _. []) user in
      rw ((list-run calls o user 0).1) (
        length-take-le 50 kept,
        inl refl,
        take-Distinct 50 kept (notes-Distinct calls _ (λ u. tt) user),
      )
  list_bounds calls o user (suc n) =
      let kept = notes calls (λ _. []) user in
      let window = take 50 kept in
      rw ((list-run calls o user n).0) (
        omega (arith, length-take-le_length (suc n) window, length-take-le 50 kept),
        inr (length-take-le (suc n) window),
        take-Distinct (suc n) window
            (take-Distinct 50 kept (notes-Distinct calls _ (λ u. tt) user)),
      )
