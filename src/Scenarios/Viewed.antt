-- ===== src/Scenarios/Viewed.antt =====
-- A shopper's recently viewed listings, over sorted sets kept as lists.
use bomboli_server.Prelude.{
  ℕ, zero, suc, ◌<◌, ◌==◌, ◌≡◌, refl, leb, List, [], ◌∷◌, map, All, take, delete, if◌then◌else◌,
  arith,
}
use bomboli_server.Users.RecentlyViewed.{Entry, Rank, at, from_end, SortedSets, list}
use bomboli_server.Users.RecentlyViewed.Histories.{Call, view, clear_all, expire, notes, delete-All}
use bomboli_server.Users.RecentlyViewed.Window

-- A new entry goes before the first one that scores no more.
insert : Entry → List Entry → List Entry
insert e [] = e ∷ []
insert e (x ∷ xs) = if leb x.score e.score then e ∷ x ∷ xs else x ∷ insert e xs

insert-first :
    (e : Entry) (xs : List Entry) → All (λ x. x.score < e.score) xs → insert e xs ≡ e ∷ xs
unfolding insert
insert-first e [] h = refl
insert-first e (x ∷ xs) h = ground arith

zadd : List Entry → ℕ → ℕ → List Entry
zadd z t m = insert (record { member = m; score = t }) (delete (λ e. e.member == m) z)

zremrangebyrank : List Entry → ℕ → Rank → List Entry
zremrangebyrank z zero (from_end (suc n)) = take n z
zremrangebyrank z _ _ = z

zrevrange : List Entry → ℕ → Rank → List ℕ
zrevrange z _ (at n) = map (λ e. e.member) (take (suc n) z)
zrevrange z _ (from_end _) = map (λ e. e.member) z

zadd-first :
    (z : List Entry) (t m : ℕ)
    → All (λ e. e.score < t) z
    → zadd z t m ≡ record { member = m; score = t } ∷ delete (λ e. e.member == m) z
unfolding zadd
zadd-first z t m h =
    insert-first (record { member = m; score = t }) (delete (λ e. e.member == m) z)
      (delete-All (λ (e : Entry). e.score < t) (λ e. e.member == m) z h)

zremrangebyrank-lowest :
    (z : List Entry) (n : ℕ) → zremrangebyrank z 0 (from_end (suc n)) ≡ take n z
unfolding zremrangebyrank
zremrangebyrank-lowest z n = refl

zrevrange-at :
    (z : List Entry) (n : ℕ) → zrevrange z 0 (at n) ≡ map (λ e. e.member) (take (suc n) z)
unfolding zrevrange
zrevrange-at z n = refl

zrevrange-all : (z : List Entry) → zrevrange z 0 (from_end 1) ≡ map (λ e. e.member) z
unfolding zrevrange
zrevrange-all z = refl

abbrev redis : SortedSets
redis = record {
  Z = List Entry;
  missing = [];
  ranked = λ z. z;
  zadd = zadd;
  zremrangebyrank = zremrangebyrank;
  zrevrange = zrevrange;
  ranked-missing = refl;
  ranked-zadd = zadd-first;
  ranked-zremrangebyrank = zremrangebyrank-lowest;
  zrevrange-at = zrevrange-at;
  zrevrange-from_end = zrevrange-all;
}

pub sorted_sets : SortedSets
sorted_sets = redis

-- User 1 looks at the listings 7, 8 and 7 again, user 2 at 9 and clears the list.
abbrev visits : List Call
visits = view 10 1 7 ∷ view 20 1 8 ∷ view 30 2 9 ∷ view 40 1 7 ∷ clear_all 2 ∷ expire 3 ∷ []

viewed : list redis 1 5 (Window.run redis visits (λ _. [])) ≡ 7 ∷ 8 ∷ []
unfolding list Window.run zadd zremrangebyrank zrevrange insert delete take
viewed = refl

list-run_example :
    (list redis 1 5 (Window.run redis visits (λ _. []))
      ≡ take 5 (take 50 (notes visits (λ _. []) 1)))
    × (list redis 1 0 (Window.run redis visits (λ _. [])) ≡ take 50 (notes visits (λ _. []) 1))
list-run_example = Window.list-run redis visits (omega arith) 1 4
