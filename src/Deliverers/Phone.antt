-- ===== src/Deliverers/Phone.antt =====
-- `maskPhone` of src/modules/deliverers/deliverers.service.ts.
use Prim.Native.Nat.{min}
use bomboli_server.Prelude.{
  ℕ, zero, suc, ◌+◌, ◌-◌, ◌≤◌, ◌≡◌, ◌∙◌, refl, ap, ap₂, false, List, [], ◌∷◌, ◌++◌, length, leb,
  take, drop, length-drop, length-take-drop, arith,
}
use bomboli_server.Deliverers.{replicate, dot, mask_phone}

length-take : (n : ℕ) (xs : List ℕ) → length (take n xs) ≡ min n (length xs)
length-take n xs = ground (arith, length-take-drop n xs, length-drop n xs)

length-append : (xs ys : List ℕ) → length (xs ++ ys) ≡ length xs + length ys
length-append [] ys = ground arith
length-append (x ∷ xs) ys = ground (arith, length-append xs ys)

length-replicate : (n a : ℕ) → length (replicate n a) ≡ n
length-replicate zero a = refl
length-replicate (suc n) a = ap suc (length-replicate n a)

abbrev visible_head : List ℕ → List ℕ
visible_head phone = take (min 4 (length phone - 4)) phone

abbrev visible_tail : List ℕ → List ℕ
visible_tail phone = drop (length phone - 4) phone

abbrev hidden : List ℕ → ℕ
hidden phone = length phone - length (visible_head phone) - length (visible_tail phone)

-- How many characters of a long number are shown and hidden.
counts :
    (phone : List ℕ)
    → leb (length phone) 4 ≡ false
    → (length (visible_head phone) ≡ min 4 (length phone - 4))
      × (length (visible_tail phone) ≡ 4)
      × (hidden phone ≡ length phone - 8)
counts phone long =
    let n = length phone in
    let h = length-take (min 4 (n - 4)) phone in
    let t = length-drop (n - 4) phone in
    (ground (arith, long, h), ground (arith, long, t), ground (arith, long, h, t))

masked :
    (phone : List ℕ)
    → leb (length phone) 4 ≡ false
    → mask_phone phone ≡ visible_head phone ++ (replicate (hidden phone) dot ++ visible_tail phone)
unfolding mask_phone
masked phone long = rw long refl

-- A number of eight characters or more keeps its length when it is masked, and shows its first four
-- and its last four characters: all that stands between them is hidden.
pub mask_phone-hides :
    (phone : List ℕ)
    → 8 ≤ length phone
    → (mask_phone phone
        ≡ take 4 phone ++ (replicate (length phone - 8) dot ++ drop (length phone - 4) phone))
      × (length (mask_phone phone) ≡ length phone)
mask_phone-hides phone h =
    let n = length phone in
    let long : leb n 4 ≡ false = ground (arith, h) in
    let (heads, tails, hides) = counts phone long in
    let four : min 4 (n - 4) ≡ 4 = ground (arith, h) in
    let shown : mask_phone phone ≡ take 4 phone ++ (replicate (n - 8) dot ++ drop (n - 4) phone) =
      masked phone long
      ∙ ap₂ (λ a b. take a phone ++ (replicate b dot ++ visible_tail phone)) four hides in
    let measured =
      length-append (take 4 phone) (replicate (n - 8) dot ++ visible_tail phone)
      ∙ ap (λ x. length (take 4 phone) + x)
          (length-append (replicate (n - 8) dot) (visible_tail phone)) in
    (
      shown,
      ap length shown
          ∙ measured
          ∙ ground
              (arith, h, heads, tails, four, length-replicate (n - 8) dot, length-take 4 phone),
    )
