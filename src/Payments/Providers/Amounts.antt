-- ===== src/Payments/Providers/Amounts.antt =====
-- `formatMajor` of src/modules/payments/providers/paypal.provider.ts and pawapay.provider.ts: an
-- amount in the smallest unit as the decimal text that the providers expect. A text is the list of
-- its character codes; the amounts are 32-bit columns, for which the float arithmetic is exact.
use Prim.Native.Nat.{◌%◌}
use bomboli_server.Prelude.{
  ℕ, zero, suc, ◌+◌, ◌-◌, ◌*◌, ◌/◌, ◌<◌, ◌≤◌, ◌==◌, ◌≡◌, refl, ap, ltb, leb, ◌&&◌, Option, none,
  some, List, [], ◌∷◌, ◌++◌, if◌then◌else◌, arith, Bool-cases, inl, inr, Bool, ◌∙◌,
}
use bomboli_server.Db.{Currency, cdf, usd}

abbrev digit : ℕ → ℕ
digit d = 48 + d

-- The decimal digits of a number, on fuel.
unfoldable digits : ℕ → ℕ → List ℕ
digits zero n = []
digits (suc fuel) n =
    let front = digits fuel (n / 10) in
    if ltb n 10 then digit n ∷ [] else front ++ digit (n % 10) ∷ []

-- `n.toFixed(0)`
unfoldable decimal : ℕ → List ℕ
unfolding digits
decimal n = digits (suc n) n

abbrev pub point : ℕ
point = b'.'

unfoldable pub format_major : ℕ → Currency → List ℕ
unfolding decimal
format_major amount cdf = decimal amount
format_major amount usd =
    decimal (amount / 100) ++ (point ∷ digit (amount % 100 / 10) ∷ digit (amount % 10) ∷ [])

-- The other way, as a reader of the text would go: the amount that a text denotes.
unfoldable is_digit : ℕ → Bool
is_digit c = leb 48 c && leb c 57

unfoldable hundredths : ℕ → List ℕ → Option ℕ
hundredths major (a ∷ b ∷ []) =
    if is_digit a && is_digit b then some (100 * major + 10 * (a - 48) + (b - 48)) else none
hundredths major _ = none

unfoldable read_usd : ℕ → List ℕ → Option ℕ
unfolding hundredths is_digit
read_usd major [] = none
read_usd major (c ∷ text) =
    let rest = read_usd (10 * major + (c - 48)) text in
    if c == point then hundredths major text else if is_digit c then rest else none

unfoldable read_cdf : ℕ → List ℕ → Option ℕ
unfolding is_digit
read_cdf major [] = some major
read_cdf major (c ∷ text) =
    let rest = read_cdf (10 * major + (c - 48)) text in if is_digit c then rest else none

unfoldable pub amount_of : Currency → List ℕ → Option ℕ
unfolding read_cdf read_usd
amount_of cdf text = read_cdf 0 text
amount_of usd text = read_usd 0 text

-- All of a list are digits.
abbrev AllDigits : List ℕ → Type 0
AllDigits [] = Unit
AllDigits (c ∷ cs) = (48 ≤ c) × (c ≤ 57) × AllDigits cs

value : ℕ → List ℕ → ℕ
value major [] = major
value major (c ∷ cs) = value (10 * major + (c - 48)) cs

value-append :
    (major d : ℕ) (cs : List ℕ) → value major (cs ++ digit d ∷ []) ≡ 10 * value major cs + d
unfolding value
value-append major d [] = omega arith
value-append major d (c ∷ cs) = value-append (10 * major + (c - 48)) d cs

AllDigits-append : (d : ℕ) (cs : List ℕ) → d < 10 → AllDigits cs → AllDigits (cs ++ digit d ∷ [])
AllDigits-append d [] h a = omega arith
AllDigits-append d (c ∷ cs) h a = (a.0, a.1, AllDigits-append d cs h a.2)

digits-AllDigits : (fuel n : ℕ) → AllDigits (digits fuel n)
unfolding digits
digits-AllDigits zero n = tt
digits-AllDigits (suc fuel) n = elim (Bool-cases (ltb n 10)) [
  | inl small ↦ rw small (ground (arith, small))
  | inr large ↦ rw large (
      AllDigits-append (n % 10) (digits fuel (n / 10)) (omega arith)
        (digits-AllDigits fuel (n / 10)))
]

-- With more fuel than the number no digit is lost.
value-digits : (fuel n : ℕ) → n < fuel → value 0 (digits fuel n) ≡ n
unfolding digits value
value-digits zero n h = absurd (omega arith)
value-digits (suc fuel) n h = elim (Bool-cases (ltb n 10)) [
  | inl small ↦ rw small (omega arith)
  | inr large ↦
      rw (large, value-append 0 (n % 10) (digits fuel (n / 10)))
        (ground (arith, large, value-digits fuel (n / 10)))
]

read_cdf-digits :
    (major : ℕ) (cs : List ℕ) → AllDigits cs → read_cdf major cs ≡ some (value major cs)
unfolding read_cdf value is_digit
read_cdf-digits major [] h = refl
read_cdf-digits major (c ∷ cs) h = ground (arith, read_cdf-digits (10 * major + (c - 48)) cs h.2)

read_usd-digits :
    (major : ℕ) (cs text : List ℕ)
    → AllDigits cs
    → read_usd major (cs ++ point ∷ text) ≡ hundredths (value major cs) text
unfolding read_usd value is_digit
read_usd-digits major [] text h = refl
read_usd-digits major (c ∷ cs) text h =
    ground (arith, read_usd-digits (10 * major + (c - 48)) cs text h.2)

-- The text that a provider is sent denotes exactly the amount, for every amount in either currency:
-- it parses as a decimal number, and that number in the smallest unit is the amount.
pub amount_of-format_major :
    (amount : ℕ) (currency : Currency)
    → amount_of currency (format_major amount currency) ≡ some amount
unfolding amount_of format_major hundredths is_digit
amount_of-format_major amount cdf =
    read_cdf-digits 0 (decimal amount) (digits-AllDigits (suc amount) amount)
    ∙ ap some (value-digits (suc amount) amount (omega arith))
amount_of-format_major amount usd =
    let major = amount / 100 in
    let whole = value-digits (suc major) major (omega arith) in
    let reads =
      read_usd-digits 0 (decimal major) (digit (amount % 100 / 10) ∷ digit (amount % 10) ∷ [])
        (digits-AllDigits (suc major) major) in
    rw (reads, whole) (ground arith)
