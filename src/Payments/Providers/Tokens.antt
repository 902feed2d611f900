-- ===== src/Payments/Providers/Tokens.antt =====
-- The cached access token of src/modules/payments/providers/paypal.provider.ts.
use bomboli_server.Prelude.{
  ℕ, ◌+◌, ◌*◌, ◌<◌, ◌≡◌, inl, inr, refl, Option, none, some, arith, Bool-cases, Option-cases,
  String, ltb, ◌∙◌,
}
use bomboli_server.Db.{ok}
use bomboli_server.Payments.Providers.{Fetched, body, refused, broken}
use bomboli_server.Payments.Providers.Paypal.{
  Config, Network, Token, TokenBody, usable, keep_token, token_or_fetch, get_access_token,
}

-- A token that a call at a time may use: the one in the cache, with more than a minute to live, or
-- one just fetched.
data Comes (net : Network) (now : ℕ) (cache : Option Token) (t : Token) : Type 0 where
  cached : cache ≡ some t → now + 60000 < t.expires_at → Comes net now cache t
  fetched :
      (b : TokenBody)
      → usable now cache ≡ none
      → net.fetch_token ≡ body b
      → t ≡ record { value = b.access_token; expires_at = now + b.expires_in * 1000 }
      → Comes net now cache t

usable-some :
    (now : ℕ) (cache : Option Token) (t : Token)
    → usable now cache ≡ some t
    → (cache ≡ some t) × (now + 60000 < t.expires_at)
unfolding usable
usable-some now none t h = absurd (cc)
usable-some now (some x) t h = elim (Bool-cases (ltb (now + 60000) x.expires_at)) [
  | inl long ↦ let same : x ≡ t = ground arith in rw (← same) (refl, ground arith)
  | inr short ↦ ground arith
]

keep_token-Comes :
    (net : Network) (now : ℕ) (cache cache' : Option Token) (value : String)
    (answer : Fetched TokenBody)
    → usable now cache ≡ none
    → net.fetch_token ≡ answer
    → keep_token now answer cache ≡ (ok value, cache')
    → (t : Token) × (cache' ≡ some t) × (t.value ≡ value) × Comes net now cache t
unfolding keep_token
keep_token-Comes net now cache cache' value (refused status) u f h = absurd (cc)
keep_token-Comes net now cache cache' value broken u f h = absurd (cc)
keep_token-Comes net now cache cache' value (body b) u f h =
    let t : Token = record { value = b.access_token; expires_at = now + b.expires_in * 1000 } in
    (t, ground arith, ground arith, fetched b u f refl)

module _ (cfg : Config) (net : Network) (now : ℕ) (cache cache' : Option Token) where
  -- A token that a call gets is the cached one with more than a minute left, or is fetched because
  -- there is no such token, and then lives as long as PayPal said; it is the token cached
  -- afterwards.
  get_access_token-Comes :
      (value : String)
      → get_access_token cfg net now cache ≡ (ok value, cache')
      → (t : Token) × (cache' ≡ some t) × (t.value ≡ value) × Comes net now cache t
  unfolding get_access_token token_or_fetch
  get_access_token-Comes value h = elim (Bool-cases cfg.enabled) [
    | inr off ↦ ground arith
    | inl on ↦ elim (Option-cases (usable now cache)) [
      | inr (t, u) ↦
          let (held, long) = usable-some now cache t u in
          let taken : cache' ≡ cache = ground arith in
          (t, taken ∙ held, ground arith, cached held long)
      | inl u ↦ keep_token-Comes net now cache cache' value net.fetch_token u refl (ground arith)
    ]
  ]

  -- As long as a token that a call left has more than a minute to live, a later call uses it,
  -- whatever the token endpoint would answer by then.
  get_access_token-reuses :
      (value : String)
      → get_access_token cfg net now cache ≡ (ok value, cache')
      → (net' : Network) (later : ℕ) (t : Token) → cache' ≡ some t
      → later + 60000 < t.expires_at
      → get_access_token cfg net' later cache' ≡ (ok value, cache')
  unfolding get_access_token token_or_fetch usable
  get_access_token-reuses value h net' later t kept long =
      let (x, is_kept, is_value, _) = get_access_token-Comes value h in
      elim (Bool-cases cfg.enabled) [
        | inr off ↦ ground arith
        | inl on ↦ rw (on, kept) (ground arith)
      ]
