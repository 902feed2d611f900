-- ===== src/Cart/Fits.antt =====
-- The items that fit their cart, under the updates of src/modules/cart/cart.service.ts.
use bomboli_server.Prelude.{
  ℕ, ◌==◌, ◌≡◌, ◌∙◌, inl, inr, refl, sym, ap, subst, Bool, true, false, none, some, List, [], ◌∷◌,
  ◌++◌, is_empty, select, find, update, delete, by_id, find-update, find-id, ==→eq, All, arith,
  if◌then◌else◌, Bool-cases,
}
use bomboli_server.Db.{Db, Listing, Cart, CartItem, listing_key, cart_key, cart_item_key}
use bomboli_server.Cart.{has_other_seller, has_other_currency, lock_to}

-- The item's cart and listing are there, and the cart is bound to the listing's seller and
-- currency.
pub record Fits (listings : List Listing) (carts : List Cart) (i : CartItem) : Type 0 where
  pub cart : Cart
  pub listing : Listing
  pub has_cart : find (by_id i.cart_id) carts ≡ some cart
  pub has_listing : find (by_id i.listing_id) listings ≡ some listing
  pub of_seller : cart.seller_id ≡ some listing.seller_id
  pub in_currency : cart.currency ≡ some listing.currency

-- Every item of every cart fits: a cart holds the goods of one seller in one currency.
abbrev pub IsConsistent : Db → Type 0
IsConsistent db = All (Fits db.listings db.carts) db.cart_items

module _ {A : Type 0} (P Q : A → Type 0) where
  pub All-append_one : (xs : List A) (x : A) → All P xs → P x → All P (xs ++ x ∷ [])
  All-append_one [] x h p = (p, tt)
  All-append_one (y ∷ xs) x (h, hs) p = (h, All-append_one xs x hs p)

  -- What is left by a deletion.
  pub All-delete :
      (p : A → Bool)
      → ((x : A) → p x ≡ false → P x → Q x)
      → (xs : List A) → All P xs
      → All Q (delete p xs)
  unfolding delete
  All-delete p f [] h = tt
  All-delete p f (x ∷ xs) (h, hs) = elim (Bool-cases (p x)) [
    | inl t ↦ rw t (All-delete p f xs hs)
    | inr t ↦ rw t (f x t h, All-delete p f xs hs)
  ]

  pub All-update_impl :
      (p : A → Bool) (g : A → A)
      → ((x : A) → P x → Q x)
      → ((x : A) → Q x → Q (g x))
      → (xs : List A) → All P xs
      → All Q (update p g xs)
  unfolding update
  All-update_impl p g f keep [] h = tt
  All-update_impl p g f keep (x ∷ xs) (h, hs) = (
    elim (p x) as (λ b. Q (if b then g x else x)) [ true ↦ keep x (f x h) | false ↦ f x h ],
    All-update_impl p g f keep xs hs,
  )

  -- No row passes a test that selects none.
  pub All-select_none :
      (p : A → Bool)
      → ((x : A) → p x ≡ false → P x → Q x)
      → (xs : List A) → is_empty (select p xs) ≡ true
      → All P xs
      → All Q xs
  unfolding select
  All-select_none p f [] e h = tt
  All-select_none p f (x ∷ xs) e (h, hs) = elim (Bool-cases (p x)) [
    | inl t ↦ absurd (ground (arith, t))
    | inr t ↦ (f x t h, All-select_none p f xs (ground (arith, t)) hs)
  ]

module _ (listings : List Listing) (carts : List Cart) where
  -- A cart in front with a new id hides no other.
  pub Fits-insert_cart :
      (c : Cart) (i : CartItem)
      → find (by_id c.id) carts ≡ none
      → Fits listings carts i
      → Fits listings (c ∷ carts) i
  unfolding find
  Fits-insert_cart c i new h = elim (Bool-cases (c.id == i.cart_id)) [
    | inl t ↦
        let at_i = subst (λ (x : ℕ). find (by_id x) carts ≡ none) (==→eq c.id i.cart_id t) new in
        absurd (ground (arith, at_i, h.has_cart))
    | inr t ↦ record {
      cart = h.cart;
      listing = h.listing;
      has_cart = rw t h.has_cart;
      has_listing = h.has_listing;
      of_seller = h.of_seller;
      in_currency = h.in_currency;
    }
  ]

  -- An update of carts that leaves the seller and the currency of the item's cart.
  Fits-update :
      (k : ℕ) (f : Cart → Cart) (i : CartItem)
      → ((c : Cart) → (f c).id ≡ c.id)
      → ((c : Cart)
          → find (by_id i.cart_id) carts ≡ some c
          → (c.id == k) ≡ true
          → ((f c).seller_id ≡ c.seller_id) × ((f c).currency ≡ c.currency))
      → Fits listings carts i
      → Fits listings (update (by_id k) f carts) i
  Fits-update k f i keep same h =
      let moved =
        find-update (by_id i.cart_id) (by_id k) f (λ c. ap (λ x. x == i.cart_id) (keep c)) carts in
      elim (Bool-cases (h.cart.id == k)) [
        | inr other ↦ record {
          cart = h.cart;
          listing = h.listing;
          has_cart = moved ∙ rw h.has_cart (rw other refl);
          has_listing = h.has_listing;
          of_seller = h.of_seller;
          in_currency = h.in_currency;
        }
        | inl this ↦ record {
          cart = f h.cart;
          listing = h.listing;
          has_cart = moved ∙ rw h.has_cart (rw this refl);
          has_listing = h.has_listing;
          of_seller = (same h.cart h.has_cart this).0 ∙ h.of_seller;
          in_currency = (same h.cart h.has_cart this).1 ∙ h.in_currency;
        }
      ]

  same_cart :
      (c d : Cart) (i : ℕ)
      → find (by_id c.id) carts ≡ some c
      → find (by_id i) carts ≡ some d
      → (d.id == c.id) ≡ true
      → d ≡ c
  same_cart c d i there found e =
      let to_i : i ≡ c.id = sym (find-id i carts d found) ∙ ==→eq d.id c.id e in
      let at_c = subst (λ (x : ℕ). find (by_id x) carts ≡ some d) to_i found in
      ground (arith, there, at_c)

  -- Binding a cart to a seller and a currency that it was not bound away from.
  pub Fits-lock_to :
      (c : Cart) (l : Listing) (i : CartItem)
      → find (by_id c.id) carts ≡ some c
      → has_other_seller l.seller_id (some c) ≡ false
      → has_other_currency l.currency (some c) ≡ false
      → Fits listings carts i
      → Fits listings (update (by_id c.id) (lock_to l) carts) i
  unfolding has_other_seller has_other_currency
  Fits-lock_to c l i there s m h =
      Fits-update c.id (lock_to l) i (λ x. refl)
        (λ d found e.
          let same = same_cart c d i.cart_id there found e in
          let own : h.cart ≡ c = ground (arith, found, h.has_cart, same) in
          (ground (arith, s, own, same, h.of_seller), ground (arith, m, own, same, h.in_currency)))
        h

  -- The update of another cart.
  pub Fits-update_other :
      (k : ℕ) (f : Cart → Cart) (i : CartItem)
      → ((c : Cart) → (f c).id ≡ c.id)
      → (i.cart_id == k) ≡ false
      → Fits listings carts i
      → Fits listings (update (by_id k) f carts) i
  Fits-update_other k f i keep other h =
      Fits-update k f i keep
        (λ c found e. absurd (ground (arith, find-id i.cart_id carts c found, e, other))) h
