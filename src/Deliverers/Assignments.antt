-- ===== src/Deliverers/Assignments.antt =====
-- `assignToOrder` of src/modules/deliverers/deliverers.service.ts.
use bomboli_server.Prelude.{
  ℕ, ◌+◌, ◌*◌, ◌==◌, ==→eq, ◌≤◌, ◌≡◌, ◌∙◌, ◌⊎◌, inl, inr, refl, max, Option, none, some, List, [],
  ◌∷◌, Any, find, update, by_id, arith, Option-cases, Bool-cases,
}
use bomboli_server.Db.{
  Db, Env, Point, Order, OrderItem, Seller, Listing, OrderStatus, delivery, AddressSnapshot,
  Deliverer, Error, ErrorCode, ok, err, Run-cases, order_key, deliverer_key, seller_key,
  listing_key, eq_order_status, is_delivery,
}
use bomboli_server.Deliverers.{
  find_by_id, first_item_location, pickup_of_seller, lookup_pickup_point, eta_from_minutes,
  assign_to_order,
}

-- Where an order is picked up: at the seller's pickup point, or where the seller has none, at the
-- place of the listing of one of its items.
abbrev pub PicksUp : Db → Order → Point → Type 0
PicksUp db order p =
    ((s : Seller) × (find (by_id order.seller_id) db.sellers ≡ some s) × (s.pickup_point ≡ some p))
    ⊎ (((s : Seller) → find (by_id order.seller_id) db.sellers ≡ some s → s.pickup_point ≡ none)
        × Any
            (λ i.
              (i.order_id ≡ order.id)
              × ((l : Listing) × (find (by_id i.listing_id) db.listings ≡ some l)
                  × (l.location ≡ p)))
            db.order_items)

-- The order is to be delivered and still in preparation, has an address, and can be picked up
-- somewhere; and the deliverer exists.
pub record IsAssignable (db : Db) (order : Order) (d : Deliverer) (order_id deliverer_id : ℕ)
    (dest : AddressSnapshot) (pickup : Point) : Type 0 where
  pub found : find (by_id order_id) db.orders ≡ some order
  pub to_deliver : order.fulfillment_type ≡ delivery
  pub in_preparation : order.status ≡ OrderStatus.preparing
  pub by : find (by_id deliverer_id) db.deliverers ≡ some d
  pub goes_to : order.address_snapshot ≡ some dest
  pub comes_from : PicksUp db order pickup

abbrev pub assigned_db : Env → ℕ → ℕ → ℕ → Db → Db
assigned_db env order_id deliverer_id eta db = record db {
  orders =
      update (by_id order_id)
        (λ o. record o {
          deliverer_id = some deliverer_id;
          eta_at = some eta;
          updated_at = env.now;
        })
        db.orders;
}

-- The larger of five minutes and the travel time.
abbrev pub Minutes : ℕ → ℕ → Type 0
Minutes travel m = (5 ≤ m) × (travel ≤ m) × ((m ≡ 5) ⊎ (m ≡ travel))

lookup_pickup_point-pure : (s i : ℕ) (db : Db) → (lookup_pickup_point s i db).1 ≡ db
unfolding lookup_pickup_point
lookup_pickup_point-pure s i db = ground arith

eta_from_minutes-Minutes :
    (now travel : ℕ) → (m : ℕ) × Minutes travel m × (eta_from_minutes now travel ≡ now + m * 60000)
unfolding eta_from_minutes
eta_from_minutes-Minutes now travel =
    (max 5 travel, (omega arith, omega arith, ground arith), omega arith)

first_item_location-some :
    (i : ℕ) (items : List OrderItem) (listings : List Listing) (p : Point)
    → first_item_location i items listings ≡ some p
    → Any
        (λ x.
          (x.order_id ≡ i)
          × ((l : Listing) × (find (by_id x.listing_id) listings ≡ some l) × (l.location ≡ p)))
        items
unfolding first_item_location
first_item_location-some i [] listings p h = absurd (cc)
first_item_location-some i (x ∷ items) listings p h = elim (Bool-cases (x.order_id == i)) [
  | inr other ↦ inr (first_item_location-some i items listings p (ground (arith, other)))
  | inl own ↦ elim (Option-cases (find (by_id x.listing_id) listings)) [
    | inl n ↦ inr (first_item_location-some i items listings p (ground (arith, own, n)))
    | inr (l, e) ↦ inl (==→eq x.order_id i own, (l, e, ground (arith, own, e)))
  ]
]

Any-first_item_location :
    (i : ℕ) (items : List OrderItem) (listings : List Listing) (p : Point)
    → Any
        (λ x.
          (x.order_id ≡ i)
          × ((l : Listing) × (find (by_id x.listing_id) listings ≡ some l) × (l.location ≡ p)))
        items
    → (q : Point) × (first_item_location i items listings ≡ some q)
unfolding first_item_location
Any-first_item_location i [] listings p h = absurd h
Any-first_item_location i (x ∷ items) listings p (inl (own, (l, e, at))) =
    (l.location, ground (arith, own, e))
Any-first_item_location i (x ∷ items) listings p (inr h) =
    let (q, e) = Any-first_item_location i items listings p h in
    elim (Bool-cases (x.order_id == i)) [
      | inr other ↦ (q, ground (arith, other, e))
      | inl own ↦ elim (Option-cases (find (by_id x.listing_id) listings)) [
        | inl n ↦ (q, ground (arith, own, n, e))
        | inr (l, f) ↦ (l.location, ground (arith, own, f))
      ]
    ]

module _ (db : Db) (order : Order) where
  no_point :
      (seller : Option Seller)
      → find (by_id order.seller_id) db.sellers ≡ seller
      → pickup_of_seller seller ≡ none
      → (s : Seller) → find (by_id order.seller_id) db.sellers ≡ some s
      → s.pickup_point ≡ none
  unfolding pickup_of_seller
  no_point none f n s e = absurd (ground (arith, f, e))
  no_point (some r) f n s e = ground (arith, f, n, e)

  own_point :
      (seller : Option Seller) (p : Point)
      → find (by_id order.seller_id) db.sellers ≡ seller
      → pickup_of_seller seller ≡ some p
      → PicksUp db order p
  unfolding pickup_of_seller
  own_point none p f n = absurd (cc)
  own_point (some r) p f n = inl (r, f, n)

  lookup_pickup_point-PicksUp :
      (p : Point) (db₁ : Db)
      → lookup_pickup_point order.seller_id order.id db ≡ (ok p, db₁)
      → PicksUp db order p
  unfolding lookup_pickup_point
  lookup_pickup_point-PicksUp p db₁ h =
      let seller = find (by_id order.seller_id) db.sellers in
      elim (Option-cases (pickup_of_seller seller)) [
        | inr (q, e) ↦ own_point seller p refl (e ∙ ground (arith, e))
        | inl e ↦ inr (
          no_point seller refl e,
          first_item_location-some order.id db.order_items db.listings p
              (elim (Option-cases (first_item_location order.id db.order_items db.listings)) [
                | inl n ↦ absurd (ground (arith, e, n))
                | inr (q, n) ↦ n ∙ ground (arith, e, n)
              ]),
        )
      ]

  PicksUp-lookup_pickup_point :
      (p : Point)
      → PicksUp db order p
      → (q : Point) × (lookup_pickup_point order.seller_id order.id db ≡ (ok q, db))
  unfolding lookup_pickup_point pickup_of_seller
  PicksUp-lookup_pickup_point p (inl (s, f, e)) = (p, ground (arith, f, e))
  PicksUp-lookup_pickup_point p (inr (none_there, there)) =
      let (q, e) = Any-first_item_location order.id db.order_items db.listings p there in
      elim (Option-cases (find (by_id order.seller_id) db.sellers)) [
        | inl n ↦ (q, ground (arith, n, e))
        | inr (s, n) ↦ (q, ground (arith, n, e, none_there s n))
      ]

-- An assignment that its checks let through.
assign_to_order-runs :
    (travel_minutes : Point → Point → ℕ) (env : Env) (order_id deliverer_id : ℕ) (db : Db)
    (order : Order) (d : Deliverer) (dest : AddressSnapshot) (pickup : Point)
    → find (by_id order_id) db.orders ≡ some order
    → order.fulfillment_type ≡ delivery
    → order.status ≡ OrderStatus.preparing
    → find (by_id deliverer_id) db.deliverers ≡ some d
    → order.address_snapshot ≡ some dest
    → lookup_pickup_point order.seller_id order.id db ≡ (ok pickup, db)
    → let eta = eta_from_minutes env.now (travel_minutes pickup dest.point) in
      assign_to_order travel_minutes env order_id deliverer_id db ≡ (
        ok (record { order_id = order.id; deliverer_id = d.id; eta_at = eta }),
        assigned_db env order.id d.id eta db,
      )
unfolding assign_to_order find_by_id
assign_to_order-runs travel_minutes env order_id deliverer_id db order d dest pickup o f s e a k =
    ground (arith, o, f, s, e, a, k)

assign_to_order-found :
    (travel_minutes : Point → Point → ℕ) (env : Env) (order_id deliverer_id : ℕ) (db : Db)
    → ((order : Order) × (d : Deliverer) × (dest : AddressSnapshot) × (pickup : Point)
        × IsAssignable db order d order_id deliverer_id dest pickup
        × (lookup_pickup_point order.seller_id order.id db ≡ (ok pickup, db)))
      ⊎ ((e : Error) × (assign_to_order travel_minutes env order_id deliverer_id db ≡ (err e, db)))
unfolding assign_to_order find_by_id
assign_to_order-found travel_minutes env order_id deliverer_id db =
    elim (Option-cases (find (by_id order_id) db.orders)) [
      | inl o ↦ inr (Error.not_found, ground (arith, o))
      | inr (order, o) ↦ elim (Bool-cases (is_delivery order.fulfillment_type)) [
        | inr f ↦ inr (Error.domain ErrorCode.conflict 409, ground (arith, o, f))
        | inl f ↦ elim (Bool-cases (eq_order_status order.status OrderStatus.preparing)) [
          | inr s ↦ inr (Error.domain ErrorCode.conflict 409, ground (arith, o, f, s))
          | inl s ↦ elim (Option-cases (find (by_id deliverer_id) db.deliverers)) [
            | inl d ↦ inr (Error.not_found, ground (arith, o, f, s, d))
            | inr (deliverer, d) ↦ elim (Option-cases order.address_snapshot) [
              | inl a ↦ inr (Error.domain ErrorCode.conflict 409, ground (arith, o, f, s, d, a))
              | inr (dest, a) ↦
                  let pure_lookup = lookup_pickup_point-pure order.seller_id order.id db in
                  elim (Run-cases (lookup_pickup_point order.seller_id order.id db)) [
                    | inr (e, db₁, k) ↦ inr (e, ground (arith, o, f, s, d, a, k, pure_lookup))
                    | inl (pickup, db₁, k) ↦ inl (
                      order,
                      deliverer,
                      dest,
                      pickup,
                      record {
                        found = o;
                        to_deliver = ground (arith, f);
                        in_preparation = ground (arith, s);
                        by = d;
                        goes_to = a;
                        comes_from = lookup_pickup_point-PicksUp db order pickup db₁ k;
                      },
                      ground (arith, k, pure_lookup),
                    )
                  ]
            ]
          ]
        ]
      ]
    ]

assign_to_order-refused :
    (travel_minutes : Point → Point → ℕ) (env : Env) (order_id deliverer_id : ℕ) (db : Db)
    (e : Error)
    → assign_to_order travel_minutes env order_id deliverer_id db ≡ (err e, db)
    → (order : Order) (d : Deliverer) (dest : AddressSnapshot) (pickup : Point)
    → ¬ IsAssignable db order d order_id deliverer_id dest pickup
assign_to_order-refused travel_minutes env order_id deliverer_id db e h order d dest pickup can =
    let (q, k) = PicksUp-lookup_pickup_point db order pickup can.comes_from in
    let ran =
      assign_to_order-runs travel_minutes env order_id deliverer_id db order d dest q can.found
        can.to_deliver can.in_preparation can.by can.goes_to k in
    ground (arith, h, ran)

-- An assignment takes place exactly when the deliverer exists and the order is to be delivered, is
-- in preparation, has an address, and can be picked up at its seller's pickup point, or where there
-- is none, at the place of a listing of one of its items. Then the order gets the deliverer, whether
-- it is available or not, and an ETA that is as many minutes ahead as the travel from there to the
-- address takes, and at least five. Otherwise it throws and changes nothing.
pub assign_to_order-cases :
    (travel_minutes : Point → Point → ℕ) (env : Env) (order_id deliverer_id : ℕ) (db : Db)
    → ((order : Order) × (d : Deliverer) × (dest : AddressSnapshot) × (pickup : Point) × (m : ℕ)
        × IsAssignable db order d order_id deliverer_id dest pickup
        × Minutes (travel_minutes pickup dest.point) m
        × (let eta = env.now + m * 60000 in
            assign_to_order travel_minutes env order_id deliverer_id db ≡ (
              ok (record { order_id = order.id; deliverer_id = d.id; eta_at = eta }),
              assigned_db env order.id d.id eta db,
            )))
      ⊎ ((e : Error) × (assign_to_order travel_minutes env order_id deliverer_id db ≡ (err e, db))
          × ((order : Order) (d : Deliverer) (dest : AddressSnapshot) (pickup : Point)
              → ¬ IsAssignable db order d order_id deliverer_id dest pickup))
assign_to_order-cases travel_minutes env order_id deliverer_id db =
    elim (assign_to_order-found travel_minutes env order_id deliverer_id db) [
      | inr (e, h) ↦
          inr (e, h, assign_to_order-refused travel_minutes env order_id deliverer_id db e h)
      | inl (order, d, dest, pickup, can, k) ↦
          let (m, most, at) = eta_from_minutes-Minutes env.now (travel_minutes pickup dest.point) in
          let ran =
            assign_to_order-runs travel_minutes env order_id deliverer_id db order d dest pickup
              can.found can.to_deliver can.in_preparation can.by can.goes_to k in
          inl (order, d, dest, pickup, m, can, most, rw (← at) ran)
    ]
