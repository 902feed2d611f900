-- ===== src/Users/Devices/Tokens.antt =====
-- Who gets the notifications of a device, over `register` of
-- src/modules/users/devices/devices.service.ts.
use text.Mathlib.Text.{◌==◌ as str_eq}
use text.Mathlib.TextEquality.{eq_iff}
use bomboli_server.Prelude.{
  ℕ, ◌==◌, ◌≡◌, ◌∙◌, refl, sym, ap, subst, false, String, Option, none, some, List, ◌∷◌, find,
  update, by_id, UniqueIds, find-update, find-own_id, find-true, arith, if◌then◌else◌, Bool-cases,
  Option-cases, inl, inr, ==→eq, ==-refl,
}
use bomboli_server.Db.{Db, Env, User, Device, ok, device_key}
use bomboli_server.Users.{find_by_supabase_id, get_by_supabase_id_or_fail}
use bomboli_server.Users.Devices.{
  RegisterDeviceArgs, has_token, new_device, moved_device, upsert_device, register,
}

-- With a primary key, a row that is found by another token has another id.
other_id :
    (t token : String) (d r : Device) (rows : List Device)
    → UniqueIds rows
    → find (has_token token) rows ≡ some d
    → find (has_token t) rows ≡ some r
    → str_eq token t ≡ false
    → (r.id == d.id) ≡ false
unfolding has_token
other_id t token d r rows u fd fr apart = elim (Bool-cases (r.id == d.id)) [
  | inr other ↦ other
  | inl same ↦
      let at_r = find-own_id (has_token t) rows r u fr in
      let at_d = find-own_id (has_token token) rows d u fd in
      let e : some r ≡ some d =
        sym at_r ∙ ap (λ (i : ℕ). find (by_id i) rows) (==→eq r.id d.id same) ∙ at_d in
      let is_t = (eq_iff r.push_token t).0 (find-true (has_token t) rows r fr) in
      let is_token = (eq_iff d.push_token token).0 (find-true (has_token token) rows d fd) in
      let one : r.push_token ≡ d.push_token = ground (arith, e) in
      absurd (ground (arith, apart, (eq_iff token t).1 (sym is_token ∙ sym one ∙ is_t)))
]

module _ (env : Env) (user_id : ℕ) (args : RegisterDeviceArgs) where
  moved-find :
      (t : String) (d : Device) (rows : List Device)
      → UniqueIds rows
      → find (has_token args.push_token) rows ≡ some d
      → find (has_token t) (update (by_id d.id) (moved_device env user_id args) rows) ≡ (
          if str_eq args.push_token t
          then some (moved_device env user_id args d)
          else find (has_token t) rows)
  unfolding has_token moved_device
  moved-find t d rows u f =
      let step =
        find-update (has_token t) (by_id d.id) (moved_device env user_id args) (λ r. refl) rows in
      elim (Bool-cases (str_eq args.push_token t)) [
        | inl same ↦
            let is_d : find (has_token t) rows ≡ some d =
              subst (λ (x : String). find (has_token x) rows ≡ some d)
                ((eq_iff args.push_token t).0 same) f in
            rw same (step ∙ rw is_d (rw (==-refl d.id) refl))
        | inr other ↦ elim (Option-cases (find (has_token t) rows)) [
          | inl e ↦ rw other (step ∙ rw e refl)
          | inr (r, e) ↦
              let apart = other_id t args.push_token d r rows u f e other in
              rw other (step ∙ rw e (rw apart refl))
        ]
      ]

  new-find :
      (t : String) (rows : List Device)
      → find (has_token t) (new_device env user_id args ∷ rows) ≡ (
          if str_eq args.push_token t
          then some (new_device env user_id args)
          else find (has_token t) rows)
  unfolding find has_token new_device
  new-find t rows = refl

  -- What an upsert answers and stores, by the device that had the token, if one had.
  answer : Option Device → Device
  answer none = new_device env user_id args
  answer (some d) = moved_device env user_id args d

  upsert_device-find :
      (found : Option Device) (db : Db) (t : String)
      → UniqueIds db.devices
      → find (has_token args.push_token) db.devices ≡ found
      → ((upsert_device env user_id args found db).0 ≡ ok (answer found))
        × (find (has_token t) (upsert_device env user_id args found db).1.devices ≡ (
            if str_eq args.push_token t
            then some (answer found)
            else find (has_token t) db.devices))
  unfolding upsert_device answer
  upsert_device-find none db t u f = (refl, new-find t db.devices)
  upsert_device-find (some d) db t u f = (refl, moved-find t d db.devices u f)

  answer-Owned :
      (found : Option Device) (rows : List Device)
      → find (has_token args.push_token) rows ≡ found
      → ((answer found).user_id ≡ user_id) × ((answer found).push_token ≡ args.push_token)
  unfolding answer new_device moved_device has_token
  answer-Owned none rows f = (refl, refl)
  answer-Owned (some d) rows f = (
    refl,
    (eq_iff d.push_token args.push_token).0 (find-true (has_token args.push_token) rows d f),
  )

register-known :
    (env : Env) (args : RegisterDeviceArgs) (actor : ℕ) (user : User) (db : Db)
    → find_by_supabase_id actor db ≡ some user
    → register env actor args db
      ≡ upsert_device env user.id args (find (has_token args.push_token) db.devices) db
unfolding register get_by_supabase_id_or_fail
register-known env args actor user db known = ground (arith, known)

-- A device that a known user registers is stored as that user's, whoever had its token before; a
-- search by any other token finds what it found before; if no two devices have one id.
pub register-find :
    (env : Env) (args : RegisterDeviceArgs) (actor : ℕ) (user : User) (db : Db) (t : String)
    → find_by_supabase_id actor db ≡ some user
    → UniqueIds db.devices
    → (d : Device) × ((register env actor args db).0 ≡ ok d)
      × (d.user_id ≡ user.id)
      × (d.push_token ≡ args.push_token)
      × (find (has_token t) (register env actor args db).1.devices
          ≡ (if str_eq args.push_token t then some d else find (has_token t) db.devices))
register-find env args actor user db t known u =
    let found = find (has_token args.push_token) db.devices in
    let (ends, stored) = upsert_device-find env user.id args found db t u refl in
    let (owner, token) = answer-Owned env user.id args found db.devices refl in
    let same = register-known env args actor user db known in
    (answer env user.id args found, rw same ends, owner, token, rw same stored)
