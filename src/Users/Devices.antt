-- ===== src/Users/Devices.antt =====
-- A user's push devices: src/modules/users/devices/devices.service.ts.
pub mod Tokens
use text.Mathlib.Text.{◌==◌ as str_eq}
use bomboli_server.Prelude.{
  ⊤, ℕ, ◌==◌, Bool, not, String, Option, none, some, List, ◌∷◌, find, select, update, delete, by_id,
  sort_by,
}
use bomboli_server.Db.{
  Db, Env, Device, Platform, Error, Action, pure, gets, or_throw, throw_if, modify, ◌>>=◌, ◌>>◌,
  device_key,
}
use bomboli_server.Users.{get_by_supabase_id_or_fail}

pub record RegisterDeviceArgs : Type 0 where
  pub platform : Platform
  pub push_token : String

-- `findMany({ where: { userId }, orderBy: { lastSeenAt: 'desc' } })`
unfoldable pub list : ℕ → Action (List Device)
list actor = do
  user ← get_by_supabase_id_or_fail actor
  gets (λ db. sort_by (λ d. d.last_seen_at) (select (λ d. d.user_id == user.id) db.devices))

unfoldable pub has_token : String → Device → Bool
has_token token d = str_eq d.push_token token

unfoldable pub new_device : Env → ℕ → RegisterDeviceArgs → Device
new_device env user_id args = record {
  id = env.fresh 0;
  user_id = user_id;
  platform = args.platform;
  push_token = args.push_token;
  last_seen_at = env.now;
  created_at = env.now;
}

unfoldable pub moved_device : Env → ℕ → RegisterDeviceArgs → Device → Device
moved_device env user_id args d = record d {
  user_id = user_id;
  platform = args.platform;
  last_seen_at = env.now;
}

-- The upsert by the unique column `pushToken`.
unfoldable pub upsert_device : Env → ℕ → RegisterDeviceArgs → Option Device → Action Device
unfolding new_device moved_device
upsert_device env user_id args none = do
  modify (λ db. record db { devices = new_device env user_id args ∷ db.devices })
  pure (new_device env user_id args)
upsert_device env user_id args (some d) = do
  modify
      (λ db. record db { devices = update (by_id d.id) (moved_device env user_id args) db.devices })
  pure (moved_device env user_id args d)

unfoldable pub register : Env → ℕ → RegisterDeviceArgs → Action Device
register env actor args = do
  user ← get_by_supabase_id_or_fail actor
  found ← gets (λ db. find (has_token args.push_token) db.devices)
  upsert_device env user.id args found

unfoldable unregister : ℕ → ℕ → Action ⊤
unregister actor device_id = do
  user ← get_by_supabase_id_or_fail actor
  device ← or_throw Error.not_found (← gets (λ db. find (by_id device_id) db.devices))
  throw_if (not (device.user_id == user.id)) Error.forbidden
  modify (λ db. record db { devices = delete (by_id device_id) db.devices })
