-- ===== src/Accounts/Keys/Laws.antt =====
-- A one-time token until it expires, and after it was deleted.
use monkeys_identity.Base.{
  ℕ, ◌+◌, ◌≤◌, ◌<◌, false, String, none, some, ◌≡◌, arith, Bool-cases, inl, inr,
}
use monkeys_identity.Redis.{Redis}
use monkeys_identity.Accounts.{World, Call}
use monkeys_identity.Accounts.Keys.{get_token, delete_token}

module _ (rd : Redis) where
  -- What was stored is read until it expires.
  pub get_token-set :
      (call call' : Call) (key v : String) (ttl : ℕ) (w w' : World rd)
      → w'.redis ≡ rd.set call.now key v ttl w.redis
      → call'.faults.redis_get ≡ false
      → call.now ≤ call'.now
      → call'.now < call.now + ttl
      → get_token rd call' key w' ≡ some v
  unfolding get_token
  get_token-set call call' key v ttl w w' same up later soon =
      rw (up, same) (rd.get_set call.now call'.now ttl key v w.redis later soon)

  -- It is not read once it has expired, by any call.
  pub get_token-expired :
      (call call' : Call) (key v : String) (ttl : ℕ) (w w' : World rd)
      → w'.redis ≡ rd.set call.now key v ttl w.redis
      → call.now + ttl ≤ call'.now
      → get_token rd call' key w' ≡ none
  unfolding get_token
  get_token-expired call call' key v ttl w w' same late = elim (Bool-cases call'.faults.redis_get) [
    | inl down ↦ ground (arith, down)
    | inr up ↦ rw (up, same) (rd.get_set_expired call.now call'.now ttl key v w.redis late)
  ]

  -- A deleted one is not read again, by any call.
  pub get_token-delete :
      (call call' : Call) (key : String) (w w' : World rd)
      → call.faults.redis_del ≡ false
      → w'.redis ≡ (delete_token rd call key w).redis
      → get_token rd call' key w' ≡ none
  unfolding get_token delete_token
  get_token-delete call call' key w w' up same = elim (Bool-cases call'.faults.redis_get) [
    | inl down ↦ ground (arith, down)
    | inr reachable ↦
        let same' : w'.redis ≡ rd.del key w.redis = ground (arith, up, same) in
        rw (reachable, same') (rd.get_del call'.now key w.redis)
  ]
