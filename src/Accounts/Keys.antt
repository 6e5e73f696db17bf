-- ===== src/Accounts/Keys.antt =====
-- One-time tokens in Redis: the functions of internal/queries/auth.go that wrap GET, SET and DEL.
pub mod Laws
use monkeys_identity.Base.{ℕ, Bool, String, Option, none, some, if◌then◌else◌}
use monkeys_identity.Redis.{Redis}
use monkeys_identity.Accounts.{World, Call, Faults}

module _ (rd : Redis) where
  unfoldable pub set_token :
      Call → (key user_id : String) → (expiry : ℕ) → World rd → Option (World rd)
  set_token call key user_id expiry w =
      if call.faults.redis_set
      then none
      else some (record w { redis = rd.set call.now key user_id expiry w.redis })

  unfoldable pub get_token : Call → (key : String) → World rd → Option String
  get_token call key w = if call.faults.redis_get then none else rd.get call.now key w.redis

  unfoldable pub delete_token : Call → (key : String) → World rd → World rd
  delete_token call key w =
      if call.faults.redis_del then w else record w { redis = rd.del key w.redis }
