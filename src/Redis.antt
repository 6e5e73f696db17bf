-- ===== src/Redis.antt =====
-- The Redis commands that the handlers call, as an interface: a store whose keys may expire. Times
-- and lifetimes are seconds.
pub mod Table
use monkeys_identity.Base.{ℕ, ◌+◌, ◌≤◌, ◌<◌, String, List, Option, none, some, ◌≡◌, ◌≢◌}

pub record Redis : Type 1 where
  pub Store : Type 0
  -- GET at a time
  pub get : ℕ → String → Store → Option String
  -- SET at a time, of a key and a value, with a lifetime
  pub set : ℕ → String → String → ℕ → Store → Store
  -- DEL
  pub del : String → Store → Store
  -- KEYS at a time, of the keys with a prefix
  pub keys : ℕ → String → Store → List String
  -- HGET at a time, of a key and a field; `none` also where the key holds no hash
  pub hget : ℕ → String → String → Store → Option String
  pub get_set :
      (now t ttl : ℕ) (k v : String) (s : Store)
      → now ≤ t
      → t < now + ttl
      → get t k (set now k v ttl s) ≡ some v
  pub get_set_expired :
      (now t ttl : ℕ) (k v : String) (s : Store)
      → now + ttl ≤ t
      → get t k (set now k v ttl s) ≡ none
  pub get_set_ne :
      (now t ttl : ℕ) (j k v : String) (s : Store) → j ≢ k → get t j (set now k v ttl s) ≡ get t j s
  pub get_del : (t : ℕ) (k : String) (s : Store) → get t k (del k s) ≡ none
  pub get_del_ne : (t : ℕ) (j k : String) (s : Store) → j ≢ k → get t j (del k s) ≡ get t j s
