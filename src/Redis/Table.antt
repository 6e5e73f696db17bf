-- ===== src/Redis/Table.antt =====
-- A value of the interface for tests: a table of texts with the time at which each ends. It lists no
-- keys and holds no hashes.
use monkeys_identity.Base.{
  ℕ, ◌+◌, ◌≤◌, ◌<◌, String, List, [], ◌∷◌, Option, none, some, str_eq, ltb, if◌then◌else◌, ◌≡◌, ◌≢◌,
  refl, arith, eq_iff, Bool-cases, inl, inr,
}
use monkeys_identity.Redis.{Redis}

pub record Entry : Type 0 where
  pub key : String
  pub value : String
  pub until : ℕ

unfoldable pub read : ℕ → String → List Entry → Option String
read t k [] = none
read t k (e ∷ s) =
    let rest = read t k s in
    if str_eq e.key k then (if ltb t e.until then some e.value else none) else rest

unfoldable pub remove : String → List Entry → List Entry
remove k [] = []
remove k (e ∷ s) = let rest = remove k s in if str_eq e.key k then rest else e ∷ rest

pub read-remove : (t : ℕ) (k : String) (s : List Entry) → read t k (remove k s) ≡ none
unfolding read remove
read-remove t k [] = refl
read-remove t k (e ∷ s) = elim (Bool-cases (str_eq e.key k)) [
  | inl h ↦ ground (arith, h, read-remove t k s)
  | inr h ↦ ground (arith, h, read-remove t k s)
]

pub read-remove_ne :
    (t : ℕ) (j k : String) (s : List Entry) → j ≢ k → read t j (remove k s) ≡ read t j s
unfolding read remove
read-remove_ne t j k [] apart = refl
read-remove_ne t j k (e ∷ s) apart = elim (Bool-cases (str_eq e.key k)) [
  | inl h ↦ ground (arith, h, read-remove_ne t j k s apart, eq_iff e.key k, eq_iff e.key j)
  | inr h ↦ ground (arith, h, read-remove_ne t j k s apart)
]

abbrev pub write : ℕ → String → String → ℕ → List Entry → List Entry
write now k v ttl s = record { key = k; value = v; until = now + ttl } ∷ s

pub read-write :
    (now t ttl : ℕ) (k v : String) (s : List Entry)
    → now ≤ t
    → t < now + ttl
    → read t k (write now k v ttl s) ≡ some v
unfolding read
read-write now t ttl k v s later soon = ground (arith, eq_iff k k)

pub read-write_expired :
    (now t ttl : ℕ) (k v : String) (s : List Entry)
    → now + ttl ≤ t
    → read t k (write now k v ttl s) ≡ none
unfolding read
read-write_expired now t ttl k v s late = ground (arith, eq_iff k k)

pub read-write_ne :
    (now t ttl : ℕ) (j k v : String) (s : List Entry)
    → j ≢ k
    → read t j (write now k v ttl s) ≡ read t j s
unfolding read
read-write_ne now t ttl j k v s apart = ground (arith, eq_iff k j)

abbrev pub table : Redis
table = record {
  Store = List Entry;
  get = read;
  set = write;
  del = remove;
  keys = λ now p s. [];
  hget = λ now k field s. none;
  get_set = read-write;
  get_set_expired = read-write_expired;
  get_set_ne = read-write_ne;
  get_del = read-remove;
  get_del_ne = read-remove_ne;
}
