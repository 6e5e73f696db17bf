-- ===== src/Directory/Guard.antt =====
-- What holds of the tables after every way through a handler of roles or groups.
use monkeys_identity.Base.{
  Bool, true, false, String, Option, none, some, Result, ok, err, ◌≡◌, refl, arith, Bool-cases, inl,
  inr, if◌then◌else◌,
}
use monkeys_identity.Accounts.{Reply}
use monkeys_identity.Directory.{Role, Tables, local, parsed}
use monkeys_identity.Directory.Roles.{RoleError, Ended}
use monkeys_identity.Directory.RoleHandlers.{fetched, changed, created, is_missing}

module _ {κ} (P : Tables → Type κ) {A : Type 0} (t : Tables) (h : P t) where
  pub local-keeps :
      (o : Option String) (later : String → Reply A × Tables)
      → ((value : String) → o ≡ some value → P (later value).1)
      → P (local t o later).1
  local-keeps none later k = h
  local-keeps (some value) later k = k value refl

  pub parsed-keeps :
      {B : Type 0} (o : Option B) (later : B → Reply A × Tables)
      → ((body : B) → P (later body).1)
      → P (parsed t o later).1
  parsed-keeps none later k = h
  parsed-keeps (some body) later k = k body

  pub if-keeps :
      (b : Bool) (reply : Reply A) (later : Reply A × Tables)
      → (b ≡ false → P later.1)
      → P (if b then (reply, t) else later).1
  if-keeps true reply later k = h
  if-keeps false reply later k = k refl

  pub fetched-keeps :
      (missing failure : String) (r : Result RoleError Role) (later : Role → Reply A × Tables)
      → ((role : Role) → r ≡ ok role → P (later role).1)
      → P (fetched missing failure t r later).1
  fetched-keeps missing failure (err error) later k = ground (arith, h)
  fetched-keeps missing failure (ok role) later k = k role refl

module _ {κ} (P : Tables → Type κ) where
  pub changed-keeps :
      {A : Type 0} (failure : String) (value : A) (e : Ended)
      → P e.1
      → P (changed failure value e).1
  changed-keeps failure value (none, t) h = h
  changed-keeps failure value (some error, t) h = elim (Bool-cases (is_missing error)) [
    | inl e ↦ rw e h
    | inr e ↦ rw e h
  ]

  pub created-keeps : (r : Role) (e : Ended) → P e.1 → P (created r e).1
  created-keeps r (none, t) h = h
  created-keeps r (some error, t) h = h
