-- ===== src/Content/Guard.antt =====
-- What holds of the store after every way through a handler of the content.
use monkeys_identity.Base.{
  Bool, true, String, Option, none, some, Result, ok, err, ◌≡◌, refl, Bool-cases, inl, inr,
}
use monkeys_identity.Accounts.{Reply}
use monkeys_identity.Content.{Store, local, parsed}
use monkeys_identity.Content.Items.{Ended}
use monkeys_identity.Content.Handlers.{AccessFault, not_read, no_local, guarded, finished}

module _ {κ} (P : Store → Type κ) {A : Type 0} (s : Store) (h : P s) where
  pub local-keeps :
      (o : Option String) (later : String → Reply A × Store)
      → ((value : String) → o ≡ some value → P (later value).1)
      → P (local s o later).1
  local-keeps none later k = h
  local-keeps (some value) later k = k value refl

  pub parsed-keeps :
      {B : Type 0} (o : Option B) (later : B → Reply A × Store)
      → ((body : B) → P (later body).1)
      → P (parsed s o later).1
  parsed-keeps none later k = h
  parsed-keeps (some body) later k = k body

  pub guarded-keeps :
      (unread : Reply A) (test : String → Bool) (denied : String)
      (access : Result AccessFault String) (later : String → Reply A × Store)
      → ((role : String) → access ≡ ok role → test role ≡ true → P (later role).1)
      → P (guarded s unread test denied access later).1
  guarded-keeps unread test denied (err not_read) later k = h
  guarded-keeps unread test denied (err no_local) later k = h
  guarded-keeps unread test denied (ok role) later k = elim (Bool-cases (test role)) [
    | inl e ↦ rw e (k role refl e)
    | inr e ↦ rw e h
  ]

pub finished-keeps {κ} :
    (P : Store → Type κ) {A : Type 0} (failure : String) (value : A) (e : Ended)
    → P e.1
    → P (finished failure value e).1
finished-keeps P failure value (none, s) h = h
finished-keeps P failure value (some error, s) h = h
