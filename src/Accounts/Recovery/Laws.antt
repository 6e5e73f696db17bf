-- ===== src/Accounts/Recovery/Laws.antt =====
-- The reset of a password, from the request of the mail to the next login.
use monkeys_identity.Base.{
  Bool, false, String, Text, List, ◌∷◌, some, ◌≡◌, arith, Bool-cases, Option-cases, inl, inr, ◌⊎◌,
  find_sound, text_eq_iff,
}
use monkeys_identity.Platform.{Unicode}
use monkeys_identity.Redis.{Redis}
use monkeys_identity.Accounts.{User, World, Call, Crypto, answered}
use monkeys_identity.Accounts.Users.{get_user_by_email, with_email}
use monkeys_identity.Accounts.Keys.{set_token}
use monkeys_identity.Accounts.Recovery.{forgot_password, send_mail}

module _ (rd : Redis) (cr : Crypto) (u : Unicode) where
  address_of :
      (down : Bool) (email : Text) (user : User) (users : List User)
      → get_user_by_email down email "" users ≡ some user
      → user.email ≡ email
  unfolding get_user_by_email
  address_of down email user users e = elim (Bool-cases down) [
    | inl failing ↦ ground (arith, failing)
    | inr up ↦
        let row = find_sound (with_email email "") users user (ground (arith, up)) in
        ground (arith, row, text_eq_iff user.email email)
  ]

  -- While Redis can be written, the request of a reset answers the same for every address, known
  -- or not, and sends at most one mail, with the token of the call and to the address that was
  -- given.
  pub forgot_password_uniform :
      (call : Call) (email : Text) (w : World rd)
      → call.faults.redis_set ≡ false
      → ((forgot_password rd cr u call (some email) w).0
          ≡ answered "If an account with that email exists, a password reset link has been sent")
        × (((forgot_password rd cr u call (some email) w).1.outbox ≡ w.outbox)
            ⊎ ((name : String) × ((forgot_password rd cr u call (some email) w).1.outbox
                  ≡ record { recipient = email; username = name; token = call.token } ∷ w.outbox)))
  unfolding forgot_password set_token send_mail
  forgot_password_uniform call email w up =
      elim (Option-cases (get_user_by_email call.faults.read_user email "" w.users)) [
        | inl e ↦ (ground (arith, e), inl (ground (arith, e)))
        | inr (user, e) ↦ elim (Bool-cases call.faults.mail) [
          | inl down ↦ (ground (arith, e, up), inl (ground (arith, e, up, down)))
          | inr sent ↦ (
            ground (arith, e, up),
            inr (
              user.username,
              ground (arith, e, up, sent, address_of call.faults.read_user email user w.users e),
            ),
          )
        ]
      ]
