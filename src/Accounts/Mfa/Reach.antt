-- ===== src/Accounts/Mfa/Reach.antt =====
-- The requests that reach the accounts as a step relation, and what holds of the second factor in
-- every world that they lead to.
use monkeys_identity.Base.{
  ℕ, String, Text, List, Option, ◌≡◌, subst, sym, arith, Option-cases, inl, inr, All, All-map, true,
  some, ◌⊎◌,
}
use monkeys_identity.Platform.{Unicode}
use monkeys_identity.Redis.{Redis}
use monkeys_identity.Accounts.{User, World, Call, Crypto}
use monkeys_identity.Accounts.Keys.{get_token}
use monkeys_identity.Accounts.Tokens.{Signer}
use monkeys_identity.Accounts.Login.{LoginRequest, LoginMfaRequest, login, login_mfa_verify}
use monkeys_identity.Accounts.Logout.{logout}
use monkeys_identity.Accounts.Recovery.{
  RegisterRequest, ResetPasswordRequest, register, forgot_password, reset_password, verify_email,
  resend_verification,
}
use monkeys_identity.Accounts.Mfa.{
  mfa_setup_key, setup_mfa, verify_mfa, generate_backup_codes, disable_mfa_handler,
}
use monkeys_identity.Accounts.Mfa.Sound.{MfaSound, login-MfaSound, register-MfaSound}
use monkeys_identity.Accounts.Mfa.SoundRecovery.{
  login_mfa_verify-MfaSound, forgot_password-MfaSound, reset_password-MfaSound,
  verify_email-MfaSound, resend_verification-MfaSound,
}
use monkeys_identity.Accounts.Mfa.SoundMfa.{
  setup_mfa-MfaSound, verify_mfa-MfaSound, generate_backup_codes-MfaSound, disable_mfa-MfaSound,
}

module _ (rd : Redis) (sg : Signer) (cr : Crypto) (u : Unicode) (issuer : String) where
  -- One request, whatever it carries and whichever calls fail.
  pub data Step (w : World rd) : World rd → Type 0 where
    by_login :
        (call : Call) (body : Option LoginRequest) → Step w (login rd sg cr u issuer call body w).1
    by_login_mfa_verify :
        (call : Call) (body : Option LoginMfaRequest)
        → Step w (login_mfa_verify rd sg cr u issuer call body w).1
    by_register :
        (salt : ℕ) (user_id : String) (call : Call) (body : Option RegisterRequest)
        → Step w (register rd cr u salt user_id call body w).1
    by_forgot_password :
        (call : Call) (body : Option Text) → Step w (forgot_password rd cr u call body w).1
    by_reset_password :
        (salt : ℕ) (call : Call) (body : Option ResetPasswordRequest)
        → Step w (reset_password rd cr u salt call body w).1
    by_verify_email :
        (call : Call) (body : Option String) → Step w (verify_email rd cr u call body w).1
    by_resend_verification :
        (call : Call) (body : Option Text) → Step w (resend_verification rd cr u call body w).1
    by_setup_mfa :
        (generated : Option String) (call : Call) → Step w (setup_mfa rd cr generated call w).1
    by_verify_mfa :
        (codes : List String) (call : Call) (body : Option String)
        → Step w (verify_mfa rd cr codes call body w).1
    by_generate_backup_codes :
        (codes : List String) (call : Call) → Step w (generate_backup_codes rd cr codes call w).1
    by_disable_mfa :
        (call : Call) (body : Option String) → Step w (disable_mfa_handler rd cr call body w).1
    by_logout : (call : Call) → Step w (logout rd sg call w).1

  pub data Reachable (start : World rd) : World rd → Type 0 where
    at_start : Reachable start start
    after : (w w' : World rd) → Reachable start w → Step w w' → Reachable start w'

  logout_users : (w : World rd) (call : Call) → (logout rd sg call w).1.users ≡ w.users
  unfolding logout
  logout_users w call = elim (Option-cases call.user_id) [
    | inl e ↦ ground (arith, e)
    | inr (user_id, e) ↦ elim (Option-cases call.organization_id) [
      | inl e' ↦ ground (arith, e, e')
      | inr (org_id, e') ↦ ground (arith, e, e')
    ]
  ]

  -- On the way from the start to the world, `VerifyMFA` was called by the user with a code that
  -- verified, at the time of the call, for the secret that Redis then held for that user's setup.
  pub Confirmed : (start w : World rd) → (id secret : String) → Type 0
  Confirmed start w id secret =
      (v : World rd) × (codes : List String) × (call : Call) × (passcode : String) × Reachable start
        v
      × (call.user_id ≡ some id)
      × (get_token rd call (mfa_setup_key id) v ≡ some secret)
      × (cr.verify_totp call.now passcode secret ≡ true)
      × Reachable (verify_mfa rd cr codes call (some passcode) v).1 w

  module _ (Before : (id secret : String) → Type 0) (start : World rd) where
    -- Confirmed before the start, or since.
    pub Ever : World rd → (id secret : String) → Type 0
    Ever w id secret = Before id secret ⊎ Confirmed start w id secret

    Ever-after :
        (v w : World rd) → Step v w → (id secret : String) → Ever v id secret → Ever w id secret
    unfolding Ever Confirmed
    Ever-after v w s id secret (inl b) = inl b
    Ever-after v w s id secret (inr (v', codes, call, passcode, r, c, t, ok, r')) =
        inr (v', codes, call, passcode, r, c, t, ok, after v w r' s)

    told_of :
        (v : World rd) (codes : List String) (call : Call) (body : Option String)
        → Reachable start v
        → (passcode user_id secret : String) → body ≡ some passcode
        → call.user_id ≡ some user_id
        → get_token rd call (mfa_setup_key user_id) v ≡ some secret
        → cr.verify_totp call.now passcode secret ≡ true
        → Ever (verify_mfa rd cr codes call body v).1 user_id secret
    unfolding Ever Confirmed
    told_of v codes call body r passcode user_id secret b c t ok =
        rw b (inr (v, codes, call, passcode, r, c, t, ok, at_start))

    -- A step keeps it, for what was shown by the time after it.
    Step-MfaSound :
        (v w : World rd)
        → Reachable start v
        → Step v w
        → All (MfaSound (Ever w)) v.users
        → All (MfaSound (Ever w)) w.users
    Step-MfaSound v w r (by_login call body) h =
        login-MfaSound (Ever w) rd sg cr u issuer call body v h
    Step-MfaSound v w r (by_login_mfa_verify call body) h =
        login_mfa_verify-MfaSound (Ever w) rd sg cr u issuer call body v h
    Step-MfaSound v w r (by_register salt id call body) h =
        register-MfaSound (Ever w) rd sg cr u issuer salt id call body v h
    Step-MfaSound v w r (by_forgot_password call body) h =
        forgot_password-MfaSound (Ever w) rd sg cr u issuer call body v h
    Step-MfaSound v w r (by_reset_password salt call body) h =
        reset_password-MfaSound (Ever w) rd sg cr u issuer salt call body v h
    Step-MfaSound v w r (by_verify_email call body) h =
        verify_email-MfaSound (Ever w) rd sg cr u issuer call body v h
    Step-MfaSound v w r (by_resend_verification call body) h =
        resend_verification-MfaSound (Ever w) rd sg cr u issuer call body v h
    Step-MfaSound v w r (by_setup_mfa generated call) h =
        setup_mfa-MfaSound (Ever w) rd sg cr u issuer generated call v h
    Step-MfaSound v w r (by_verify_mfa codes call body) h =
        verify_mfa-MfaSound (Ever w) rd sg cr u issuer codes call body v
          (told_of v codes call body r) h
    Step-MfaSound v w r (by_generate_backup_codes codes call) h =
        generate_backup_codes-MfaSound (Ever w) rd sg cr u issuer codes call v h
    Step-MfaSound v w r (by_disable_mfa call body) h =
        disable_mfa-MfaSound (Ever w) rd sg cr u issuer call body v h
    Step-MfaSound v w r (by_logout call) h =
        subst (All (MfaSound (Ever w))) (sym (logout_users v call)) h

    widened :
        (v w : World rd) (s : Step v w) (user : User)
        → MfaSound (Ever v) user
        → MfaSound (Ever w) user
    widened v w s user sound = record {
      shown = λ e. Ever-after v w s user.id user.totp_secret (sound.shown e);
      none_kept = sound.none_kept;
    }

    started : (user : User) → MfaSound Before user → MfaSound (Ever start) user
    unfolding Ever
    started user sound = record { shown = λ e. inl (sound.shown e); none_kept = sound.none_kept }

    -- Whatever requests follow each other, of login, registration, recovery, the second factor
    -- and logout, and whichever calls fail: if at the start every user with the second factor had
    -- confirmed its stored secret before and every other user has no secret, then afterwards
    -- every user with the second factor had confirmed its stored secret before the start, or has
    -- called VerifyMFA since with a code that verified for that secret, which Redis held for that
    -- user, and every other user has no secret.
    pub MfaSound-Reachable :
        (w : World rd)
        → All (MfaSound Before) start.users
        → Reachable start w
        → All (MfaSound (Ever w)) w.users
    MfaSound-Reachable _ h at_start =
        All-map (MfaSound Before) (MfaSound (Ever start)) started start.users h
    MfaSound-Reachable _ h (after v w r s) = Step-MfaSound v w r s (
        All-map (MfaSound (Ever v)) (MfaSound (Ever w)) (widened v w s) v.users
          (MfaSound-Reachable v h r))
