-- ===== src/Accounts/Mfa/SoundMfa.antt =====
-- The same of the handlers of the second factor itself.
use monkeys_identity.Base.{
  true, not, String, List, Option, none, some, ◌≡◌, refl, arith, eq_iff, Bool-cases, inl, inr,
  if_both, All-update_at,
}
use monkeys_identity.Platform.{Unicode}
use monkeys_identity.Redis.{Redis}
use monkeys_identity.Accounts.{User, World, Call, Crypto, Reply, refused}
use monkeys_identity.Accounts.Users.{
  user_of, enable_mfa, disable_mfa, update_backup_codes, get_user_by_id,
}
use monkeys_identity.Accounts.Keys.{set_token, get_token}
use monkeys_identity.Accounts.Tokens.{Signer}
use monkeys_identity.Accounts.Mfa.{
  mfa_setup_key, setup_stored, setup_generated, verify_enabled, verify_secret, codes_stored,
  disable_stored, disable_checked, setup_mfa, verify_mfa, generate_backup_codes,
  disable_mfa_handler, with_caller, with_user,
}
use monkeys_identity.Accounts.Mfa.Sound.{
  MfaSound, Sound, AllSome, SomeWorld, update_sound, delete_kept, set_kept,
}

module _ (Shown : (id secret : String) → Type 0) (rd : Redis) (sg : Signer) (cr : Crypto)
    (u : Unicode) (issuer : String) where
  abbrev S : World rd → Type 0
  S = Sound Shown rd sg cr u issuer

  abbrev O : {A : Type 0} → Reply A × World rd → Type 0
  O r = S r.1

  -- What the callers of the handlers keep, they keep.
  caller_sound :
      {A : Type 0} (w : World rd) (user_id org_id : Option String)
      (k : String → String → Reply A × World rd)
      → S w
      → ((user_id org_id : String) → O (k user_id org_id))
      → O (with_caller rd cr w user_id org_id k)
  caller_sound w (some user_id) (some org_id) k h keeps = keeps user_id org_id
  caller_sound w none org_id k h keeps = h
  caller_sound w (some user_id) none k h keeps = h

  given_caller :
      {A : Type 0} (w : World rd) (user_id org_id : Option String)
      (k : String → String → Reply A × World rd)
      → S w
      → ((id org : String) → user_id ≡ some id → O (k id org))
      → O (with_caller rd cr w user_id org_id k)
  given_caller w (some user_id) (some org_id) k h keeps = keeps user_id org_id refl
  given_caller w none org_id k h keeps = h
  given_caller w (some user_id) none k h keeps = h

  user_sound :
      {A : Type 0} (w : World rd) (o : Option User) (k : User → Reply A × World rd)
      → S w
      → ((user : User) → O (k user))
      → O (with_user rd cr w o k)
  user_sound w none k h keeps = h
  user_sound w (some user) k h keeps = keeps user

  stored_sound :
      (secret : String) (w : World rd) (o : Option (World rd))
      → S w
      → SomeWorld Shown rd sg cr u issuer o
      → O (setup_stored rd cr secret w o)
  stored_sound secret w none h o = h
  stored_sound secret w (some w') h o = o

  generated_sound :
      (call : Call) (user_id : String) (w : World rd) (o : Option String)
      → S w
      → O (setup_generated rd cr call user_id w o)
  generated_sound call user_id w none h = h
  generated_sound call user_id w (some secret) h =
      stored_sound secret w (set_token rd call (mfa_setup_key user_id) secret 600 w) h
        (set_kept Shown rd sg cr u issuer call (mfa_setup_key user_id) secret 600 w h)

  pub setup_mfa-MfaSound :
      (generated : Option String) (call : Call) (w : World rd)
      → S w
      → O (setup_mfa rd cr generated call w)
  unfolding setup_mfa
  setup_mfa-MfaSound generated call w h =
      caller_sound w call.user_id call.organization_id _ h (λ user_id org_id.
        user_sound w (get_user_by_id call.faults.read_user user_id org_id w.users) _ h (λ user.
          if_both O user.mfa_enabled (refused 409 "MFA is already enabled for this account", w) _ h
            (generated_sound call user_id w generated h)))

  enabled_sound :
      (codes : List String) (call : Call) (user_id : String) (w : World rd) (o : Option (List User))
      → S w
      → AllSome Shown rd sg cr u issuer o
      → O (verify_enabled rd cr codes call user_id w o)
  enabled_sound codes call user_id w none h o = h
  enabled_sound codes call user_id w (some users') h o =
      delete_kept Shown rd sg cr u issuer call (mfa_setup_key user_id) (record w { users = users' })
        o

  -- The secret is stored after a code for it was shown.
  secret_sound :
      (codes : List String) (call : Call) (passcode user_id org_id : String) (w : World rd)
      (o : Option String)
      → ((secret : String)
          → o ≡ some secret
          → cr.verify_totp call.now passcode secret ≡ true
          → Shown user_id secret)
      → S w
      → O (verify_secret rd cr codes call passcode user_id org_id w o)
  unfolding enable_mfa
  secret_sound codes call passcode user_id org_id w none told h = h
  secret_sound codes call passcode user_id org_id w (some secret) told h =
      elim (Bool-cases (cr.verify_totp call.now passcode secret)) [
        | inr wrong ↦ rw wrong h
        | inl shown ↦ rw shown (
            enabled_sound codes call user_id w
              (enable_mfa call.faults.write_user user_id org_id secret codes w.users) h
              (if_both (AllSome Shown rd sg cr u issuer) call.faults.write_user none _ tt (
                All-update_at (MfaSound Shown) (user_of user_id org_id) _
                  (λ row here s. record {
                    shown = λ e.
                        let same : row.id ≡ user_id = ground (arith, here, eq_iff row.id user_id) in
                        rw same (told secret refl shown);
                    none_kept = λ e. ground arith;
                  })
                  w.users h)))
      ]

  -- `told` says that a code which verifies for the secret in Redis is one that was shown.
  pub verify_mfa-MfaSound :
      (codes : List String) (call : Call) (body : Option String) (w : World rd)
      → ((passcode user_id secret : String)
          → body ≡ some passcode
          → call.user_id ≡ some user_id
          → get_token rd call (mfa_setup_key user_id) w ≡ some secret
          → cr.verify_totp call.now passcode secret ≡ true
          → Shown user_id secret)
      → S w
      → O (verify_mfa rd cr codes call body w)
  unfolding verify_mfa
  verify_mfa-MfaSound codes call none w told h = h
  verify_mfa-MfaSound codes call (some passcode) w told h =
      given_caller w call.user_id call.organization_id _ h (λ user_id org_id same.
        secret_sound codes call passcode user_id org_id w
          (get_token rd call (mfa_setup_key user_id) w)
          (λ secret. told passcode user_id secret refl same) h)

  codes_sound :
      (codes : List String) (w : World rd) (o : Option (List User))
      → S w
      → AllSome Shown rd sg cr u issuer o
      → O (codes_stored rd cr codes w o)
  codes_sound codes w none h o = h
  codes_sound codes w (some users') h o = o

  pub generate_backup_codes-MfaSound :
      (codes : List String) (call : Call) (w : World rd)
      → S w
      → O (generate_backup_codes rd cr codes call w)
  unfolding generate_backup_codes update_backup_codes
  generate_backup_codes-MfaSound codes call w h =
      caller_sound w call.user_id call.organization_id _ h (λ user_id org_id.
        user_sound w (get_user_by_id call.faults.read_user user_id org_id w.users) _ h (λ user.
          if_both O user.mfa_enabled _
            (refused 400 "MFA is not enabled. Please set up MFA first.", w)
            (codes_sound codes w
              (update_backup_codes call.faults.write_user user_id org_id codes w.users) h
              (update_sound Shown rd sg cr u issuer call.faults.write_user (user_of user_id org_id)
                (λ row. record row { mfa_backup_codes = codes }) w.users
                (λ row s. record { shown = s.shown; none_kept = s.none_kept }) h))
            h))

  disabled_sound :
      (w : World rd) (o : Option (List User))
      → S w
      → AllSome Shown rd sg cr u issuer o
      → O (disable_stored rd cr w o)
  disabled_sound w none h o = h
  disabled_sound w (some users') h o = o

  checked_sound :
      (call : Call) (user_id org_id : String) (w : World rd) (body : Option String)
      → S w
      → O (disable_checked rd cr call user_id org_id w body)
  unfolding disable_mfa
  checked_sound call user_id org_id w none h = h
  checked_sound call user_id org_id w (some password) h =
      user_sound w (get_user_by_id call.faults.read_user user_id org_id w.users) _ h (λ user.
        if_both O (not user.mfa_enabled) (refused 400 "MFA is not currently enabled", w) _ h
          (if_both O (cr.compare user.password_hash password) _ (refused 401 "Invalid password", w)
            (disabled_sound w (disable_mfa call.faults.write_user user_id org_id w.users) h (
              update_sound Shown rd sg cr u issuer call.faults.write_user (user_of user_id org_id) _
                w.users (λ row s. record { shown = λ e. ground arith; none_kept = λ e. refl }) h))
            h))

  pub disable_mfa-MfaSound :
      (call : Call) (body : Option String) (w : World rd)
      → S w
      → O (disable_mfa_handler rd cr call body w)
  unfolding disable_mfa_handler
  disable_mfa-MfaSound call body w h =
      caller_sound w call.user_id call.organization_id _ h
        (λ user_id org_id. checked_sound call user_id org_id w body h)
