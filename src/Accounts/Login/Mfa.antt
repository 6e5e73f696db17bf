-- ===== src/Accounts/Login/Mfa.antt =====
-- The two steps of a login with a one-time code.
use Prim.Native.String
use Prim.Native.String.append
use monkeys_identity.Base.{
  ◌+◌, ◌≤◌, ◌<◌, true, false, ◌||◌, String, text_eq, [], ◌∷◌, Option, none, some, str_eq, ◌≡◌, refl,
  ap, ◌∙◌, arith, Bool-cases, Option-cases, inl, inr,
}
use monkeys_identity.Platform.{Unicode}
use monkeys_identity.Redis.{Redis}
use monkeys_identity.Middleware.Auth.{split}
use monkeys_identity.Middleware.Parts.{free_of, split_whole, split_front}
use monkeys_identity.Accounts.{User, World, Call, Crypto, refused, answered}
use monkeys_identity.Accounts.Users.{get_user_by_email, get_user_by_id}
use monkeys_identity.Accounts.Keys.{set_token, get_token, delete_token}
use monkeys_identity.Accounts.Keys.Laws.{get_token-set, get_token-delete}
use monkeys_identity.Accounts.Tokens.{Signer, TokenPair}
use monkeys_identity.Accounts.Login.{
  LoginRequest, LoginMfaRequest, LoginResponse, mfa_required, logged_in, normalized, mfa_login_key,
  login, login_mfa_verify, tokens_for, with_login, login_user, complete_mfa, mfa_value, stored_user,
}

pub split_pair :
    (s t : String)
    → free_of b':' s ≡ true
    → free_of b':' t ≡ true
    → split b':' (String.◌++◌ s (String.◌++◌ ":" t)) ≡ s ∷ t ∷ []
split_pair s t h h' =
    rw (append.cons ":" "" t, append.nil t)
      (split_front ":" s t h ∙ ap (λ ws. s ∷ ws) (split_whole b':' t h'))

module _ (rd : Redis) (sg : Signer) (cr : Crypto) (u : Unicode) (issuer : String) where
  -- Where the password is right and a code is asked for, the user is kept in Redis under the token.
  kept_in_redis :
      (call : Call) (user : User) (w : World rd) (token : String)
      → (login_user rd sg cr u issuer call user w).0 ≡ answered (mfa_required token)
      → (token ≡ call.token)
        × ((login_user rd sg cr u issuer call user w).1.redis
            ≡ rd.set call.now
                (mfa_login_key call.token)
                (String.◌++◌ user.id (String.◌++◌ ":" user.organization_id))
                300
                w.redis)
  unfolding set_token
  kept_in_redis call user w token h =
      elim (Option-cases (tokens_for rd sg cr u issuer call w user)) [
        | inl e ↦ ground (arith, e)
        | inr (tokens', e) ↦ ground (arith, e)
      ]

  -- a login that gets past the password
  login_accepted :
      (call : Call) (req : LoginRequest) (user : User) (w : World rd) (token : String)
      → get_user_by_email call.faults.read_user (normalized u req.email) "" w.users ≡ some user
      → (login rd sg cr u issuer call (some req) w).0 ≡ answered (mfa_required token)
      → login rd sg cr u issuer call (some req) w ≡ login_user rd sg cr u issuer call user w
  unfolding login
  login_accepted call req user w token found h =
      elim (Bool-cases (text_eq (normalized u req.email) [] || str_eq req.password "")) [
        | inl missing ↦ ground (arith, missing)
        | inr given ↦ elim (Bool-cases (cr.compare user.password_hash req.password)) [
          | inl accepted ↦ rw (given, found, accepted) refl
          | inr wrong ↦ ground (arith, given, found, wrong)
        ]
      ]

  -- the second step, once the value in Redis and the user are known
  mfa_step :
      (call : Call) (req : LoginMfaRequest) (user : User) (w : World rd) (id org_id : String)
      → get_token rd call (mfa_login_key req.mfa_token) w
        ≡ some (String.◌++◌ id (String.◌++◌ ":" org_id))
      → free_of b':' id ≡ true
      → free_of b':' org_id ≡ true
      → get_user_by_id call.faults.read_user id org_id w.users ≡ some user
      → login_mfa_verify rd sg cr u issuer call (some req) w
        ≡ complete_mfa rd sg cr u issuer call req user w
  unfolding login_mfa_verify
  mfa_step call req user w id org_id h hi ho found = rw (h, split_pair id org_id hi ho, found) refl

  mfa_completed :
      (call : Call) (req : LoginMfaRequest) (user : User) (tokens : TokenPair) (w : World rd)
      → cr.verify_totp call.now req.code user.totp_secret ≡ true
      → tokens_for rd sg cr u issuer call w user ≡ some tokens
      → complete_mfa rd sg cr u issuer call req user w ≡ (
        answered (logged_in tokens user none),
        delete_token rd call
            (mfa_login_key req.mfa_token)
            (with_login rd sg cr u issuer call user tokens true w),
      )
  mfa_completed call req user tokens w code_ok issued = rw (code_ok, issued) refl

  -- a second step that answers has deleted the token
  completed_deletes :
      (call : Call) (req : LoginMfaRequest) (response : LoginResponse) (user : User)
      (w w' : World rd)
      → complete_mfa rd sg cr u issuer call req user w ≡ (answered response, w')
      → w'.redis ≡ (delete_token rd call (mfa_login_key req.mfa_token) w).redis
  unfolding delete_token
  completed_deletes call req response user w w' h =
      elim (Option-cases (tokens_for rd sg cr u issuer call w user)) [
        | inl e ↦ ground (arith, e)
        | inr (tokens, e) ↦ ground (arith, e)
      ]

  mfa_deletes :
      (call : Call) (req : LoginMfaRequest) (response : LoginResponse) (w w' : World rd)
      (val : Option String)
      → mfa_value rd sg cr u issuer call req w val ≡ (answered response, w')
      → w'.redis ≡ (delete_token rd call (mfa_login_key req.mfa_token) w).redis
  mfa_deletes call req response w w' none h = ground arith
  mfa_deletes call req response w w' (some val) h =
      elim (Option-cases (stored_user (split b':' val))) [
        | inl e ↦ ground (arith, e)
        | inr ((id, org_id), e) ↦
            elim (Option-cases (get_user_by_id call.faults.read_user id org_id w.users)) [
              | inl missing ↦ ground (arith, e, missing)
              | inr (user, found) ↦
                  completed_deletes call req response user w w' (ground (arith, e, found))
            ]
      ]

  -- A login that asks for a code, by a user whose ids hold no colon, is completed within five
  -- minutes by a code that fits the secret of the user found by those ids, if Redis can be read
  -- and tokens can be signed: the answer is the tokens of that user, whatever the status now is,
  -- and the session is marked as verified.
  pub login_mfa_round_trip :
      (call call' : Call) (req : LoginRequest) (passcode : String) (user user' : User)
      (tokens : TokenPair) (w w' : World rd)
      → get_user_by_email call.faults.read_user (normalized u req.email) "" w.users ≡ some user
      → (login rd sg cr u issuer call (some req) w).0 ≡ answered (mfa_required call.token)
      → free_of b':' user.id ≡ true
      → free_of b':' user.organization_id ≡ true
      → w'.redis ≡ (login rd sg cr u issuer call (some req) w).1.redis
      → call.now ≤ call'.now
      → call'.now < call.now + 300
      → call'.faults.redis_get ≡ false
      → get_user_by_id call'.faults.read_user user.id user.organization_id w'.users ≡ some user'
      → cr.verify_totp call'.now passcode user'.totp_secret ≡ true
      → tokens_for rd sg cr u issuer call' w' user' ≡ some tokens
      → login_mfa_verify rd sg cr u issuer call'
          (some (record { mfa_token = call.token; code = passcode }))
          w'
        ≡ (
          answered (logged_in tokens user' none),
          delete_token rd call'
              (mfa_login_key call.token)
              (with_login rd sg cr u issuer call' user' tokens true w'),
        )
  login_mfa_round_trip call call' req passcode user user' tokens w w' found h hi ho same later soon
        up found' code_ok issued =
      let after = login_accepted call req user w call.token found h in
      let kept = (kept_in_redis call user w call.token (rw (← after) h)).1 in
      let here = same ∙ ap (λ r. r.1.redis) after ∙ kept in
      let value =
        get_token-set rd call call' (mfa_login_key call.token)
          (String.◌++◌ user.id (String.◌++◌ ":" user.organization_id)) 300 w w' here up later
          soon in
      mfa_step call' (record { mfa_token = call.token; code = passcode }) user' w' user.id
        user.organization_id value hi ho found'
      ∙ mfa_completed call' (record { mfa_token = call.token; code = passcode }) user' tokens w'
          code_ok issued

  -- After a second step of a login that answers, where Redis can delete, every further call with
  -- the same token, with any code and at any time, as long as Redis is as the first one left it
  -- and whatever became of the tables, is refused with 401 and changes nothing.
  pub login_mfa_verify_once :
      (call call' : Call) (req : LoginMfaRequest) (passcode : String) (response : LoginResponse)
      (w w' w'' : World rd)
      → login_mfa_verify rd sg cr u issuer call (some req) w ≡ (answered response, w')
      → call.faults.redis_del ≡ false
      → w''.redis ≡ w'.redis
      → login_mfa_verify rd sg cr u issuer call'
          (some (record { mfa_token = req.mfa_token; code = passcode }))
          w''
        ≡ (refused 401 "Invalid or expired MFA token", w'')
  unfolding login_mfa_verify
  login_mfa_verify_once call call' req passcode response w w' w'' h up same =
      let gone =
        mfa_deletes call req response w w' (get_token rd call (mfa_login_key req.mfa_token) w) h in
      rw (get_token-delete rd call call' (mfa_login_key req.mfa_token) w w'' up (same ∙ gone)) refl
