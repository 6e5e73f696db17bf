-- ===== src/Accounts/Recovery/Once.antt =====
-- A token that was used once, and what a reset leaves of the sessions.
use monkeys_identity.Base.{
  ℕ, false, not, ◌&&◌, String, List, [], ◌∷◌, Option, none, some, str_eq, if◌then◌else◌, ◌≡◌, refl,
  ◌∙◌, arith, eq_iff, Bool-cases, Option-cases, inl, inr,
}
use monkeys_identity.Platform.{Unicode}
use monkeys_identity.Redis.{Redis}
use monkeys_identity.Accounts.{User, World, Call, Crypto, refused, answered}
use monkeys_identity.Accounts.Users.{update_password}
use monkeys_identity.Accounts.Keys.{get_token, delete_token}
use monkeys_identity.Accounts.Recovery.{
  ResetPasswordRequest, password_reset_key, reset_password, invalidate_user_sessions,
  delete_session_keys, delete_owned, reset_found,
}

module _ (rd : Redis) (cr : Crypto) (u : Unicode) where
  del_keeps_gone :
      (t : ℕ) (key k : String) (s : rd.Store)
      → rd.get t key s ≡ none
      → rd.get t key (rd.del k s) ≡ none
  del_keeps_gone t key k s h = elim (Bool-cases (str_eq key k)) [
    | inl e ↦ let same : key ≡ k = ground (arith, e, eq_iff key k) in rw same (rd.get_del t k s)
    | inr e ↦ rd.get_del_ne t key k s (ground (arith, e, eq_iff key k)) ∙ h
  ]

  owned_keeps_gone :
      (call : Call) (t : ℕ) (key user_id k : String) (s : rd.Store) (owner : Option String)
      → rd.get t key s ≡ none
      → rd.get t key (delete_owned rd cr u call user_id k s owner) ≡ none
  owned_keeps_gone call t key user_id k s none h = h
  owned_keeps_gone call t key user_id k s (some owner) h =
      elim (Bool-cases (str_eq owner user_id && not call.faults.redis_del)) [
        | inl e ↦ rw e (del_keeps_gone t key k s h)
        | inr e ↦ rw e h
      ]

  -- The keys that the sweep deletes were listed by Redis under "session:"; a token that was deleted
  -- before it stays deleted.
  sweep_keeps_gone :
      (call : Call) (t : ℕ) (key user_id : String) (keys : List String) (s : rd.Store)
      → rd.get t key s ≡ none
      → rd.get t key (delete_session_keys rd cr u call user_id keys s) ≡ none
  unfolding delete_session_keys
  sweep_keeps_gone call t key user_id [] s h = h
  sweep_keeps_gone call t key user_id (k ∷ keys) s h =
      sweep_keeps_gone call t key user_id keys
        (delete_owned rd cr u call user_id k s
          (if call.faults.redis_get then none else rd.hget call.now k "user_id" s))
        (owned_keeps_gone call t key user_id k s
          (if call.faults.redis_get then none else rd.hget call.now k "user_id" s) h)

  -- the world after a reset that answers
  reset_swept :
      (salt : ℕ) (call : Call) (req : ResetPasswordRequest) (user_id message : String)
      (w w' : World rd)
      → reset_found rd cr u salt call req w (some user_id) ≡ (answered message, w')
      → (users' : List User) × (w'
          ≡ invalidate_user_sessions rd cr u call user_id
              (delete_token rd call (password_reset_key req.token) (record w { users = users' })))
  reset_swept salt call req user_id message w w' h = elim (Bool-cases (str_eq user_id "")) [
    | inl e ↦ ground (arith, e)
    | inr named ↦ elim (Option-cases (cr.generate_from_password salt req.new_password)) [
      | inl e ↦ ground (arith, named, e)
      | inr (hash, hashed) ↦
          elim (Option-cases (update_password call.faults.write_user user_id hash "" w.users)) [
            | inl e ↦ ground (arith, named, hashed, e)
            | inr (users', e) ↦ (users', ground (arith, named, hashed, e))
          ]
    ]
  ]

  swept_gone :
      (call : Call) (t : ℕ) (key user_id : String) (w : World rd)
      → call.faults.redis_del ≡ false
      → rd.get t key
          (invalidate_user_sessions rd cr u call user_id (delete_token rd call key w)).redis
        ≡ none
  unfolding invalidate_user_sessions delete_token
  swept_gone call t key user_id w up = elim (Bool-cases call.faults.redis_keys) [
    | inl down ↦ ground (arith, down, up, rd.get_del t key w.redis)
    | inr listed ↦ ground (
      arith,
      listed,
      up,
      sweep_keeps_gone call t key user_id (rd.keys call.now "session:" (rd.del key w.redis))
          (rd.del key w.redis) (rd.get_del t key w.redis),
    )
  ]

  -- a reset that answers leaves no token
  reset_gone :
      (call call' : Call) (req : ResetPasswordRequest) (message : String) (salt : ℕ)
      (w w' : World rd) (val : Option String)
      → reset_found rd cr u salt call req w val ≡ (answered message, w')
      → call.faults.redis_del ≡ false
      → rd.get call'.now (password_reset_key req.token) w'.redis ≡ none
  reset_gone call call' req message salt w w' none h up = ground arith
  reset_gone call call' req message salt w w' (some user_id) h up =
      let (users', same) = reset_swept salt call req user_id message w w' h in
      rw same (
        swept_gone call call'.now (password_reset_key req.token) user_id
          (record w { users = users' }) up)

  -- After a reset of a password that answers, where Redis can delete, every further reset with
  -- the same token, as long as Redis is as the first one left it and whatever became of the
  -- tables, is refused with 400 and changes nothing.
  pub reset_password_once :
      (salt salt' : ℕ) (call call' : Call) (req : ResetPasswordRequest) (password message : String)
      (w w' w'' : World rd)
      → reset_password rd cr u salt call (some req) w ≡ (answered message, w')
      → call.faults.redis_del ≡ false
      → w''.redis ≡ w'.redis
      → reset_password rd cr u salt' call'
          (some (record { token = req.token; new_password = password }))
          w''
        ≡ (refused 400 "Invalid or expired reset token", w'')
  unfolding reset_password get_token
  reset_password_once salt salt' call call' req password message w w' w'' h up same =
      let gone =
        reset_gone call call' req message salt w w'
          (get_token rd call (password_reset_key req.token) w) h up in
      let none_left : get_token rd call' (password_reset_key req.token) w'' ≡ none =
        elim (Bool-cases call'.faults.redis_get) [
          | inl down ↦ rw down refl
          | inr up' ↦ rw (up', same) gone
        ] in
      rw none_left refl

  sweep_sessions :
      (call : Call) (key user_id : String) (w : World rd)
      → (invalidate_user_sessions rd cr u call user_id (delete_token rd call key w)).sessions
        ≡ w.sessions
  unfolding invalidate_user_sessions delete_token
  sweep_sessions call key user_id w = ground arith

  kept_sessions :
      (salt : ℕ) (call : Call) (req : ResetPasswordRequest) (w : World rd) (val : Option String)
      → (reset_found rd cr u salt call req w val).1.sessions ≡ w.sessions
  kept_sessions salt call req w none = refl
  kept_sessions salt call req w (some user_id) = elim (Bool-cases (str_eq user_id "")) [
    | inl e ↦ rw e refl
    | inr named ↦ elim (Option-cases (cr.generate_from_password salt req.new_password)) [
      | inl e ↦ rw named (rw e refl)
      | inr (hash, hashed) ↦
          elim (Option-cases (update_password call.faults.write_user user_id hash "" w.users)) [
            | inl e ↦ rw named (rw hashed (rw e refl))
            | inr (users', e) ↦ rw named (
                rw hashed (
                  rw e (
                    sweep_sessions call (password_reset_key req.token) user_id
                      (record w { users = users' }))))
          ]
    ]
  ]

  -- A reset of a password leaves the table of sessions as it was, for every body and whichever
  -- calls fail.
  pub reset_password_keeps_sessions :
      (salt : ℕ) (call : Call) (body : Option ResetPasswordRequest) (w : World rd)
      → (reset_password rd cr u salt call body w).1.sessions ≡ w.sessions
  unfolding reset_password invalidate_user_sessions delete_token
  reset_password_keeps_sessions salt call none w = refl
  reset_password_keeps_sessions salt call (some req) w =
      kept_sessions salt call req w (get_token rd call (password_reset_key req.token) w)
