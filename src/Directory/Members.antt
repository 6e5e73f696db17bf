-- ===== src/Directory/Members.antt =====
-- The request that adds a member to a group.
use monkeys_identity.Base.{
  ℕ, Bool, true, false, ◌||◌, String, Option, none, some, str_eq, List, ◌⊎◌, ◌≡◌, refl, arith,
  if◌then◌else◌, inl, inr,
}
use monkeys_identity.Accounts.{Reply, refused, answered, panicked}
use monkeys_identity.Directory.{GroupMembership, Tables, Call, local}
use monkeys_identity.Directory.Groups.{
  Ended, no_group_in_organization, failed, add_group_member, adding,
}
use monkeys_identity.Directory.GroupHandlers.{
  MemberRequest, add_member, add_parsed, new_membership, added, zero_time,
}

abbrev pub is_answered : {A : Type 0} → Reply A → Bool
is_answered (refused code text) = false
is_answered panicked = false
is_answered (answered value) = true

-- Neither a success nor a change.
abbrev Fruitless : Tables → Reply GroupMembership × Tables → Type 0
Fruitless t r = (is_answered r.0 ≡ false) × (r.1 ≡ t)

module _ (is_uuid : String → Bool) (parse_time : String → Option ℕ) (t : Tables)
    (strict : is_uuid "" ≡ false) where
  adding-none :
      (m : GroupMembership) (w : Option (List ℕ))
      → is_uuid m.added_by ≡ false
      → adding is_uuid m t w ≡ (some failed, t)
  adding-none m (some failure) h = refl
  adding-none m none h = ground (arith, h)

  added-none :
      (m : GroupMembership) (e : Ended)
      → (e ≡ (some failed, t)) ⊎ (e ≡ (some no_group_in_organization, t))
      → Fruitless t (added m e)
  added-none m e (inl h) = rw h (refl, refl)
  added-none m e (inr h) = rw h (refl, refl)

  add_group_member-none :
      (call : Call) (m : GroupMembership) (org_id : String)
      → is_uuid m.added_by ≡ false
      → (add_group_member is_uuid call m org_id t ≡ (some failed, t))
        ⊎ (add_group_member is_uuid call m org_id t ≡ (some no_group_in_organization, t))
  unfolding add_group_member
  add_group_member-none call m org_id h = ground (arith, h, adding-none m call.write_fails h)

  add_until-none :
      (id : String) (call : Call) (req : MemberRequest) (expires : ℕ) (o : Option String)
      → Fruitless t (
          local t o (λ org_id.
            let m = new_membership id req expires in
            added m (add_group_member is_uuid call m org_id t)))
  add_until-none id call req expires none = (refl, refl)
  add_until-none id call req expires (some org_id) =
      let m = new_membership id req expires in
      added-none m (add_group_member is_uuid call m org_id t)
        (add_group_member-none call m org_id strict)

  add_parsed-none :
      (id : String) (call : Call) (req : MemberRequest) (time : Option ℕ)
      → Fruitless t (add_parsed is_uuid parse_time id call req t time)
  add_parsed-none id call req none = (refl, refl)
  add_parsed-none id call req (some time) = add_until-none id call req time call.organization_id

  if-Fruitless :
      (b : Bool) (x y : Reply GroupMembership × Tables)
      → Fruitless t x
      → Fruitless t y
      → Fruitless t (if b then x else y)
  if-Fruitless true x y hx hy = hx
  if-Fruitless false x y hx hy = hy

  body-Fruitless :
      (call : Call) (id : String) (body : Option MemberRequest)
      → Fruitless t (add_member is_uuid parse_time id call body t)
  unfolding add_member
  body-Fruitless call id none = if-Fruitless (str_eq id "") _ _ (refl, refl) (refl, refl)
  body-Fruitless call id (some req) =
      if-Fruitless (str_eq id "") _ _ (refl, refl)
        (if-Fruitless (str_eq req.principal_id "" || str_eq req.principal_type "") _ _ (refl, refl)
          (if-Fruitless (str_eq req.expires_at "") _ _
            (add_until-none id call req zero_time call.organization_id)
            (add_parsed-none id call req (parse_time req.expires_at))))

  -- If the empty text is no UUID, no request to add a member to a group succeeds or changes a
  -- table.
  pub add_member-none :
      (id : String) (call : Call) (body : Option MemberRequest)
      → (is_answered (add_member is_uuid parse_time id call body t).0 ≡ false)
        × ((add_member is_uuid parse_time id call body t).1 ≡ t)
  add_member-none id call body = body-Fruitless call id body
