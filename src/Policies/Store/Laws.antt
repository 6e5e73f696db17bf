-- ===== src/Policies/Store/Laws.antt =====
-- The versions of a policy: what an update, an approval and a rollback leave of them.
use mathlib.Core.Option
use monkeys_identity.Base.{
  true, ◌&&◌, String, Option, none, some, str_eq, any, find, update_where, find-update_where,
  find_sound, ok, ◌≡◌, ◌≢◌, refl, ap, sym, ◌∙◌, arith, eq_iff, Bool-cases, Option-cases,
  Result-cases, inl, inr,
}
use monkeys_identity.Authz.Value.{Fields}
use monkeys_identity.Policies.Validation.{validate_policy_document}
use monkeys_identity.Policies.Versions.{increment_version}
use monkeys_identity.Policies.Store.{
  PolicyRow, PolicyVersion, Store, Failing, StoreError, invalid_document, failed_to_write_version,
  policy_of, version_of, get_policy, insert_version, write_policies, rewritten, update_written,
  update_policy, rollback_policy, or_text,
}

-- The version rows only grow: what is there stays there.
abbrev pub Has : Store → String → String → Type 0
Has s id version = any (version_of id version) s.policy_versions ≡ true

-- A statement on `policies` leaves the versions alone, and what it found there it rewrites.
pub write_result :
    (f : Failing) (id org_id : String) (g : PolicyRow → PolicyRow) (s s' : Store)
    → write_policies f id org_id g s ≡ (none, s')
    → (s'.policy_versions ≡ s.policy_versions)
      × (s'.policies ≡ update_where (policy_of id org_id) g s.policies)
write_result f id org_id g s s' h = (ground (arith, h), ground (arith, h))

module _ (jsonb : String → String) where
  insert-Has :
      (f : Failing) (p : PolicyRow) (s s' : Store)
      → insert_version jsonb f p s ≡ some s'
      → Has s' p.id p.version
  unfolding insert_version
  insert-Has f p s s' h = ground (arith, h, eq_iff p.id p.id, eq_iff p.version p.version)

  written-Has :
      (f : Failing) (p : PolicyRow) (org_id version status : String) (s s' : Store)
      (o : Option Store)
      → ((s1 : Store) → o ≡ some s1 → Has s1 p.id version)
      → update_written jsonb f p org_id version status s o ≡ (none, s')
      → Has s' p.id version
  written-Has f p org_id version status s s' none has h = ground arith
  written-Has f p org_id version status s s' (some s1) has h =
      let same = (write_result f p.id org_id (rewritten jsonb p version status) s1 s' h).0 in
      ap (any (version_of p.id version)) same ∙ has s1 refl

  -- A new document leaves a row with the next version.
  update-Has :
      (unmarshal : String → Option Fields) (f : Failing) (p : PolicyRow) (org_id : String)
      (current : PolicyRow) (s s' : Store)
      → get_policy f p.id org_id s ≡ ok current
      → current.document ≢ p.document
      → update_policy jsonb unmarshal f p org_id s ≡ (none, s')
      → Has s' p.id (increment_version current.version)
  unfolding update_policy
  update-Has unmarshal f p org_id current s s' found changed h =
      elim (Result-cases (validate_policy_document unmarshal p.document)) [
        | inr (e, invalid) ↦ ground (arith, invalid)
        | inl (done, valid) ↦
            let version = increment_version current.version in
            let status = or_text p.status current.status in
            let o = insert_version jsonb f (record p { version = version }) s in
            written-Has f p org_id version status s s' o
              (λ s1 e. insert-Has f (record p { version = version }) s s1 e)
              (ground (arith, valid, found, eq_iff current.document p.document))
      ]

  -- A version that is there is not written again.
  insert_refused :
      (f : Failing) (p : PolicyRow) (s : Store)
      → Has s p.id p.version
      → insert_version jsonb f p s ≡ none
  unfolding insert_version
  insert_refused f p s h = ground (arith, h)

  rollback_result :
      (f : Failing) (id org_id version : String) (s s' : Store)
      → rollback_policy f id org_id version s ≡ (none, s')
      → (v : PolicyVersion) × (v.version ≡ version)
        × (s'.policy_versions ≡ s.policy_versions)
        × (s'.policies
            ≡ update_where
                (policy_of id org_id)
                (λ row. record row {
                  document = v.document;
                  version = v.version;
                  status = "active";
                })
                s.policies)
  unfolding rollback_policy
  rollback_result f id org_id version s s' h = elim (Bool-cases f.read) [
    | inl down ↦ ground (arith, down)
    | inr up ↦
        elim (Bool-cases
          (any (λ p. str_eq p.id id && str_eq p.organization_id org_id) s.policies)) [
            | inr missing ↦ ground (arith, up, missing)
            | inl there ↦ elim (Option-cases (find (version_of id version) s.policy_versions)) [
              | inl e ↦ ground (arith, up, there, e)
              | inr (v, e) ↦
                  let row = find_sound (version_of id version) s.policy_versions v e in
                  let (same, moved) =
                    write_result f id org_id
                      (λ r. record r {
                        document = v.document;
                        version = v.version;
                        status = "active";
                      })
                      s s' (ground (arith, up, there, e)) in
                  (v, ground (arith, row, eq_iff v.version version), same, moved)
            ]
          ]
  ]

  -- The policy that is found after a rollback has the version that it was rolled back to.
  rolled_version :
      (f f' : Failing) (id org_id version : String) (s s' : Store) (rolled : PolicyRow)
      → rollback_policy f id org_id version s ≡ (none, s')
      → get_policy f' id org_id s' ≡ ok rolled
      → (rolled.version ≡ version) × (s'.policy_versions ≡ s.policy_versions)
  unfolding get_policy
  rolled_version f f' id org_id version s s' rolled h found =
      let (v, hv, same, moved) = rollback_result f id org_id version s s' h in
      let g = λ (r : PolicyRow). record r {
        document = v.document;
        version = v.version;
        status = "active";
      } in
      let seen =
        ap (find (policy_of id org_id)) moved
        ∙ find-update_where (policy_of id org_id) g (λ r. refl) s.policies in
      elim (Option-cases (find (policy_of id org_id) s.policies)) [
        | inl e ↦
            let none_left : find (policy_of id org_id) s'.policies ≡ none =
              seen ∙ ap (Option.map g) e in
            ground (arith, none_left)
        | inr (row, e) ↦
            let after : find (policy_of id org_id) s'.policies ≡ some (g row) =
              seen ∙ ap (Option.map g) e in
            (ground (arith, after, hv), same)
      ]

  -- After an update with another document and a rollback to the version before, every update with a
  -- document that differs from the one rolled back to fails and changes nothing: the next version
  -- is there already.
  pub rollback_blocks_update :
      (unmarshal : String → Option Fields) (f f' f'' : Failing) (p q : PolicyRow) (org_id : String)
      (current rolled : PolicyRow) (s s' s'' : Store)
      → get_policy f p.id org_id s ≡ ok current
      → current.document ≢ p.document
      → update_policy jsonb unmarshal f p org_id s ≡ (none, s')
      → rollback_policy f' p.id org_id current.version s' ≡ (none, s'')
      → q.id ≡ p.id
      → get_policy f'' q.id org_id s'' ≡ ok rolled
      → rolled.document ≢ q.document
      → (e : StoreError) × (update_policy jsonb unmarshal f'' q org_id s'' ≡ (some e, s''))
  unfolding update_policy
  rollback_blocks_update unmarshal f f' f'' p q org_id current rolled s s' s'' found changed updated
        rolled_back same found' changed' =
      let has = update-Has unmarshal f p org_id current s s' found changed updated in
      let here = ap (λ id. get_policy f'' id org_id s'') (sym same) ∙ found' in
      let (back, kept) =
        rolled_version f' f'' p.id org_id current.version s' s'' rolled rolled_back here in
      let version = increment_version rolled.version in
      let there : Has s'' q.id version =
        ap (any (version_of q.id version)) kept
        ∙ ap (λ id. any (version_of id version) s'.policy_versions) same
        ∙ ap (λ v. any (version_of p.id (increment_version v)) s'.policy_versions) back
        ∙ has in
      let refused = insert_refused f'' (record q { version = version }) s'' there in
      elim (Result-cases (validate_policy_document unmarshal q.document)) [
        | inr (e, invalid) ↦ (invalid_document, ground (arith, invalid))
        | inl (done, valid) ↦ (
          failed_to_write_version,
          ground (arith, valid, found', refused, eq_iff rolled.document q.document),
        )
      ]
