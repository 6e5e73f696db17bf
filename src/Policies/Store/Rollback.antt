-- ===== src/Policies/Store/Rollback.antt =====
-- A rollback to the version before an update restores the policy.
use mathlib.Core.Option
use monkeys_identity.Base.{
  Bool, true, false, ◌&&◌, ◌||◌, String, List, [], ◌∷◌, Option, none, some, str_eq, any, find,
  update_where, find-update_where, find_sound, ok, ◌≡◌, ◌≢◌, refl, ap, ◌∙◌, arith, eq_iff,
  Bool-cases, Option-cases, Result-cases, inl, inr,
}
use monkeys_identity.Authz.Value.{Fields}
use monkeys_identity.Policies.Validation.{validate_policy_document}
use monkeys_identity.Policies.Versions.{increment_version}
use monkeys_identity.Policies.Store.{
  PolicyRow, PolicyVersion, Store, Failing, policy_of, version_of, get_policy, insert_version,
  draft, rewritten, update_written, update_policy, rollback_policy, or_text,
}
use monkeys_identity.Policies.Store.Laws.{write_result}

-- What one test finds, a weaker one finds too.
any-find {ℓ} :
    {A : Type ℓ} (p q : A → Bool) (x : A)
    → ((y : A) → p y ≡ true → q y ≡ true)
    → (xs : List A) → find p xs ≡ some x
    → any q xs ≡ true
unfolding find
any-find p q x weaker [] h = ground arith
any-find p q x weaker (y ∷ ys) h = elim (Bool-cases (p y)) [
  | inl e ↦ ground (arith, weaker y e)
  | inr e ↦ ground (arith, any-find p q x weaker ys (ground (arith, e)))
]

module _ (jsonb : String → String) where
  -- the tables after an update with another document
  record Updated (p current : PolicyRow) (org_id : String) (s s' : Store) : Type 0 where
    versions :
        s'.policy_versions
        ≡ draft jsonb (record p { version = increment_version current.version }) ∷ s.policy_versions
    fresh : any (version_of p.id (increment_version current.version)) s.policy_versions ≡ false
    policies :
        s'.policies
        ≡ update_where
            (policy_of p.id org_id)
            (rewritten jsonb p
              (increment_version current.version)
              (or_text p.status current.status))
            s.policies

  written_result :
      (f : Failing) (p current : PolicyRow) (org_id : String) (s s' : Store)
      → update_written jsonb f p org_id
          (increment_version current.version)
          (or_text p.status current.status)
          s
          (insert_version jsonb f (record p { version = increment_version current.version }) s)
        ≡ (none, s')
      → Updated p current org_id s s'
  unfolding insert_version
  written_result f p current org_id s s' h =
      let version = increment_version current.version in
      elim (Bool-cases (f.write_version || any (version_of p.id version) s.policy_versions)) [
        | inl e ↦ ground (arith, e)
        | inr e ↦
            let s1 = record s {
              policy_versions = draft jsonb (record p { version = version }) ∷ s.policy_versions;
            } in
            let (same, moved) =
              write_result f p.id org_id
                (rewritten jsonb p version (or_text p.status current.status)) s1 s'
                (ground (arith, e)) in
            record { versions = same; fresh = ground (arith, e); policies = moved }
      ]

  update_result :
      (unmarshal : String → Option Fields) (f : Failing) (p current : PolicyRow) (org_id : String)
      (s s' : Store)
      → get_policy f p.id org_id s ≡ ok current
      → current.document ≢ p.document
      → update_policy jsonb unmarshal f p org_id s ≡ (none, s')
      → Updated p current org_id s s'
  unfolding update_policy
  update_result unmarshal f p current org_id s s' found changed h =
      elim (Result-cases (validate_policy_document unmarshal p.document)) [
        | inr (e, invalid) ↦ ground (arith, invalid)
        | inl (done, valid) ↦
            written_result f p current org_id s s'
              (ground (arith, valid, found, eq_iff current.document p.document))
      ]

  found_row :
      (f : Failing) (id org_id : String) (row : PolicyRow) (s : Store)
      → get_policy f id org_id s ≡ ok row
      → find (policy_of id org_id) s.policies ≡ some row
  unfolding get_policy
  found_row f id org_id row s h = elim (Bool-cases f.read) [
    | inl down ↦ ground (arith, down)
    | inr up ↦ elim (Option-cases (find (policy_of id org_id) s.policies)) [
      | inl e ↦ ground (arith, up, e)
      | inr (row', e) ↦ ground (arith, up, e)
    ]
  ]

  -- The new version hides none of the old ones.
  old_version :
      (p current : PolicyRow) (org_id : String) (v : PolicyVersion) (s s' : Store)
      → Updated p current org_id s s'
      → find (version_of p.id current.version) s.policy_versions ≡ some v
      → find (version_of p.id current.version) s'.policy_versions ≡ some v
  unfolding find
  old_version p current org_id v s s' r stored =
      let next = increment_version current.version in
      elim (Bool-cases (str_eq next current.version)) [
        | inl e ↦
            let again =
              any-find (version_of p.id current.version) (version_of p.id next) v
                (λ y h. ground (arith, h, e, eq_iff next current.version)) s.policy_versions
                stored in
            ground (arith, again, r.fresh)
        | inr e ↦ ap (find (version_of p.id current.version)) r.versions ∙ ground (arith, e, stored)
      ]

  -- a rollback to a version that is there, of a live policy
  roll_back :
      (f : Failing) (id org_id version : String) (v : PolicyVersion) (row : PolicyRow) (s : Store)
      → f.read ≡ false
      → f.write_policy ≡ false
      → find (version_of id version) s.policy_versions ≡ some v
      → find (policy_of id org_id) s.policies ≡ some row
      → let (failure, s') = rollback_policy f id org_id version s in
        (failure ≡ none)
        × (get_policy f id org_id s'
            ≡ ok (record row { document = v.document; version = v.version; status = "active" }))
  unfolding rollback_policy get_policy
  roll_back f id org_id version v row s up up' listed found =
      let g = λ (r : PolicyRow). record r {
        document = v.document;
        version = v.version;
        status = "active";
      } in
      let there =
        any-find (policy_of id org_id) (λ q. str_eq q.id id && str_eq q.organization_id org_id) row
          (λ y h. ground (arith, h)) s.policies found in
      let writable =
        any-find (policy_of id org_id) (policy_of id org_id) row (λ y h. h) s.policies found in
      let rolled : rollback_policy f id org_id version s
          ≡ (none, record s { policies = update_where (policy_of id org_id) g s.policies }) =
        ground (arith, up, there, listed, up', writable) in
      let after : find (policy_of id org_id) (update_where (policy_of id org_id) g s.policies)
          ≡ some (g row) =
        find-update_where (policy_of id org_id) g (λ r. refl) s.policies
        ∙ ap (Option.map g) found in
      rw rolled (refl, ground (arith, up, after))

  -- After an update with another document, a rollback to the version before succeeds where the
  -- database does not fail, and the policy is found with that version and the document it had, if
  -- the row of that version held it.
  pub update_rollback_restores :
      (unmarshal : String → Option Fields) (f f' : Failing) (p current : PolicyRow)
      (org_id : String) (v : PolicyVersion) (s s' : Store)
      → get_policy f p.id org_id s ≡ ok current
      → current.document ≢ p.document
      → update_policy jsonb unmarshal f p org_id s ≡ (none, s')
      → find (version_of p.id current.version) s.policy_versions ≡ some v
      → v.document ≡ current.document
      → f'.read ≡ false
      → f'.write_policy ≡ false
      → let (failure, s'') = rollback_policy f' p.id org_id current.version s' in
        (failure ≡ none)
        × ((row : PolicyRow) × (get_policy f' p.id org_id s'' ≡ ok row)
            × (row.document ≡ current.document)
            × (row.version ≡ current.version))
  update_rollback_restores unmarshal f f' p current org_id v s s' found changed updated stored same
        up up' =
      let r = update_result unmarshal f p current org_id s s' found changed updated in
      let next = increment_version current.version in
      let status = or_text p.status current.status in
      let seen : find (policy_of p.id org_id) s'.policies
          ≡ some (rewritten jsonb p next status current) =
        ap (find (policy_of p.id org_id)) r.policies
        ∙ find-update_where (policy_of p.id org_id) (rewritten jsonb p next status) (λ x. refl)
            s.policies
        ∙ ap (Option.map (rewritten jsonb p next status))
            (found_row f p.id org_id current s found) in
      let (done, row) =
        roll_back f' p.id org_id current.version v (rewritten jsonb p next status current) s' up up'
          (old_version p current org_id v s s' r stored) seen in
      let named = find_sound (version_of p.id current.version) s.policy_versions v stored in
      (
        done,
        (
          record (rewritten jsonb p next status current) {
            document = v.document;
            version = v.version;
            status = "active";
          },
          row,
          same,
          ground (arith, named, eq_iff v.version current.version),
        ),
      )

  -- An update with the same document that succeeds writes no row of versions and gives the policy
  -- whatever version the request names.
  pub update_policy_unversioned :
      (unmarshal : String → Option Fields) (f : Failing) (p current : PolicyRow) (org_id : String)
      (s s' : Store)
      → get_policy f p.id org_id s ≡ ok current
      → current.document ≡ p.document
      → update_policy jsonb unmarshal f p org_id s ≡ (none, s')
      → (s'.policy_versions ≡ s.policy_versions)
        × (get_policy f p.id org_id s'
            ≡ ok (rewritten jsonb p p.version (or_text p.status current.status) current))
  unfolding update_policy get_policy
  update_policy_unversioned unmarshal f p current org_id s s' found same h =
      elim (Result-cases (validate_policy_document unmarshal p.document)) [
        | inr (e, invalid) ↦ ground (arith, invalid)
        | inl (done, valid) ↦
            let status = or_text p.status current.status in
            let g = rewritten jsonb p p.version status in
            let (kept, moved) =
              write_result f p.id org_id g s s'
                (ground (arith, valid, found, eq_iff current.document p.document)) in
            let after : find (policy_of p.id org_id) s'.policies ≡ some (g current) =
              ap (find (policy_of p.id org_id)) moved
              ∙ find-update_where (policy_of p.id org_id) g (λ r. refl) s.policies
              ∙ ap (Option.map g) (found_row f p.id org_id current s found) in
            (
              kept,
              elim (Bool-cases f.read) [
                | inl down ↦ ground (arith, down)
                | inr up ↦ ground (arith, up, after)
              ],
            )
      ]
