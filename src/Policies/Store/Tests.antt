-- ===== src/Policies/Store/Tests.antt =====
-- The versions of a policy at concrete inputs.
use monkeys_identity.Base.{
  false, String, [], ◌∷◌, Option, none, some, find, update_where, lookup, ok, ◌≡◌, ◌≢◌, refl, arith,
  eq_iff, str_eq, if◌then◌else◌,
}
use monkeys_identity.Authz.Value.{Fields, arr, nil, field, end}
use monkeys_identity.Policies.{entry}
use monkeys_identity.Policies.Store.{
  PolicyRow, PolicyVersion, Store, Failing, get_policy, create_policy, update_policy,
  rollback_policy, approve_policy, version_of,
}
use monkeys_identity.Policies.Store.Rollback.{update_rollback_restores}

-- Every text is a document without statements.
abbrev unmarshal : String → Option Fields
unmarshal text = some (field "Statement" (arr nil) end)

-- The spelling " b" of a document is read back as "b".
abbrev jsonb : String → String
jsonb text = if str_eq text " b" then "b" else text

abbrev working : Failing
working = record { read = false; write_policy = false; write_version = false }

abbrev policy : String → PolicyRow
policy document = record {
  id = "p1";
  name = "read";
  description = "";
  version = "";
  organization_id = "acme";
  document = document;
  policy_type = "access";
  effect = "allow";
  is_system_policy = false;
  created_by = none;
  approved_by = none;
  status = "";
  deleted_at = none;
}

abbrev row : String → String → PolicyRow
row version document = record (policy document) { version = version; status = "active" }

abbrev version : String → String → PolicyVersion
version number document = record {
  policy_id = "p1";
  version = number;
  document = document;
  created_by = none;
  status = "draft";
}

abbrev created : Store
created = record { policies = row "1.0.0" "a" ∷ []; policy_versions = version "1.0.0" "a" ∷ [] }

abbrev updated : Store
updated = record {
  policies = row "1.0.1" "b" ∷ [];
  policy_versions = version "1.0.1" "b" ∷ version "1.0.0" "a" ∷ [];
}

abbrev rolled : Store
rolled = record updated { policies = row "1.0.0" "a" ∷ [] }

creates :
    create_policy jsonb unmarshal working
      (policy "a")
      (record { policies = []; policy_versions = [] })
    ≡ (none, created)
unfolding create_policy lookup entry
creates = refl

updates : update_policy jsonb unmarshal working (policy " b") "acme" created ≡ (none, updated)
unfolding update_policy find update_where lookup entry
updates = refl

rolls_back : rollback_policy working "p1" "acme" "1.0.0" updated ≡ (none, rolled)
unfolding rollback_policy find update_where
rolls_back = refl

-- An approval marks the version that the policy has.
approves : approve_policy working "p1" "acme" "u1" updated ≡ (
  none,
  record {
    policies = record (row "1.0.1" "b") { approved_by = some "u1" } ∷ [];
    policy_versions = record (version "1.0.1" "b") { status = "active" } ∷ version "1.0.0" "a" ∷ [];
  },
)
unfolding approve_policy update_where
approves = refl

found : get_policy working "p1" "acme" created ≡ ok (row "1.0.0" "a")
unfolding get_policy find
found = refl

found_again : get_policy working "p1" "acme" rolled ≡ ok (row "1.0.0" "a")
unfolding get_policy find
found_again = refl

a_not_b : ◌≢◌ {A = String} "a" " b"
a_not_b e = ground (arith, eq_iff "a" " b")

a_not_c : ◌≢◌ {A = String} "a" "c"
a_not_c e = ground (arith, eq_iff "a" "c")

stored : find (version_of "p1" "1.0.0") created.policy_versions ≡ some (version "1.0.0" "a")
unfolding find
stored = refl

update_rollback_restores_example :
    let (failure, s'') = rollback_policy working "p1" "acme" "1.0.0" updated in
    (failure ≡ none)
    × ((r : PolicyRow) × (get_policy working "p1" "acme" s'' ≡ ok r)
        × (r.document ≡ "a")
        × (r.version ≡ "1.0.0"))
update_rollback_restores_example =
    update_rollback_restores jsonb unmarshal working working (policy " b") (row "1.0.0" "a") "acme"
      (version "1.0.0" "a") created updated found a_not_b updates stored refl refl refl

abbrev renamed : PolicyRow
renamed = record (policy "a") { name = "write"; version = "9" }

abbrev unversioned : Store
unversioned = record created { policies = record (row "9" "a") { name = "write" } ∷ [] }

renames : update_policy jsonb unmarshal working renamed "acme" created ≡ (none, unversioned)
unfolding update_policy find update_where lookup entry
renames = refl
