-- ===== src/Policies/Store.antt =====
-- The statements of internal/queries/policy_queries.go on the tables `policies` and
-- `policy_versions`. The handlers run them without a transaction, so that a failure leaves what was
-- written before it.
pub mod Laws
pub mod Rollback
mod Tests
use monkeys_identity.Base.{
  ℕ, Bool, true, false, not, ◌&&◌, ◌||◌, String, List, [], ◌∷◌, Option, none, some, str_eq, any,
  find, update_where, if◌then◌else◌, Result, ok, err,
}
use monkeys_identity.Authz.Value.{Fields}
use monkeys_identity.Policies.Validation.{ValidationError, validate_policy_document}
use monkeys_identity.Policies.Versions.{increment_version}

-- The columns that these statements read or write, but for the times.
pub record PolicyRow : Type 0 where
  pub id : String
  pub name : String
  pub description : String
  pub version : String
  pub organization_id : String
  pub document : String
  pub policy_type : String
  pub effect : String
  pub is_system_policy : Bool
  pub created_by : Option String
  pub approved_by : Option String
  pub status : String
  pub deleted_at : Option ℕ

pub record PolicyVersion : Type 0 where
  pub policy_id : String
  pub version : String
  pub document : String
  pub created_by : Option String
  pub status : String

pub record Store : Type 0 where
  pub policies : List PolicyRow
  pub policy_versions : List PolicyVersion

-- Which statements of a call fail, but for the constraints.
pub record Failing : Type 0 where
  pub read : Bool
  pub write_policy : Bool
  pub write_version : Bool

pub data StoreError : Type 0 where
  invalid_document policy_not_found version_not_found failed_to_read : StoreError
  failed_to_write_policy failed_to_write_version : StoreError

-- What a call answers, `none` being no error, and what it leaves.
abbrev pub Ended : Type 0
Ended = Option StoreError × Store

abbrev pub is_live : Option ℕ → Bool
is_live none = true
is_live (some t) = false

-- WHERE id = $1 AND organization_id = $2 AND deleted_at IS NULL
abbrev pub policy_of : String → String → PolicyRow → Bool
policy_of id org_id p = str_eq p.id id && str_eq p.organization_id org_id && is_live p.deleted_at

-- WHERE policy_id = $1 AND version = $2, which is unique
abbrev pub version_of : String → String → PolicyVersion → Bool
version_of id version v = str_eq v.policy_id id && str_eq v.version version

abbrev pub found_policy : Option PolicyRow → Result StoreError PolicyRow
found_policy none = err policy_not_found
found_policy (some p) = ok p

unfoldable pub get_policy : Failing → (id org_id : String) → Store → Result StoreError PolicyRow
get_policy f id org_id s =
    if f.read then err failed_to_read else found_policy (find (policy_of id org_id) s.policies)

-- UPDATE policies SET … WHERE id = … AND organization_id = … AND deleted_at IS NULL
abbrev pub write_policies : Failing → (id org_id : String) → (PolicyRow → PolicyRow) → Store → Ended
write_policies f id org_id g s =
    if f.write_policy
    then (some failed_to_write_policy, s)
    else if any (policy_of id org_id) s.policies
    then (none, record s { policies = update_where (policy_of id org_id) g s.policies })
    else (some policy_not_found, s)

-- a default for a column that is ""
abbrev pub or_text : String → String → String
or_text given default = if str_eq given "" then default else given

-- UNIQUE (organization_id, name) and the key
abbrev pub same_name : PolicyRow → PolicyRow → Bool
same_name p q =
    str_eq q.id p.id || (str_eq q.organization_id p.organization_id && str_eq q.name p.name)

abbrev pub created_version : Store → Option Store → Ended
created_version s none = (some failed_to_write_version, s)
created_version s (some s') = (none, s')

abbrev pub checked : Store → Result ValidationError (Unit {0}) → Ended → Ended
checked s (err e) rest = (some invalid_document, s)
checked s (ok done) rest = rest

-- `jsonb text` is how PostgreSQL prints a document that was stored as the text: the columns are of
-- type JSONB, and a row holds what is read back from it.
module _ (jsonb : String → String) where
  abbrev pub draft : PolicyRow → PolicyVersion
  draft p = record {
    policy_id = p.id;
    version = p.version;
    document = jsonb p.document;
    created_by = p.created_by;
    status = "draft";
  }

  -- INSERT INTO policy_versions, which the unique constraint may refuse; `none` is an error.
  unfoldable pub insert_version : Failing → PolicyRow → Store → Option Store
  insert_version f p s =
      if f.write_version || any (version_of p.id p.version) s.policy_versions
      then none
      else some (record s { policy_versions = draft p ∷ s.policy_versions })

  unfoldable pub create_policy : (String → Option Fields) → Failing → PolicyRow → Store → Ended
  unfolding validate_policy_document insert_version
  create_policy unmarshal f p s =
      let q = record p {
        status = or_text p.status "active";
        version = or_text p.version "1.0.0";
        approved_by = none;
        deleted_at = none;
      } in
      checked s (validate_policy_document unmarshal p.document) (
        if f.write_policy || any (same_name q) s.policies
        then (some failed_to_write_policy, s)
        else let s' = record s {
          policies = record q { document = jsonb q.document } ∷ s.policies;
        } in
          created_version s' (insert_version f q s'))

  -- the columns that an update writes
  abbrev pub rewritten : PolicyRow → String → String → PolicyRow → PolicyRow
  rewritten p version status row = record row {
    name = p.name;
    description = p.description;
    version = version;
    document = jsonb p.document;
    policy_type = p.policy_type;
    effect = p.effect;
    status = status;
  }

  -- with the version row written, if there was one to write
  abbrev pub update_written :
      Failing → PolicyRow → (org_id version status : String) → Store → Option Store → Ended
  update_written f p org_id version status s none = (some failed_to_write_version, s)
  update_written f p org_id version status s (some s') =
      write_policies f p.id org_id (rewritten p version status) s'

  abbrev pub update_found :
      Failing → PolicyRow → (org_id : String) → Store → Result StoreError PolicyRow → Ended
  update_found f p org_id s (err e) = (some e, s)
  update_found f p org_id s (ok current) =
      let status = or_text p.status current.status in
      let version = increment_version current.version in
      if str_eq current.document p.document
      then update_written f p org_id p.version status s (some s)
      else update_written f p org_id version status s
          (insert_version f (record p { version = version }) s)

  unfoldable pub update_policy :
      (String → Option Fields) → Failing → PolicyRow → (org_id : String) → Store → Ended
  unfolding validate_policy_document get_policy insert_version increment_version
  update_policy unmarshal f p org_id s =
      checked s (validate_policy_document unmarshal p.document)
        (update_found f p org_id s (get_policy f p.id org_id s))

unfoldable pub delete_policy : Failing → (now : ℕ) → (id org_id : String) → Store → Ended
delete_policy f now id org_id s =
    write_policies f id org_id (λ row. record row { deleted_at = some now; status = "deleted" }) s

-- the versions that are a policy's current one
abbrev pub current_version : List PolicyRow → String → PolicyVersion → Bool
current_version policies id v =
    str_eq v.policy_id id && any (λ p. str_eq p.id id && str_eq p.version v.version) policies

abbrev pub approve_version : Failing → (id : String) → Ended → Ended
approve_version f id (some e, s) = (some e, s)
approve_version f id (none, s) = if f.write_version then (some failed_to_write_version, s) else (
  none,
  record s {
    policy_versions =
        update_where (current_version s.policies id) (λ v. record v { status = "active" })
          s.policy_versions;
  },
)

unfoldable pub approve_policy : Failing → (id org_id approved_by : String) → Store → Ended
approve_policy f id org_id approved_by s = approve_version f id (
    write_policies f id org_id
      (λ row. record row { status = "active"; approved_by = some approved_by }) s)

-- The document that was read back is stored again, as which it is printed as before.
abbrev pub roll_to : Failing → (id org_id : String) → Store → Option PolicyVersion → Ended
roll_to f id org_id s none = (some version_not_found, s)
roll_to f id org_id s (some v) =
    write_policies f id org_id
      (λ row. record row { document = v.document; version = v.version; status = "active" }) s

-- The policy of the version is asked for by its organization, deleted or not.
unfoldable pub rollback_policy : Failing → (id org_id to_version : String) → Store → Ended
rollback_policy f id org_id to_version s =
    if f.read
    then (some failed_to_read, s)
    else roll_to f id org_id s (
        if any (λ p. str_eq p.id id && str_eq p.organization_id org_id) s.policies
        then find (version_of id to_version) s.policy_versions
        else none)
