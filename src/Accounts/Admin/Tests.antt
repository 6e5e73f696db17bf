-- ===== src/Accounts/Admin/Tests.antt =====
-- The bootstrap at concrete inputs.
use monkeys_identity.Base.{
  true, false, codes, [], ◌∷◌, none, some, str_eq, find, ◌≡◌, refl, arith, eq_iff, inl, inr,
}
use monkeys_identity.Platform.{ascii}
use monkeys_identity.Accounts.{Role, Crypto, refused, answered}
use monkeys_identity.Accounts.Recovery.{RegisterRequest, new_user}
use monkeys_identity.Accounts.Admin.{Tables, Bootstrap, create_admin, assignment, full_access}
use monkeys_identity.Accounts.Admin.Laws.{create_admin_once}

abbrev cr : Crypto
cr = record {
  generate_from_password = λ salt password. some password;
  compare = str_eq;
  verify_totp = λ t passcode secret. str_eq passcode secret;
  compare_generate = λ salt password hash e. ground (arith, eq_iff hash password);
}

abbrev drawn : Bootstrap
drawn = record {
  now = 5;
  user_id = "u1";
  organization_id = "0123456789";
  role_id = "r1";
  policy_id = "p1";
  read = false;
  transaction = false;
}

abbrev body : RegisterRequest
body = record {
  username = "root";
  email = codes "root@a";
  password = "pw";
  display_name = "Root";
  organization_id = "";
}

abbrev empty : Tables
empty = record {
  organizations = [];
  users = [];
  roles = [];
  role_assignments = [];
  policies = [];
  role_policies = [];
}

abbrev admin_role : Role
admin_role = record {
  id = "r1";
  name = "admin";
  organization_id = "0123456789";
  is_system_role = true;
  status = "active";
  created_at = 5;
  deleted_at = none;
}

-- A new organization is named by the first eight characters of its id.
abbrev made : Tables
made = record {
  organizations = record { id = "0123456789"; slug = "admin-org-01234567"; deleted_at = none } ∷ [];
  users =
      record (new_user ascii "u1" "pw" body) {
        email_verified = true;
        organization_id = "0123456789";
      }
      ∷ [];
  roles = admin_role ∷ [];
  role_assignments = assignment "r1" "u1" ∷ [];
  policies =
      record {
        id = "p1";
        name = "FullAccess";
        organization_id = "0123456789";
        document = full_access;
        status = "active";
        deleted_at = none;
      }
      ∷ [];
  role_policies = record { role_id = "r1"; policy_id = "p1" } ∷ [];
}

makes : create_admin cr ascii 1 drawn (some body) empty ≡ (answered "u1", made)
unfolding create_admin find
makes = refl

-- Another role and its assignment were added since.
abbrev later : Tables
later = record made {
  roles = record admin_role { id = "r2"; name = "editor" } ∷ admin_role ∷ [];
  role_assignments = assignment "r2" "u2" ∷ assignment "r1" "u1" ∷ [];
}

create_admin_once_example :
    create_admin cr ascii 2 drawn (some body) later
    ≡ (refused 409 "Admin user already exists in the system", later)
create_admin_once_example =
    create_admin_once cr ascii 1 2 drawn drawn body body "u1" empty made later makes
      (inr (inl refl), tt) (inr (inl refl), tt) refl
