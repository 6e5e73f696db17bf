-- ===== src/Accounts/Roles/Laws.antt =====
-- Which role a token is given: the expiry of the assignments does not matter.
use monkeys_identity.Base.{ℕ, Bool, String, List, [], ◌∷◌, Option, map, ◌≡◌, refl}
use monkeys_identity.Accounts.{Role, Assignment}
use monkeys_identity.Accounts.Roles.{roles_of, get_primary_role_for_user}

abbrev pub moved : (Assignment → Option ℕ) → Assignment → Assignment
moved expiry a = record a { expires_at = expiry a }

roles_of-moved :
    (expiry : Assignment → Option ℕ) (user_id org_id : String) (roles : List Role)
    (rows : List Assignment)
    → roles_of user_id org_id roles (map (moved expiry) rows) ≡ roles_of user_id org_id roles rows
unfolding roles_of
roles_of-moved expiry user_id org_id roles [] = refl
roles_of-moved expiry user_id org_id roles (a ∷ rows) =
    rw (roles_of-moved expiry user_id org_id roles rows) refl

-- The role of a token is the same whatever the expiry of the assignments is.
pub primary_role_ignores_expiry :
    (expiry : Assignment → Option ℕ) (down : Bool) (user_id org_id : String) (roles : List Role)
    (rows : List Assignment)
    → get_primary_role_for_user down user_id org_id roles (map (moved expiry) rows)
      ≡ get_primary_role_for_user down user_id org_id roles rows
unfolding get_primary_role_for_user
primary_role_ignores_expiry expiry down user_id org_id roles rows =
    rw (roles_of-moved expiry user_id org_id roles rows) refl
