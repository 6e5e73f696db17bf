-- ===== src/Middleware/Cors/Laws.antt =====
-- Which origins a response names after a refresh of the cache, and the origins of one organization.
use mathlib.Core.Option
use monkeys_identity.Base.{
  ℕ, ◌+◌, ◌<◌, Bool, true, false, ◌||◌, String, List, [], ◌∷◌, ◌++◌, none, some, str_eq, any, ok,
  find, update_where, find-update_where, ◌≡◌, ◌≢◌, ◌↔◌, ◌⊎◌, inl, inr, refl, arith, ◌∙◌, ap,
  Bool-cases, eq_iff,
}
use monkeys_identity.Middleware.Cors.{
  member, DynamicCors, is_allowed_dynamic, handler, OrganizationRow, load_origins_from_db,
  refresh_cache, active_with, update_organization_origins, get_organization_origins, origins_of,
}

member-++ : (o : String) (xs ys : List String) → member o (xs ++ ys) ≡ (member o xs || member o ys)
member-++ o [] ys = refl
member-++ o (x ∷ xs) ys = ground (arith, member-++ o xs ys)

-- With Redis up and no wildcard configured, a response to a request from an origin, at a time
-- after a refresh that succeeded, names the origin exactly if it is a configured one, or the
-- refresh loaded it and is less than the lifetime of the cache ago.
pub handler-refresh_cache :
    (now t : ℕ) (origins : List String) (d : DynamicCors) (origin : String) (options : Bool)
    → origin ≢ ""
    → d.allow_all ≡ false
    → ((handler false t (refresh_cache now (some origins) none d) origin options).allow_origin
        ≡ some origin)
      ↔ ((member origin d.static_origins ≡ true)
          ⊎ ((t < now + 300) × (member origin origins ≡ true)))
unfolding handler is_allowed_dynamic refresh_cache
handler-refresh_cache now t origins d origin options named listed =
    ground (arith, eq_iff origin "", member-++ origin d.static_origins origins)

any-find :
    (p : OrganizationRow → Bool) (rows : List OrganizationRow)
    → any p rows ≡ true
    → (row : OrganizationRow) × (find p rows ≡ some row)
unfolding find
any-find p [] h = cc
any-find p (row ∷ rows) h = elim (Bool-cases (p row)) [
  | inl e ↦ (row, rw e refl)
  | inr e ↦ let (r, found) = any-find p rows (rw e at h) in (r, rw e found)
]

abbrev with_origins : List String → OrganizationRow → OrganizationRow
with_origins origins row = record row { allowed_origins = some origins }

loaded_after :
    (id origin : String) (origins : List String) (rows : List OrganizationRow)
    → any (active_with id) rows ≡ true
    → member origin origins ≡ true
    → member origin
        (load_origins_from_db (update_where (active_with id) (with_origins origins) rows))
      ≡ true
unfolding load_origins_from_db update_where
loaded_after id origin origins [] h m = cc
loaded_after id origin origins (row ∷ rows) h m = elim (Bool-cases (active_with id row)) [
  | inl e ↦
      let live : str_eq row.status "deleted" ≡ false = ground (arith, e) in
      let later =
        load_origins_from_db (update_where (active_with id) (with_origins origins) rows) in
      rw e (rw live (rw (member-++ origin origins later) (ground (arith, m))))
  | inr e ↦
      let later =
        load_origins_from_db (update_where (active_with id) (with_origins origins) rows) in
      let ih = loaded_after id origin origins rows (ground (arith, e)) m in
      rw e (rw (member-++ origin (origins_of row) later) (ground (arith, ih)))
]

found_origins :
    (id : String) (origins : List String) (rows : List OrganizationRow) (row : OrganizationRow)
    → find (active_with id) rows ≡ some (with_origins origins row)
    → get_organization_origins false id rows ≡ ok origins
unfolding get_organization_origins
found_origins id origins rows row found = ground (arith, found)

-- The origins that are set for an organization are read back, and each of them is among those
-- that the next refresh loads.
pub update_then_load :
    (down : Bool) (id origin : String) (origins : List String) (rows rows' : List OrganizationRow)
    → update_organization_origins down id origins rows ≡ ok rows'
    → member origin origins ≡ true
    → (get_organization_origins false id rows' ≡ ok origins)
      × (member origin (load_origins_from_db rows') ≡ true)
unfolding update_organization_origins
update_then_load down id origin origins rows rows' h m =
    let there : any (active_with id) rows ≡ true = ground arith in
    let same : update_where (active_with id) (with_origins origins) rows ≡ rows' = ground arith in
    let (row, found) = any-find (active_with id) rows there in
    let after = find-update_where (active_with id) (with_origins origins) (λ r. refl) rows in
    (
      rw (← same)
          (found_origins id origins _ row (after ∙ ap (Option.map (with_origins origins)) found)),
      rw (← same) (loaded_after id origin origins rows there m),
    )
