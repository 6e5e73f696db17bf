-- ===== src/Oidc/Handlers/Tenancy.antt =====
-- Which organizations the management of clients keeps apart.
use monkeys_identity.Base.{
  ℕ, true, false, String, List, [], ◌∷◌, some, str_eq, any, find, update_where, ok, ◌≡◌, ◌≢◌, refl,
  arith, inl, inr, eq_iff, Bool-cases, find-update_where, find-untouched, find_sound,
}
use monkeys_identity.Oidc.{OauthClient, Tables, Faults}
use monkeys_identity.Oidc.Clients.{
  client_with, client_of, update_client, delete_client, rewritten, merged,
}
use monkeys_identity.Oidc.Handlers.{
  ClientRequest, updated, update_client_endpoint, delete_client_endpoint, new_client,
}

-- The first live client with an id is also the first of its own organization.
find-own :
    (id : String) (cs : List OauthClient) (client : OauthClient)
    → find (client_with id) cs ≡ some client
    → find (client_of id client.organization_id) cs ≡ some client
unfolding find
find-own id [] client h = cc
find-own id (c ∷ cs) client h = elim (Bool-cases (client_with id c)) [
  | inl here ↦
      let h' = rw here at h in
      let same : c ≡ client = ground arith in
      rw same
        (ground (arith, rw same at here, eq_iff client.organization_id client.organization_id))
  | inr not_here ↦
      let h' = rw not_here at h in
      let later = find-own id cs client h' in ground (arith, not_here, later)
]

-- The tables after an update of the client with an id.
update_client-rows :
    (f : Faults) (now : ℕ) (t : Tables) (id : String) (client new : OauthClient)
    → f.get_client ≡ false
    → f.write_client ≡ false
    → find (client_with id) t.oauth_clients ≡ some client
    → update_client f now t id new
      ≡ ok (record t {
        oauth_clients =
            update_where
              (client_of id client.organization_id)
              (rewritten (merged now client new))
              t.oauth_clients;
      })
unfolding update_client
update_client-rows f now t id client new up up' found =
    let mine : str_eq client.id id ≡ true =
      ground (arith, find_sound (client_with id) t.oauth_clients client found) in
    let name : client.id ≡ id = ground (arith, eq_iff client.id id) in
    rw (up, found) (rw up' (rw name refl))

module _ (f : Faults) (now : ℕ) where
  -- After deleting a client as the caller of one organization, every live client of another
  -- organization is found as before.
  pub delete_client_own :
      (org_id other id id' : String) (t : Tables)
      → other ≢ org_id
      → find (client_of id' other) ((delete_client_endpoint f now org_id id t).1).oauth_clients
        ≡ find (client_of id' other) t.oauth_clients
  unfolding delete_client_endpoint delete_client
  delete_client_own org_id other id id' t apart = elim (Bool-cases (f.write_client)) [
    | inl failed ↦ ground (arith, failed)
    | inr up ↦ elim (Bool-cases (any (client_of id org_id) t.oauth_clients)) [
      | inr none_there ↦ ground (arith, up, none_there)
      | inl there ↦ ground (
        arith,
        up,
        there,
        find-untouched (client_of id' other) (client_of id org_id)
            (λ c. record c { deleted_at = some now })
            (λ c own.
              ground (
                arith,
                own,
                apart,
                eq_iff c.organization_id org_id,
                eq_iff c.organization_id other,
              ))
            (λ c own. ground (arith, own)) t.oauth_clients,
      )
    ]
  ]

  -- Where the database does not fail, updating a client as the caller of any organization
  -- rewrites the redirect addresses of the live client with that id, whose organization the
  -- handler does not compare with the caller's.
  pub update_client_any_org :
      (org_id id : String) (req : ClientRequest) (client : OauthClient) (t : Tables)
      → f.get_client ≡ false
      → f.write_client ≡ false
      → id ≢ ""
      → find (client_with id) t.oauth_clients ≡ some client
      → ((update_client_endpoint f now org_id id (some req) t).0 ≡ updated)
        × ((c : OauthClient) × (find
                (client_of id client.organization_id)
                ((update_client_endpoint f now org_id id (some req) t).1).oauth_clients
              ≡ some c)
            × (c.redirect_uris ≡ req.redirect_uris))
  unfolding update_client_endpoint
  update_client_any_org org_id id req client t up up' named found =
      let new = record (new_client now "" "" "" req) { scope = req.scope } in
      let rows = update_client-rows f now t id client new up up' found in
      let own = find-own id t.oauth_clients client found in
      let after =
        find-update_where (client_of id client.organization_id) (rewritten (merged now client new))
          (λ row. refl) t.oauth_clients in
      let named' : str_eq id "" ≡ false = ground (arith, eq_iff id "") in
      rw (named', rows) (refl, (rewritten (merged now client new) client, rw own at after, refl))
