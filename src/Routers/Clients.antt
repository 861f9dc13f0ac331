-- ===== src/Routers/Clients.antt =====
-- acme_api/routers/admin_clients.py: the administration of API clients.
use acme_api.Common.{ℕ, String, Option, List, ◌≡◌, refl, ◌⊎◌, inl, inr, arith, Bool, true, false}
use acme_api.Auth.Keys.{Role, admin, ApiKey, Digests, ClientStore}
use acme_api.Auth.Access.{
  AuthenticatedUser, Access, granted, unauthorized, forbidden, authenticate, require_admin,
  admin_only,
}
use acme_api.Auth.Clients.{
  ClientError, name_taken, not_found, Provisioned, done, failed, create_client, rotate_client,
  revoke_client,
}
use acme_api.Schemas.Bodies.{has_length}

-- What the responses say: clients, or a client with its credential.
pub data ClientReply : Type 0 where
  clients : List ApiKey → ClientReply
  client : ApiKey → ClientReply
  credential : (status : ℕ) → ApiKey → (raw : String) → ClientReply
  refused : ℕ → String → ClientReply
  raised : ClientError → ClientReply

-- The requests; the id, the salt and the credential of a new client are drawn at random.
pub data ClientCall : Type 0 where
  list : ClientCall
  provision : (id salt : ℕ) → (raw name : String) → Role → ClientCall
  rotate : (salt : ℕ) → (raw : String) → ℕ → ClientCall
  revoke : ℕ → ClientCall

abbrev pub Handler : Type 0
Handler = ClientStore → ClientReply × ClientStore

abbrev pub with_admin : Access → Handler → Handler
with_admin (granted u) handler s = handler s
with_admin (unauthorized m) handler s = (refused 401 m, s)
with_admin (forbidden m) handler s = (refused 403 m, s)

abbrev client_error : ClientError → ClientReply
client_error not_found = refused 404 "API client not found."
client_error e = raised e

abbrev provision_error : ClientError → ClientReply
provision_error name_taken = refused 409 "API client name already exists."
provision_error e = raised e

abbrev reply_with :
    (ClientError → ClientReply)
    → (ApiKey → ClientReply)
    → Provisioned ApiKey × ClientStore
    → ClientReply × ClientStore
reply_with on_error on_client (done k, s) = (on_client k, s)
reply_with on_error on_client (failed e, s) = (on_error e, s)

abbrev when_named : Bool → Handler → Handler
when_named true handler s = handler s
when_named false handler s = (refused 422 "Input should be valid", s)

module _ (d : Digests) where
  unfoldable pub perform_admin : ClientCall → Handler
  unfolding create_client rotate_client revoke_client
  perform_admin list s = (clients s.clients, s)
  perform_admin (provision id salt raw name role) s =
      when_named (has_length 1 255 name)
        (λ s'.
          reply_with provision_error (λ k. credential 201 k raw)
            (create_client d id salt raw name role s'))
        s
  perform_admin (rotate salt raw id) s =
      reply_with client_error (λ k. credential 200 k raw) (rotate_client d id salt raw s)
  perform_admin (revoke id) s = reply_with client_error client (revoke_client id s)

  unfoldable pub handle_admin : ℕ → Option String → ClientCall → Handler
  unfolding perform_admin require_admin
  handle_admin now header call s =
      with_admin (require_admin d s.clients now header) (perform_admin call) s

module _ (d : Digests) (now : ℕ) (header : Option String) (s : ClientStore) where
  admin_access :
      (a : Access) (u : AuthenticatedUser)
      → admin_only a ≡ granted u
      → (a ≡ granted u) × (u.role ≡ admin)
  admin_access (granted v) u h = ground arith
  admin_access (unauthorized m) u h = ground arith
  admin_access (forbidden m) u h = ground arith

  by_access :
      (a : Access) (call : ClientCall)
      → require_admin d s.clients now header ≡ a
      → ((status : ℕ) × (m : String) × (with_admin a (perform_admin d call) s
            ≡ (refused status m, s)))
        ⊎ ((u : AuthenticatedUser) × (authenticate d s.clients now header ≡ granted u)
            × (u.role ≡ admin))
  unfolding require_admin
  by_access (unauthorized m) call e = inl (401, m, refl)
  by_access (forbidden m) call e = inl (403, m, refl)
  by_access (granted u) call e =
      let (p, q) = admin_access (authenticate d s.clients now header) u e in inr (u, p, q)

  -- A request about API clients is refused and changes nothing, or it comes from an administrator.
  clients_need_admin :
      (call : ClientCall)
      → ((status : ℕ) × (m : String) × (handle_admin d now header call s ≡ (refused status m, s)))
        ⊎ ((u : AuthenticatedUser) × (authenticate d s.clients now header ≡ granted u)
            × (u.role ≡ admin))
  unfolding handle_admin
  clients_need_admin call = by_access (require_admin d s.clients now header) call refl
