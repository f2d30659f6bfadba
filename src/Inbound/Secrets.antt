-- ===== src/Inbound/Secrets.antt =====
-- The server and the client of a setup have one secret.
use nexus_node.Common.{
  Bool, true, false, Option, none, some, Result, ok, err, >>=-ok, ok_injective, ◌≡◌, refl, sym, ap,
  ◌∙◌, String, str_eq, if◌then◌else◌, Bool-cases, Option-cases, inl, inr,
}
use nexus_node.Config.{File}
use nexus_node.Config.Secret.{Secret, SecretError, load_jwt_secret_from_env}
use nexus_node.Auth.{dialled, CoreError, get_core_addr, new_core_client}
use nexus_node.Inbound.{
  SetupError, Server, Env, Running, ServerImpl, addr_or_default, secret_or_error,
  start_grpc_server_internal, start_grpc_server, client_or_error, start_both, post_setup,
  new_cosmos_server,
}

start_internal-ok :
    (listens : String → Bool) (addr : String) (impl : ServerImpl) (secret : Secret) (r : Server)
    → start_grpc_server_internal listens addr impl secret ≡ ok r
    → (r.secret ≡ secret) × (listens r.address ≡ true) × (r.impl.started ≡ true)
unfolding start_grpc_server_internal
start_internal-ok listens addr impl secret r h =
    elim (Bool-cases (listens (addr_or_default addr))) [
      | inl e ↦
          let made = rw e at h in
          let same = ok_injective refl made in
          (
            sym (ap (λ (q : Server). q.secret) same),
            sym (ap (λ (q : Server). listens q.address) same) ∙ e,
            sym (ap (λ (q : Server). q.impl.started) same),
          )
      | inr e ↦ let gone = rw e at h in cc
    ]

secret_or_error-ok :
    (r : Result SecretError Secret) (s : Secret) → secret_or_error r ≡ ok s → r ≡ ok s
unfolding secret_or_error
secret_or_error-ok (ok t) s h = ap ok (ok_injective refl h)
secret_or_error-ok (err e) s h = cc

client_or_error-ok :
    {C : Type 0} (r : Result (CoreError String) C) (c : C) → client_or_error r ≡ ok c → r ≡ ok c
unfolding client_or_error
client_or_error-ok (ok d) c h = ap ok (ok_injective refl h)
client_or_error-ok (err e) c h = cc

-- A client was dialled with the secret of the environment.
new_core_client-ok :
    {C : Type 0} (dial : String → Secret → Option C) (file : String → File) (path addr : String)
    (s : Secret) (c : C)
    → load_jwt_secret_from_env file path ≡ ok s
    → new_core_client {E = String} dial file path addr ≡ ok c
    → (to : String) × (dial to s ≡ some c)
unfolding new_core_client dialled
new_core_client-ok dial file path addr s c loaded h =
    let to = if str_eq addr "" then "localhost:50051" else addr in
    let made = rw loaded at h in
    elim (Option-cases (dial to s)) [
      | inl e ↦ let gone = rw (e, dialled) at made in cc
      | inr (d, e) ↦ let got = rw (e, dialled) at made in (to, e ∙ ap some (ok_injective refl got))
    ]

running-same :
    {C : Type 0} (server : Server) (client : C) (r : Running C)
    → ◌≡◌ {A = Result SetupError (Option (Running C))}
        (ok (some (record { server = server; core_client = client })))
        (ok (some r))
    → (server ≡ r.server) × (client ≡ r.core_client)
running-same {C} server client r h =
    let same : ◌≡◌ {A = Running C} (record { server = server; core_client = client }) r = cc in
    (ap (λ (q : Running C). q.server) same, ap (λ (q : Running C). q.core_client) same)

-- Where the setup ends with a server and a client, the variable was `true`, the environment gives a
-- secret, the server's interceptor has it and the client was dialled with it, and the server listens
-- at an address that it can have. Where the variable is not `true`, nothing is started and the secret
-- is not asked for.
pub post_setup-secret :
    {C : Type 0} (listens : String → Bool) (dial : String → Secret → Option C)
    (file : String → File) (env : Env)
    → ((r : Running C)
        → post_setup listens dial file env ≡ ok (some r)
        → (str_eq env.core_grpc_server_enabled "true" ≡ true)
          × (listens r.server.address ≡ true)
          × (r.server.impl.started ≡ true)
          × ((s : Secret) × (load_jwt_secret_from_env file env.jwt_secret_path ≡ ok s)
              × (r.server.secret ≡ s)
              × ((to : String) × (dial to s ≡ some r.core_client))))
      × (str_eq env.core_grpc_server_enabled "true" ≡ false
          → post_setup listens dial file env ≡ ok none)
unfolding post_setup start_both start_grpc_server
post_setup-secret listens dial file env = (
  λ r h. elim (Bool-cases (str_eq env.core_grpc_server_enabled "true")) [
    | inl on ↦
        let both = rw on at h in
        let (server, started, h1) =
          >>=-ok
            (start_grpc_server listens file env.jwt_secret_path
              (addr_or_default env.cosmos_grpc_addr) (new_cosmos_server "" 0))
            _ (some r) both in
        let (client, dialled_ok, h2) =
          >>=-ok
            (client_or_error
              (new_core_client dial file env.jwt_secret_path (get_core_addr env.core_grpc_addr)))
            _ (some r) h1 in
        let (s, loaded, listening) =
          >>=-ok (secret_or_error (load_jwt_secret_from_env file env.jwt_secret_path)) _ server
            started in
        let env_secret = secret_or_error-ok _ s loaded in
        let (own, at_addr, up) = start_internal-ok listens _ _ s server listening in
        let (to, dial_ok) =
          new_core_client-ok dial file env.jwt_secret_path _ s client env_secret
            (client_or_error-ok _ client dialled_ok) in
        let (e_server, e_client) = running-same server client r h2 in
        (
          on,
          ap (λ (q : Server). listens q.address) (sym e_server) ∙ at_addr,
          ap (λ (q : Server). q.impl.started) (sym e_server) ∙ up,
          (
            s,
            env_secret,
            ap (λ (q : Server). q.secret) (sym e_server) ∙ own,
            (to, dial_ok ∙ ap some e_client),
          ),
        )
    | inr off ↦ let gone = rw off at h in cc
  ],
  λ off. rw off refl,
)
