-- ===== src/Inbound.antt =====
-- cosmos/lib/cosmos_grpc_server.go and `PostSetup` of cosmos/cmd/nexusd/cmd/commands.go: the server
-- that the core calls, and how it is started with the client to the core. The network and gRPC are
-- arguments; the server's interceptor is `auth_func` of Auth with the server's secret.
mod Secrets
mod Tests
use nexus_node.Common.{
  ℕ, Bool, true, false, List, [], ◌∷◌, Option, none, some, Result, Done, ok, err, ◌>>=◌, ◌>>◌,
  String, str_eq, not, if◌then◌else◌,
}
use nexus_node.Common.Text.{Bytes}
use nexus_node.Config.{File}
use nexus_node.Config.Secret.{Secret, SecretError, load_jwt_secret_from_env}
use nexus_node.Auth.{CoreError, get_core_addr, new_core_client}

pub record ServerImpl : Type 0 where
  pub version : String
  pub get_height : ℕ
  -- Whether `grpcServer` is set, which `Stop` asks before it stops the server.
  pub started : Bool

abbrev pub new_cosmos_server : String → ℕ → ServerImpl
new_cosmos_server version height = record {
  version = version;
  get_height = height;
  started = false;
}

pub record HealthCheckResponse : Type 0 where
  pub sender_id : Bytes
  pub block_height : ℕ
  pub timestamp : ℕ

-- `HealthCheck` at a time in milliseconds.
abbrev pub health_check : ServerImpl → ℕ → Bytes → Result String HealthCheckResponse
health_check s now sender =
    ok (record { sender_id = sender; block_height = s.get_height; timestamp = now })

-- `HealthCheck` of `MockCosmosServer`
abbrev pub mock_health_check : Bytes → Result String HealthCheckResponse
mock_health_check sender = err "mock: Cosmos service server not configured"

pub data SetupError : Type 0 where
  no_secret : SecretError → SetupError
  not_listening : SetupError
  no_client : CoreError String → SetupError

-- A server that listens: the address and the secret of its interceptor.
pub record Server : Type 0 where
  pub address : String
  pub secret : Secret
  pub impl : ServerImpl

-- `lib.GRPCDefaultAddr`
abbrev pub default_addr : String
default_addr = "0.0.0.0:50052"

abbrev pub addr_or_default : String → String
addr_or_default addr = if str_eq addr "" then default_addr else addr

-- `StartGRPCServerInternal`; `listens` tells whether `net.Listen` can have the address.
unfoldable pub start_grpc_server_internal :
    (String → Bool) → String → ServerImpl → Secret → Result SetupError Server
start_grpc_server_internal listens addr impl secret =
    if listens (addr_or_default addr)
    then ok (record {
      address = addr_or_default addr;
      secret = secret;
      impl = record impl { started = true };
    })
    else err not_listening

unfoldable pub secret_or_error : Result SecretError Secret → Result SetupError Secret
secret_or_error (ok s) = ok s
secret_or_error (err e) = err (no_secret e)

unfoldable pub start_grpc_server :
    (String → Bool) → (String → File) → String → String → ServerImpl → Result SetupError Server
unfolding secret_or_error
start_grpc_server listens file secret_path addr impl =
    secret_or_error (load_jwt_secret_from_env file secret_path) >>= λ secret.
    start_grpc_server_internal listens addr impl secret

-- What `Serve` puts on the channel before it is closed.
abbrev pub serve_errors : Result String Done → List String
serve_errors (ok d) = []
serve_errors (err e) = e ∷ []

-- The variables of the environment that the setup reads.
pub record Env : Type 0 where
  pub core_grpc_server_enabled : String
  pub cosmos_grpc_addr : String
  pub core_grpc_addr : String
  pub jwt_secret_path : String

pub record Running (C : Type 0) : Type 0 where
  pub server : Server
  pub core_client : C

unfoldable pub client_or_error : {C : Type 0} → Result (CoreError String) C → Result SetupError C
client_or_error (ok c) = ok c
client_or_error (err e) = err (no_client e)

-- The part of `PostSetup` after the check of the variable.
unfoldable pub start_both :
    {C : Type 0}
    → (String → Bool)
    → (String → Secret → Option C)
    → (String → File)
    → Env
    → Result SetupError (Option (Running C))
unfolding client_or_error
start_both listens dial file env = do
  server ←
      start_grpc_server listens file env.jwt_secret_path (addr_or_default env.cosmos_grpc_addr)
        (new_cosmos_server "" 0)
  client ←
      client_or_error
        (new_core_client dial file env.jwt_secret_path (get_core_addr env.core_grpc_addr))
  ok (some (record { server = server; core_client = client }))

-- `PostSetup`: nothing is started unless the variable is `true`. `dial` makes a connection whose
-- interceptor has the secret.
unfoldable pub post_setup :
    {C : Type 0}
    → (String → Bool)
    → (String → Secret → Option C)
    → (String → File)
    → Env
    → Result SetupError (Option (Running C))
post_setup listens dial file env =
    if str_eq env.core_grpc_server_enabled "true" then start_both listens dial file env else ok none

-- How the goroutine that waits for the end goes on: the context is done, or the server's channel gives
-- an error, or it is closed, which gives nil.
pub data End : Type 0 where
  cancelled closed : End
  failed : String → End

-- Whether the server is stopped, whether the client is closed, and the error. An error of `Close` is
-- only logged.
abbrev pub shut_down : End → Bool × Bool × Result String Done
shut_down cancelled = (true, true, ok tt)
shut_down closed = (false, false, ok tt)
shut_down (failed e) = (false, false, err e)
