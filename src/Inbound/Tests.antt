-- ===== src/Inbound/Tests.antt =====
-- A setup with a secret of 32 bytes.
use nexus_node.Common.{Bool, true, false, Option, none, some, ok, ◌≡◌, String, str_eq}
use nexus_node.Common.Text.{Bytes, codes}
use nexus_node.Config.{File}
use nexus_node.Config.Secret.{Secret, load_jwt_secret_from_env}
use nexus_node.Inbound.{Env, Running, post_setup}
use nexus_node.Inbound.Secrets.{post_setup-secret}

abbrev listens : String → Bool
listens addr = true

abbrev dial : String → Secret → Option Bytes
dial to s = some s.secret

abbrev hex_file : Bytes
hex_file = codes "0000000000000000000000000000000000000000000000000000000000000001"

abbrev file : String → File
file path = File.contents hex_file

abbrev env : Env
env = record {
  core_grpc_server_enabled = "true";
  cosmos_grpc_addr = "";
  core_grpc_addr = "";
  jwt_secret_path = "/jwt.hex";
}

post_setup-secret_test :
    ((r : Running Bytes)
      → post_setup listens dial file env ≡ ok (some r)
      → (str_eq env.core_grpc_server_enabled "true" ≡ true)
        × (listens r.server.address ≡ true)
        × (r.server.impl.started ≡ true)
        × ((s : Secret) × (load_jwt_secret_from_env file env.jwt_secret_path ≡ ok s)
            × (r.server.secret ≡ s)
            × ((to : String) × (dial to s ≡ some r.core_client))))
    × (str_eq env.core_grpc_server_enabled "true" ≡ false
        → post_setup listens dial file env ≡ ok none)
post_setup-secret_test = post_setup-secret listens dial file env
