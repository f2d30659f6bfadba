-- ===== src/Auth.antt =====
-- cosmos/lib/grpc_jwt.go, `RoundTrip` of cosmos/lib/jwt.go and cosmos/lib/core_client.go: the tokens
-- that authenticate requests, and the client of the core's engine. The JWT library, the middleware that
-- reads a bearer token from metadata, HTTP and gRPC are arguments.
pub mod Accepts
mod Tests
use nexus_node.Common.{
  ℕ, Option, none, some, List, [], ◌∷◌, ◌++◌, Result, Done, ok, err, ◌>>=◌, ◌>>◌, fail_if, Bool,
  true, false, not, String, str_eq, is_some, if◌then◌else◌,
}
use nexus_node.Common.Text.{Bytes, codes, bytes_eq}
use nexus_node.Config.{File}
use nexus_node.Config.Secret.{Secret, SecretError, load_jwt_secret_from_env}

-- The signing method of a token, by its algorithm.
pub data Method : Type 0 where
  hmac other : String → Method

abbrev pub alg : Method → String
alg (hmac a) = a
alg (other a) = a

-- `jwt.SigningMethodHS256`
abbrev pub hs256 : Method
hs256 = hmac "HS256"

pub data TokenError : Type 0 where
  unsigned unexpected_method unexpected_algorithm unparsed invalid : TokenError

-- `SignedString` of a token with the claim `iat`, and `jwt.Parse` at a time with a key function, which
-- gives `token.Valid`; any error of the key function makes it fail.
pub record Jwt : Type 0 where
  pub signed_string : Method → ℕ → Bytes → Option Bytes
  pub parse : ℕ → Bytes → (Method → Result TokenError Bytes) → Option Bool

signed : Option Bytes → Result TokenError Bytes
signed none = err unsigned
signed (some t) = ok t

-- `GenerateToken`; `now` is `time.Now().Unix()`.
pub generate_token : Jwt → Secret → ℕ → Result TokenError Bytes
unfolding signed
generate_token jwt s now = signed (jwt.signed_string hs256 now s.secret)

-- The key function of `ValidateToken`.
pub key_for : Secret → Method → Result TokenError Bytes
key_for s (other a) = err unexpected_method
key_for s (hmac a) = if str_eq a (alg hs256) then ok s.secret else err unexpected_algorithm

judged : Option Bool → Result TokenError Done
judged none = err unparsed
judged (some false) = err invalid
judged (some true) = ok tt

-- `ValidateToken`
pub validate_token : Jwt → Secret → ℕ → Bytes → Result TokenError Done
unfolding judged
validate_token jwt s now token = judged (jwt.parse now token (key_for s))

-- Metadata and HTTP headers as keys with values, in the order in which they were added.
abbrev pub Metadata : Type 0
Metadata = List (Bytes × Bytes)

pub data AuthError : Type 0 where
  no_token : AuthError
  unauthenticated internal : TokenError → AuthError

admitted : Result TokenError Done → Result AuthError Done
admitted (ok u) = ok tt
admitted (err e) = err (unauthenticated e)

with_token : Jwt → Secret → ℕ → Option Bytes → Result AuthError Done
unfolding admitted
with_token jwt s now none = err no_token
with_token jwt s now (some token) = admitted (validate_token jwt s now token)

-- `AuthFunc`; `auth_from_md` finds the token behind a scheme, or fails.
pub auth_func :
    Jwt → (Metadata → Bytes → Option Bytes) → Secret → ℕ → Metadata → Result AuthError Done
unfolding with_token
auth_func jwt auth_from_md s now md = with_token jwt s now (auth_from_md md (codes "bearer"))

abbrev pub bearer : Bytes → Bytes
bearer token = codes "Bearer " ++ token

-- `metadata.AppendToOutgoingContext`, and the call with the result.
outgoing : {R : Type 0} → (Metadata → R) → Metadata → Result TokenError Bytes → Result AuthError R
outgoing invoker md (err e) = err (internal e)
outgoing invoker md (ok token) = ok (invoker (md ++ ((codes "authorization", bearer token) ∷ [])))

-- `JWTUnaryClientInterceptor`: the call goes on with the token in its metadata.
pub jwt_unary_client_interceptor :
    {R : Type 0} → Jwt → Secret → ℕ → (Metadata → R) → Metadata → Result AuthError R
unfolding outgoing
jwt_unary_client_interceptor jwt s now invoker md = outgoing invoker md (generate_token jwt s now)

responded : {R E : Type 0} → Result E R → Result (Option E) R
responded (ok response) = ok response
responded (err e) = err (some e)

-- The headers of other keys than the one given.
without : Bytes → Metadata → Metadata
without key [] = []
without key ((k, v) ∷ rest) =
    let others = without key rest in if bytes_eq k key then others else (k, v) ∷ others

-- `Header.Set` replaces the values of the key.
carried :
    {R E : Type 0}
    → (Metadata → Result E R)
    → Metadata
    → Result TokenError Bytes
    → Result (Option E) R
unfolding responded without
carried transport header (err e) = err none
carried transport header (ok token) = responded (
    transport
      (without (codes "Authorization") header ++ ((codes "Authorization", bearer token) ∷ [])))

-- `RoundTrip` of the HTTP client; its error is the transport's, or `none` for the token's.
pub round_trip :
    {R E : Type 0} → Jwt → Secret → ℕ → (Metadata → Result E R) → Metadata → Result (Option E) R
unfolding carried
round_trip jwt s now transport header = carried transport header (generate_token jwt s now)

-- `GetCoreAddr`
unfoldable pub get_core_addr : String → String
get_core_addr addr = if str_eq addr "" then "localhost:50051" else addr

pub data CoreError (E : Type 0) : Type 0 where
  no_secret : SecretError → CoreError E
  not_dialled incomplete : CoreError E
  remote : E → CoreError E

unfoldable pub dialled :
    {E C : Type 0}
    → (String → Secret → Option C)
    → String
    → Result SecretError Secret
    → Result (CoreError E) C
dialled dial addr (err e) = err (no_secret e)
dialled dial addr (ok s) = elim (dial (if str_eq addr "" then "localhost:50051" else addr) s) [
  | none ↦ err not_dialled
  | some c ↦ ok c
]

-- `NewCoreClient`; `dial` makes a connection whose interceptor has the secret.
unfoldable pub new_core_client :
    {E C : Type 0}
    → (String → Secret → Option C)
    → (String → File)
    → String
    → String
    → Result (CoreError E) C
unfolding dialled
new_core_client dial file secret_path addr =
    dialled dial addr (load_jwt_secret_from_env file secret_path)

-- A pointer to a request, to its block and to the block's header.
abbrev pub PayloadRequest : Type 0 → Type 0
PayloadRequest Header = Option (Option (Option Header))

answered : {E R : Type 0} → Result E R → Result (CoreError E) R
answered (ok r) = ok r
answered (err e) = err (remote e)

-- `NewPayload` of the core client; `call` is the gRPC stub's.
pub core_new_payload :
    {E R Header : Type 0} → (Header → Result E R) → PayloadRequest Header → Result (CoreError E) R
unfolding answered
core_new_payload call (some (some (some header))) = answered (call header)
core_new_payload call _ = err incomplete

-- `ForkchoiceUpdated` of the core client, of a request by its forkchoice state.
pub core_forkchoice_updated :
    {E R State : Type 0} → (State → Result E R) → Option (Option State) → Result (CoreError E) R
unfolding answered
core_forkchoice_updated call (some (some state)) = answered (call state)
core_forkchoice_updated call _ = err incomplete
