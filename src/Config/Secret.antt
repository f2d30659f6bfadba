-- ===== src/Config/Secret.antt =====
-- cosmos/lib/jwt.go and cosmos/lib/grpc_jwt.go: how a node loads the secret of its engine's connection
-- and of the gRPC API.
pub mod Roundtrip
pub mod Bounds
pub mod Tests
use nexus_node.Common.{
  ℕ, ◌+◌, ◌-◌, ◌*◌, Bool, true, false, not, ◌&&◌, ◌||◌, Option, none, some, List, [], ◌∷◌, Result,
  Done, ok, err, ◌>>=◌, ◌>>◌, fail_if, is_empty, length, ◌==◌, leb, String, str_eq, if◌then◌else◌,
}
use nexus_node.Common.Text.{Bytes, has_prefix}
use nexus_node.Config.{File, missing, unreadable, contents}

-- `JwtSecret`
pub record Secret : Type 0 where
  pub secret : Bytes

-- `no_variable` is the error of `LoadJWTSecretFromEnv`.
pub data SecretError : Type 0 where
  no_file wrong_length not_hex no_variable : SecretError

-- The spaces of ASCII: tab, newline, vertical tab, form feed, carriage return, space.
abbrev pub is_space : ℕ → Bool
is_space c = leb 9 c && leb c 13 || c == 32

trim_left : Bytes → Bytes
trim_left [] = []
trim_left (c ∷ s) = let rest = trim_left s in if is_space c then rest else c ∷ s

trim_right : Bytes → Bytes
trim_right [] = []
trim_right (c ∷ s) = let rest = trim_right s in if is_empty rest && is_space c then [] else c ∷ rest

-- `bytes.TrimSpace`, of ASCII
pub trim_space : Bytes → Bytes
unfolding trim_left trim_right
trim_space s = trim_right (trim_left s)

-- `bytes.TrimPrefix(secret, []byte("0x"))`
pub trim_0x : Bytes → Bytes
trim_0x (c ∷ d ∷ s) = if c == b'0' && d == b'x' then s else c ∷ d ∷ s
trim_0x s = s

-- The value of a hexadecimal digit.
nibble : ℕ → Option ℕ
nibble c =
    if leb b'0' c && leb c b'9'
    then some (c - b'0')
    else if leb b'a' c && leb c b'f'
    then some (c - b'a' + 10)
    else if leb b'A' c && leb c b'F'
    then some (c - b'A' + 10)
    else none

joined : Option ℕ → Option ℕ → Option Bytes → Option Bytes
joined (some h) (some l) (some rest) = some ((h * 16 + l) ∷ rest)
joined _ _ _ = none

-- `hex.DecodeString`
pub decode_hex : Bytes → Option Bytes
unfolding nibble joined
decode_hex [] = some []
decode_hex (c ∷ []) = none
decode_hex (c ∷ d ∷ s) = joined (nibble c) (nibble d) (decode_hex s)

secret_of : Option Bytes → Result SecretError Secret
secret_of none = err not_hex
secret_of (some b) = ok (record { secret = b })

-- `LoadJWTSecret` behind the reading of the file.
pub parse_secret : Bytes → Result SecretError Secret
unfolding secret_of
parse_secret content = do
  let hex = trim_0x (trim_space content)
  fail_if (not (length hex == 64)) wrong_length
  secret_of (decode_hex hex)

secret_in : File → Result SecretError Secret
secret_in missing = err no_file
secret_in unreadable = err no_file
secret_in (contents b) = parse_secret b

pub load_jwt_secret : (String → File) → String → Result SecretError Secret
unfolding secret_in
load_jwt_secret file path = secret_in (file path)

-- `LoadJWTSecretFromEnv`; `secret_path` is the value of the variable.
pub load_jwt_secret_from_env : (String → File) → String → Result SecretError Secret
load_jwt_secret_from_env file secret_path =
    if str_eq secret_path "" then err no_variable else load_jwt_secret file secret_path
