-- ===== src/Config/Secret/Tests.antt =====
-- A secret file with "0x" in front and a line end behind.
use nexus_node.Common.{
  ℕ, zero, suc, ◌<◌, ◌≡◌, refl, true, [], ◌∷◌, ◌++◌, All, ok, err, String, arith,
}
use nexus_node.Common.Text.{Bytes, codes}
use nexus_node.Config.{File, contents}
use nexus_node.Config.Secret.{
  load_jwt_secret, load_jwt_secret_from_env, parse_secret, trim_space, trim_left, trim_right,
  trim_0x, wrong_length, no_variable,
}
use nexus_node.Config.Secret.Roundtrip.{encode_hex, prefixed, load_jwt_secret-prefixed}

abbrev pub fill : ℕ → Bytes
fill zero = []
fill (suc n) = 171 ∷ fill n

pub fill-small : (n : ℕ) → All (λ d. d < 256) (fill n)
fill-small zero = tt
fill-small (suc n) = (omega arith, fill-small n)

abbrev pub content : Bytes
content = [] ++ (prefixed true (encode_hex (fill 32)) ++ (10 ∷ []))

abbrev disk : String → File
disk path = contents content

short : parse_secret (codes " 0xab ") ≡ err wrong_length
unfolding parse_secret trim_space trim_left trim_right trim_0x
short = refl

no_path : load_jwt_secret_from_env disk "" ≡ err no_variable
unfolding load_jwt_secret_from_env
no_path = refl

load_jwt_secret-prefixed_example : load_jwt_secret disk "jwt.hex" ≡ ok (record { secret = fill 32 })
load_jwt_secret-prefixed_example =
    load_jwt_secret-prefixed disk "jwt.hex" true [] (10 ∷ []) (fill 32) refl tt (refl, tt)
      (fill-small 32) refl
