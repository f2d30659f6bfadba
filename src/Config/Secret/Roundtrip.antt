-- ===== src/Config/Secret/Roundtrip.antt =====
-- A secret that is written as operators write it, and what a secret that loads looks like.
use nexus_node.Common.{
  ℕ, ◌+◌, ◌-◌, ◌*◌, ◌/◌, ◌%◌, ◌<◌, ◌≡◌, refl, Bool, true, false, some, [], ◌∷◌, ◌++◌, All, ok,
  length, ltb, ◌==◌, ==_iff, String, if◌then◌else◌, arith,
}
use nexus_node.Common.Text.{Bytes}
use nexus_node.Config.{File, contents}
use nexus_node.Config.Secret.{
  is_space, trim_left, trim_right, trim_space, trim_0x, nibble, joined, decode_hex, secret_of,
  parse_secret, secret_in, load_jwt_secret,
}

-- The lower-case digit of a number below 16.
unfoldable pub digit_of : ℕ → ℕ
digit_of n = if ltb n 10 then b'0' + n else b'a' + (n - 10)

unfoldable pub encode_hex : Bytes → Bytes
unfolding digit_of
encode_hex [] = []
encode_hex (b ∷ s) = digit_of (b / 16) ∷ digit_of (b % 16) ∷ encode_hex s

nibble-digit_of : (n : ℕ) → n < 16 → nibble (digit_of n) ≡ some n
unfolding nibble digit_of
nibble-digit_of n h = ground arith

digit_solid : (n : ℕ) → n < 16 → is_space (digit_of n) ≡ false
unfolding digit_of
digit_solid n h = ground arith

digit_not_x : (n : ℕ) → n < 16 → (digit_of n == b'x') ≡ false
unfolding digit_of
digit_not_x n h = ground arith

decode_hex-encode_hex : (s : Bytes) → All (λ b. b < 256) s → decode_hex (encode_hex s) ≡ some s
unfolding decode_hex encode_hex joined
decode_hex-encode_hex [] small = refl
decode_hex-encode_hex (b ∷ s) (small, rest) =
    let whole : b / 16 * 16 + b % 16 ≡ b = omega arith in
    rw
      (
        nibble-digit_of (b / 16) (omega (arith, small)),
        nibble-digit_of (b % 16) (omega arith),
        decode_hex-encode_hex s rest,
        whole,
      )
      refl

length-encode_hex : (s : Bytes) → length (encode_hex s) ≡ 2 * length s
unfolding encode_hex
length-encode_hex [] = refl
length-encode_hex (b ∷ s) = omega (arith, length-encode_hex s)

abbrev pub IsSolid : Bytes → Type 0
IsSolid s = All (λ c. is_space c ≡ false) s

abbrev pub IsBlank : Bytes → Type 0
IsBlank s = All (λ c. is_space c ≡ true) s

encode_hex-IsSolid : (s : Bytes) → All (λ b. b < 256) s → IsSolid (encode_hex s)
unfolding encode_hex
encode_hex-IsSolid [] small = tt
encode_hex-IsSolid (b ∷ s) (small, rest) = (
  digit_solid (b / 16) (omega (arith, small)),
  (digit_solid (b % 16) (omega arith), encode_hex-IsSolid s rest),
)

trim_left-IsBlank : (a s : Bytes) → IsBlank a → trim_left (a ++ s) ≡ trim_left s
unfolding trim_left
trim_left-IsBlank [] s h = refl
trim_left-IsBlank (c ∷ a) s (h, rest) = rw h (trim_left-IsBlank a s rest)

trim_right-IsBlank : (b : Bytes) → IsBlank b → trim_right b ≡ []
unfolding trim_right
trim_right-IsBlank [] h = refl
trim_right-IsBlank (c ∷ b) (h, rest) = rw (trim_right-IsBlank b rest, h) refl

trim_right-IsSolid : (s b : Bytes) → IsSolid s → IsBlank b → trim_right (s ++ b) ≡ s
unfolding trim_right
trim_right-IsSolid [] b solid blank = trim_right-IsBlank b blank
trim_right-IsSolid (c ∷ s) b (solid, rest) blank =
    rw (trim_right-IsSolid s b rest blank) (ground (arith, solid))

trim_left-solid : (c : ℕ) (s : Bytes) → is_space c ≡ false → trim_left (c ∷ s) ≡ c ∷ s
unfolding trim_left
trim_left-solid c s h = rw h refl

-- Spaces on both sides of a text that has none go.
pub trim_space-IsSolid :
    (a b : Bytes) (c : ℕ) (s : Bytes)
    → IsBlank a
    → IsBlank b
    → IsSolid (c ∷ s)
    → trim_space (a ++ ((c ∷ s) ++ b)) ≡ c ∷ s
unfolding trim_space
trim_space-IsSolid a b c s left right solid =
    rw (trim_left-IsBlank a ((c ∷ s) ++ b) left, trim_left-solid c (s ++ b) solid.0)
      (trim_right-IsSolid (c ∷ s) b solid right)

-- What stands before the digits.
abbrev pub prefixed : Bool → Bytes → Bytes
prefixed true hex = b'0' ∷ b'x' ∷ hex
prefixed false hex = hex

trim_0x-prefixed :
    (p : Bool) (b : ℕ) (s : Bytes) → trim_0x (prefixed p (encode_hex (b ∷ s))) ≡ encode_hex (b ∷ s)
unfolding trim_0x encode_hex
trim_0x-prefixed true b s = refl
trim_0x-prefixed false b s = let plain = digit_not_x (b % 16) (omega arith) in ground (arith, plain)

prefixed-trimmed :
    (p : Bool) (a c : Bytes) (b : ℕ) (s : Bytes)
    → IsBlank a
    → IsBlank c
    → All (λ d. d < 256) (b ∷ s)
    → trim_space (a ++ (prefixed p (encode_hex (b ∷ s)) ++ c)) ≡ prefixed p (encode_hex (b ∷ s))
unfolding encode_hex
prefixed-trimmed true a c b s left right small =
    trim_space-IsSolid a c b'0' (b'x' ∷ encode_hex (b ∷ s)) left right
      (refl, (refl, encode_hex-IsSolid (b ∷ s) small))
prefixed-trimmed false a c b s left right small =
    trim_space-IsSolid a c (digit_of (b / 16)) (digit_of (b % 16) ∷ encode_hex s) left right
      (encode_hex-IsSolid (b ∷ s) small)

parse_secret-prefixed :
    (p : Bool) (a c s : Bytes)
    → IsBlank a
    → IsBlank c
    → All (λ d. d < 256) s
    → length s ≡ 32
    → parse_secret (a ++ (prefixed p (encode_hex s) ++ c)) ≡ ok (record { secret = s })
unfolding parse_secret secret_of
parse_secret-prefixed p a c [] left right small long = absurd (omega (arith, long))
parse_secret-prefixed p a c (b ∷ s) left right small long =
    let full : (length (encode_hex (b ∷ s)) == 64) ≡ true =
      (==_iff (length (encode_hex (b ∷ s))) 64).1
        (omega (arith, long, length-encode_hex (b ∷ s))) in
    rw
      (
        prefixed-trimmed p a c b s left right small,
        trim_0x-prefixed p b s,
        full,
        decode_hex-encode_hex (b ∷ s) small,
      )
      refl

-- A secret of 32 bytes is loaded from the file that holds its hexadecimal digits, with or without
-- "0x" before them, whatever spaces and line ends stand around.
pub load_jwt_secret-prefixed :
    (file : String → File) (path : String) (p : Bool) (a c s : Bytes)
    → file path ≡ contents (a ++ (prefixed p (encode_hex s) ++ c))
    → IsBlank a
    → IsBlank c
    → All (λ d. d < 256) s
    → length s ≡ 32
    → load_jwt_secret file path ≡ ok (record { secret = s })
unfolding load_jwt_secret secret_in
load_jwt_secret-prefixed file path p a c s found left right small long =
    rw found (parse_secret-prefixed p a c s left right small long)
