-- ===== src/Config/Secret/Bounds.antt =====
-- What a secret that loads looks like.
use nexus_node.Common.{
  ℕ, ◌+◌, ◌*◌, ◌<◌, ◌≡◌, refl, inl, inr, not, Option, none, some, [], ◌∷◌, All, ok, length, ◌==◌,
  fail_if-ok, Option-cases, String, arith,
}
use mathlib.Core.Path.{subst}
use nexus_node.Common.Text.{Bytes}
use nexus_node.Config.{File, missing, unreadable, contents}
use nexus_node.Config.Secret.{
  Secret, wrong_length, trim_space, trim_0x, nibble, joined, decode_hex, secret_of, parse_secret,
  secret_in, load_jwt_secret,
}

nibble-lt : (c n : ℕ) → nibble c ≡ some n → n < 16
unfolding nibble
nibble-lt c n h = ground arith

joined-some :
    (o p : Option ℕ) (q : Option Bytes) (b : Bytes)
    → joined o p q ≡ some b
    → (h : ℕ) × (l : ℕ) × (rest : Bytes) × (o ≡ some h)
      × (p ≡ some l)
      × (q ≡ some rest)
      × ((h * 16 + l) ∷ rest ≡ b)
unfolding joined
joined-some (some h) (some l) (some rest) b e = (h, l, rest, refl, refl, refl, ground (arith, e))
joined-some none p q b e = absurd (cc)
joined-some (some h) none q b e = absurd (cc)
joined-some (some h) (some l) none b e = absurd (cc)

-- The bytes of so many hexadecimal digits.
abbrev AreBytes : ℕ → Bytes → Type 0
AreBytes n b = All (λ d. d < 256) b × (n ≡ 2 * length b)

decode_hex-AreBytes : (s b : Bytes) → decode_hex s ≡ some b → AreBytes (length s) b
unfolding decode_hex
decode_hex-AreBytes [] b h =
    let same : [] ≡ b = ground (arith, h) in subst (AreBytes 0) same (tt, refl)
decode_hex-AreBytes (c ∷ []) b h = absurd (cc)
decode_hex-AreBytes (c ∷ d ∷ s) b h =
    let (high, low, rest, e, f, g, same) = joined-some (nibble c) (nibble d) (decode_hex s) b h in
    let (small, long) = decode_hex-AreBytes s rest g in
    let below = nibble-lt c high e in
    let below' = nibble-lt d low f in
    subst (AreBytes (length (c ∷ d ∷ s))) same
      ((omega (arith, below, below'), small), omega (arith, long))

-- 32 bytes.
pub record IsSecret (s : Secret) : Type 0 where
  pub bytes : All (λ d. d < 256) s.secret
  pub long : length s.secret ≡ 32

parse_secret-IsSecret : (b : Bytes) (s : Secret) → parse_secret b ≡ ok s → IsSecret s
unfolding parse_secret secret_of
parse_secret-IsSecret b s h =
    let hex = trim_0x (trim_space b) in
    let (full, h1) =
      fail_if-ok (not (length hex == 64)) wrong_length (secret_of (decode_hex hex)) s h in
    elim (Option-cases (decode_hex hex)) [
      | inl bad ↦ absurd (ground (arith, bad))
      | inr (v, good) ↦
          let (small, digits) = decode_hex-AreBytes hex v good in
          let same : record { secret = v } ≡ s = ground (arith, good) in
          subst IsSecret same (record { bytes = small; long = ground (arith, full, digits) })
    ]

secret_in-IsSecret : (f : File) (s : Secret) → secret_in f ≡ ok s → IsSecret s
unfolding secret_in
secret_in-IsSecret missing s h = absurd (cc)
secret_in-IsSecret unreadable s h = absurd (cc)
secret_in-IsSecret (contents b) s h = parse_secret-IsSecret b s h

-- A secret that loads has 32 bytes.
pub load_jwt_secret-IsSecret :
    (file : String → File) (path : String) (s : Secret)
    → load_jwt_secret file path ≡ ok s
    → IsSecret s
unfolding load_jwt_secret secret_in
load_jwt_secret-IsSecret file path s h = secret_in-IsSecret (file path) s h
