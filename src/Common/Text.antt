-- ===== src/Common/Text.antt =====
-- Go strings and byte slices whose contents the program inspects, as lists of byte values.
use Prim.Native.Nat.{ℕ, ◌+◌}
use Prim.Native.String.{String}
use Prim.Native.Char.{code}
use mathlib.Core.Path.{◌≡◌, refl}
use mathlib.Core.Bool.{Bool, true, false, ◌&&◌, ◌||◌}
use mathlib.Core.List.{List, [], ◌∷◌, ◌++◌, map}
use native.Mathlib.Omega.{arith}
use nexus_node.Common.Tests.{◌==◌, ==_iff, leb, if◌then◌else◌}

abbrev pub Bytes : Type 0
Bytes = List ℕ

-- The code points of a text: its bytes, if it is ASCII.
abbrev pub codes : String → Bytes
codes String.[] = []
codes (String.◌∷◌ c s) = code c ∷ codes s

-- `strings.ToLower` on ASCII.
unfoldable pub to_lower_byte : ℕ → ℕ
to_lower_byte c = if leb b'A' c && leb c b'Z' then c + 32 else c

unfoldable pub to_lower : Bytes → Bytes
unfolding to_lower_byte
to_lower = map to_lower_byte

-- `bytes.Equal`
unfoldable pub bytes_eq : Bytes → Bytes → Bool
bytes_eq [] [] = true
bytes_eq (c ∷ s) (d ∷ t) = c == d && bytes_eq s t
bytes_eq _ _ = false

-- `strings.HasPrefix`
unfoldable pub has_prefix : Bytes → Bytes → Bool
has_prefix s [] = true
has_prefix [] (p ∷ ps) = false
has_prefix (c ∷ s) (p ∷ ps) = c == p && has_prefix s ps

-- `strings.Contains`
unfoldable pub contains : Bytes → Bytes → Bool
unfolding has_prefix
contains [] p = has_prefix [] p
contains (c ∷ s) p = has_prefix (c ∷ s) p || contains s p

has_prefix-append : (p s : Bytes) → has_prefix (p ++ s) p ≡ true
unfolding has_prefix
has_prefix-append [] [] = refl
has_prefix-append [] (c ∷ s) = refl
has_prefix-append (c ∷ p) s = ground (arith, has_prefix-append p s)

-- A text contains every part of it.
pub contains-append : (a p b : Bytes) → contains (a ++ (p ++ b)) p ≡ true
unfolding contains
contains-append [] [] [] = refl
contains-append [] [] (c ∷ b) = refl
contains-append [] (c ∷ p) b = ground (arith, has_prefix-append (c ∷ p) b)
contains-append (c ∷ a) p b = ground (arith, contains-append a p b)

-- `bytes.Equal` decides equality.
pub bytes_eq_sound : (a b : Bytes) → bytes_eq a b ≡ true → a ≡ b
unfolding bytes_eq
bytes_eq_sound [] [] h = refl
bytes_eq_sound [] (d ∷ b) h = absurd (cc)
bytes_eq_sound (c ∷ a) [] h = absurd (cc)
bytes_eq_sound (c ∷ a) (d ∷ b) h = ground (arith, bytes_eq_sound a b, ==_iff c d)

pub bytes_eq_refl : (a : Bytes) → bytes_eq a a ≡ true
unfolding bytes_eq
bytes_eq_refl [] = refl
bytes_eq_refl (c ∷ a) = ground (arith, bytes_eq_refl a, ==_iff c c)
