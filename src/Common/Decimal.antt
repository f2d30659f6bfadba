-- ===== src/Common/Decimal.antt =====
-- `strconv.ParseUint` and `strconv.FormatUint` in base 10, on lists of byte values.
use Prim.Native.Nat.{ℕ, zero, suc, ◌+◌, ◌-◌, ◌*◌, ◌/◌, ◌%◌, ◌<◌}
use mathlib.Core.Path.{◌≡◌, refl, ap, ◌∙◌}
use mathlib.Core.Logic.{inl, inr}
use mathlib.Core.Bool.{Bool, true, false, ◌&&◌}
use mathlib.Core.Option.{Option, none, some}
use mathlib.Core.List.{[], ◌∷◌, ◌++◌}
use native.Mathlib.Omega.{arith}
use nexus_node.Common.Tests.{ltb, leb, ltb→lt, Bool-cases, Option-cases, if◌then◌else◌}
use nexus_node.Common.Lists.{is_empty, All}
use nexus_node.Common.Words.{u64_mod}
use nexus_node.Common.Text.{Bytes}

abbrev pub is_digit : ℕ → Bool
is_digit c = leb b'0' c && leb c b'9'

-- The value of decimal digits behind those of `acc`; `none` when a byte is no digit.
unfoldable pub digits_value : ℕ → Bytes → Option ℕ
digits_value acc [] = some acc
digits_value acc (c ∷ s) =
    let rest = digits_value (acc * 10 + (c - b'0')) s in if is_digit c then rest else none

in_64_bits : Option ℕ → Option ℕ
in_64_bits none = none
in_64_bits (some n) = if ltb n u64_mod then some n else none

-- `strconv.ParseUint(s, 10, 64)`: `none` for a syntax error and for a value out of range.
unfoldable pub parse_uint : Bytes → Option ℕ
unfolding in_64_bits
parse_uint s = if is_empty s then none else in_64_bits (digits_value 0 s)

-- The digits of a number, with fuel for more of them than it has.
unfoldable digits : ℕ → ℕ → Bytes
digits zero n = []
digits (suc fuel) n =
    let front = digits fuel (n / 10) in
    if ltb n 10 then (b'0' + n) ∷ [] else front ++ ((b'0' + n % 10) ∷ [])

-- `strconv.FormatUint(n, 10)`
unfoldable pub format_uint : ℕ → Bytes
unfolding digits
format_uint n = digits (suc n) n

digits_value-append :
    (acc v d : ℕ) (s : Bytes)
    → d < 10
    → digits_value acc s ≡ some v
    → digits_value acc (s ++ ((b'0' + d) ∷ [])) ≡ some (v * 10 + d)
unfolding digits_value
digits_value-append acc v d [] small h = ground arith
digits_value-append acc v d (c ∷ s) small h =
    ground (arith, digits_value-append (acc * 10 + (c - b'0')) v d s small)

nonempty_append : (s : Bytes) (c : ℕ) → is_empty (s ++ (c ∷ [])) ≡ false
nonempty_append [] c = refl
nonempty_append (d ∷ s) c = refl

digit_alone : (n : ℕ) → n < 10 → digits_value 0 ((b'0' + n) ∷ []) ≡ some n
unfolding digits_value
digit_alone n h = ground arith

digits_value-digits : (fuel n : ℕ) → n < fuel → digits_value 0 (digits fuel n) ≡ some n
unfolding digits
digits_value-digits zero n h = absurd (omega (arith, h))
digits_value-digits (suc fuel) n h = elim (Bool-cases (ltb n 10)) [
  | inl small ↦ rw small (digit_alone n (ltb→lt n 10 small))
  | inr large ↦
      let front = digits_value-digits fuel (n / 10) (ground arith) in
      let whole : n / 10 * 10 + n % 10 ≡ n = omega arith in
      let below : n % 10 < 10 = omega arith in
      let all = digits_value-append 0 (n / 10) (n % 10) (digits fuel (n / 10)) below front in
      rw large (all ∙ ap some whole)
]

digits-nonempty : (fuel n : ℕ) → is_empty (digits (suc fuel) n) ≡ false
unfolding digits
digits-nonempty fuel n = elim (Bool-cases (ltb n 10)) [
  | inl small ↦ rw small refl
  | inr large ↦ rw large (nonempty_append (digits fuel (n / 10)) (b'0' + n % 10))
]

-- What is written is read back.
pub parse_uint-format_uint : (n : ℕ) → n < u64_mod → parse_uint (format_uint n) ≡ some n
unfolding parse_uint format_uint
parse_uint-format_uint n h =
    let value = digits_value-digits (suc n) n (omega arith) in
    ground (arith, value, digits-nonempty n n)

-- A text that is read is not empty, and its value is a uint64.
pub parse_uint-lt : (s : Bytes) (n : ℕ) → parse_uint s ≡ some n → n < u64_mod
unfolding parse_uint
parse_uint-lt s n h = ground arith

pub format_uint-nonempty : (n : ℕ) → is_empty (format_uint n) ≡ false
unfolding format_uint
format_uint-nonempty n = digits-nonempty n n

digits_value-digits_only :
    (acc n : ℕ) (s : Bytes) → digits_value acc s ≡ some n → All (λ c. is_digit c ≡ true) s
unfolding digits_value
digits_value-digits_only acc n [] h = tt
digits_value-digits_only acc n (c ∷ s) h =
    (ground arith, digits_value-digits_only (acc * 10 + (c - b'0')) n s (ground arith))

-- A text that is read has digits only.
pub parse_uint-digits_only :
    (s : Bytes) (n : ℕ) → parse_uint s ≡ some n → All (λ c. is_digit c ≡ true) s
unfolding parse_uint
parse_uint-digits_only s n h = elim (Option-cases (digits_value 0 s)) [
  | inl bad ↦ absurd (ground (arith, bad))
  | inr (v, good) ↦ digits_value-digits_only 0 v s good
]
