-- ===== src/Readiness/Heights.antt =====
-- `loadReadinessProbeConfig` and `parseJSONInt64` of cosmos/app/rpc_readiness.go: the numbers that the
-- probe reads. JSON strings and JSON numbers are arguments.
use nexus_node.Common.{
  ℕ, ◌-◌, ◌%◌, ◌^◌, ◌<◌, ◌≡◌, refl, ap, ◌∙◌, Option, none, some, [], ◌∷◌, ◌++◌, Bool, true, false,
  ◌==◌, ltb, leb, All, if◌then◌else◌, arith,
}
use mathlib.Core.Path.{subst}
use mathlib.Core.List.{append-nil}
use nexus_node.Common.Text.{Bytes}
use nexus_node.Common.Words.{u64_mod}
use nexus_node.Common.Decimal.{
  is_digit, parse_uint, format_uint, parse_uint-format_uint, parse_uint-digits_only,
}
use nexus_node.Config.Secret.{trim_space}
use nexus_node.Config.Secret.Roundtrip.{IsBlank, IsSolid, trim_space-IsSolid}

-- The number with its sign, as an int64's bit pattern; `none` out of range.
with_sign : Bool → Option ℕ → Option ℕ
with_sign negative none = none
with_sign true (some n) = if leb n (2 ^ 63) then some ((u64_mod - n) % u64_mod) else none
with_sign false (some n) = if ltb n (2 ^ 63) then some n else none

-- `strconv.ParseInt(s, 10, 64)`
pub parse_signed : Bytes → Option ℕ
unfolding with_sign
parse_signed [] = none
parse_signed (c ∷ s) =
    if c == b'-'
    then with_sign true (parse_uint s)
    else if c == b'+'
    then with_sign false (parse_uint s)
    else with_sign false (parse_uint (c ∷ s))

-- `json.Unmarshal` into a string and into an int64.
pub record JsonNumbers : Type 0 where
  pub text : Bytes → Option Bytes
  pub int64 : Bytes → Option ℕ

parse_text : Option Bytes → Option ℕ
parse_text none = none
parse_text (some s) = parse_signed (trim_space s)

parse_trimmed : JsonNumbers → Bytes → Option ℕ
unfolding parse_text
parse_trimmed j [] = none
parse_trimmed j (c ∷ raw) = if c == 34 then parse_text (j.text (c ∷ raw)) else j.int64 (c ∷ raw)

-- `parseJSONInt64`; byte 34 is the quotation mark.
pub parse_json_int64 : JsonNumbers → Bytes → Option ℕ
unfolding parse_trimmed
parse_json_int64 j raw = parse_trimmed j (trim_space raw)

or_two : Option ℕ → ℕ
or_two none = 2
or_two (some v) = v

-- The limit that `loadReadinessProbeConfig` takes from the environment: 2 unless it is a uint64.
pub head_lag_max_blocks_of : Bytes → ℕ
unfolding or_two
head_lag_max_blocks_of env = or_two (parse_uint (trim_space env))

digits-IsSolid : (s : Bytes) → All (λ c. is_digit c ≡ true) s → IsSolid s
digits-IsSolid [] h = tt
digits-IsSolid (c ∷ s) (here, rest) = (ground arith, digits-IsSolid s rest)

trimmed :
    (a b s : Bytes) (n : ℕ)
    → parse_uint s ≡ some n
    → IsBlank a
    → IsBlank b
    → trim_space (a ++ (s ++ b)) ≡ s
unfolding parse_uint
trimmed a b [] n h left right = absurd (cc)
trimmed a b (c ∷ s) n h left right =
    trim_space-IsSolid a b c s left right
      (digits-IsSolid (c ∷ s) (parse_uint-digits_only (c ∷ s) n h))

-- A limit that is written in decimal is taken, whatever spaces stand around it.
head_lag_max_blocks_of-format_uint :
    (a b : Bytes) (n : ℕ)
    → n < u64_mod
    → IsBlank a
    → IsBlank b
    → head_lag_max_blocks_of (a ++ (format_uint n ++ b)) ≡ n
unfolding head_lag_max_blocks_of or_two
head_lag_max_blocks_of-format_uint a b n small left right =
    let reads = parse_uint-format_uint n small in
    ap (λ t. or_two (parse_uint t)) (trimmed a b (format_uint n) n reads left right)
    ∙ ap or_two reads

parse_signed-digits :
    (s : Bytes) (n : ℕ) → parse_uint s ≡ some n → n < 2 ^ 63 → parse_signed s ≡ some n
unfolding parse_signed with_sign parse_uint
parse_signed-digits [] n h small = absurd (cc)
parse_signed-digits (c ∷ s) n h small =
    let digit = (parse_uint-digits_only (c ∷ s) n h).0 in ground arith

solid_kept : (c : ℕ) (s : Bytes) → IsSolid (c ∷ s) → trim_space (c ∷ s) ≡ c ∷ s
solid_kept c s solid =
    subst (λ t. trim_space t ≡ c ∷ s) (append-nil (c ∷ s))
      (trim_space-IsSolid [] [] c s tt tt solid)

digits_kept : (s : Bytes) (n : ℕ) → parse_uint s ≡ some n → trim_space s ≡ s
digits_kept s n h = subst (λ t. trim_space t ≡ s) (append-nil s) (trimmed [] [] s n h tt tt)

-- A height that a peer publishes as a JSON string of its decimal digits is read as that height.
parse_json_int64-format_uint :
    (j : JsonNumbers) (raw : Bytes) (n : ℕ)
    → n < 2 ^ 63
    → IsSolid raw
    → j.text (34 ∷ raw) ≡ some (format_uint n)
    → parse_json_int64 j (34 ∷ raw) ≡ some n
unfolding parse_json_int64 parse_trimmed parse_text
parse_json_int64-format_uint j raw n small solid text =
    let reads = parse_uint-format_uint n (omega (arith, small)) in
    rw
      (
        solid_kept 34 raw (refl, solid),
        text,
        digits_kept (format_uint n) n reads,
        parse_signed-digits (format_uint n) n reads small,
      )
      refl
