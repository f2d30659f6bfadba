-- ===== src/Common/Words.antt =====
-- uint64 and int64. A uint64 is a number below 2 ^ 64; an int64 is its two's complement bit pattern.
use nexus_node.Common.Tests.{ltb, if◌then◌else◌}
use Prim.Native.Nat.{ℕ, ◌+◌, ◌-◌, ◌*◌, ◌/◌, ◌%◌, ◌^◌}
use mathlib.Core.Bool.{Bool}

abbrev pub u64_mod : ℕ
u64_mod = 2 ^ 64

abbrev pub add64 : ℕ → ℕ → ℕ
add64 a b = (a + b) % u64_mod

abbrev pub sub64 : ℕ → ℕ → ℕ
sub64 a b = (a + u64_mod - b) % u64_mod

abbrev pub mul64 : ℕ → ℕ → ℕ
mul64 a b = (a * b) % u64_mod

-- `a < 0`
abbrev pub neg64 : ℕ → Bool
neg64 a = ltb (2 ^ 63 - 1) a

-- `a < b` of two int64: the bias turns the signed order into that of the numbers.
abbrev pub slt64 : ℕ → ℕ → Bool
slt64 a b = ltb (add64 a (2 ^ 63)) (add64 b (2 ^ 63))

-- `a / d` of an int64 by a positive constant, rounded towards 0.
abbrev pub sdiv64 : ℕ → ℕ → ℕ
sdiv64 a d = if neg64 a then (u64_mod - (u64_mod - a) / d) % u64_mod else a / d
