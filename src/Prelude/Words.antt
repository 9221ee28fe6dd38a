-- ===== src/Prelude/Words.antt =====
-- Go's signed machine integers as their two's complement bit patterns: an int64 is a number below
-- 2 ^ 64, negative from 2 ^ 63 on, and an int8 is a number below 2 ^ 8.
use Prim.Native.Nat.{ℕ, ◌+◌, ◌-◌, ◌*◌, ◌/◌, ◌%◌, ◌^◌}
use mathlib.Core.Bool.{Bool}
use ndbx.Prelude.Tests.{ltb, leb, if◌then◌else◌}

abbrev pub two63 : ℕ
two63 = 2 ^ 63

abbrev pub two64 : ℕ
two64 = 2 ^ 64

abbrev pub add64 : ℕ → ℕ → ℕ
add64 a b = (a + b) % two64

abbrev pub mul64 : ℕ → ℕ → ℕ
mul64 a b = (a * b) % two64

-- v < 0
abbrev pub is_neg64 : ℕ → Bool
is_neg64 a = leb two63 a

-- a < b of int64 values
abbrev pub lt64 : ℕ → ℕ → Bool
lt64 a b = ltb ((a + two63) % two64) ((b + two63) % two64)

-- int8(v) of a wider integer
abbrev pub to_int8 : ℕ → ℕ
to_int8 a = a % 256

-- int64(v) of an int8
abbrev pub from_int8 : ℕ → ℕ
from_int8 a = if leb 128 a then a + two64 - 256 else a

-- int32(v) of an int8
abbrev pub int8_to_int32 : ℕ → ℕ
int8_to_int32 a = if leb 128 a then a + 2 ^ 32 - 256 else a

-- int64 quotient by a positive number: Go rounds towards zero
abbrev pub quot64 : ℕ → ℕ → ℕ
quot64 a k = if is_neg64 a then (two64 - (two64 - a) / k) % two64 else a / k

-- int64(v) of an int32
abbrev pub from_int32 : ℕ → ℕ
from_int32 a = if leb (2 ^ 31) a then a + two64 - 2 ^ 32 else a
