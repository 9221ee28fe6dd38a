-- ===== src/Float64.antt =====
-- Go's float64, as its IEEE 754 bit pattern, with the operations that the program uses as
-- parameters: the average rating, and its text in Redis.
use ndbx.Prelude.{ℕ, String, Option}

-- The pattern of 0.0 is 0.
pub record Float64 : Type 0 where
  pub of_int64 : ℕ → ℕ
  pub div : ℕ → ℕ → ℕ
  pub mul : ℕ → ℕ → ℕ
  -- math.Round
  pub round : ℕ → ℕ
  -- strconv.ParseFloat(s, 64)
  pub parse : String → Option ℕ
