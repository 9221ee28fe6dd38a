-- ===== src/Examples/Texts.antt =====
-- Session ids and numbers, written and read.
use Prim.Native.String.{count}
use ndbx.Prelude.{◌-◌, zero, suc, ℕ, ◌≡◌, refl, arith, length, some}
use ndbx.Strconv.{parse_int, format_int}
use ndbx.Strconv.RoundTrip.{parse_int-format_int}
use ndbx.Cryptic.{must_sid}
use ndbx.Cryptic.Hex.{IsHex, AreBytes, must_sid_lem}
use ndbx.Prelude.Words.{two64}
use ndbx.Examples.Doubles.{sample_host, zeros}

-- -7
parse_int-format_int_example : parse_int (format_int (two64 - 7)) ≡ some (two64 - 7)
parse_int-format_int_example = parse_int-format_int (two64 - 7) (omega arith)

zeros_fill : (n : ℕ) → (length (zeros n) ≡ n) × AreBytes (zeros n)
zeros_fill zero = (refl, tt)
zeros_fill (suc n) = (omega (arith, (zeros_fill n).0), (omega arith, (zeros_fill n).1))

must_sid_lem_example :
    IsHex (must_sid sample_host tt).0
    × (count (must_sid sample_host tt).0 ≡ 64)
    × ((must_sid sample_host tt).0 ≡ (must_sid sample_host tt).0 → zeros 32 ≡ zeros 32)
must_sid_lem_example = must_sid_lem sample_host tt tt (λ n w. zeros_fill n)
