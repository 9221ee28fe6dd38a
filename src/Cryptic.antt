-- ===== src/Cryptic.antt =====
-- pkg/cryptic/sid.go, with hex.EncodeToString of Go's standard library.
pub mod Hex
use Prim.Native.Char.{Char}
use Prim.Native.String.{[], ◌∷◌}
use ndbx.Prelude.{ℕ, zero, suc, ◌/◌, ◌%◌, String, List}
use mathlib.Core.List
use ndbx.GoTime.{Host}

abbrev pub sid_size_bytes : ℕ
sid_size_bytes = 32

unfoldable pub hex_digit : ℕ → Char
hex_digit zero = "0"
hex_digit (suc zero) = "1"
hex_digit (suc (suc zero)) = "2"
hex_digit (suc (suc (suc zero))) = "3"
hex_digit (suc (suc (suc (suc zero)))) = "4"
hex_digit (suc (suc (suc (suc (suc zero))))) = "5"
hex_digit (suc (suc (suc (suc (suc (suc zero)))))) = "6"
hex_digit (suc (suc (suc (suc (suc (suc (suc zero))))))) = "7"
hex_digit (suc (suc (suc (suc (suc (suc (suc (suc zero)))))))) = "8"
hex_digit (suc (suc (suc (suc (suc (suc (suc (suc (suc zero))))))))) = "9"
hex_digit (suc (suc (suc (suc (suc (suc (suc (suc (suc (suc zero)))))))))) = "a"
hex_digit (suc (suc (suc (suc (suc (suc (suc (suc (suc (suc (suc zero))))))))))) = "b"
hex_digit (suc (suc (suc (suc (suc (suc (suc (suc (suc (suc (suc (suc zero)))))))))))) = "c"
hex_digit (suc (suc (suc (suc (suc (suc (suc (suc (suc (suc (suc (suc (suc zero))))))))))))) = "d"
hex_digit (suc (suc (suc (suc (suc (suc (suc (suc (suc (suc (suc (suc (suc (suc zero)))))))))))))) =
    "e"
hex_digit n = "f"

-- Two lower-case digits for each byte.
unfoldable pub encode_to_string : List ℕ → String
unfolding hex_digit
encode_to_string List.[] = []
encode_to_string (List.◌∷◌ b bytes) =
    hex_digit (b / 16) ∷ hex_digit (b % 16) ∷ encode_to_string bytes

unfoldable pub must_sid : {W : Type 0} → Host W → W → String × W
must_sid host w = let (bytes, w') = host.rand_read sid_size_bytes w in (encode_to_string bytes, w')
