-- ===== src/Storage/Keys.antt =====
-- The keys of storage.go, and the keys of numbered entries, fmt.Sprintf("%s%016x", prefix, index).
pub mod Order
use Prim.Native.Nat.{compare, Ordering}
use Prim.Native.Char.{Char, char, IsScalar}
use Prim.Native.String.{[], ◌∷◌, ◌++◌}
use cke.Prelude.{
  ℕ, zero, suc, ◌+◌, ◌-◌, ◌/◌, ◌%◌, ◌^◌, ◌<◌, String, ltb, leb, ◌≡◌, arith, if◌then◌else◌,
}
use cke.Reboot.BackOff.{int64_mod, int64_half}
use cke.Storage.Numbers.{scalar}

-- A digit below sixteen.
abbrev pub hex_code : ℕ → ℕ
hex_code d = if ltb d 10 then 48 + d else 87 + d

hex_code-lt : (d : ℕ) → hex_code (d % 16) < 128
hex_code-lt d = ground arith

unfoldable pub hex_digit : ℕ → Char
unfolding scalar hex_code-lt
hex_digit d = char (hex_code (d % 16)) (scalar (hex_code (d % 16)) (hex_code-lt d))

-- The last `k` hexadecimal digits.
unfoldable pub hex : ℕ → ℕ → String
hex zero n = []
hex (suc k) n = hex_digit (n / 16 ^ k) ∷ hex k (n % 16 ^ k)

-- With the sign of an int64, which takes the place of a digit.
unfoldable pub entry_key : String → ℕ → String
entry_key prefix index =
    if ltb index int64_half
    then prefix ++ hex 16 index
    else prefix
      ++ ("-" ++ hex (if ltb (int64_mod - index) (16 ^ 15) then 15 else 16) (int64_mod - index))
