-- ===== src/Storage/Numbers.antt =====
-- strconv.FormatInt(n, 10) and strconv.ParseInt(s, 10, 64). An int64 is its value modulo 2 ^ 64.
pub mod RoundTrip
use Prim.Native.Nat.{compare, Ordering}
use Prim.Native.Char.{Char, char, code, IsScalar}
use Prim.Native.String.{[], ◌∷◌}
use cke.Reboot.BackOff.{int64_mod, int64_half}
use cke.Prelude.{
  ℕ, zero, suc, ◌+◌, ◌-◌, ◌*◌, ◌/◌, ◌%◌, ◌^◌, String, Bool, ◌&&◌, ◌||◌, Option, none, some, ltb,
  leb, ◌<◌, ◌≡◌, arith, ◌==◌, if◌then◌else◌,
}

-- A number below 128 is the code of a character.
unfoldable pub scalar : (n : ℕ) → n < 128 → IsScalar n
scalar n h = let lt : compare n 55296 ≡ Ordering.lt = ground arith in rw lt tt

unfoldable pub digit : ℕ → Char
unfolding scalar
digit n = char (48 + n % 10) (scalar (48 + n % 10) (omega arith))

-- The digits of `n`, of which there are at most `k`, before `rest`.
unfoldable pub decimal : ℕ → ℕ → String → String
unfolding digit
decimal zero n rest = rest
decimal (suc k) n rest =
    let more = decimal k (n / 10) (digit n ∷ rest) in if ltb n 10 then digit n ∷ rest else more

-- A number below 2 ^ 64 has at most 20 digits.
unfoldable pub format_int : ℕ → String
format_int n =
    if ltb (n % int64_mod) int64_half
    then decimal 20 (n % int64_mod) ""
    else "-" ∷ decimal 20 (int64_mod - n % int64_mod) ""

unfoldable pub read_digits : ℕ → String → Option ℕ
read_digits acc [] = some acc
read_digits acc (c ∷ s) =
    let rest = read_digits (acc * 10 + (code c - 48)) s in
    if leb 48 (code c) && leb (code c) 57 then rest else none

abbrev below : ℕ → Option ℕ → Option ℕ
below bound none = none
below bound (some n) = if ltb n bound then some n else none

abbrev negated : Option ℕ → Option ℕ
negated none = none
negated (some n) = some ((int64_mod - n) % int64_mod)

read_unsigned : ℕ → String → Option ℕ
unfolding read_digits
read_unsigned bound [] = none
read_unsigned bound (c ∷ s) = below bound (read_digits 0 (c ∷ s))

-- The sign is looked at first, and at most 2 ^ 63 may follow a minus.
unfoldable pub parse_int : String → Option ℕ
unfolding read_unsigned
parse_int [] = none
parse_int (c ∷ s) =
    if code c == 45
    then negated (read_unsigned (int64_half + 1) s)
    else if code c == 43
    then read_unsigned int64_half s
    else read_unsigned int64_half (c ∷ s)
