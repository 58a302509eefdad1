-- ===== src/Storage/Numbers/RoundTrip.antt =====
-- A number that is written is read back.
use Prim.Native.String.{◌∷◌}
use cke.Prelude.{
  ℕ, zero, suc, ◌+◌, ◌-◌, ◌*◌, ◌/◌, ◌%◌, ◌^◌, ◌<◌, ◌≡◌, refl, inl, inr, String, true, false, some,
  ltb, leb, arith, Bool-cases, ◌==◌,
}
use native.Mathlib.Nat.{pow-suc}
use cke.Reboot.BackOff.{int64_mod, int64_half}
use cke.Storage.Numbers.{digit, decimal, format_int, read_digits, read_unsigned, parse_int}

read_digits-digit :
    (n acc : ℕ) (s : String) → read_digits acc (digit n ∷ s) ≡ read_digits (acc * 10 + n % 10) s
unfolding read_digits digit
read_digits-digit n acc s =
    let low : leb 48 (48 + n % 10) ≡ true = ground arith in
    let high : leb (48 + n % 10) 57 ≡ true = ground arith in
    let rest : 48 + n % 10 - 48 ≡ n % 10 = omega arith in rw (low, high, rest) refl

-- The digits of a number are read to it.
read_digits-decimal :
    (k n : ℕ) (rest : String)
    → n < 10 ^ suc k
    → read_digits 0 (decimal (suc k) n rest) ≡ read_digits n rest
unfolding decimal
read_digits-decimal zero n rest h =
    let lt : ltb n 10 ≡ true = ground arith in
    let z : 0 * 10 + n % 10 ≡ n = omega arith in
    let step = read_digits-digit n 0 rest in rw (lt, step, z) refl
read_digits-decimal (suc k) n rest h = elim (Bool-cases (ltb n 10)) [
  | inl lt ↦
      let z : 0 * 10 + n % 10 ≡ n = ground arith in
      let step = read_digits-digit n 0 rest in rw (lt, step, z) refl
  | inr ge ↦
      let less : n / 10 < 10 ^ suc k = omega (arith, h, pow-suc 10 (suc k)) in
      let all : n / 10 * 10 + n % 10 ≡ n = omega arith in
      let first = read_digits-decimal k (n / 10) (digit n ∷ rest) less in
      let last = read_digits-digit n (n / 10) rest in rw (ge, first, last, all) refl
]

-- The first character of the digits is a digit.
decimal-head :
    (k n : ℕ) (rest : String) → (c : ℕ) × (s : String) × (decimal (suc k) n rest ≡ digit c ∷ s)
unfolding decimal
decimal-head zero n rest = elim (Bool-cases (ltb n 10)) [
  | inl lt ↦ (n, rest, rw lt refl)
  | inr ge ↦ (n, rest, rw ge refl)
]
decimal-head (suc k) n rest = elim (Bool-cases (ltb n 10)) [
  | inl lt ↦ (n, rest, rw lt refl)
  | inr ge ↦ let r = decimal-head k (n / 10) (digit n ∷ rest) in (r.0, r.1, rw ge r.2)
]

parse_int-digits :
    (c n : ℕ) (s : String)
    → read_digits 0 (digit c ∷ s) ≡ some n
    → n < int64_half
    → parse_int (digit c ∷ s) ≡ some n
unfolding parse_int digit read_unsigned
parse_int-digits c n s e h =
    let minus : (48 + c % 10 == 45) ≡ false = ground arith in
    let plus : (48 + c % 10 == 43) ≡ false = ground arith in
    let small : ltb n int64_half ≡ true = ground arith in rw (minus, plus, e, small) refl

format_int-decimal : (n : ℕ) → n < int64_half → format_int n ≡ decimal 20 n ""
unfolding format_int
format_int-decimal n h =
    let same : n % int64_mod ≡ n = omega arith in
    let small : ltb n int64_half ≡ true = ground arith in rw (same, small) refl

pub parse_int-format_int : (n : ℕ) → n < int64_half → parse_int (format_int n) ≡ some n
unfolding read_digits
parse_int-format_int n h =
    let (c, s, e) = decimal-head 19 n "" in
    let all : read_digits 0 (decimal 20 n "") ≡ some n =
      read_digits-decimal 19 n "" (omega arith) in
    let all' : read_digits 0 (digit c ∷ s) ≡ some n = rw e at all in
    rw (format_int-decimal n h, e) (parse_int-digits c n s all' h)
