-- ===== src/Storage/Keys/Order.antt =====
-- The keys of numbered entries are in the order of their numbers.
use Prim.Native.Nat.{compare, Ordering}
use Prim.Native.Char.{code}
use Prim.Native.String.append
use Prim.Native.String.compare
use Prim.Native.String.{[], ◌∷◌, ◌++◌, compare as text_compare, then as or_else}
use text.Mathlib.TextPositions.{compare_self, compare_refl}
use native.Mathlib.Nat.{
  pow-succ', one-le-pow, le-div_iff_mul-le, div-lt_iff_lt-mul, div-mul-le_self, mod-lt,
  div-add-mod',
}
use cke.Prelude.{
  ℕ, zero, suc, ◌*◌, ◌/◌, ◌%◌, ◌^◌, ◌<◌, ◌≤◌, String, ltb, ◌≡◌, refl, inl, inr, ◌⊎◌, arith,
  Bool-cases, ltb→lt, sym, ap, ◌∙◌, true,
}
use cke.Reboot.BackOff.{int64_half}
use cke.Storage.Keys.{hex_code, hex_digit, hex, entry_key}

pub append-compare : (p s t : String) → text_compare (p ++ s) (p ++ t) ≡ text_compare s t
append-compare [] s t = rw (append.nil s, append.nil t) refl
append-compare (c ∷ p) s t =
    rw
      (
        append.cons c p s,
        append.cons c p t,
        compare.cons-cons c c (p ++ s) (p ++ t),
        compare_self (code c),
      )
      (append-compare p s t)

-- Digits are in the order of their values.
hex_code-compare :
    (a b : ℕ) → a < 16 → b < 16 → compare (hex_code (a % 16)) (hex_code (b % 16)) ≡ compare a b
hex_code-compare a b h k = ground arith

hex_digit-compare :
    (a b : ℕ) (s t : String)
    → a < 16
    → b < 16
    → text_compare (hex_digit a ∷ s) (hex_digit b ∷ t) ≡ or_else (compare a b) (text_compare s t)
unfolding hex_digit
hex_digit-compare a b s t h k =
    compare.cons-cons (hex_digit a) (hex_digit b) s t
    ∙ ap (λ o. or_else o (text_compare s t)) (hex_code-compare a b h k)

-- Two numbers in the order of their quotients, or of their remainders where those agree.
div-cases : (m n p : ℕ) → 0 < p → m < n → (m / p < n / p) ⊎ ((m / p ≡ n / p) × (m % p < n % p))
div-cases m n p z h =
    let le : m / p ≤ n / p = (le-div_iff_mul-le z).1 (omega (arith, h, div-mul-le_self m p)) in
    elim (Bool-cases (ltb (m / p) (n / p))) [
      | inl lt ↦ inl (ltb→lt (m / p) (n / p) lt)
      | inr ge ↦
          let e : m / p ≡ n / p = ground arith in
          let same : m / p * p ≡ n / p * p = rw e refl in
          inr (e, omega (arith, h, same, div-add-mod' m p, div-add-mod' n p))
    ]

pub hex-Ordered : (k m n : ℕ) → m < n → n < 16 ^ k → text_compare (hex k m) (hex k n) ≡ Ordering.lt
unfolding hex
hex-Ordered zero m n h b = absurd (omega arith)
hex-Ordered (suc k) m n h b =
    let z : 0 < 16 ^ k = one-le-pow k 16 (omega arith) in
    let top : n / 16 ^ k < 16 = (div-lt_iff_lt-mul z).1 (omega (arith, b, pow-succ' 16 k)) in
    elim (div-cases m n (16 ^ k) z h) [
      | inl lt ↦
          let c : compare (m / 16 ^ k) (n / 16 ^ k) ≡ Ordering.lt = ground arith in
          rw
            (
              hex_digit-compare (m / 16 ^ k) (n / 16 ^ k) (hex k (m % 16 ^ k)) (hex k (n % 16 ^ k))
                  (omega arith) top,
              c,
            )
            refl
      | inr (e, lt) ↦
          let c : compare (m / 16 ^ k) (n / 16 ^ k) ≡ Ordering.eq = ground arith in
          rw
            (
              hex_digit-compare (m / 16 ^ k) (n / 16 ^ k) (hex k (m % 16 ^ k)) (hex k (n % 16 ^ k))
                  (omega arith) top,
              c,
            )
            (hex-Ordered k (m % 16 ^ k) (n % 16 ^ k) lt (mod-lt n z))
    ]

-- Keys of entries are in the order of the indices of the entries.
pub entry_key-Ordered :
    (prefix : String) (i j : ℕ)
    → i < j
    → j < int64_half
    → text_compare (entry_key prefix i) (entry_key prefix j) ≡ Ordering.lt
unfolding entry_key
entry_key-Ordered prefix i j h b =
    let small : ltb i int64_half ≡ true = ground arith in
    let small' : ltb j int64_half ≡ true = ground arith in
    rw (small, small', append-compare prefix (hex 16 i) (hex 16 j))
      (hex-Ordered 16 i j h (omega arith))

pub entry_key_inj :
    (prefix : String) (i j : ℕ)
    → i < int64_half
    → j < int64_half
    → entry_key prefix i ≡ entry_key prefix j
    → i ≡ j
entry_key_inj prefix i j a b e = elim (Bool-cases (ltb i j)) [
  | inl lt ↦ absurd (apart i j (entry_key-Ordered prefix i j (ltb→lt i j lt) b) e)
  | inr ge ↦ elim (Bool-cases (ltb j i)) [
    | inl gt ↦ absurd (apart j i (entry_key-Ordered prefix j i (ltb→lt j i gt) a) (sym e))
    | inr le ↦ ground arith
  ]
]
  where
    apart :
        (m n : ℕ)
        → text_compare (entry_key prefix m) (entry_key prefix n) ≡ Ordering.lt
        → ¬ (entry_key prefix m ≡ entry_key prefix n)
    apart m n c p =
        let c' : text_compare (entry_key prefix n) (entry_key prefix n) ≡ Ordering.lt = rw p at c in
        let both : Ordering.lt ≡ Ordering.eq = sym c' ∙ compare_refl (entry_key prefix n) in cc
