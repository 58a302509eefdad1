-- ===== src/Prelude/Lists.antt =====
-- Lists over native numbers and Boolean predicates, under the library's names where it has them.
use Prim.Native.Nat.{ℕ, zero, suc, ◌+◌}
use mathlib.Core.Path.{◌≡◌, refl, sym, subst}
use mathlib.Core.Logic.{◌⊎◌, inl, inr}
use mathlib.Core.Bool.{Bool, true, false, ◌||◌}
use mathlib.Core.List.Memᴰ
use mathlib.Core.List.{List, [], ◌∷◌, ◌++◌, Memᴰ}
use mathlib.Core.Option.{Option, none, some}
use native.Mathlib.Omega.{arith}
use cke.Prelude.Tests.{if◌then◌else◌, Bool-cases}

module _ {ℓ} {A : Type ℓ} where
  abbrev pub length : List A → ℕ
  length [] = 0
  length (x ∷ xs) = suc (length xs)

  abbrev pub get_elem? : List A → ℕ → Option A
  get_elem? [] i = none
  get_elem? (x ∷ xs) zero = some x
  get_elem? (x ∷ xs) (suc i) = get_elem? xs i

  abbrev pub take : ℕ → List A → List A
  take zero xs = []
  take (suc n) [] = []
  take (suc n) (x ∷ xs) = x ∷ take n xs

  abbrev pub any : (A → Bool) → List A → Bool
  any p [] = false
  any p (x ∷ xs) = p x || any p xs

  -- The loop `for ... { if p(x) { out = append(out, x) } }`.
  abbrev pub keep_if : (A → Bool) → List A → List A
  keep_if p [] = []
  keep_if p (x ∷ xs) = let rest = keep_if p xs in if p x then x ∷ rest else rest

  abbrev pub count_if : (A → Bool) → List A → ℕ
  count_if p [] = 0
  count_if p (x ∷ xs) = let rest = count_if p xs in if p x then suc rest else rest

-- A predicate of every element, by recursion, so that the tactics read its parts.
abbrev pub All {ℓ κ} : {A : Type ℓ} → (A → Type κ) → List A → Type κ
All P [] = Unit
All P (x ∷ xs) = P x × All P xs

module _ {ℓ κ} {A : Type ℓ} (P : A → Type κ) where
  pub All-append : (front back : List A) → All P front → All P back → All P (front ++ back)
  All-append [] back _ q = q
  All-append (_ ∷ front) back p q = (p.0, All-append front back p.1 q)

  pub All-mem : (l : List A) → ((a : A) → Memᴰ a l → P a) → All P l
  All-mem [] f = tt
  All-mem (a ∷ l) f = (f a (Memᴰ.head refl), All-mem l (λ b m. f b (Memᴰ.tail m)))

  pub All-at : (l : List A) → All P l → {a : A} → Memᴰ a l → P a
  All-at [] p m = elim m [ ]
  All-at (b ∷ l) p (Memᴰ.head e) = subst P (sym e) p.0
  All-at (b ∷ l) p (Memᴰ.tail m) = All-at l p.1 m

module _ {ℓ} {A : Type ℓ} where
  pub length-append : (xs ys : List A) → length (xs ++ ys) ≡ length xs + length ys
  length-append [] ys = omega arith
  length-append (x ∷ xs) ys = omega (arith, length-append xs ys)

  -- `keep_if p` holds exactly the elements that pass, in their order.
  pub mem-keep_if :
      (p : A → Bool) (xs : List A) {x : A} → Memᴰ x (keep_if p xs) → Memᴰ x xs × (p x ≡ true)
  mem-keep_if p [] m = elim m [ ]
  mem-keep_if p (y ∷ ys) {x} m = elim (Bool-cases (p y)) [
    | inl t ↦
        let m' : Memᴰ x (y ∷ keep_if p ys) = rw t at m in
        elim (Memᴰ.cases_cons m') [
          | inl e ↦ (Memᴰ.head e, rw e t)
          | inr k ↦ let r = mem-keep_if p ys k in (Memᴰ.tail r.0, r.1)
        ]
    | inr f ↦
        let m' : Memᴰ x (keep_if p ys) = rw f at m in
        let r = mem-keep_if p ys m' in (Memᴰ.tail r.0, r.1)
  ]

  pub keep_if-mem :
      (p : A → Bool) (xs : List A) {x : A} → Memᴰ x xs → p x ≡ true → Memᴰ x (keep_if p xs)
  keep_if-mem p [] m h = elim m [ ]
  keep_if-mem p (y ∷ ys) {x} (Memᴰ.head e) h = let t : p y ≡ true = rw (← e) h in rw t (Memᴰ.head e)
  keep_if-mem p (y ∷ ys) {x} (Memᴰ.tail m) h = elim (Bool-cases (p y)) [
    | inl t ↦ rw t (Memᴰ.tail (keep_if-mem p ys m h))
    | inr f ↦ rw f (keep_if-mem p ys m h)
  ]

  pub any-mem : (p : A → Bool) (xs : List A) → any p xs ≡ true → (x : A) × Memᴰ x xs × (p x ≡ true)
  any-mem p [] h = cc
  any-mem p (y ∷ ys) h = elim (Bool-cases (p y)) [
    | inl t ↦ (y, Memᴰ.head refl, t)
    | inr f ↦
        let h' : any p ys ≡ true = rw f at h in let r = any-mem p ys h' in (r.0, Memᴰ.tail r.1, r.2)
  ]

  pub mem-any : (p : A → Bool) (xs : List A) {x : A} → Memᴰ x xs → p x ≡ true → any p xs ≡ true
  mem-any p [] m h = elim m [ ]
  mem-any p (y ∷ ys) (Memᴰ.head e) h = let t : p y ≡ true = rw (← e) h in rw t refl
  mem-any p (y ∷ ys) (Memᴰ.tail m) h = elim (Bool-cases (p y)) [
    | inl t ↦ rw t refl
    | inr f ↦ rw f (mem-any p ys m h)
  ]

-- The loop `for _, x := range xs { out = append(out, g(x)...) }`.
module _ {ℓ κ} {A : Type ℓ} {B : Type κ} where
  abbrev pub collect : (A → List B) → List A → List B
  collect g [] = []
  collect g (x ∷ xs) = g x ++ collect g xs

abbrev pub one_if {ℓ} : {A : Type ℓ} → Bool → A → List A
one_if b x = if b then x ∷ [] else []

pub All-one_if {ℓ κ} :
    {A : Type ℓ} (P : A → Type κ) (b : Bool) (x : A) → (b ≡ true → P x) → All P (one_if b x)
All-one_if P true x h = (h refl, tt)
All-one_if P false x h = tt

pub All-collect {ℓ κ μ} :
    {A : Type ℓ} {B : Type κ} (P : B → Type μ) (g : A → List B) (xs : List A)
    → ((x : A) → Memᴰ x xs → All P (g x))
    → All P (collect g xs)
All-collect P g [] h = tt
All-collect P g (x ∷ xs) h =
    All-append P (g x) (collect g xs) (h x (Memᴰ.head refl))
      (All-collect P g xs (λ y m. h y (Memᴰ.tail m)))

-- The elements of a list and one more.
module _ {ℓ} {A : Type ℓ} {x : A} (y : A) where
  pub mem_last-cases : (xs : List A) → Memᴰ x (xs ++ y ∷ []) → Memᴰ x xs ⊎ (x ≡ y)
  mem_last-cases [] (Memᴰ.head e) = inr e
  mem_last-cases [] (Memᴰ.tail m) = elim m [ ]
  mem_last-cases (z ∷ xs) (Memᴰ.head e) = inl (Memᴰ.head e)
  mem_last-cases (z ∷ xs) (Memᴰ.tail m) = elim (mem_last-cases xs m) [
    | inl i ↦ inl (Memᴰ.tail i)
    | inr e ↦ inr e
  ]

  pub mem_front : (xs : List A) → Memᴰ x xs → Memᴰ x (xs ++ y ∷ [])
  mem_front [] m = elim m [ ]
  mem_front (z ∷ xs) (Memᴰ.head e) = Memᴰ.head e
  mem_front (z ∷ xs) (Memᴰ.tail m) = Memᴰ.tail (mem_front xs m)

  pub mem_last : (xs : List A) → x ≡ y → Memᴰ x (xs ++ y ∷ [])
  mem_last [] e = Memᴰ.head e
  mem_last (z ∷ xs) e = Memᴰ.tail (mem_last xs e)
