-- ===== src/Prelude/Orders.antt =====
-- Lists in a strict order, which are given by what they hold.
use mathlib.Core.Path.{◌≡◌, refl, sym, subst}
use mathlib.Core.Logic.{◌⊎◌, inl, inr, ◌↔◌}
use mathlib.Core.List.{List, [], ◌∷◌, ◌++◌, Memᴰ}
use mathlib.Core.Bool.{Bool}
use cke.Prelude.Tests.{Bool-cases}
use cke.Prelude.Lists.{All, All-append, All-at, keep_if}

abbrev pub SameMembers {ℓ} : {A : Type ℓ} → List A → List A → Type ℓ
SameMembers {A} xs ys = (e : A) → Memᴰ e xs ↔ Memᴰ e ys

-- Each element stands before all that follow it.
abbrev pub Ordered {ℓ κ} : {A : Type ℓ} → (A → A → Type κ) → List A → Type κ
Ordered R [] = Unit
Ordered R (x ∷ xs) = All (R x) xs × Ordered R xs

module _ {ℓ κ} {A : Type ℓ} (R : A → A → Type κ) where
  pub Ordered-last :
      (xs : List A) (y : A) → Ordered R xs → All (λ x. R x y) xs → Ordered R (xs ++ y ∷ [])
  Ordered-last [] y a b = (tt, tt)
  Ordered-last (x ∷ xs) y a b =
      (All-append (R x) xs (y ∷ []) a.0 (b.0, tt), Ordered-last xs y a.1 b.1)

module _ {ℓ κ} {A : Type ℓ} (R : A → A → Type κ) where
  keep_if-All : (P : A → Type κ) (f : A → Bool) (xs : List A) → All P xs → All P (keep_if f xs)
  keep_if-All P f [] a = tt
  keep_if-All P f (x ∷ xs) a = elim (Bool-cases (f x)) [
    | inl t ↦ rw t (a.0, keep_if-All P f xs a.1)
    | inr n ↦ rw n (keep_if-All P f xs a.1)
  ]

  pub keep_if-Ordered : (f : A → Bool) (xs : List A) → Ordered R xs → Ordered R (keep_if f xs)
  keep_if-Ordered f [] a = tt
  keep_if-Ordered f (x ∷ xs) a = elim (Bool-cases (f x)) [
    | inl t ↦ rw t (keep_if-All (R x) f xs a.0, keep_if-Ordered f xs a.1)
    | inr n ↦ rw n (keep_if-Ordered f xs a.1)
  ]

module _ {ℓ κ} {A : Type ℓ} (R : A → A → Type κ) (irrefl : (x : A) → R x x → ⊥)
    (trans : (x y z : A) → R x y → R y z → R x z) where
  -- The head of an ordered list is in no other place.
  head_or_later :
      (x e : A) (xs : List A) → Ordered R (x ∷ xs) → Memᴰ e (x ∷ xs) → (e ≡ x) ⊎ (Memᴰ e xs × R x e)
  head_or_later x e xs a (Memᴰ.head p) = inl p
  head_or_later x e xs a (Memᴰ.tail m) = inr (m, All-at (R x) xs a.0 m)

  same_heads :
      (x y : A) (xs ys : List A)
      → Ordered R (x ∷ xs)
      → Ordered R (y ∷ ys)
      → SameMembers (x ∷ xs) (y ∷ ys)
      → x ≡ y
  same_heads x y xs ys a b same = elim (head_or_later y x ys b ((same x).0 (Memᴰ.head refl))) [
    | inl e ↦ e
    | inr (_, y_first) ↦ elim (head_or_later x y xs a ((same y).1 (Memᴰ.head refl))) [
      | inl e ↦ sym e
      | inr (_, x_first) ↦ absurd (irrefl x (trans x y x x_first y_first))
    ]
  ]

  tail_member :
      (x e : A) (xs ys : List A)
      → Ordered R (x ∷ xs)
      → Ordered R (x ∷ ys)
      → (Memᴰ e (x ∷ xs) → Memᴰ e (x ∷ ys))
      → Memᴰ e xs
      → Memᴰ e ys
  tail_member x e xs ys a b f m = elim (head_or_later x e ys b (f (Memᴰ.tail m))) [
    | inl p ↦ absurd (irrefl x (subst (R x) p (All-at (R x) xs a.0 m)))
    | inr (k, _) ↦ k
  ]

  pub Ordered-unique : (xs ys : List A) → Ordered R xs → Ordered R ys → SameMembers xs ys → xs ≡ ys
  Ordered-unique [] [] a b same = refl
  Ordered-unique [] (y ∷ ys) a b same = elim ((same y).1 (Memᴰ.head refl)) [ ]
  Ordered-unique (x ∷ xs) [] a b same = elim ((same x).0 (Memᴰ.head refl)) [ ]
  Ordered-unique (x ∷ xs) (y ∷ ys) a b same =
      let p = same_heads x y xs ys a b same in
      let b' : Ordered R (x ∷ ys) = subst (λ z. Ordered R (z ∷ ys)) (sym p) b in
      let same' : SameMembers (x ∷ xs) (x ∷ ys) =
        subst (λ z. SameMembers (x ∷ xs) (z ∷ ys)) (sym p) same in
      let tails =
        Ordered-unique xs ys a.1 b.1
          (λ e. (tail_member x e xs ys a b' (same' e).0, tail_member x e ys xs b' a (same' e).1)) in
      λ i. p i ∷ tails i
