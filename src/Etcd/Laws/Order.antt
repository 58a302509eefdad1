-- ===== src/Etcd/Laws/Order.antt =====
-- The order of keys, by their bytes: it is strict and total, and a list of keys in ascending order is
-- given by what it holds.
use Prim.Native.Nat.{compare, Ordering}
use Prim.Native.Char.{code}
use Prim.Native.String.compare
use Prim.Native.String.{[] as empty, ◌∷◌ as cons, compare as text_compare, then as or_else}
use text.Mathlib.TextPositions.{compare_refl}
use text.Mathlib.TextEquality.{path_by_compare}
use cke.Prelude.{
  ℕ, ◌≡◌, sym, ◌∙◌, refl, String, List, arith, ◌⊎◌, inl, inr, SameMembers, Ordered-unique,
}
use cke.Etcd.{KeyValue}
use cke.Etcd.Laws.{IsBefore, Ascending}

flip_step :
    (a b : ℕ) (o p : Ordering)
    → (o ≡ Ordering.gt → p ≡ Ordering.lt)
    → or_else (compare a b) o ≡ Ordering.gt
    → or_else (compare b a) p ≡ Ordering.lt
flip_step a b o p f e = grind arith

trans_step :
    (a b c : ℕ) (o p r : Ordering)
    → (o ≡ Ordering.lt → p ≡ Ordering.lt → r ≡ Ordering.lt)
    → or_else (compare a b) o ≡ Ordering.lt
    → or_else (compare b c) p ≡ Ordering.lt
    → or_else (compare a c) r ≡ Ordering.lt
trans_step a b c o p r f e g = grind arith

pub flip-IsBefore : (s t : String) → text_compare s t ≡ Ordering.gt → IsBefore t s
flip-IsBefore empty empty e = let e' = sym compare.nil-nil ∙ e in cc
flip-IsBefore empty (cons d t) e = let e' = sym (compare.nil-cons d t) ∙ e in cc
flip-IsBefore (cons c s) empty e = compare.nil-cons c s
flip-IsBefore (cons c s) (cons d t) e =
    compare.cons-cons d c t s
    ∙ flip_step (code c) (code d) (text_compare s t) (text_compare t s) (flip-IsBefore s t)
        (sym (compare.cons-cons c d s t) ∙ e)

pub IsBefore-trans : (s t u : String) → IsBefore s t → IsBefore t u → IsBefore s u
IsBefore-trans empty empty u e f = let e' = sym compare.nil-nil ∙ e in cc
IsBefore-trans empty (cons d t) empty e f = let f' = sym (compare.cons-nil d t) ∙ f in cc
IsBefore-trans empty (cons d t) (cons g u) e f = compare.nil-cons g u
IsBefore-trans (cons c s) empty u e f = let e' = sym (compare.cons-nil c s) ∙ e in cc
IsBefore-trans (cons c s) (cons d t) empty e f = let f' = sym (compare.cons-nil d t) ∙ f in cc
IsBefore-trans (cons c s) (cons d t) (cons g u) e f =
    compare.cons-cons c g s u
    ∙ trans_step (code c) (code d) (code g) (text_compare s t) (text_compare t u) (text_compare s u)
        (IsBefore-trans s t u) (sym (compare.cons-cons c d s t) ∙ e)
        (sym (compare.cons-cons d g t u) ∙ f)

pub IsBefore-irrefl : (s : String) → IsBefore s s → ⊥
IsBefore-irrefl s e = let e' = sym (compare_refl s) ∙ e in cc

pub order_cases : (s t : String) → IsBefore s t ⊎ ((s ≡ t) ⊎ IsBefore t s)
order_cases s t = go (text_compare s t) refl
  where
    go : (o : Ordering) → text_compare s t ≡ o → IsBefore s t ⊎ ((s ≡ t) ⊎ IsBefore t s)
    go Ordering.lt e = inl e
    go Ordering.eq e = inr (inl (path_by_compare s t e))
    go Ordering.gt e = inr (inr (flip-IsBefore s t e))

pub Ascending-unique :
    (xs ys : List (String × KeyValue)) → Ascending xs → Ascending ys → SameMembers xs ys → xs ≡ ys
Ascending-unique =
    Ordered-unique (λ (e f : String × KeyValue). IsBefore e.0 f.0) (λ e. IsBefore-irrefl e.0)
      (λ e f g. IsBefore-trans e.0 f.0 g.0)
