-- ===== src/Etcd/Memory/Table.antt =====
-- Ascending lists of keys with values: what is looked up after a change, and that they stay ascending.
use Prim.Native.Nat.{Ordering}
use Prim.Native.String.{compare as text_compare}
use text.Mathlib.TextEquality.{path_by_compare}
use cke.Prelude.{
  ◌≡◌, refl, sym, ◌∙◌, subst, ap, String, Bool, true, false, not, List, [], ◌∷◌, Option, none, some,
  All, All-mem, All-at, keep_if, Memᴰ, str_eq, eq_iff, ◌⊎◌, if◌then◌else◌, Bool-cases, inl, inr,
  arith,
}
use cke.Etcd.{KeyValue}
use cke.Etcd.Laws.{IsBefore, Ascending}
use cke.Etcd.Laws.Order.{flip-IsBefore, IsBefore-trans, IsBefore-irrefl}

abbrev Entries : Type 0
Entries = List (String × KeyValue)

unfoldable pub lookup : String → List (String × KeyValue) → Option KeyValue
lookup k [] = none
lookup k ((j, v) ∷ l) = if str_eq k j then some v else lookup k l

-- A new entry against the head of a list, with the list that holds it further on.
abbrev place :
    Ordering → String × KeyValue → String × KeyValue → Entries → Entries → List (String × KeyValue)
place Ordering.lt new e l later = new ∷ e ∷ l
place Ordering.eq new e l later = new ∷ l
place Ordering.gt new e l later = e ∷ later

unfoldable pub set : String → KeyValue → List (String × KeyValue) → List (String × KeyValue)
set k v [] = (k, v) ∷ []
set k v ((j, u) ∷ l) = place (text_compare k j) (k, v) (j, u) l (set k v l)

pub set_cons :
    (o : Ordering) (k j : String) (v u : KeyValue) (l : Entries)
    → text_compare k j ≡ o
    → set k v ((j, u) ∷ l) ≡ place o (k, v) (j, u) l (set k v l)
unfolding set
set_cons o k j v u l e = ap (λ o. place o (k, v) (j, u) l (set k v l)) e

abbrev pub erase : (String → Bool) → List (String × KeyValue) → List (String × KeyValue)
erase p l = keep_if (λ e. not (p e.0)) l

compare_cases :
    (k i : String)
    → (text_compare k i ≡ Ordering.lt)
      ⊎ ((text_compare k i ≡ Ordering.eq) ⊎ (text_compare k i ≡ Ordering.gt))
compare_cases k i = go (text_compare k i)
  where
    go : (o : Ordering) → (o ≡ Ordering.lt) ⊎ ((o ≡ Ordering.eq) ⊎ (o ≡ Ordering.gt))
    go Ordering.lt = inl refl
    go Ordering.eq = inr (inl refl)
    go Ordering.gt = inr (inr refl)

str_eq-of_IsBefore : (k j : String) → IsBefore k j → str_eq k j ≡ false
str_eq-of_IsBefore k j b = rw b refl

str_eq-IsBefore : (k j : String) → IsBefore k j → str_eq j k ≡ false
str_eq-IsBefore k j b = elim (Bool-cases (str_eq j k)) [
  | inl t ↦ absurd (IsBefore-irrefl k (subst (λ x. IsBefore k x) ((eq_iff j k).0 t) b))
  | inr f ↦ f
]

pub lookup-set :
    (k : String) (v : KeyValue) (l : Entries) (j : String)
    → lookup j (set k v l) ≡ (if str_eq j k then some v else lookup j l)
unfolding lookup set
lookup-set k v [] j = refl
lookup-set k v ((i, u) ∷ l) j = elim (compare_cases k i) [
  | inl lt ↦ rw (set_cons Ordering.lt k i v u l lt) refl
  | inr (inl same) ↦
      let e : str_eq j k ≡ str_eq j i = ap (str_eq j) (path_by_compare k i same) in
      rw (set_cons Ordering.eq k i v u l same)
        (simp e (if_lem (str_eq j i) (some v) (some u) (lookup j l)))
  | inr (inr gt) ↦ elim (Bool-cases (str_eq j i)) [
    | inl t ↦
        let e : str_eq j k ≡ false =
          subst (λ x. str_eq x k ≡ false) (sym ((eq_iff j i).0 t))
            (str_eq-of_IsBefore i k (flip-IsBefore k i gt)) in
        rw (set_cons Ordering.gt k i v u l gt, t, e) refl
    | inr f ↦ rw (set_cons Ordering.gt k i v u l gt, f) (lookup-set k v l j)
  ]
]
  where
    if_lem :
        (b : Bool) (x y z : Option KeyValue)
        → (if b then x else z) ≡ (if b then x else (if b then y else z))
    if_lem true x y z = refl
    if_lem false x y z = refl

pub lookup-erase :
    (p : String → Bool) (l : Entries) (j : String)
    → lookup j (erase p l) ≡ (if p j then none else lookup j l)
unfolding lookup
lookup-erase p [] j = ground arith
lookup-erase p ((i, u) ∷ l) j = elim (Bool-cases (str_eq j i)) [
  | inl t ↦
      let e : p i ≡ p j = ap p (sym ((eq_iff j i).0 t)) in
      elim (Bool-cases (p j)) [
        | inl y ↦ rw (e, y) (lookup-erase p l j ∙ rw y refl)
        | inr n ↦ rw (e, n, t) refl
      ]
  | inr f ↦ elim (Bool-cases (p i)) [
    | inl y ↦ rw (y, f) (lookup-erase p l j)
    | inr n ↦ rw (n, f) (lookup-erase p l j)
  ]
]

pub All-set :
    (P : String × KeyValue → Type 0) (k : String) (v : KeyValue) (l : Entries)
    → P (k, v)
    → All P l
    → All P (set k v l)
unfolding set
All-set P k v [] p a = (p, tt)
All-set P k v ((i, u) ∷ l) p a = elim (compare_cases k i) [
  | inl lt ↦ rw (set_cons Ordering.lt k i v u l lt) (p, a)
  | inr (inl same) ↦ rw (set_cons Ordering.eq k i v u l same) (p, a.1)
  | inr (inr gt) ↦ rw (set_cons Ordering.gt k i v u l gt) (a.0, All-set P k v l p a.1)
]

pub All-keep {ℓ} :
    {A : Type ℓ} (P : A → Type 0) (f : A → Bool) (l : List A) → All P l → All P (keep_if f l)
All-keep P f [] a = tt
All-keep P f (x ∷ l) a = elim (Bool-cases (f x)) [
  | inl t ↦ rw t (a.0, All-keep P f l a.1)
  | inr n ↦ rw n (All-keep P f l a.1)
]

pub set-Ascending : (k : String) (v : KeyValue) (l : Entries) → Ascending l → Ascending (set k v l)
unfolding set
set-Ascending k v [] a = (tt, tt)
set-Ascending k v ((i, u) ∷ l) a = elim (compare_cases k i) [
  | inl lt ↦ rw (set_cons Ordering.lt k i v u l lt) (
    (lt, All-mem _ l (λ e m. IsBefore-trans k i e.0 lt (All-at (λ f. IsBefore i f.0) l a.0 m))),
    a,
  )
  | inr (inl same) ↦
      let p = path_by_compare k i same in
      rw (set_cons Ordering.eq k i v u l same)
        (subst (λ x. All (λ f. IsBefore x f.0) l) (sym p) a.0, a.1)
  | inr (inr gt) ↦
      rw (set_cons Ordering.gt k i v u l gt)
        (All-set (λ f. IsBefore i f.0) k v l (flip-IsBefore k i gt) a.0, set-Ascending k v l a.1)
]

pub keep-Ascending :
    (f : String × KeyValue → Bool) (l : Entries) → Ascending l → Ascending (keep_if f l)
keep-Ascending f [] a = tt
keep-Ascending f (e ∷ l) a = elim (Bool-cases (f e)) [
  | inl t ↦ rw t (All-keep _ f l a.0, keep-Ascending f l a.1)
  | inr n ↦ rw n (keep-Ascending f l a.1)
]

pub mem-lookup :
    (l : Entries) (k : String) (v : KeyValue) → Ascending l → Memᴰ (k, v) l → lookup k l ≡ some v
unfolding lookup
mem-lookup [] k v a m = elim m [ ]
mem-lookup ((j, u) ∷ l) k v a (Memᴰ.head e) =
    let p : k ≡ j = ap (λ x. x.0) e in
    let r : v ≡ u = ap (λ x. x.1) e in
    let t : str_eq k j ≡ true = (eq_iff k j).1 p in rw (t, r) refl
mem-lookup ((j, u) ∷ l) k v a (Memᴰ.tail m) =
    let f = str_eq-IsBefore j k (All-at (λ g. IsBefore j g.0) l a.0 m) in
    rw f (mem-lookup l k v a.1 m)

pub lookup-mem : (l : Entries) (k : String) (v : KeyValue) → lookup k l ≡ some v → Memᴰ (k, v) l
unfolding lookup
lookup-mem [] k v h = cc
lookup-mem ((j, u) ∷ l) k v h = elim (Bool-cases (str_eq k j)) [
  | inl t ↦
      let e : some u ≡ some v = rw t at h in
      let p = (eq_iff k j).0 t in let r : u ≡ v = cc in Memᴰ.head (λ i. (p i, sym r i))
  | inr f ↦ Memᴰ.tail (lookup-mem l k v (rw f at h))
]
