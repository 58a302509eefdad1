-- ===== src/Server/NodeAttrs/Maps.antt =====
-- Laws of the maps of labels and annotations, and of the map of taints.
use text.Mathlib.TextPositions.{eq_refl}
use cke.Prelude.{
  String, ◌≡◌, refl, Bool, true, false, ◌||◌, List, [], ◌∷◌, ◌++◌, none, some, any, keep_if, str_eq,
  eq_iff, arith, Memᴰ, if◌then◌else◌, ap, ◌∙◌, subst, sym,
}
use cke.Params.{find_key}
use cke.Cluster.{Taint}
use cke.Server.NodeAttrs.{Attrs, has_attr, last_taint, has_taint, set_attr, copy_attrs}

pub any-false {ℓ} :
    {A : Type ℓ} (p : A → Bool) (xs : List A)
    → ((a : A) → Memᴰ a xs → p a ≡ false)
    → any p xs ≡ false
any-false p [] h = refl
any-false p (x ∷ xs) h = rw (h x (Memᴰ.head refl), any-false p xs (λ a m. h a (Memᴰ.tail m))) refl

pub any-append {ℓ} :
    {A : Type ℓ} (p : A → Bool) (xs ys : List A) → any p (xs ++ ys) ≡ (any p xs || any p ys)
any-append p [] ys = refl
any-append p (x ∷ xs) ys = ground (arith, any-append p xs ys)

pub any-keep_if {ℓ} :
    {A : Type ℓ} (p q : A → Bool) (xs : List A)
    → ((a : A) → q a ≡ true → p a ≡ false)
    → any p (keep_if q xs) ≡ false
any-keep_if p q [] h = refl
any-keep_if p q (x ∷ xs) h = ground (arith, h x, any-keep_if p q xs h)

abbrev pub Keys : Attrs → Type 0
Keys [] = Unit {0}
Keys ((k, v) ∷ m) = (has_attr k m ≡ false) × Keys m

module _ (k : String) where
  pub find_key-set_attr :
      (j v : String) (m : Attrs)
      → find_key k (set_attr j v m) ≡ (if str_eq j k then some v else find_key k m)
  find_key-set_attr j v [] = refl
  find_key-set_attr j v ((i, w) ∷ m) =
      ground (arith, eq_iff j k, eq_iff i j, eq_iff i k, find_key-set_attr j v m)

  pub find_key-copy_attrs :
      (m src : Attrs) → has_attr k src ≡ false → find_key k (copy_attrs m src) ≡ find_key k m
  find_key-copy_attrs m [] h = refl
  find_key-copy_attrs m ((j, v) ∷ src) h =
      ground (arith, find_key-copy_attrs (set_attr j v m) src, find_key-set_attr j v m)

pub find_key-copied :
    (m src : Attrs) {k v : String}
    → Keys src
    → Memᴰ (k, v) src
    → find_key k (copy_attrs m src) ≡ some v
find_key-copied m [] d i = elim i [ ]
find_key-copied m ((j, w) ∷ src) {k} {v} d (Memᴰ.head e) =
    let a : k ≡ j = ap (λ (p : String × String). p.0) e in
    let b : v ≡ w = ap (λ (p : String × String). p.1) e in
    rw (a, b)
      (find_key-copy_attrs j (set_attr j w m) src d.0
        ∙ (find_key-set_attr j j w m ∙ rw (eq_refl j) refl))
find_key-copied m ((j, w) ∷ src) d (Memᴰ.tail i) = find_key-copied (set_attr j w m) src d.1 i

module _ (p : String → Bool) where
  abbrev of_key : String × String → Bool
  of_key (k, v) = p k

  pub any-set_attr :
      (k v : String) (m : Attrs)
      → p k ≡ false
      → any of_key m ≡ false
      → any of_key (set_attr k v m) ≡ false
  any-set_attr k v [] h a = ground arith
  any-set_attr k v ((j, w) ∷ m) h a = ground (arith, any-set_attr k v m)

  pub any-copy_attrs :
      (m src : Attrs)
      → any of_key m ≡ false
      → any of_key src ≡ false
      → any of_key (copy_attrs m src) ≡ false
  any-copy_attrs m [] a b = a
  any-copy_attrs m ((k, v) ∷ src) a b =
      any-copy_attrs (set_attr k v m) src (any-set_attr k v m (ground arith) a) (ground arith)

pub has_attr-of_mem : (m : Attrs) {k v : String} → Memᴰ (k, v) m → has_attr k m ≡ true
has_attr-of_mem [] i = elim i [ ]
has_attr-of_mem ((j, w) ∷ m) {k} {v} (Memᴰ.head e) =
    let a : k ≡ j = ap (λ (p : String × String). p.0) e in rw (a, eq_refl j) refl
has_attr-of_mem ((j, w) ∷ m) {k} {v} (Memᴰ.tail i) = ground (arith, has_attr-of_mem m i)

pub has_attr_of_find_key : (k : String) (m : Attrs) → find_key k m ≡ none → has_attr k m ≡ false
has_attr_of_find_key k [] h = refl
has_attr_of_find_key k ((j, v) ∷ m) h = ground (arith, has_attr_of_find_key k m)

pub find_key-keep_if :
    (p : String → Bool) (k : String) (m : Attrs)
    → p k ≡ false
    → find_key k (keep_if (λ (j, v). p j) m) ≡ none
find_key-keep_if p k [] h = refl
find_key-keep_if p k ((j, v) ∷ m) h =
    ground (arith, find_key-keep_if p k m h, eq_iff j k, λ (e : j ≡ k). ap p e)

pub last_taint-append :
    (k : String) (xs ys : List Taint)
    → last_taint k (xs ++ ys) ≡ elim (last_taint k ys) [ some t ↦ some t | none ↦ last_taint k xs ]
last_taint-append k [] ys = ground arith
last_taint-append k (t ∷ xs) ys = ground (arith, last_taint-append k xs ys)

pub last_taint-none :
    (k : String) (ts : List Taint) → has_taint k ts ≡ false → last_taint k ts ≡ none
last_taint-none k [] h = refl
last_taint-none k (t ∷ ts) h = ground (arith, last_taint-none k ts)

abbrev pub TaintKeys : List Taint → Type 0
TaintKeys [] = Unit {0}
TaintKeys (t ∷ ts) = (has_taint t.key ts ≡ false) × TaintKeys ts

pub last_taint_of_mem :
    (ts : List Taint) {t : Taint} → TaintKeys ts → Memᴰ t ts → last_taint t.key ts ≡ some t
last_taint_of_mem [] d i = elim i [ ]
last_taint_of_mem (s ∷ ts) {t} d (Memᴰ.head e) =
    subst (λ x. last_taint x.key (s ∷ ts) ≡ some x) (sym e)
      (rw (last_taint-none s.key ts d.0, eq_refl s.key) refl)
last_taint_of_mem (s ∷ ts) {t} d (Memᴰ.tail i) = rw (last_taint_of_mem ts d.1 i) refl
