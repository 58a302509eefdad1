-- ===== src/Storage/Records/Bounds.antt =====
-- The records that are left where the oldest are deleted.
use Prim.Native.Nat.{Ordering}
use Prim.Native.String.{compare as text_compare}
use text.Mathlib.Text.{is_lt, is_le}
use text.Mathlib.TextPositions.{compare_refl}
use cke.Prelude.{
  ℕ, zero, suc, ◌-◌, ◌<◌, ◌≡◌, refl, sym, ap, subst, ◌∙◌, ◌⊎◌, inl, inr, String, Bool, true, false,
  ◌&&◌, List, [], ◌∷◌, Option, none, some, All, All-at, Memᴰ, length, Bool-cases, arith,
}
use cke.Etcd.{KeyValue, delete_range, Etcd}
use cke.Etcd.Laws.{IsLawful, IsBefore, Ascending}
use cke.Etcd.Laws.Order.{IsBefore-trans, IsBefore-irrefl, Ascending-unique}
use cke.Storage.Records.{key_at}

-- `l[n:]`
abbrev pub drop {ℓ} : {A : Type ℓ} → ℕ → List A → List A
drop zero l = l
drop (suc n) [] = []
drop (suc n) (x ∷ l) = drop n l

pub length-drop {ℓ} : {A : Type ℓ} (n : ℕ) (l : List A) → length (drop n l) ≡ length l - n
length-drop zero l = omega arith
length-drop (suc n) [] = omega arith
length-drop (suc n) (x ∷ l) = omega (arith, length-drop n l)

abbrev Entries : Type 0
Entries = List (String × KeyValue)

abbrev in_range : String → String → String → Bool
in_range a b k = is_le (text_compare a k) && is_lt (text_compare k b)

drop-Ascending : (n : ℕ) (l : Entries) → Ascending l → Ascending (drop n l)
drop-Ascending zero l a = a
drop-Ascending (suc n) [] a = tt
drop-Ascending (suc n) (e ∷ l) a = drop-Ascending n l a.1

key_at-IsBefore :
    (x : String × KeyValue) (n : ℕ) (l : Entries)
    → All (λ f. IsBefore x.0 f.0) l
    → n < length l
    → IsBefore x.0 (key_at l n)
key_at-IsBefore x n [] a h = absurd (omega arith)
key_at-IsBefore x zero (e ∷ l) a h = a.0
key_at-IsBefore x (suc n) (e ∷ l) a h = key_at-IsBefore x n l a.1 (omega arith)

-- An element is kept, or its key is before that of the n-th element.
drop-cases :
    (n : ℕ) (l : Entries) (e : String × KeyValue)
    → Ascending l
    → n < length l
    → Memᴰ e l
    → IsBefore e.0 (key_at l n) ⊎ Memᴰ e (drop n l)
drop-cases zero l e a h m = inr m
drop-cases (suc n) [] e a h m = elim m [ ]
drop-cases (suc n) (x ∷ l) e a h (Memᴰ.head p) =
    inl (subst (λ y. IsBefore y.0 (key_at l n)) (sym p) (key_at-IsBefore x n l a.0 (omega arith)))
drop-cases (suc n) (x ∷ l) e a h (Memᴰ.tail m) = drop-cases n l e a.1 (omega arith) m

not_before : (k j : String) → (k ≡ j) ⊎ IsBefore j k → is_lt (text_compare k j) ≡ false
not_before k j (inl p) = rw (p, compare_refl j) refl
not_before k j (inr b) = go (text_compare k j) refl
  where
    go : (o : Ordering) → text_compare k j ≡ o → is_lt o ≡ false
    go Ordering.lt e = absurd (IsBefore-irrefl k (IsBefore-trans k j k e b))
    go Ordering.eq e = refl
    go Ordering.gt e = refl

drop-later :
    (n : ℕ) (l : Entries) (e : String × KeyValue)
    → Ascending l
    → Memᴰ e (drop n l)
    → is_lt (text_compare e.0 (key_at l n)) ≡ false
drop-later zero [] e a m = elim m [ ]
drop-later zero (x ∷ l) e a (Memᴰ.head p) = not_before e.0 x.0 (inl (ap (λ y. y.0) p))
drop-later zero (x ∷ l) e a (Memᴰ.tail m) =
    not_before e.0 x.0 (inr (All-at (λ f. IsBefore x.0 f.0) l a.0 m))
drop-later (suc n) [] e a m = elim m [ ]
drop-later (suc n) (x ∷ l) e a m = drop-later n l e a.1 m

drop-mem : (n : ℕ) (l : Entries) (e : String × KeyValue) → Memᴰ e (drop n l) → Memᴰ e l
drop-mem zero l e m = m
drop-mem (suc n) [] e m = elim m [ ]
drop-mem (suc n) (x ∷ l) e m = Memᴰ.tail (drop-mem n l e m)

-- The first key is at or before each.
first_le :
    (l : Entries) (e : String × KeyValue)
    → Ascending l
    → Memᴰ e l
    → is_le (text_compare (key_at l 0) e.0) ≡ true
first_le [] e a m = elim m [ ]
first_le (x ∷ l) e a (Memᴰ.head p) = rw (ap (λ y. y.0) p, compare_refl x.0) refl
first_le (x ∷ l) e a (Memᴰ.tail m) = let b = All-at (λ f. IsBefore x.0 f.0) l a.0 m in rw b refl

module _ (E : Etcd) (L : IsLawful E) (p : String) where
  get-outside :
      (s : E.State) (a b k : String)
      → in_range a b k ≡ false
      → E.get (E.write s (delete_range a b ∷ [])) k ≡ E.get s k
  get-outside s a b k h = rw (L.get-write s (delete_range a b ∷ []) k, h) refl

  get-inside :
      (s : E.State) (a b k : String)
      → in_range a b k ≡ true
      → E.get (E.write s (delete_range a b ∷ [])) k ≡ none
  get-inside s a b k h = rw (L.get-write s (delete_range a b ∷ []) k, h) refl

  -- Deleting the keys from the first to before the n-th leaves the keys from the n-th on.
  pub list-delete_range :
      (s : E.State) (n : ℕ)
      → n < length (E.list s p)
      → E.list (E.write s (delete_range (key_at (E.list s p) 0) (key_at (E.list s p) n) ∷ [])) p
        ≡ drop n (E.list s p)
  list-delete_range s n h =
      let l = E.list s p in
      let a = L.list-Ascending s p in
      let t = E.write s (delete_range (key_at l 0) (key_at l n) ∷ []) in
      Ascending-unique (E.list t p) (drop n l) (L.list-Ascending t p) (drop-Ascending n l a) (λ e. (
        λ m.
            let (inside, now) = (L.list_iff t p e.0 e.1).0 m in
            elim (Bool-cases (in_range (key_at l 0) (key_at l n) e.0)) [
              | inl gone ↦ absurd (no_value (sym (get-inside s _ _ e.0 gone) ∙ now))
              | inr kept ↦
                  let was = sym (get-outside s _ _ e.0 kept) ∙ now in
                  let m' = (L.list_iff s p e.0 e.1).1 (inside, was) in
                  elim (drop-cases n l e a h m') [
                    | inr i ↦ i
                    | inl before ↦
                        let low = first_le l e a m' in
                        let high : is_lt (text_compare e.0 (key_at l n)) ≡ true = rw before refl in
                        let in_it : in_range (key_at l 0) (key_at l n) e.0 ≡ true =
                          rw (low, high) refl in
                        absurd (both_ways (sym in_it ∙ kept))
                  ]
            ],
        λ m.
            let m' = drop-mem n l e m in
            let (inside, was) = (L.list_iff s p e.0 e.1).0 m' in
            let high = drop-later n l e a m in
            let low = first_le l e a m' in
            let out : in_range (key_at l 0) (key_at l n) e.0 ≡ false = rw (low, high) refl in
            (L.list_iff t p e.0 e.1).1 (inside, get-outside s _ _ e.0 out ∙ was),
      ))
    where
      no_value : {v : KeyValue} → ◌≡◌ {A = Option KeyValue} none (some v) → ⊥
      no_value q = cc

      both_ways : true ≡ false → ⊥
      both_ways q = cc
