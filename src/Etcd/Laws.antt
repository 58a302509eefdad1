-- ===== src/Etcd/Laws.antt =====
-- What storage.go relies on in etcd: a transaction takes effect at once, the revision of the store
-- grows with each change, and a key holds the revision of the transaction that last put it.
pub mod Order
use Prim.Native.Nat.{Ordering}
use Prim.Native.String.{compare as text_compare}
use text.Mathlib.Text.{starts_with, is_lt, is_le}
use cke.Prelude.{
  ℕ, suc, ◌≤◌, ◌<◌, ◌≡◌, refl, ◌↔◌, ◌⊎◌, inl, inr, String, Bool, true, ◌&&◌, List, [], ◌∷◌, Option,
  none, some, Memᴰ, Ordered, arith, str_eq, if◌then◌else◌, Option-cases,
}
use cke.Etcd.{KeyValue, Write, put, delete, delete_range, Etcd, write_all, mod_revision_of}

-- What a transaction does to one key.
pub data Effect : Type 0 where
  untouched removed : Effect
  stored : String → Effect

abbrev one_effect : String → Write → Effect
one_effect k (put j v) = if str_eq k j then stored v else untouched
one_effect k (delete j) = if str_eq k j then removed else untouched
one_effect k (delete_range a b) =
    if is_le (text_compare a k) && is_lt (text_compare k b) then removed else untouched

abbrev before_rest : Effect → Effect → Effect
before_rest untouched rest = rest
before_rest e rest = e

abbrev pub effect : String → List Write → Effect
effect k [] = untouched
effect k (w ∷ ws) = before_rest (one_effect k w) (effect k ws)

abbrev pub after : Effect → ℕ → Option KeyValue → Option KeyValue
after untouched r kv = kv
after removed r kv = none
after (stored v) r kv = some (record { value = v; mod_revision = suc r })

-- Strictly ascending keys.
abbrev pub IsBefore : String → String → Type 0
IsBefore k j = text_compare k j ≡ Ordering.lt

abbrev pub Ascending : List (String × KeyValue) → Type 0
Ascending = Ordered (λ e f. IsBefore e.0 f.0)

pub record IsLawful (E : Etcd) : Type 0 where
  pub revision : E.State → ℕ
  pub get-write :
      (s : E.State) (ws : List Write) (k : String)
      → E.get (E.write s ws) k ≡ after (effect k ws) (revision s) (E.get s k)
  pub revision-write : (s : E.State) (ws : List Write) → revision s ≤ revision (E.write s ws)
  pub revision_bound :
      (s : E.State) (k : String) (kv : KeyValue)
      → E.get s k ≡ some kv
      → (0 < kv.mod_revision) × (kv.mod_revision ≤ revision s)
  pub list_iff :
      (s : E.State) (p k : String) (kv : KeyValue)
      → Memᴰ (k, kv) (E.list s p) ↔ ((starts_with k p ≡ true) × (E.get s k ≡ some kv))
  pub list-Ascending : (s : E.State) (p : String) → Ascending (E.list s p)

module _ (E : Etcd) (L : IsLawful E) (k : String) where
  -- How a key may stand later than at the revision `r`.
  Since : ℕ → Option KeyValue → E.State → Type 0
  Since r old s =
      (E.get s k ≡ old)
      ⊎ ((E.get s k ≡ none) ⊎ ((kv : KeyValue) × (E.get s k ≡ some kv) × (r < kv.mod_revision)))

  Since-write :
      (r : ℕ) (old : Option KeyValue) (s : E.State) (ws : List Write)
      → r ≤ L.revision s
      → Since r old s
      → Since r old (E.write s ws)
  unfolding Since
  Since-write r old s ws h since = go (effect k ws) (L.get-write s ws k) since
    where
      go :
          (e : Effect)
          → E.get (E.write s ws) k ≡ after e (L.revision s) (E.get s k)
          → Since r old s
          → Since r old (E.write s ws)
      go untouched q since = rw q since
      go removed q since = inr (inl q)
      go (stored v) q since =
          inr (inr (record { value = v; mod_revision = suc (L.revision s) }, q, omega arith))

  Since-write_all :
      (r : ℕ) (old : Option KeyValue) (s : E.State) (txs : List (List Write))
      → r ≤ L.revision s
      → Since r old s
      → Since r old (write_all E s txs)
  unfolding write_all
  Since-write_all r old s [] h since = since
  Since-write_all r old s (ws ∷ txs) h since =
      Since-write_all r old (E.write s ws) txs (omega (arith, h, L.revision-write s ws))
        (Since-write r old s ws h since)

  -- A key with the revision that it had holds what it held.
  pub get-unchanged :
      (s : E.State) (txs : List (List Write))
      → mod_revision_of (E.get (write_all E s txs) k) ≡ mod_revision_of (E.get s k)
      → E.get (write_all E s txs) k ≡ E.get s k
  unfolding Since
  get-unchanged s txs e =
      elim (Since-write_all (L.revision s) (E.get s k) s txs (omega arith) (inl refl)) [
        | inl same ↦ same
        | inr (inl gone) ↦ elim (Option-cases (E.get s k)) [
          | inl was ↦ rw (gone, was) refl
          | inr (kv, was) ↦
              let zero : mod_revision_of none ≡ mod_revision_of (some kv) = rw (gone, was) at e in
              absurd (omega (arith, zero, L.revision_bound s k kv was))
        ]
        | inr (inr (kv, now, later)) ↦ elim (Option-cases (E.get s k)) [
          | inl was ↦
              let zero : kv.mod_revision ≡ mod_revision_of none = rw (now, was) at e in
              absurd (omega arith)
          | inr (kv', was) ↦
              let same : kv.mod_revision ≡ kv'.mod_revision = rw (now, was) at e in
              absurd (omega (arith, same, later, L.revision_bound s k kv' was))
        ]
      ]
