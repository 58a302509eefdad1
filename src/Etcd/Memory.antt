-- ===== src/Etcd/Memory.antt =====
-- A store in memory, which shows that the laws of etcd can hold: the keys in ascending order.
pub mod Table
use text.Mathlib.Text.{starts_with, is_lt, is_le}
use Prim.Native.String.{compare as text_compare}
use cke.Prelude.{
  ℕ, suc, ◌≤◌, ◌<◌, ◌≡◌, refl, ◌∙◌, String, Bool, ◌&&◌, List, [], ◌∷◌, All, All-at, Bool-cases, inl,
  inr, keep_if, mem-keep_if, keep_if-mem, str_eq, arith,
}
use cke.Etcd.{KeyValue, Write, put, delete, delete_range, Etcd}
use cke.Etcd.Laws.{Ascending, IsLawful, effect, after}
use Table.{
  lookup, set, erase, lookup-set, lookup-erase, All-set, All-keep, set-Ascending, keep-Ascending,
  mem-lookup, lookup-mem,
}

abbrev Entries : Type 0
Entries = List (String × KeyValue)

abbrev in_range : String → String → String → Bool
in_range a b k = is_le (text_compare a k) && is_lt (text_compare k b)

-- The first write to a key is the one that counts.
abbrev apply : ℕ → List Write → Entries → Entries
apply r [] l = l
apply r (put k v ∷ ws) l = set k (record { value = v; mod_revision = suc r }) (apply r ws l)
apply r (delete k ∷ ws) l = erase (λ j. str_eq j k) (apply r ws l)
apply r (delete_range a b ∷ ws) l = erase (in_range a b) (apply r ws l)

-- A revision is at most that of the store.
abbrev pub InBounds : ℕ → String × KeyValue → Type 0
InBounds r e = (0 < e.1.mod_revision) × (e.1.mod_revision ≤ r)

pub record Memory : Type 0 where
  pub entries : List (String × KeyValue)
  pub revision : ℕ
  pub ascending : Ascending entries
  pub in_bounds : All (InBounds revision) entries

pub apply-Ascending :
    (r : ℕ) (ws : List Write) (l : Entries) → Ascending l → Ascending (apply r ws l)
apply-Ascending r [] l a = a
apply-Ascending r (put k v ∷ ws) l a = set-Ascending k _ (apply r ws l) (apply-Ascending r ws l a)
apply-Ascending r (delete k ∷ ws) l a = keep-Ascending _ (apply r ws l) (apply-Ascending r ws l a)
apply-Ascending r (delete_range b c ∷ ws) l a =
    keep-Ascending _ (apply r ws l) (apply-Ascending r ws l a)

pub apply-InBounds :
    (r : ℕ) (ws : List Write) (l : Entries)
    → All (InBounds r) l
    → All (InBounds (suc r)) (apply r ws l)
apply-InBounds r [] [] a = tt
apply-InBounds r [] (e ∷ l) a = ((a.0.0, omega (arith, a.0.1)), apply-InBounds r [] l a.1)
apply-InBounds r (put k v ∷ ws) l a =
    All-set (InBounds (suc r)) k _ (apply r ws l) (omega arith, omega arith)
      (apply-InBounds r ws l a)
apply-InBounds r (delete k ∷ ws) l a =
    All-keep (InBounds (suc r)) _ (apply r ws l) (apply-InBounds r ws l a)
apply-InBounds r (delete_range b c ∷ ws) l a =
    All-keep (InBounds (suc r)) _ (apply r ws l) (apply-InBounds r ws l a)

lookup-apply :
    (r : ℕ) (ws : List Write) (l : Entries) (k : String)
    → lookup k (apply r ws l) ≡ after (effect k ws) r (lookup k l)
lookup-apply r [] l k = refl
lookup-apply r (put j v ∷ ws) l k =
    lookup-set j _ (apply r ws l) k
    ∙ (elim (Bool-cases (str_eq k j)) [ inl t ↦ rw t refl | inr f ↦ rw f (lookup-apply r ws l k) ])
lookup-apply r (delete j ∷ ws) l k =
    lookup-erase (λ i. str_eq i j) (apply r ws l) k
    ∙ (elim (Bool-cases (str_eq k j)) [ inl t ↦ rw t refl | inr f ↦ rw f (lookup-apply r ws l k) ])
lookup-apply r (delete_range a b ∷ ws) l k =
    lookup-erase (in_range a b) (apply r ws l) k ∙ (elim (Bool-cases (in_range a b k)) [
      | inl t ↦ rw t refl
      | inr f ↦ rw f (lookup-apply r ws l k)
    ])

unfoldable pub written : Memory → List Write → Memory
unfolding set
written m ws = record {
  entries = apply m.revision ws m.entries;
  revision = suc m.revision;
  ascending = apply-Ascending m.revision ws m.entries m.ascending;
  in_bounds = apply-InBounds m.revision ws m.entries m.in_bounds;
}

abbrev pub empty_memory : Memory
empty_memory = record { entries = []; revision = 1; ascending = tt; in_bounds = tt }

abbrev pub memory : Etcd
memory = record {
  State = Memory;
  get = λ m k. lookup k m.entries;
  list = λ m p. keep_if (λ e. starts_with e.0 p) m.entries;
  write = written;
}

pub memory-IsLawful : IsLawful memory
unfolding written
memory-IsLawful = record {
  revision = λ m. m.revision;
  get-write = λ m ws k. lookup-apply m.revision ws m.entries k;
  revision-write = λ m ws. omega arith;
  revision_bound =
      λ m k kv h. All-at (InBounds m.revision) m.entries m.in_bounds (lookup-mem m.entries k kv h);
  list_iff = λ m p k kv. (
    λ i.
        let r = mem-keep_if (λ (e : String × KeyValue). starts_with e.0 p) m.entries i in
        (r.1, mem-lookup m.entries k kv m.ascending r.0),
    λ h.
        keep_if-mem (λ (e : String × KeyValue). starts_with e.0 p) m.entries
          (lookup-mem m.entries k kv h.1) h.0,
  );
  list-Ascending = λ m p. keep-Ascending _ m.entries m.ascending;
}
