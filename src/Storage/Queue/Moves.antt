-- ===== src/Storage/Queue/Moves.antt =====
-- The transactions on a queue, and that no entry stands at the write index or after it.
use text.Mathlib.Text.{starts_with}
use text.Mathlib.TextPositions.{starts_with-append}
use cke.Prelude.{
  ℕ, suc, ◌+◌, ◌≤◌, ◌<◌, ◌≡◌, refl, sym, subst, ◌∙◌, ◌≢◌, inl, inr, String, true, false, List, [],
  ◌∷◌, Option, none, some, ltb, str_eq, eq_iff, Bool-cases,
}
use cke.Reboot.BackOff.{int64_half}
use cke.Reboot.{RebootQueueEntry}
use cke.Repair.{RepairQueueEntry}
use cke.Etcd.{KeyValue, Write, put, delete, Etcd}
use cke.Etcd.Laws.{IsLawful, effect, untouched}
use cke.Storage.Numbers.{format_int, parse_int}
use cke.Storage.Keys.{entry_key}
use cke.Storage.{Codec}
use cke.Storage.Queue.{Queue, reboots, repairs, key_of, index_in}

-- The key of the write index is not the key of an entry.
abbrev pub IsApart : {A : Type 0} → Queue A → Type 0
IsApart q = starts_with q.write_index_key q.prefix ≡ false

pub entry_key-prefix : (p : String) (i : ℕ) → starts_with (entry_key p i) p ≡ true
unfolding entry_key
entry_key-prefix p i = elim (Bool-cases (ltb i int64_half)) [
  | inl t ↦ rw t (starts_with-append p _)
  | inr f ↦ rw f (starts_with-append p _)
]

pub reboots-IsApart : (codec : Codec RebootQueueEntry) → IsApart (reboots codec)
reboots-IsApart codec = refl

pub repairs-IsApart : (codec : Codec RepairQueueEntry) → IsApart (repairs codec)
repairs-IsApart codec = refl

pub some_pair_inj :
    {i r j t : ℕ} → ◌≡◌ {A = Option (ℕ × ℕ)} (some (i, r)) (some (j, t)) → (i ≡ j) × (r ≡ t)
some_pair_inj h = (cc, cc)

pub str_eq_refl : (k : String) → str_eq k k ≡ true
str_eq_refl k = (eq_iff k k).1 refl

pub str_eq-apart : {k j : String} → k ≢ j → str_eq k j ≡ false
str_eq-apart {k} {j} h = elim (Bool-cases (str_eq k j)) [
  | inl t ↦ absurd (h ((eq_iff k j).0 t))
  | inr f ↦ f
]

module _ (E : Etcd) {A : Type 0} (q : Queue A) where
  pub index_in-number :
      (v : String) (i r : ℕ)
      → parse_int v ≡ some i
      → index_in E q (some (record { value = v; mod_revision = r })) ≡ some (i, r)
  index_in-number v i r e = rw (index_in, e) refl

  -- The transaction that adds an entry.
  abbrev pub add_entry : ℕ → String → List Write
  add_entry i text = put (key_of E q i) text ∷ put q.write_index_key (format_int (i + 1)) ∷ []

  -- The text of an entry with the index of its key.
  pub record IsEntry (k text : String) : Type 0 where
    pub number : ℕ
    pub small : number < int64_half
    pub is_key : k ≡ key_of E q number
    pub entry : A
    pub is_entry : q.codec.unmarshal text ≡ some entry
    pub is_number : q.index entry ≡ number

  -- The write index can be read, no entry has it or a higher index, and all keys under the prefix
  -- are those of entries.
  pub record IsQueue (s : E.State) : Type 0 where
    pub next : ℕ
    pub revision : ℕ
    pub bound : next < int64_half
    pub is_next : index_in E q (E.get s q.write_index_key) ≡ some (next, revision)
    pub unused : (i : ℕ) → next ≤ i → i < int64_half → E.get s (key_of E q i) ≡ none
    pub filled :
        (k : String) (kv : KeyValue)
        → E.get s k ≡ some kv
        → starts_with k q.prefix ≡ true
        → IsEntry k kv.value

  pub next_unique :
      {s : E.State} (i r : ℕ) (k : IsQueue s)
      → index_in E q (E.get s q.write_index_key) ≡ some (i, r)
      → i ≡ k.next
  next_unique i r k e = (some_pair_inj (sym e ∙ k.is_next)).0

  -- The transactions of CKE at a state: an entry is added at the write index, an entry that exists
  -- is written again, an entry is deleted, or neither the entries nor the write index are touched.
  pub data Move (s : E.State) : List Write → Type 0 where
    adds :
        (i r : ℕ) (text : String)
        → index_in E q (E.get s q.write_index_key) ≡ some (i, r)
        → i + 1 < int64_half
        → IsEntry (key_of E q i) text
        → Move s (add_entry i text)
    rewrites :
        (i : ℕ) (text : String)
        → E.get s (key_of E q i) ≢ none
        → i < int64_half
        → IsEntry (key_of E q i) text
        → Move s (put (key_of E q i) text ∷ [])
    deletes : (i : ℕ) → Move s (delete (key_of E q i) ∷ [])
    passes :
        (ws : List Write)
        → effect q.write_index_key ws ≡ untouched
        → ((k : String) → starts_with k q.prefix ≡ true → effect k ws ≡ untouched)
        → Move s ws

  module _ (L : IsLawful E) (apart : IsApart q) where
    pub key_of-apart : (i : ℕ) → key_of E q i ≢ q.write_index_key
    key_of-apart i e =
        let t : starts_with q.write_index_key q.prefix ≡ true =
          subst (λ k. starts_with k q.prefix ≡ true) e (entry_key-prefix q.prefix i) in
        cc

    pub get-put :
        (s : E.State) (k text : String)
        → E.get (E.write s (put k text ∷ [])) k
          ≡ some (record { value = text; mod_revision = suc (L.revision s) })
    get-put s k text = rw (L.get-write s (put k text ∷ []) k, str_eq_refl k) refl

    pub get-put_other :
        (s : E.State) (k j text : String)
        → j ≢ k
        → E.get (E.write s (put k text ∷ [])) j ≡ E.get s j
    get-put_other s k j text h = rw (L.get-write s (put k text ∷ []) j, str_eq-apart h) refl

    pub get-delete : (s : E.State) (k : String) → E.get (E.write s (delete k ∷ [])) k ≡ none
    get-delete s k = rw (L.get-write s (delete k ∷ []) k, str_eq_refl k) refl

    pub get-delete_other :
        (s : E.State) (k j : String) → j ≢ k → E.get (E.write s (delete k ∷ [])) j ≡ E.get s j
    get-delete_other s k j h = rw (L.get-write s (delete k ∷ []) j, str_eq-apart h) refl

    pub get-add_index :
        (s : E.State) (i : ℕ) (text : String)
        → E.get (E.write s (add_entry i text)) q.write_index_key
          ≡ some (record { value = format_int (i + 1); mod_revision = suc (L.revision s) })
    get-add_index s i text =
        rw
          (
            L.get-write s (add_entry i text) q.write_index_key,
            str_eq-apart (λ (p : q.write_index_key ≡ key_of E q i). key_of-apart i (sym p)),
            str_eq_refl q.write_index_key,
          )
          refl

    pub get-add_entry :
        (s : E.State) (i : ℕ) (text : String)
        → E.get (E.write s (add_entry i text)) (key_of E q i)
          ≡ some (record { value = text; mod_revision = suc (L.revision s) })
    get-add_entry s i text =
        rw (L.get-write s (add_entry i text) (key_of E q i), str_eq_refl (key_of E q i)) refl

    pub get-add_other :
        (s : E.State) (i j : ℕ) (text : String)
        → key_of E q j ≢ key_of E q i
        → E.get (E.write s (add_entry i text)) (key_of E q j) ≡ E.get s (key_of E q j)
    get-add_other s i j text h =
        rw
          (
            L.get-write s (add_entry i text) (key_of E q j),
            str_eq-apart h,
            str_eq-apart (key_of-apart j),
          )
          refl
