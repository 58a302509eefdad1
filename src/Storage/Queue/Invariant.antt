-- ===== src/Storage/Queue/Invariant.antt =====
-- Every transaction of CKE keeps a queue well-formed.
use text.Mathlib.Text.{starts_with}
use cke.Prelude.{
  ℕ, suc, ◌+◌, ◌<◌, ◌≡◌, refl, sym, subst, ◌∙◌, ◌≢◌, inl, inr, String, true, false, List, [], ◌∷◌,
  none, some, str_eq, eq_iff, Bool-cases, arith,
}
use cke.Reboot.BackOff.{int64_half}
use cke.Etcd.{KeyValue, Write, put, delete, Etcd}
use cke.Etcd.Laws.{IsLawful, Effect, effect, untouched, stored, removed, after}
use cke.Storage.Numbers.{format_int}
use cke.Storage.Numbers.RoundTrip.{parse_int-format_int}
use cke.Storage.Keys.Order.{entry_key_inj}
use cke.Storage.Queue.{Queue, key_of}
use cke.Storage.Queue.Moves.{
  IsApart, IsEntry, IsQueue, Move, adds, rewrites, deletes, passes, add_entry, next_unique,
  key_of-apart, get-put_other, get-delete_other, get-add_index, get-add_other, index_in-number,
  entry_key-prefix,
}

module _ (E : Etcd) {A : Type 0} (q : Queue A) (L : IsLawful E) (apart : IsApart q) where
  -- What a transaction may do to a key under the prefix.
  Fills : String → Effect → Type 0
  Fills k untouched = Unit
  Fills k removed = Unit
  Fills k (stored text) = IsEntry E q k text

  filled-write :
      (s : E.State) (ws : List Write)
      → IsQueue E q s
      → ((k : String) → starts_with k q.prefix ≡ true → Fills k (effect k ws))
      → (k : String) (kv : KeyValue) → E.get (E.write s ws) k ≡ some kv
      → starts_with k q.prefix ≡ true
      → IsEntry E q k kv.value
  unfolding Fills
  filled-write s ws queue f k kv e p = go (effect k ws) (f k p) (sym (L.get-write s ws k) ∙ e)
    where
      go :
          (x : Effect)
          → Fills k x
          → after x (L.revision s) (E.get s k) ≡ some kv
          → IsEntry E q k kv.value
      go untouched f e = queue.filled k kv e p
      go removed f e = cc
      go (stored text) f e = let same : text ≡ kv.value = cc in subst (IsEntry E q k) same f

  -- A key under the prefix is not the write index.
  inside_apart : (k : String) → starts_with k q.prefix ≡ true → str_eq k q.write_index_key ≡ false
  inside_apart k p = elim (Bool-cases (str_eq k q.write_index_key)) [
    | inl t ↦
        let t' : starts_with q.write_index_key q.prefix ≡ true =
          subst (λ j. starts_with j q.prefix ≡ true) ((eq_iff k q.write_index_key).0 t) p in
        cc
    | inr f ↦ f
  ]

  put-Fills : (k j text : String) → IsEntry E q j text → Fills k (effect k (put j text ∷ []))
  unfolding Fills
  put-Fills k j text entry = elim (Bool-cases (str_eq k j)) [
    | inl t ↦ rw t (subst (λ x. IsEntry E q x text) (sym ((eq_iff k j).0 t)) entry)
    | inr n ↦ rw n tt
  ]

  add-Fills :
      (k : String) (i : ℕ) (text : String)
      → starts_with k q.prefix ≡ true
      → IsEntry E q (key_of E q i) text
      → Fills k (effect k (add_entry E q i text))
  unfolding Fills
  add-Fills k i text p entry = elim (Bool-cases (str_eq k (key_of E q i))) [
    | inl t ↦ rw t (subst (λ x. IsEntry E q x text) (sym ((eq_iff k _).0 t)) entry)
    | inr n ↦ rw (n, inside_apart k p) tt
  ]

  delete-Fills : (k j : String) → Fills k (effect k (delete j ∷ []))
  unfolding Fills
  delete-Fills k j = elim (Bool-cases (str_eq k j)) [ inl t ↦ rw t tt | inr n ↦ rw n tt ]

  index_apart : (i : ℕ) → q.write_index_key ≢ key_of E q i
  index_apart i p = key_of-apart E q L apart i (sym p)

  -- A transaction that keeps the write index, and adds no entry, keeps the queue.
  keeps :
      (s : E.State) (ws : List Write)
      → E.get (E.write s ws) q.write_index_key ≡ E.get s q.write_index_key
      → ((i : ℕ)
          → i < int64_half
          → E.get s (key_of E q i) ≡ none
          → E.get (E.write s ws) (key_of E q i) ≡ none)
      → ((k : String) → starts_with k q.prefix ≡ true → Fills k (effect k ws))
      → IsQueue E q s
      → IsQueue E q (E.write s ws)
  keeps s ws e f fills k = record {
    next = k.next;
    revision = k.revision;
    bound = k.bound;
    is_next = rw e k.is_next;
    unused = λ i a b. f i b (k.unused i a b);
    filled = filled-write s ws k fills;
  }

  deleted-none :
      (s : E.State) (k j : String) → E.get s j ≡ none → E.get (E.write s (delete k ∷ [])) j ≡ none
  deleted-none s k j h = elim (Bool-cases (str_eq j k)) [
    | inl t ↦ rw (L.get-write s (delete k ∷ []) j, t) refl
    | inr f ↦ rw (L.get-write s (delete k ∷ []) j, f) h
  ]

  -- Each transaction of CKE keeps the queue well-formed.
  pub move-IsQueue :
      (s : E.State) (ws : List Write) → Move E q s ws → IsQueue E q s → IsQueue E q (E.write s ws)
  unfolding Fills
  move-IsQueue s _ (adds i r text e b entry) k = record {
    next = i + 1;
    revision = suc (L.revision s);
    bound = b;
    is_next = rw (get-add_index E q L apart s i text) (
        index_in-number E q (format_int (i + 1)) (i + 1) (suc (L.revision s))
          (parse_int-format_int (i + 1) b));
    unused = λ j h c.
        let same = next_unique E q i r k e in
        get-add_other E q L apart s i j text
          (λ p. absurd (omega (arith, entry_key_inj q.prefix j i c (omega arith) p, h)))
        ∙ k.unused j (omega arith) c;
    filled = filled-write s (add_entry E q i text) k (λ j p. add-Fills j i text p entry);
  }
  move-IsQueue s _ (rewrites i text e b entry) k =
      keeps s (put (key_of E q i) text ∷ []) (get-put_other E q L apart s _ _ text (index_apart i))
        (λ j c h.
          get-put_other E q L apart s _ _ text (λ (p : key_of E q j ≡ key_of E q i). e (rw p at h))
          ∙ h)
        (λ j p. put-Fills j _ text entry) k
  move-IsQueue s _ (deletes i) k =
      keeps s (delete (key_of E q i) ∷ []) (get-delete_other E q L apart s _ _ (index_apart i))
        (λ j c h. deleted-none s (key_of E q i) (key_of E q j) h) (λ j p. delete-Fills j _) k
  move-IsQueue s ws (passes _ e f) k =
      keeps s ws (rw (L.get-write s ws q.write_index_key, e) refl)
        (λ i c h.
          rw (L.get-write s ws (key_of E q i), f (key_of E q i) (entry_key-prefix q.prefix i)) h)
        (λ j p. rw (f j p) tt) k
