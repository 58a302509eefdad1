-- ===== src/Storage/Queue/Entries.antt =====
-- The entries that GetRebootsEntries and GetRepairsEntries read: those of the queue, in the order of
-- their indices.
pub mod Changes
pub mod Rewriting
use text.Mathlib.Text.{starts_with}
use cke.Prelude.{
  ℕ, suc, ◌<◌, ◌≡◌, refl, sym, subst, ap, ◌∙◌, ◌↔◌, ◌⊎◌, inl, inr, String, Bool, true, false, List,
  [], ◌∷◌, Option, none, some, All, Memᴰ, Ordered, Bool-cases, ltb, ltb→lt, arith,
}
use cke.Reboot.BackOff.{int64_half}
use cke.Etcd.{
  KeyValue, Etcd, World, Fault, fine, lost_before, lost_after, arrive, read_at, then_run, list,
}
use cke.Etcd.Laws.{IsLawful, IsBefore, Ascending}
use cke.Etcd.Laws.Order.{IsBefore-irrefl, IsBefore-trans}
use cke.Storage.Keys.Order.{entry_key-Ordered}
use cke.Storage.{require}
use cke.Storage.Queue.{Queue, key_of, unmarshal_all, both, get_entries}
use cke.Storage.Queue.Moves.{IsEntry, IsQueue, entry_key-prefix}

module _ (E : Etcd) {A : Type 0} (q : Queue A) where
  -- The key of an entry and the text that it was read from.
  record Decodes (e : String × KeyValue) (r : A) : Type 0 where
    small : q.index r < int64_half
    is_key : e.0 ≡ key_of E q (q.index r)
    decoded : q.codec.unmarshal e.1.value ≡ some r

  -- The entries of a list of keys.
  data Reads : List (String × KeyValue) → List A → Type 0 where
    stop : Reads [] []
    step :
        {e : String × KeyValue} {r : A} {l : List (String × KeyValue)} {rs : List A}
        → Decodes e r
        → Reads l rs
        → Reads (e ∷ l) (r ∷ rs)

  abbrev pub Earlier : A → A → Type 0
  Earlier r t = q.index r < q.index t

  -- The queue holds the entry.
  pub record Holds (s : E.State) (r : A) : Type 0 where
    pub small : q.index r < int64_half
    pub kv : KeyValue
    pub found : E.get s (key_of E q (q.index r)) ≡ some kv
    pub decoded : q.codec.unmarshal kv.value ≡ some r

  -- `rs` are the entries of the queue, each once, in the order of their indices.
  pub record Contents (s : E.State) (rs : List A) : Type 0 where
    pub reads : unmarshal_all E q (E.list s q.prefix) ≡ some rs
    pub ordered : Ordered Earlier rs
    pub members : (r : A) → Memᴰ r rs ↔ Holds s r

  IsEntry-Decodes :
      (k : String) (kv : KeyValue) (x : IsEntry E q k kv.value) → Decodes (k, kv) x.entry
  IsEntry-Decodes k kv x = record {
    small = subst (λ i. i < int64_half) (sym x.is_number) x.small;
    is_key = x.is_key ∙ ap (key_of E q) (sym x.is_number);
    decoded = x.is_entry;
  }

  read_all :
      (l : List (String × KeyValue))
      → ((k : String) (kv : KeyValue) → Memᴰ (k, kv) l → IsEntry E q k kv.value)
      → (rs : List A) × (unmarshal_all E q l ≡ some rs) × Reads l rs
  read_all [] f = ([], refl, stop)
  read_all ((k, kv) ∷ l) f =
      let x = f k kv (Memᴰ.head refl) in
      let (rs, e, reads) = read_all l (λ j u m. f j u (Memᴰ.tail m)) in
      (x.entry ∷ rs, (λ i. both E q (x.is_entry i) (e i)), step (IsEntry-Decodes k kv x) reads)

  Earlier-of_keys :
      (i j : ℕ) → i < int64_half → j < int64_half → IsBefore (key_of E q i) (key_of E q j) → i < j
  Earlier-of_keys i j a b h = elim (Bool-cases (ltb i j)) [
    | inl t ↦ ltb→lt i j t
    | inr f ↦ elim (Bool-cases (ltb j i)) [
      | inl t ↦
          let back = entry_key-Ordered q.prefix j i (ltb→lt j i t) a in
          absurd (IsBefore-irrefl _ (IsBefore-trans _ _ _ h back))
      | inr g ↦
          let same : i ≡ j = ground arith in
          absurd (IsBefore-irrefl _ (subst (λ k. IsBefore (key_of E q k) (key_of E q j)) same h))
    ]
  ]

  Reads-All :
      (e : String × KeyValue) (r : A) (l : List (String × KeyValue)) (rs : List A)
      → Decodes e r
      → Reads l rs
      → All (λ f. IsBefore e.0 f.0) l
      → All (Earlier r) rs
  Reads-All e r _ _ d stop a = tt
  Reads-All e r _ _ d (step {r = t} {l} {rs} x reads) a =
      let before : IsBefore (key_of E q (q.index r)) (key_of E q (q.index t)) =
        subst (λ k. IsBefore k (key_of E q (q.index t))) d.is_key
          (subst (λ k. IsBefore e.0 k) x.is_key a.0) in
      (Earlier-of_keys _ _ d.small x.small before, Reads-All e r l rs d reads a.1)

  Reads-Ordered :
      (l : List (String × KeyValue)) (rs : List A) → Reads l rs → Ascending l → Ordered Earlier rs
  Reads-Ordered _ _ stop a = tt
  Reads-Ordered _ _ (step {e} {r} {l} {rs} x reads) a =
      (Reads-All e r l rs x reads a.0, Reads-Ordered l rs reads a.1)

  Reads-mem :
      (l : List (String × KeyValue)) (rs : List A) (r : A)
      → Reads l rs
      → Memᴰ r rs
      → (e : String × KeyValue) × Memᴰ e l × Decodes e r
  Reads-mem _ _ r stop m = elim m [ ]
  Reads-mem _ _ r (step {e} x reads) (Memᴰ.head p) =
      (e, Memᴰ.head refl, subst (Decodes e) (sym p) x)
  Reads-mem _ _ r (step {l} {rs} _ reads) (Memᴰ.tail m) =
      let x = Reads-mem l rs r reads m in (x.0, Memᴰ.tail x.1, x.2)

  mem-Reads :
      (l : List (String × KeyValue)) (rs : List A) (e : String × KeyValue) (r : A)
      → Reads l rs
      → Memᴰ e l
      → q.codec.unmarshal e.1.value ≡ some r
      → Memᴰ r rs
  mem-Reads _ _ e r stop m d = elim m [ ]
  mem-Reads _ _ e r (step {r = t} x reads) (Memᴰ.head p) d =
      let same : ◌≡◌ {A = Option A} (some r) (some t) =
        sym d ∙ ap (λ f. q.codec.unmarshal f.1.value) p ∙ x.decoded in
      Memᴰ.head (some_inj same)
    where
      some_inj : {x y : A} → ◌≡◌ {A = Option A} (some x) (some y) → x ≡ y
      some_inj h = cc
  mem-Reads _ _ e r (step {l} {rs} _ reads) (Memᴰ.tail m) d =
      Memᴰ.tail (mem-Reads l rs e r reads m d)

  pub contents : (L : IsLawful E) (s : E.State) → IsQueue E q s → (rs : List A) × Contents s rs
  contents L s k =
      let (rs, e, reads) =
        read_all (E.list s q.prefix)
          (λ j kv m. let x = (L.list_iff s q.prefix j kv).0 m in k.filled j kv x.1 x.0) in
      (
        rs,
        record {
          reads = e;
          ordered = Reads-Ordered (E.list s q.prefix) rs reads (L.list-Ascending s q.prefix);
          members = λ r. (
            λ m.
                let x = Reads-mem (E.list s q.prefix) rs r reads m in
                let at = (L.list_iff s q.prefix x.0.0 x.0.1).0 x.1 in
                record {
                  small = x.2.small;
                  kv = x.0.1;
                  found = subst (λ j. E.get s j ≡ some x.0.1) x.2.is_key at.1;
                  decoded = x.2.decoded;
                },
            λ h.
                mem-Reads (E.list s q.prefix) rs (key_of E q (q.index r), h.kv) r reads
                  ((L.list_iff s q.prefix _ h.kv).1
                    (entry_key-prefix q.prefix (q.index r), h.found))
                  h.decoded,
          );
        },
      )

  -- Where the queue is well-formed, reading it fails only with the call of the client. It gives all
  -- entries of the queue, each once, in the order of their indices, and changes nothing.
  pub get_entries-Contents :
      (L : IsLawful E) (w : World E)
      → IsQueue E q (arrive E w).1.state
      → (rs : List A) × Contents (arrive E w).1.state rs
        × (get_entries E q w ≡ read_at E (arrive E w).0 rs (arrive E w).1)
  unfolding get_entries list
  get_entries-Contents L w k =
      let (rs, x) = contents L (arrive E w).1.state k in
      (
        rs,
        x,
        read_lem (arrive E w).0 (E.list (arrive E w).1.state q.prefix) rs (arrive E w).1 x.reads,
      )
    where
      read_lem :
          (f : Fault) (l : List (String × KeyValue)) (rs : List A) (v : World E)
          → unmarshal_all E q l ≡ some rs
          → then_run E (read_at E f l v) (λ kvs. require E (unmarshal_all E q kvs))
            ≡ read_at E f rs v
      read_lem fine l rs v e = ap (λ o. require E o v) e
      read_lem lost_before l rs v e = refl
      read_lem lost_after l rs v e = refl
