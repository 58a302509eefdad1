-- ===== src/Storage/Queue/Entries/Changes.antt =====
-- What adding, writing and deleting an entry do to the entries that are read.
use cke.Prelude.{
  ℕ, suc, ◌<◌, ◌≡◌, sym, subst, ap, ◌∙◌, ◌↔◌, ◌≢◌, inl, inr, String, not, List, [], ◌∷◌, ◌++◌,
  Option, none, some, All-mem, Memᴰ, mem_last-cases, mem_front, mem_last, mem-keep_if, keep_if-mem,
  keep_if-Ordered, Ordered, Ordered-last, Ordered-unique, Bool-cases, ltb, ltb→lt, ◌==◌, keep_if,
  arith,
}
use cke.Reboot.BackOff.{int64_half}
use cke.Etcd.{KeyValue, Etcd, delete}
use cke.Etcd.Laws.{IsLawful}
use cke.Storage.Keys.Order.{entry_key_inj}
use cke.Storage.Queue.{Queue, key_of, index_in}
use cke.Storage.Queue.Moves.{
  IsApart, IsQueue, add_entry, next_unique, get-delete, get-delete_other, get-add_entry,
  get-add_other,
}
use cke.Storage.Queue.Entries.{Earlier, Holds, Contents, contents}

module _ (E : Etcd) {A : Type 0} (q : Queue A) (L : IsLawful E) (apart : IsApart q) where
  Earlier-unique :
      (xs ys : List A)
      → Ordered (Earlier E q) xs
      → Ordered (Earlier E q) ys
      → ((r : A) → Memᴰ r xs ↔ Memᴰ r ys)
      → xs ≡ ys
  Earlier-unique = Ordered-unique (Earlier E q) (λ r h. omega arith) (λ r t u a b. omega arith)

  -- A list in order with what a well-formed queue holds is what is read from it.
  pub Contents-of_members :
      (s : E.State) (rs : List A)
      → IsQueue E q s
      → Ordered (Earlier E q) rs
      → ((r : A) → Memᴰ r rs ↔ Holds E q s r)
      → Contents E q s rs
  Contents-of_members s rs k o m =
      let (ts, x) = contents E q L s k in
      let same : ts ≡ rs =
        Earlier-unique ts rs x.ordered o
          (λ r. (λ i. (m r).1 ((x.members r).0 i), λ i. (x.members r).1 ((m r).0 i))) in
      subst (Contents E q s) same x

  -- An entry that is held has an index before the write index.
  Holds-lt : (s : E.State) (r : A) (k : IsQueue E q s) → Holds E q s r → q.index r < k.next
  Holds-lt s r k h = elim (Bool-cases (ltb (q.index r) k.next)) [
    | inl t ↦ ltb→lt (q.index r) k.next t
    | inr f ↦ let e = sym h.found ∙ k.unused (q.index r) (ground arith) h.small in cc
  ]

  -- The entries at other keys stay.
  pub Holds-transport :
      (s t : E.State) (r : A)
      → E.get t (key_of E q (q.index r)) ≡ E.get s (key_of E q (q.index r))
      → Holds E q s r
      → Holds E q t r
  Holds-transport s t r e h = record {
    small = h.small;
    kv = h.kv;
    found = e ∙ h.found;
    decoded = h.decoded;
  }

  -- The entry at a key that was put.
  pub Holds-stored :
      (s : E.State) (r t : A) (text : String) (v : ℕ)
      → E.get s (key_of E q (q.index t)) ≡ some (record { value = text; mod_revision = v })
      → q.codec.unmarshal text ≡ some r
      → q.index t ≡ q.index r
      → Holds E q s t
      → t ≡ r
  Holds-stored s r t text v e d n h =
      let both = sym h.found ∙ e in
      let same : h.kv.value ≡ text = ap or_empty both in
      let found = sym h.decoded ∙ ap q.codec.unmarshal same ∙ d in some_inj found
    where
      or_empty : Option KeyValue → String
      or_empty none = ""
      or_empty (some kv) = kv.value

      some_inj : {x y : A} → ◌≡◌ {A = Option A} (some x) (some y) → x ≡ y
      some_inj p = cc

  pub key_apart :
      (r t : A)
      → q.index r < int64_half
      → q.index t < int64_half
      → q.index r ≢ q.index t
      → key_of E q (q.index r) ≢ key_of E q (q.index t)
  key_apart r t a b h p = h (entry_key_inj q.prefix _ _ a b p)

  added_Holds :
      (s : E.State) (r : A) (text : String)
      → q.index r < int64_half
      → q.codec.unmarshal text ≡ some r
      → Holds E q (E.write s (add_entry E q (q.index r) text)) r
  added_Holds s r text small d = record {
    small = small;
    kv = record { value = text; mod_revision = suc (L.revision s) };
    found = get-add_entry E q L apart s (q.index r) text;
    decoded = d;
  }

  pub add-Contents :
      (s : E.State) (v : ℕ) (text : String) (r : A) (rs : List A)
      → IsQueue E q s
      → IsQueue E q (E.write s (add_entry E q (q.index r) text))
      → index_in E q (E.get s q.write_index_key) ≡ some (q.index r, v)
      → q.codec.unmarshal text ≡ some r
      → Contents E q s rs
      → Contents E q (E.write s (add_entry E q (q.index r) text)) (rs ++ r ∷ [])
  add-Contents s v text r rs k k' e d x =
      let t = E.write s (add_entry E q (q.index r) text) in
      let n = next_unique E q (q.index r) v k e in
      let small : q.index r < int64_half = subst (λ i. i < int64_half) (sym n) k.bound in
      Contents-of_members t (rs ++ r ∷ []) k'
        (Ordered-last (Earlier E q) rs r x.ordered (
          All-mem (λ u. q.index u < q.index r) rs
            (λ u m. subst (λ i. q.index u < i) (sym n) (Holds-lt s u k ((x.members u).0 m)))))
        (λ u. (
          λ m. elim (mem_last-cases r rs m) [
            | inl i ↦
                let h = (x.members u).0 i in
                let less = Holds-lt s u k h in
                Holds-transport s t u
                  (get-add_other E q L apart s (q.index r) (q.index u) text
                    (key_apart u r h.small small (λ p. absurd (omega (arith, p, n, less)))))
                  h
            | inr p ↦ subst (Holds E q t) (sym p) (added_Holds s r text small d)
          ],
          λ h. elim (Bool-cases (q.index u == q.index r)) [
            | inl same ↦
                let p : q.index u ≡ q.index r = ground arith in
                let at =
                  subst
                    (λ i.
                      E.get t (key_of E q i)
                      ≡ some (record { value = text; mod_revision = suc (L.revision s) }))
                    (sym p) (get-add_entry E q L apart s (q.index r) text) in
                mem_last r rs (Holds-stored t r u text (suc (L.revision s)) at d p h)
            | inr other ↦
                let apart_keys =
                  key_apart u r h.small small (λ (p : q.index u ≡ q.index r). ground arith) in
                mem_front r rs (
                  (x.members u).1 (
                    Holds-transport t s u
                      (sym (get-add_other E q L apart s (q.index r) (q.index u) text apart_keys))
                      h))
          ],
        ))

  other_deleted :
      (s : E.State) (i : ℕ) (u : A)
      → i < int64_half
      → q.index u < int64_half
      → q.index u ≢ i
      → E.get (E.write s (delete (key_of E q i) ∷ [])) (key_of E q (q.index u))
        ≡ E.get s (key_of E q (q.index u))
  other_deleted s i u b c h =
      get-delete_other E q L apart s (key_of E q i) (key_of E q (q.index u))
        (λ p. h (entry_key_inj q.prefix (q.index u) i c b p))

  deleted_not :
      (s : E.State) (i : ℕ) (u : A)
      → q.index u ≡ i
      → Holds E q (E.write s (delete (key_of E q i) ∷ [])) u
      → ⊥
  deleted_not s i u p h =
      let gone =
        subst (λ j. E.get (E.write s (delete (key_of E q i) ∷ [])) (key_of E q j) ≡ none) (sym p)
          (get-delete E q L apart s (key_of E q i)) in
      let e = sym h.found ∙ gone in cc

  pub delete-Contents :
      (s : E.State) (i : ℕ) (rs : List A)
      → i < int64_half
      → IsQueue E q (E.write s (delete (key_of E q i) ∷ []))
      → Contents E q s rs
      → Contents E q
          (E.write s (delete (key_of E q i) ∷ []))
          (keep_if (λ r. not (q.index r == i)) rs)
  delete-Contents s i rs b k' x =
      let t = E.write s (delete (key_of E q i) ∷ []) in
      Contents-of_members t (keep_if (λ r. not (q.index r == i)) rs) k'
        (keep_if-Ordered (Earlier E q) _ rs x.ordered)
        (λ u. (
          λ m.
              let (j, kept) = mem-keep_if (λ r. not (q.index r == i)) rs m in
              let h = (x.members u).0 j in
              let other : q.index u ≢ i = λ (p : q.index u ≡ i). ground arith in
              Holds-transport s t u (other_deleted s i u b h.small other) h,
          λ h.
              let other : q.index u ≢ i = λ (p : q.index u ≡ i). deleted_not s i u p h in
              keep_if-mem (λ r. not (q.index r == i)) rs
                ((x.members u).1
                  (Holds-transport t s u (sym (other_deleted s i u b h.small other)) h))
                (ground arith),
        ))
