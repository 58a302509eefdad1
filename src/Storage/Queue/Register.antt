-- ===== src/Storage/Queue/Register.antt =====
-- Registrations: each gives its entry an index that no entry has, and ends.
use cke.Prelude.{
  ℕ, zero, suc, ◌<◌, ◌≡◌, String, ◌==◌, true, false, List, [], ◌∷◌, Option, none, some, length,
  Option-cases, inl, inr, arith, sym, subst, ◌∙◌,
}
use cke.Etcd.{
  KeyValue, Write, Etcd, Event, World, write_all, arrive, returns, mod_revision_of, mod_revision_is,
  holds,
}
use cke.Etcd.Laws.{IsLawful, get-unchanged}
use cke.Storage.Numbers.{parse_int}
use cke.Etcd.Calls.{
  retry-ok, retry-HasEnded, length-arrive, get-ok, txn-ok, get-HasEnded, txn-HasEnded, HasEnded,
  arrive-write_all, script-cases,
}
use cke.Storage.Steps.{require-ok, require-HasEnded}
use cke.Storage.Queue.{Queue, key_of, index_in, register_round, register_entry}
use cke.Storage.Queue.Invariant.{move-IsQueue}
use cke.Storage.Queue.Moves.{IsApart, IsQueue, Move, add_entry, next_unique, some_pair_inj}

module _ (E : Etcd) {A : Type 0} (q : Queue A) where
  -- The transactions of the other clients, each at the state at which it commits, are CKE's.
  abbrev pub MovesAll : E.State → List (List Write) → Type 0
  MovesAll s [] = Unit
  MovesAll s (ws ∷ rest) = Move E q s ws × MovesAll (E.write s ws) rest

  abbrev pub Shared : E.State → List Event → Type 0
  Shared s [] = Unit
  Shared s (e ∷ es) = MovesAll s e.others × Shared (write_all E s e.others) es

  -- What a registration leaves: the entry was added at a state of the queue, at its write index.
  pub record Added (r : A) (final : E.State) : Type 0 where
    pub before : E.State
    pub index : ℕ
    pub revision : ℕ
    pub text : String
    pub is_queue : IsQueue E q before
    pub at_index : index_in E q (E.get before q.write_index_key) ≡ some (index, revision)
    pub unused : E.get before (key_of E q index) ≡ none
    pub marshalled : q.codec.marshal (q.with_index index r) ≡ some text
    pub written : final ≡ E.write before (add_entry E q index text)

  MovesAll-IsQueue :
      IsLawful E
      → IsApart q
      → (s : E.State) (txs : List (List Write)) → MovesAll s txs
      → IsQueue E q s
      → IsQueue E q (write_all E s txs)
  unfolding write_all
  MovesAll-IsQueue L apart s [] m k = k
  MovesAll-IsQueue L apart s (ws ∷ txs) m k =
      MovesAll-IsQueue L apart (E.write s ws) txs m.1 (move-IsQueue E q L apart s ws m.0 k)

  pub arrive-IsQueue :
      IsLawful E
      → IsApart q
      → (w : World E) → Shared w.state w.script
      → IsQueue E q w.state
      → IsQueue E q (arrive E w).1.state × Shared (arrive E w).1.state (arrive E w).1.script
  unfolding arrive
  arrive-IsQueue L apart w m k = go w.script m
    where
      go :
          (es : List Event)
          → Shared w.state es
          → (IsQueue E q (arrive E (record { state = w.state; script = es })).1.state
              × Shared
                  (arrive E (record { state = w.state; script = es })).1.state
                  (arrive E (record { state = w.state; script = es })).1.script)
      go [] m = (k, m)
      go (e ∷ es) m = (MovesAll-IsQueue L apart w.state e.others m.0 k, m.1)

  pub index_in-revision :
      (kv : Option KeyValue) (i r : ℕ) → index_in E q kv ≡ some (i, r) → r ≡ mod_revision_of kv
  index_in-revision none i r e = cc
  index_in-revision (some kv) i r e = elim (Option-cases (parse_int kv.value)) [
    | inl n ↦ absurd (no_pair (rw (index_in, n) at e))
    | inr (j, p) ↦ sym (some_pair_inj (rw (index_in, p) at e)).1
  ]
    where
      no_pair : ◌≡◌ {A = Option (ℕ × ℕ)} none (some (i, r)) → ⊥
      no_pair h = cc

  -- The write index is what was read, where its key has the revision that was read.
  at_index-unchanged :
      IsLawful E
      → (w : World E) (i r : ℕ) → index_in E q (E.get w.state q.write_index_key) ≡ some (i, r)
      → holds E (mod_revision_is q.write_index_key r) (arrive E w).1.state ≡ true
      → index_in E q (E.get (arrive E w).1.state q.write_index_key) ≡ some (i, r)
  at_index-unchanged L w i r e h =
      let (txs, later) = arrive-write_all E w in
      let now : mod_revision_of (E.get (arrive E w).1.state q.write_index_key) ≡ r = ground arith in
      let then_was = now ∙ index_in-revision (E.get w.state q.write_index_key) i r e in
      let then_was' =
        subst
          (λ s.
            mod_revision_of (E.get s q.write_index_key)
            ≡ mod_revision_of (E.get w.state q.write_index_key))
          later then_was in
      let same = get-unchanged E L q.write_index_key w.state txs then_was' in
      subst (λ s. index_in E q (E.get s q.write_index_key) ≡ some (i, r)) (sym later) (rw same e)

  index-unused :
      (s : E.State) (i r : ℕ)
      → IsQueue E q s
      → index_in E q (E.get s q.write_index_key) ≡ some (i, r)
      → E.get s (key_of E q i) ≡ none
  index-unused s i r k e =
      let same = next_unique E q i r k e in
      k.unused i (omega (arith, same)) (omega (arith, same, k.bound))

  -- A registration that returns without an error has added its entry, in one transaction, at the
  -- write index of that moment, an index that no entry had.
  pub register_entry-Added :
      (L : IsLawful E) (apart : IsApart q) (fuel : ℕ) (r : A) (w w' : World E)
      → IsQueue E q w.state
      → Shared w.state w.script
      → register_entry E q fuel r w ≡ (returns tt, w')
      → Added r w'.state
  unfolding register_entry register_round
  register_entry-Added L apart zero r w w' k m e = cc
  register_entry-Added L apart (suc fuel) r w w' k m e =
      let e₁ = get-ok E w q.write_index_key _ w' tt e in
      let w₁ = (arrive E w).1 in
      let (found, is_found, e₂) =
        require-ok E (index_in E q (E.get w₁.state q.write_index_key)) _ w₁ w' tt e₁ in
      let (text, is_text, e₃) =
        require-ok E (q.codec.marshal (q.with_index found.0 r)) _ w₁ w' tt e₂ in
      let e₄ =
        txn-ok E w₁ (mod_revision_is q.write_index_key found.1) (add_entry E q found.0 text) _ w' tt
          e₃ in
      let (k₁, m₁) = arrive-IsQueue L apart w m k in
      let (k₂, m₂) = arrive-IsQueue L apart w₁ m₁ k₁ in
      elim (retry-ok E (mod_revision_is q.write_index_key found.1) (add_entry E q found.0 text)
        (register_entry E q fuel r) (arrive E w₁).1 w' e₄) [
          | inl (same, e₅) ↦ record {
            before = (arrive E w₁).1.state;
            index = found.0;
            revision = found.1;
            text = text;
            is_queue = k₂;
            at_index = at_index-unchanged L w₁ found.0 found.1 is_found same;
            unused =
                index-unused _ found.0 found.1 k₂
                  (at_index-unchanged L w₁ found.0 found.1 is_found same);
            marshalled = is_text;
            written = e₅;
          }
          | inr e₅ ↦ register_entry-Added L apart fuel r (arrive E w₁).1 w' k₂ m₂ e₅
        ]

  shorter :
      (w : World E) (fuel i r : ℕ)
      → index_in E q (E.get (arrive E w).1.state q.write_index_key) ≡ some (i, r)
      → holds E (mod_revision_is q.write_index_key r) (arrive E (arrive E w).1).1.state ≡ false
      → length w.script < suc fuel
      → length (arrive E (arrive E w).1).1.script < fuel
  shorter w fuel i r e f h =
      let w₁ = (arrive E w).1 in
      let read = index_in-revision (E.get w₁.state q.write_index_key) i r e in
      elim (script-cases E w₁) [
        | inl same ↦
            let f' : (mod_revision_of (E.get w₁.state q.write_index_key) == r) ≡ false =
              rw same at f in
            absurd (ground (arith, read, f'))
        | inr less ↦ omega (arith, h, less, length-arrive E w)
      ]

  -- A registration ends, with as much fuel as there are calls that meet other transactions: a round
  -- is tried again only where another client has committed a transaction since it read the index.
  pub register_entry-HasEnded :
      (fuel : ℕ) (r : A) (w : World E)
      → length w.script < fuel
      → HasEnded (register_entry E q fuel r w).0
  unfolding register_entry register_round
  register_entry-HasEnded zero r w h = absurd (omega arith)
  register_entry-HasEnded (suc fuel) r w h =
      let w₁ = (arrive E w).1 in
      get-HasEnded E w q.write_index_key _ (
        require-HasEnded E (index_in E q (E.get w₁.state q.write_index_key)) _ w₁ λ found is_found.
          require-HasEnded E (q.codec.marshal (q.with_index found.0 r)) _ w₁ λ text is_text.
            txn-HasEnded E w₁ (mod_revision_is q.write_index_key found.1)
              (add_entry E q found.0 text) _
              (retry-HasEnded E (mod_revision_is q.write_index_key found.1)
                (add_entry E q found.0 text) (register_entry E q fuel r) (arrive E w₁).1
                (λ missed.
                  register_entry-HasEnded fuel r (arrive E w₁).1
                    (shorter w fuel found.0 found.1 is_found missed h))))
