-- ===== src/Storage/Queue/Refine.antt =====
-- The operations of a queue against the list of its entries.
use cke.Prelude.{
  ℕ, ◌+◌, ◌<◌, ◌≡◌, refl, sym, subst, ap, ◌⊎◌, inl, inr, String, true, false, not, List, [], ◌∷◌,
  ◌++◌, some, map, keep_if, length, Bool-cases, ltb, ltb→lt, ◌==◌, arith,
}
use cke.Reboot.BackOff.{int64_half}
use cke.Etcd.{Etcd, World, fine, returns, fails, no_leader, arrive, is_some, put, delete}
use cke.Etcd.Calls.{HasEnded}
use cke.Etcd.Laws.{IsLawful}
use cke.Storage.Leader.{write_by_leader_lem}
use cke.Storage.Queue.{Queue, key_of, index_in, register_entry, update_entry, delete_entry}
use cke.Storage.Queue.Moves.{
  IsApart, IsEntry, IsQueue, adds, rewrites, deletes, add_entry, next_unique,
}
use cke.Storage.Queue.Invariant.{move-IsQueue}
use cke.Storage.Queue.Register.{Shared, register_entry-Added, register_entry-HasEnded}
use cke.Storage.Queue.Update.{update_entry-Rewritten, update_entry-HasEnded}
use cke.Storage.Queue.Entries.{Contents, contents}
use cke.Storage.Queue.Entries.Changes.{add-Contents, delete-Contents}
use cke.Storage.Queue.Entries.Rewriting.{replace, rewrite-Contents}

-- What is written is read back, and an entry has the index that it is given.
pub record IsLossless {A : Type 0} (q : Queue A) : Type 0 where
  pub unmarshal-marshal :
      (r : A) (text : String) → q.codec.marshal r ≡ some text → q.codec.unmarshal text ≡ some r
  pub index-with_index : (i : ℕ) (r : A) → q.index (q.with_index i r) ≡ i

-- Registration and update do not run on for ever: with more fuel than the script has events both
-- loops end, with a result or an error.
pub rounds-HasEnded :
    (E : Etcd) {A : Type 0} (q : Queue A) (fuel : ℕ) (r : A) (w : World E)
    → length w.script < fuel
    → HasEnded (register_entry E q fuel r w).0 × HasEnded (update_entry E q fuel r w).0
rounds-HasEnded E q fuel r w h =
    (register_entry-HasEnded E q fuel r w h, update_entry-HasEnded E q fuel r w h)

module _ (E : Etcd) {A : Type 0} (q : Queue A) (L : IsLawful E) (apart : IsApart q)
    (lossless : IsLossless q) where
  own_entry :
      (r : A) (text : String)
      → q.index r < int64_half
      → q.codec.marshal r ≡ some text
      → IsEntry E q (key_of E q (q.index r)) text
  own_entry r text small e = record {
    number = q.index r;
    small = small;
    is_key = refl;
    entry = r;
    is_entry = lossless.unmarshal-marshal r text e;
    is_number = refl;
  }

  appended :
      (s final : E.State) (v : ℕ) (r : A) (text : String) (rs : List A)
      → q.index r + 1 < int64_half
      → IsQueue E q s
      → index_in E q (E.get s q.write_index_key) ≡ some (q.index r, v)
      → q.codec.marshal r ≡ some text
      → final ≡ E.write s (add_entry E q (q.index r) text)
      → Contents E q s rs
      → Contents E q final (rs ++ r ∷ [])
  appended s final v r text rs room k at marshalled e x =
      let move = adds (q.index r) v text at room (own_entry r text (omega arith) marshalled) in
      subst (λ t. Contents E q t (rs ++ r ∷ [])) (sym e)
        (add-Contents E q L apart s v text r rs k (move-IsQueue E q L apart s _ move k) at
          (lossless.unmarshal-marshal r text marshalled) x)

  -- Where a marshalled entry is read back as it was, the queue is well-formed at first (its write
  -- index can be read, no entry stands at it or after it, and all keys under its prefix are those
  -- of entries), and the transactions of the other clients in between are those that CKE makes
  -- (they add an entry at the write index, write an existing one again, delete one, or touch
  -- neither the entries nor the write index), in any order and number: a registration that returns
  -- without an error has put its entry, with an index of its own, after all entries of the queue at
  -- which its last transaction has found the store; or it has used up the last index.
  pub register_entry_refines :
      (fuel : ℕ) (r : A) (w w' : World E)
      → IsQueue E q w.state
      → Shared E q w.state w.script
      → register_entry E q fuel r w ≡ (returns tt, w')
      → (s : E.State) × (i : ℕ) × (rs : List A) × Contents E q s rs
        × ((text : String) × (q.codec.marshal (q.with_index i r) ≡ some text)
            × (w'.state ≡ E.write s (add_entry E q i text)))
        × (Contents E q w'.state (rs ++ q.with_index i r ∷ []) ⊎ (i + 1 ≡ int64_half))
  register_entry_refines fuel r w w' k m e =
      let x = register_entry-Added E q L apart fuel r w w' k m e in
      let (rs, read) = contents E q L x.before x.is_queue in
      let n = next_unique E q x.index x.revision x.is_queue x.at_index in
      let bound = x.is_queue.bound in
      let named = sym (lossless.index-with_index x.index r) in
      (
        x.before,
        x.index,
        rs,
        read,
        (x.text, x.marshalled, x.written),
        elim (Bool-cases (ltb (x.index + 1) int64_half)) [
          | inr limit ↦ inr (ground (arith, n, bound))
          | inl room ↦ inl (
              appended x.before w'.state x.revision (q.with_index x.index r) x.text rs
                (subst (λ i. i + 1 < int64_half) named (ltb→lt (x.index + 1) int64_half room))
                x.is_queue
                (subst (λ i. index_in E q (E.get x.before q.write_index_key) ≡ some (i, x.revision))
                  named x.at_index)
                x.marshalled
                (subst (λ i. w'.state ≡ E.write x.before (add_entry E q i x.text)) named x.written)
                read)
        ],
      )

  -- Where a marshalled entry is read back as it was, the queue is well-formed at first, the
  -- transactions of the other clients in between are those that CKE makes (they add an entry at the
  -- write index, write an existing one again, delete one, or touch neither the entries nor the
  -- write index), and the index of the entry is below half of the 64 bits: an update that returns
  -- without an error has written its entry in the place of the one with its index in the queue at
  -- which its last transaction has found the store, and changed no other.
  pub update_entry_refines :
      (fuel : ℕ) (r : A) (w w' : World E)
      → q.index r < int64_half
      → IsQueue E q w.state
      → Shared E q w.state w.script
      → update_entry E q fuel r w ≡ (returns tt, w')
      → (s : E.State) × (rs : List A) × Contents E q s rs
        × ((text : String) × (q.codec.marshal r ≡ some text)
            × (w'.state ≡ E.write s (put (key_of E q (q.index r)) text ∷ [])))
        × Contents E q w'.state (map (replace E q r) rs)
  update_entry_refines fuel r w w' small k m e =
      let (text, is_text, x) = update_entry-Rewritten E q L apart fuel r w w' k m e in
      let (rs, read) = contents E q L x.before x.is_queue in
      let move = rewrites (q.index r) text x.existed small (own_entry r text small is_text) in
      let later = move-IsQueue E q L apart x.before _ move x.is_queue in
      (
        x.before,
        rs,
        read,
        (text, is_text, x.written),
        subst (λ s. Contents E q s (map (replace E q r) rs)) (sym x.written)
            (rewrite-Contents E q L apart x.before r text rs small x.is_queue later x.existed
              (lossless.unmarshal-marshal r text is_text) read),
      )

  -- A deletion whose call arrives takes out the entry with the index, and no other, where the leader
  -- key exists; else it changes nothing and returns the error of a lost leadership.
  pub delete_entry_lem :
      (leader_key : String) (i : ℕ) (w : World E) (rs : List A)
      → i < int64_half
      → (arrive E w).0 ≡ fine
      → IsQueue E q (arrive E w).1.state
      → Contents E q (arrive E w).1.state rs
      → ((is_some (E.get (arrive E w).1.state leader_key) ≡ false)
          × (delete_entry E q leader_key i w ≡ (fails no_leader, (arrive E w).1)))
        ⊎ ((is_some (E.get (arrive E w).1.state leader_key) ≡ true)
            × ((delete_entry E q leader_key i w).0 ≡ returns tt)
            × Contents E q
                (delete_entry E q leader_key i w).1.state
                (keep_if (λ r. not (q.index r == i)) rs))
  unfolding delete_entry
  delete_entry_lem leader_key i w rs b f k x =
      let v = (arrive E w).1 in
      let later = move-IsQueue E q L apart v.state _ (deletes i) k in
      elim (write_by_leader_lem E leader_key (delete (key_of E q i) ∷ []) w f) [
        | inl missing ↦ inl missing
        | inr (t, done) ↦ inr (
          t,
          ap (λ x. x.0) done,
          subst (λ s. Contents E q s (keep_if (λ r. not (q.index r == i)) rs))
              (sym (ap (λ x. x.1.state) done)) (delete-Contents E q L apart v.state i rs b later x),
        )
      ]
