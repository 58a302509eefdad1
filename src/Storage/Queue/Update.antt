-- ===== src/Storage/Queue/Update.antt =====
-- Updates of entries: they end, they write over an entry that exists, and they never add one.
use cke.Prelude.{
  ℕ, zero, suc, ◌<◌, ◌≡◌, sym, subst, ◌∙◌, ◌≢◌, inl, inr, String, ◌==◌, true, false, [], ◌∷◌, none,
  some, length, arith,
}
use cke.Etcd.{KeyValue, put, Etcd, World, returns, arrive, holds, mod_revision_of, mod_revision_is}
use cke.Etcd.Calls.{
  HasEnded, get-ok, get-HasEnded, txn-HasEnded, txn-ok, retry-ok, retry-HasEnded, script-cases,
  arrive-write_all, length-arrive,
}
use cke.Etcd.Laws.{IsLawful, get-unchanged}
use cke.Storage.Steps.{require-ok, require-HasEnded, unmissed-ok, unmissed-HasEnded}
use cke.Storage.Queue.{Queue, key_of, update_round, update_rounds, update_entry}
use cke.Storage.Queue.Moves.{IsApart, IsQueue}
use cke.Storage.Queue.Register.{Shared, arrive-IsQueue}

module _ (E : Etcd) {A : Type 0} (q : Queue A) where
  -- What an update leaves: the text of the entry was written at a state at which the entry existed.
  pub record Rewritten (i : ℕ) (text : String) (final : E.State) : Type 0 where
    pub before : E.State
    pub is_queue : IsQueue E q before
    pub existed : E.get before (key_of E q i) ≢ none
    pub written : final ≡ E.write before (put (key_of E q i) text ∷ [])

  -- A key that still has the revision of what was read exists.
  exists-unchanged :
      IsLawful E
      → (w : World E) (k : String) (old : KeyValue) → E.get w.state k ≡ some old
      → holds E (mod_revision_is k old.mod_revision) (arrive E w).1.state ≡ true
      → E.get (arrive E w).1.state k ≢ none
  exists-unchanged L w k old e h gone =
      let (txs, later) = arrive-write_all E w in
      let now : mod_revision_of (E.get (arrive E w).1.state k) ≡ old.mod_revision = ground arith in
      let now' : mod_revision_of (E.get (arrive E w).1.state k)
          ≡ mod_revision_of (E.get w.state k) =
        rw e now in
      let same =
        get-unchanged E L k w.state txs (
          subst (λ s. mod_revision_of (E.get s k) ≡ mod_revision_of (E.get w.state k)) later
            now') in
      let still = subst (λ s. E.get s k ≡ E.get w.state k) (sym later) same in
      let both = sym gone ∙ still ∙ e in cc

  update_rounds-Rewritten :
      (L : IsLawful E) (apart : IsApart q) (fuel i : ℕ) (text : String) (w w' : World E)
      → IsQueue E q w.state
      → Shared E q w.state w.script
      → update_rounds E q fuel i text w ≡ (returns tt, w')
      → Rewritten i text w'.state
  unfolding update_rounds update_round
  update_rounds-Rewritten L apart zero i text w w' k m e = cc
  update_rounds-Rewritten L apart (suc fuel) i text w w' k m e =
      let w₁ = (arrive E w).1 in
      let e₁ = get-ok E w (key_of E q i) _ w' tt e in
      let (old, is_old, e₂) = unmissed-ok E (E.get w₁.state (key_of E q i)) _ w₁ w' tt e₁ in
      let c = mod_revision_is (key_of E q i) old.mod_revision in
      let ws = put (key_of E q i) text ∷ [] in
      let e₃ = txn-ok E w₁ c ws _ w' tt e₂ in
      let (k₁, m₁) = arrive-IsQueue E q L apart w m k in
      let (k₂, m₂) = arrive-IsQueue E q L apart w₁ m₁ k₁ in
      elim (retry-ok E c ws (update_rounds E q fuel i text) (arrive E w₁).1 w' e₃) [
        | inl (same, e₄) ↦ record {
          before = (arrive E w₁).1.state;
          is_queue = k₂;
          existed = exists-unchanged L w₁ (key_of E q i) old is_old same;
          written = e₄;
        }
        | inr e₄ ↦ update_rounds-Rewritten L apart fuel i text (arrive E w₁).1 w' k₂ m₂ e₄
      ]

  -- An update that returns without an error has written its entry over one that existed at that
  -- moment, whatever that was.
  pub update_entry-Rewritten :
      (L : IsLawful E) (apart : IsApart q) (fuel : ℕ) (r : A) (w w' : World E)
      → IsQueue E q w.state
      → Shared E q w.state w.script
      → update_entry E q fuel r w ≡ (returns tt, w')
      → (text : String) × (q.codec.marshal r ≡ some text) × Rewritten (q.index r) text w'.state
  unfolding update_entry
  update_entry-Rewritten L apart fuel r w w' k m e =
      let (text, is_text, e₁) = require-ok E (q.codec.marshal r) _ w w' tt e in
      (text, is_text, update_rounds-Rewritten L apart fuel (q.index r) text w w' k m e₁)

  shorter :
      (w : World E) (fuel i : ℕ) (old : KeyValue)
      → E.get (arrive E w).1.state (key_of E q i) ≡ some old
      → holds E (mod_revision_is (key_of E q i) old.mod_revision) (arrive E (arrive E w).1).1.state
        ≡ false
      → length w.script < suc fuel
      → length (arrive E (arrive E w).1).1.script < fuel
  shorter w fuel i old e f h =
      let w₁ = (arrive E w).1 in
      elim (script-cases E w₁) [
        | inl same ↦
            let f' : (mod_revision_of (E.get w₁.state (key_of E q i)) == old.mod_revision) ≡ false =
              rw same at f in
            let f'' : (old.mod_revision == old.mod_revision) ≡ false = rw e at f' in
            absurd (ground arith)
        | inr less ↦ omega (arith, h, less, length-arrive E w)
      ]

  update_rounds-HasEnded :
      (fuel i : ℕ) (text : String) (w : World E)
      → length w.script < fuel
      → HasEnded (update_rounds E q fuel i text w).0
  unfolding update_rounds update_round
  update_rounds-HasEnded zero i text w h = absurd (omega arith)
  update_rounds-HasEnded (suc fuel) i text w h =
      let w₁ = (arrive E w).1 in
      get-HasEnded E w (key_of E q i) _ (
        unmissed-HasEnded E (E.get w₁.state (key_of E q i)) _ w₁ λ old is_old.
          let c = mod_revision_is (key_of E q i) old.mod_revision in
          let ws = put (key_of E q i) text ∷ [] in
          txn-HasEnded E w₁ c ws _ (
            retry-HasEnded E c ws (update_rounds E q fuel i text) (arrive E w₁).1 (λ missed.
              update_rounds-HasEnded fuel i text (arrive E w₁).1
                (shorter w fuel i old is_old missed h))))

  -- An update ends.
  pub update_entry-HasEnded :
      (fuel : ℕ) (r : A) (w : World E)
      → length w.script < fuel
      → HasEnded (update_entry E q fuel r w).0
  unfolding update_entry
  update_entry-HasEnded fuel r w h =
      require-HasEnded E (q.codec.marshal r) _ w
        (λ text is_text. update_rounds-HasEnded fuel (q.index r) text w h)
