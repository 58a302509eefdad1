-- ===== src/Storage/Leader.antt =====
-- The transactions that need the leader key.
use cke.Prelude.{
  ◌≡◌, refl, sym, ap, ◌∙◌, ◌⊎◌, inl, inr, String, Bool, true, false, List, Bool-cases,
  if◌then◌else◌,
}
use cke.Etcd.{Call, ◌>>◌, Fault, lost_before, lost_after}
use cke.Etcd.{
  Write, Etcd, World, fine, returns, fails, no_leader, arrive, key_exists, is_some, pure, fail,
  then_run, txn, txn_at,
}
use cke.Etcd.Calls.{txn-ok}
use cke.Storage.{write_by_leader}

module _ (E : Etcd) where
  -- A transaction of the leader that arrives: with the leader key it takes effect, and else it changes
  -- nothing and returns the error of a lost leadership.
  pub write_by_leader_lem :
      (leader_key : String) (ws : List Write) (w : World E)
      → (arrive E w).0 ≡ fine
      → ((is_some (E.get (arrive E w).1.state leader_key) ≡ false)
          × (write_by_leader E leader_key ws w ≡ (fails no_leader, (arrive E w).1)))
        ⊎ ((is_some (E.get (arrive E w).1.state leader_key) ≡ true)
            × (write_by_leader E leader_key ws w ≡ (
              returns tt,
              record { state = E.write (arrive E w).1.state ws; script = (arrive E w).1.script },
            )))
  unfolding write_by_leader txn
  write_by_leader_lem leader_key ws w f =
      let v = (arrive E w).1 in
      let run =
        ap
          (λ x.
            then_run E (txn_at E x (key_exists leader_key) ws v)
              (λ succeeded. if succeeded then pure E tt else fail E no_leader))
          f in
      elim (Bool-cases (is_some (E.get v.state leader_key))) [
        | inl t ↦ inr (t, run ∙ decided (is_some (E.get v.state leader_key)) true v _ t)
        | inr n ↦ inl (n, run ∙ decided (is_some (E.get v.state leader_key)) false v _ n)
      ]
    where
      decided :
          (c d : Bool) (v u : World E)
          → c ≡ d
          → (if c then pure E tt else fail E no_leader) (if c then u else v)
            ≡ (if d then (returns tt, u) else (fails no_leader, v))
      decided c true v u h = rw h refl
      decided c false v u h = rw h refl

  pub write_by_leader-ok :
      (leader_key : String) (ws : List Write) (w w' : World E)
      → write_by_leader E leader_key ws w ≡ (returns tt, w')
      → w'.state ≡ E.write (arrive E w).1.state ws
  unfolding write_by_leader
  write_by_leader-ok leader_key ws w w' e =
      decided (is_some (E.get (arrive E w).1.state leader_key)) _ _
        (txn-ok E w (key_exists leader_key) ws _ w' tt e)
    where
      decided :
          (b : Bool) (v u : World E)
          → (if b then pure E tt else fail E no_leader) (if b then u else v) ≡ (returns tt, w')
          → w'.state ≡ u.state
      decided true v u e = ap (λ x. x.1.state) (sym e)
      decided false v u e = cc

  -- What follows a transaction of the leader that has succeeded.
  pub write_by_leader-then :
      (leader_key : String) (ws : List Write) (k : Call E Unit) (w w' : World E)
      → (write_by_leader E leader_key ws >> k) w ≡ (returns tt, w')
      → k (record { state = E.write (arrive E w).1.state ws; script = (arrive E w).1.script })
        ≡ (returns tt, w')
  unfolding write_by_leader txn
  write_by_leader-then leader_key ws k w w' e = go (arrive E w).0 (arrive E w).1 e
    where
      decided :
          (b : Bool) (v u : World E)
          → then_run E ((if b then pure E tt else fail E no_leader) (if b then u else v)) (λ _. k)
            ≡ (returns tt, w')
          → k u ≡ (returns tt, w')
      decided true v u e = e
      decided false v u e = cc

      go :
          (f : Fault) (v : World E)
          → then_run E
              (then_run E
                (txn_at E f (key_exists leader_key) ws v)
                (λ succeeded. if succeeded then pure E tt else fail E no_leader))
              (λ _. k)
            ≡ (returns tt, w')
          → k (record { state = E.write v.state ws; script = v.script }) ≡ (returns tt, w')
      go fine v e = decided (is_some (E.get v.state leader_key)) v _ e
      go lost_before v e = cc
      go lost_after v e = cc
