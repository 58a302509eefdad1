-- ===== src/Etcd/Calls.antt =====
-- A method that is a sequence of calls: what a result tells of its first call, and when it ends.
use cke.Prelude.{
  ◌≤◌, ◌<◌, ◌≡◌, refl, String, Bool, true, List, [], ◌∷◌, Option, length, arith, ap, sym,
  if◌then◌else◌, false, ◌⊎◌, inl, inr,
}
use cke.Etcd.{
  KeyValue, Write, Compare, Etcd, Fault, fine, lost_before, lost_after, Outcome, returns,
  out_of_fuel, World, Call, Event, write_all, arrive, holds, commit, read_at, txn_at, get, list,
  txn, pure, then_run, ◌>>=◌,
}

-- The method ends with a result or an error.
abbrev pub HasEnded : {A : Type 0} → Outcome A → Type 0
HasEnded out_of_fuel = ⊥
HasEnded _ = Unit

module _ (E : Etcd) {A B : Type 0} where
  read-ok :
      (f : Fault) (a : A) (k : A → Call E B) (w w' : World E) (b : B)
      → then_run E (read_at E f a w) k ≡ (returns b, w')
      → k a w ≡ (returns b, w')
  read-ok fine a k w w' b e = e
  read-ok lost_before a k w w' b e = cc
  read-ok lost_after a k w w' b e = cc

  read-HasEnded :
      (f : Fault) (a : A) (k : A → Call E B) (w : World E)
      → HasEnded (k a w).0
      → HasEnded (then_run E (read_at E f a w) k).0
  read-HasEnded fine a k w h = h
  read-HasEnded lost_before a k w h = tt
  read-HasEnded lost_after a k w h = tt

module _ (E : Etcd) {B : Type 0} (w : World E) where
  pub get-ok :
      (key : String) (k : Option KeyValue → Call E B) (w' : World E) (b : B)
      → (get E key >>= k) w ≡ (returns b, w')
      → k (E.get (arrive E w).1.state key) (arrive E w).1 ≡ (returns b, w')
  unfolding get
  get-ok key k w' b e = read-ok E (arrive E w).0 _ k (arrive E w).1 w' b e

  pub get-HasEnded :
      (key : String) (k : Option KeyValue → Call E B)
      → HasEnded (k (E.get (arrive E w).1.state key) (arrive E w).1).0
      → HasEnded ((get E key >>= k) w).0
  unfolding get
  get-HasEnded key k h = read-HasEnded E (arrive E w).0 _ k (arrive E w).1 h

  pub list-ok :
      (prefix : String) (k : List (String × KeyValue) → Call E B) (w' : World E) (b : B)
      → (list E prefix >>= k) w ≡ (returns b, w')
      → k (E.list (arrive E w).1.state prefix) (arrive E w).1 ≡ (returns b, w')
  unfolding list
  list-ok prefix k w' b e = read-ok E (arrive E w).0 _ k (arrive E w).1 w' b e

  txn_at-ok :
      (f : Fault) (c : Compare) (ws : List Write) (k : Bool → Call E B) (w₁ w' : World E) (b : B)
      → then_run E (txn_at E f c ws w₁) k ≡ (returns b, w')
      → k (holds E c w₁.state) (commit E c ws w₁) ≡ (returns b, w')
  txn_at-ok fine c ws k w₁ w' b e = e
  txn_at-ok lost_before c ws k w₁ w' b e = cc
  txn_at-ok lost_after c ws k w₁ w' b e = cc

  pub txn-ok :
      (c : Compare) (ws : List Write) (k : Bool → Call E B) (w' : World E) (b : B)
      → (txn E c ws >>= k) w ≡ (returns b, w')
      → k (holds E c (arrive E w).1.state) (commit E c ws (arrive E w).1) ≡ (returns b, w')
  unfolding txn
  txn-ok c ws k w' b e = txn_at-ok (arrive E w).0 c ws k (arrive E w).1 w' b e

  txn_at-HasEnded :
      (f : Fault) (c : Compare) (ws : List Write) (k : Bool → Call E B) (w₁ : World E)
      → HasEnded (k (holds E c w₁.state) (commit E c ws w₁)).0
      → HasEnded (then_run E (txn_at E f c ws w₁) k).0
  txn_at-HasEnded fine c ws k w₁ h = h
  txn_at-HasEnded lost_before c ws k w₁ h = tt
  txn_at-HasEnded lost_after c ws k w₁ h = tt

  pub txn-HasEnded :
      (c : Compare) (ws : List Write) (k : Bool → Call E B)
      → HasEnded (k (holds E c (arrive E w).1.state) (commit E c ws (arrive E w).1)).0
      → HasEnded ((txn E c ws >>= k) w).0
  unfolding txn
  txn-HasEnded c ws k h = txn_at-HasEnded (arrive E w).0 c ws k (arrive E w).1 h

-- A transaction that is tried again where it does not succeed.
pub retry-ok :
    (E : Etcd) (c : Compare) (ws : List Write) (again : Call E Unit) (w w' : World E)
    → (if holds E c w.state then pure E tt else again) (commit E c ws w) ≡ (returns tt, w')
    → ((holds E c w.state ≡ true) × (w'.state ≡ E.write w.state ws)) ⊎ (again w ≡ (returns tt, w'))
retry-ok E c ws again w w' e = go (holds E c w.state) refl e
  where
    go :
        (b : Bool)
        → holds E c w.state ≡ b
        → (if b then pure E tt else again)
            (if b then record { state = E.write w.state ws; script = w.script } else w)
          ≡ (returns tt, w')
        → ((holds E c w.state ≡ true) × (w'.state ≡ E.write w.state ws))
          ⊎ (again w ≡ (returns tt, w'))
    go true h e = inl (h, ap (λ x. x.1.state) (sym e))
    go false h e = inr e

pub retry-HasEnded :
    (E : Etcd) (c : Compare) (ws : List Write) (again : Call E Unit) (w : World E)
    → (holds E c w.state ≡ false → HasEnded (again w).0)
    → HasEnded ((if holds E c w.state then pure E tt else again) (commit E c ws w)).0
retry-HasEnded E c ws again w h = go (holds E c w.state) refl
  where
    go :
        (b : Bool)
        → holds E c w.state ≡ b
        → HasEnded
            ((if b then pure E tt else again)
              (if b then record { state = E.write w.state ws; script = w.script } else w)).0
    go true e = tt
    go false e = h e

-- A call uses up an event of the script, and meets nothing after the script.
module _ (E : Etcd) where
  -- The state at which a call arrives is one that the others' transactions lead to.
  pub arrive-write_all :
      (w : World E) → (txs : List (List Write)) × ((arrive E w).1.state ≡ write_all E w.state txs)
  unfolding arrive write_all
  arrive-write_all w = go w.script
    where
      go :
          (es : List Event)
          → (txs : List (List Write)) × ((arrive E
                (record { state = w.state; script = es })).1.state
              ≡ write_all E w.state txs)
      go [] = ([], refl)
      go (e ∷ es) = (e.others, refl)

  -- Either the script ends, or a call makes it shorter.
  pub script-cases :
      (w : World E) → ((arrive E w).1 ≡ w) ⊎ (length (arrive E w).1.script < length w.script)
  unfolding arrive
  script-cases w = go w.script
    where
      go :
          (es : List Event)
          → ((arrive E (record { state = w.state; script = es })).1
              ≡ record { state = w.state; script = es })
            ⊎ (length (arrive E (record { state = w.state; script = es })).1.script < length es)
      go [] = inl refl
      go (e ∷ es) = inr (omega arith)

  pub length-arrive : (w : World E) → length (arrive E w).1.script ≤ length w.script
  length-arrive w = elim (script-cases w) [
    | inl same ↦ rw same (omega arith)
    | inr less ↦ omega (arith, less)
  ]
