-- ===== src/Server/Control/Calls.antt =====
-- A run that ends with an outcome of its operation has passed its calls of the storage.
use cke.Prelude.{◌≡◌, refl, ap, String, Bool, true, false, List, Option, none, some, if◌then◌else◌}
use cke.Etcd.{
  Write, Etcd, Compare, key_exists, Outcome, returns, fails, out_of_fuel, not_found, no_leader,
  bad_value, client_error, crashed, command_failed, World, Fault, fine, lost_before, lost_after,
  arrive, Call, get, list, txn, pure, fail, Ran, then_run, read_at, txn_at, ◌>>=◌,
}
use cke.Storage.{require, write_by_leader}

-- The run of the operation itself has an outcome, and not the storage.
abbrev pub is_decided : {A : Type 0} → Outcome A → Bool
is_decided (returns a) = true
is_decided (fails command_failed) = true
is_decided _ = false

abbrev pub is_command : {A : Type 0} → Outcome A → Bool
is_command (fails command_failed) = true
is_command _ = false

module _ (E : Etcd) where
  -- A method of the storage does not fail as a command does.
  unfoldable pub Never : {A : Type 0} → Call E A → Type 0
  Never m = (w : World E) → is_command (m w).0 ≡ false

  pub bind-Never :
      {A B : Type 0} (m : Call E A) (k : A → Call E B)
      → Never m
      → ((a : A) → Never (k a))
      → Never (m >>= k)
  unfolding Never
  bind-Never m k f g w = go (m w).0 (m w).1 (f w)
    where
      go :
          (o : Outcome _) (v : World E)
          → is_command o ≡ false
          → is_command (then_run E (o, v) k).0 ≡ false
      go (returns a) v h = g a v
      go (fails not_found) v h = refl
      go (fails no_leader) v h = refl
      go (fails bad_value) v h = refl
      go (fails client_error) v h = refl
      go (fails crashed) v h = refl
      go (fails command_failed) v h = h
      go out_of_fuel v h = refl

  pub require-Never : {A : Type 0} (o : Option A) → Never (require E o)
  unfolding Never
  require-Never none w = refl
  require-Never (some a) w = refl

  read-Never :
      {A : Type 0} (f : Fault) (a : A) (v : World E) → is_command (read_at E f a v).0 ≡ false
  read-Never fine a v = refl
  read-Never lost_before a v = refl
  read-Never lost_after a v = refl

  pub get-Never : (k : String) → Never (get E k)
  unfolding Never get
  get-Never k w = read-Never (arrive E w).0 _ (arrive E w).1

  pub list-Never : (p : String) → Never (list E p)
  unfolding Never list
  list-Never p w = read-Never (arrive E w).0 _ (arrive E w).1

  pub txn-Never : (c : Compare) (ws : List Write) → Never (txn E c ws)
  unfolding Never txn
  txn-Never c ws w = go (arrive E w).0
    where
      go : (f : Fault) → is_command (txn_at E f c ws (arrive E w).1).0 ≡ false
      go fine = refl
      go lost_before = refl
      go lost_after = refl

  pub if-Never : (b : Bool) → Never (if b then pure E tt else fail E no_leader)
  unfolding Never
  if-Never true w = refl
  if-Never false w = refl

  pub write_by_leader-Never :
      (leader_key : String) (ws : List Write) → Never (write_by_leader E leader_key ws)
  unfolding write_by_leader
  write_by_leader-Never leader_key ws =
      bind-Never (txn E (key_exists leader_key) ws) _ (txn-Never _ ws) if-Never

  -- A method with an outcome of the operation has passed its calls of the storage.
  pub bind-decided :
      {A : Type 0} (m : Call E A) (k : A → Call E Unit) (w w' : World E) (o : Outcome Unit)
      → Never m
      → is_decided o ≡ true
      → (m >>= k) w ≡ (o, w')
      → (a : A) × (v : World E) × (m w ≡ (returns a, v)) × (k a v ≡ (o, w'))
  unfolding Never
  bind-decided m k w w' o f d e = go (m w).0 (m w).1 refl (f w) e
    where
      bad :
          (x : Outcome Unit) (v : World E)
          → ◌≡◌ {A = Ran E Unit} (x, v) (o, w')
          → is_decided x ≡ false
          → ⊥
      bad x v p h = let q : is_decided x ≡ is_decided o = ap (λ y. is_decided y.0) p in cc

      go :
          (x : Outcome _) (v : World E)
          → m w ≡ (x, v)
          → is_command x ≡ false
          → then_run E (x, v) k ≡ (o, w')
          → (a : _) × (v : World E) × (m w ≡ (returns a, v)) × (k a v ≡ (o, w'))
      go (returns a) v p h e = (a, v, p, e)
      go (fails not_found) v p h e = absurd (bad (fails not_found) v e refl)
      go (fails no_leader) v p h e = absurd (bad (fails no_leader) v e refl)
      go (fails bad_value) v p h e = absurd (bad (fails bad_value) v e refl)
      go (fails client_error) v p h e = absurd (bad (fails client_error) v e refl)
      go (fails crashed) v p h e = absurd (bad (fails crashed) v e refl)
      go (fails command_failed) v p h e = cc
      go out_of_fuel v p h e = absurd (bad out_of_fuel v e refl)
