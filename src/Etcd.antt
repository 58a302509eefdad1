-- ===== src/Etcd.antt =====
-- The client of etcd (go.etcd.io/etcd/client/v3) as an interface: what storage.go calls of it. A
-- call meets the transactions that other clients commit before it arrives, and may fail; the two are
-- in a script, one event for each call, and the calls after the script meet nothing.
pub mod Calls
pub mod Laws
pub mod Memory
use cke.Prelude.{
  ℕ, String, Bool, true, false, List, [], ◌∷◌, Option, none, some, ◌==◌, if◌then◌else◌,
}

pub record KeyValue : Type 0 where
  pub value : String
  pub mod_revision : ℕ

-- An operation of the Then part of a transaction. The range is from the first key to before the last.
pub data Write : Type 0 where
  put : String → String → Write
  delete : String → Write
  delete_range : String → String → Write

pub record Etcd : Type 1 where
  pub State : Type 0
  pub get : State → String → Option KeyValue
  -- Get with WithPrefix and SortByKey, ascending.
  pub list : State → String → List (String × KeyValue)
  -- The operations of one transaction, or of one call of Put or Delete.
  pub write : State → List Write → State

-- A compare of the If part; `always` is a transaction with no compare.
pub data Compare : Type 0 where
  always : Compare
  key_exists : String → Compare
  mod_revision_is : String → ℕ → Compare

-- Whether a call fails, and whether it took effect all the same.
pub data Fault : Type 0 where
  fine lost_before lost_after : Fault

pub record Event : Type 0 where
  pub others : List (List Write)
  pub fault : Fault

pub data Error : Type 0 where
  not_found no_leader bad_value client_error crashed command_failed : Error

pub data Outcome (A : Type 0) : Type 0 where
  returns : A → Outcome A
  fails : Error → Outcome A
  out_of_fuel : Outcome A

-- A key that does not exist has the revision 0.
abbrev pub mod_revision_of : Option KeyValue → ℕ
mod_revision_of none = 0
mod_revision_of (some kv) = kv.mod_revision

abbrev pub is_some : Option KeyValue → Bool
is_some none = false
is_some (some _) = true

module _ (E : Etcd) where
  pub record World : Type 0 where
    pub state : E.State
    pub script : List Event

  abbrev pub Ran : Type 0 → Type 0
  Ran A = Outcome A × World

  abbrev pub Call : Type 0 → Type 0
  Call A = World → Ran A

  unfoldable pub write_all : E.State → List (List Write) → E.State
  write_all s [] = s
  write_all s (ws ∷ rest) = write_all (E.write s ws) rest

  -- The fault of the next call, and the world at which it arrives.
  unfoldable pub arrive : World → Fault × World
  unfolding write_all
  arrive w = elim w.script [
    | [] ↦ (fine, w)
    | e ∷ es ↦ (e.fault, record { state = write_all w.state e.others; script = es })
  ]

  abbrev pub holds : Compare → E.State → Bool
  holds always s = true
  holds (key_exists k) s = is_some (E.get s k)
  holds (mod_revision_is k r) s = mod_revision_of (E.get s k) == r

  abbrev pub read_at : {A : Type 0} → Fault → A → World → Ran A
  read_at fine a w = (returns a, w)
  read_at _ a w = (fails client_error, w)

  unfoldable pub get : String → Call (Option KeyValue)
  unfolding arrive
  get k w = let a = arrive w in read_at a.0 (E.get a.1.state k) a.1

  unfoldable pub list : String → Call (List (String × KeyValue))
  unfolding arrive
  list p w = let a = arrive w in read_at a.0 (E.list a.1.state p) a.1

  -- The two reads of one transaction.
  unfoldable pub get_both : String → String → Call (Option KeyValue × Option KeyValue)
  unfolding arrive
  get_both k j w = let a = arrive w in read_at a.0 (E.get a.1.state k, E.get a.1.state j) a.1

  abbrev pub commit : Compare → List Write → World → World
  commit c ws w =
      if holds c w.state then record { state = E.write w.state ws; script = w.script } else w

  abbrev pub txn_at : Fault → Compare → List Write → World → Ran Bool
  txn_at fine c ws w = (returns (holds c w.state), commit c ws w)
  txn_at lost_before c ws w = (fails client_error, w)
  txn_at lost_after c ws w = (fails client_error, commit c ws w)

  -- Txn(ctx).If(c).Then(ws).Commit(), with the field Succeeded of its response.
  unfoldable pub txn : Compare → List Write → Call Bool
  unfolding arrive
  txn c ws w = let a = arrive w in txn_at a.0 c ws a.1

  abbrev pub pure : {A : Type 0} → A → Call A
  pure a w = (returns a, w)

  abbrev pub fail : {A : Type 0} → Error → Call A
  fail e w = (fails e, w)

  abbrev pub then_run : {A B : Type 0} → Ran A → (A → Call B) → Ran B
  then_run (returns a, w) f = f a w
  then_run (fails e, w) f = (fails e, w)
  then_run (out_of_fuel, w) f = (out_of_fuel, w)

infixl 5 ◌>>=◌ ◌>>◌
abbrev pub ◌>>=◌ : {E : Etcd} {A B : Type 0} → Call E A → (A → Call E B) → Call E B
◌>>=◌ {E} m f w = then_run E (m w) f

abbrev pub ◌>>◌ : {E : Etcd} {A B : Type 0} → Call E A → Call E B → Call E B
m >> k = m >>= λ _. k
