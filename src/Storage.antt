-- ===== src/Storage.antt =====
-- storage.go: what CKE stores in etcd, by calls of the client of Etcd.
mod Samples
pub mod Numbers
pub mod Keys
pub mod Leader
pub mod Steps
pub mod Queue
pub mod Values
pub mod Records
pub mod Resources
use cke.Prelude.{
  String, Bool, true, false, List, [], ◌∷◌, Option, none, some, str_eq, if◌then◌else◌,
}
use cke.Etcd.{
  KeyValue, Write, put, Etcd, always, key_exists, not_found, no_leader, bad_value, Call, get, txn,
  pure, fail, ◌>>=◌, ◌>>◌,
}

-- json.Marshal and json.Unmarshal for one type.
pub record Codec (A : Type 0) : Type 0 where
  pub marshal : A → Option String
  pub unmarshal : String → Option A

module _ (E : Etcd) where
  -- The result of a conversion, whose error ends the method.
  abbrev pub require : {B : Type 0} → Option B → Call E B
  require none = fail E bad_value
  require (some b) = pure E b

  -- ErrNotFound where there is no key.
  abbrev pub unmissed : {B : Type 0} → Option B → Call E B
  unmissed none = fail E not_found
  unmissed (some b) = pure E b

  -- The methods that put a text and those that report a switch.
  unfoldable pub put_text : String → String → Call E Unit
  put_text k text = do txn E always (put k text ∷ []); pure E tt

  abbrev is_true : Option KeyValue → Bool
  is_true none = false
  is_true (some kv) = str_eq "true" kv.value

  unfoldable pub is_set : String → Call E Bool
  is_set k = do kv ← get E k; pure E (is_true kv)

  -- The transactions that need the leader key.
  unfoldable pub write_by_leader : String → List Write → Call E Unit
  write_by_leader leader_key ws = do
    succeeded ← txn E (key_exists leader_key) ws
    if succeeded then pure E tt else fail E no_leader
