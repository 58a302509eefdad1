-- ===== src/Storage/Queue.antt =====
-- The reboot queue and the repair queue in storage.go. The two have the same code over different
-- keys and entries, so each operation is given once, for a record of what differs.
mod Samples
pub mod Methods
pub mod Moves
pub mod Invariant
pub mod Register
pub mod Update
pub mod Entries
pub mod Refine
use cke.Prelude.{
  ℕ, zero, suc, ◌+◌, String, Bool, true, false, List, [], ◌∷◌, Option, none, some, str_eq,
  if◌then◌else◌,
}
use cke.Reboot.{RebootQueueEntry}
use cke.Repair.{RepairQueueEntry}
use cke.Etcd.{
  KeyValue, put, delete, Etcd, always, key_exists, mod_revision_is, Error, not_found, no_leader,
  bad_value, Call, out_of_fuel, get, list, txn, pure, fail, ◌>>=◌, ◌>>◌,
}
use cke.Storage.{Codec, require, unmissed, is_set, put_text, write_by_leader}
use cke.Storage.Numbers.{format_int, parse_int}
use cke.Storage.Keys.{entry_key}

pub record Queue (A : Type 0) : Type 0 where
  pub prefix : String
  pub write_index_key : String
  pub disabled_key : String
  pub codec : Codec A
  pub index : A → ℕ
  pub with_index : ℕ → A → A

abbrev pub reboots : Codec RebootQueueEntry → Queue RebootQueueEntry
reboots codec = record {
  prefix = "reboots/data/";
  write_index_key = "reboots/write-index";
  disabled_key = "reboots/disabled";
  codec = codec;
  index = λ r. r.index;
  with_index = λ i r. record r { index = i };
}

abbrev pub repairs : Codec RepairQueueEntry → Queue RepairQueueEntry
repairs codec = record {
  prefix = "repairs/data/";
  write_index_key = "repairs/write-index";
  disabled_key = "repairs/disabled";
  codec = codec;
  index = λ r. r.index;
  with_index = λ i r. record r { index = i };
}

module _ (E : Etcd) {A : Type 0} (q : Queue A) where
  abbrev pub key_of : ℕ → String
  key_of i = entry_key q.prefix i

  -- The write index with its revision; both are 0 where it is not set.
  abbrev pub index_in : Option KeyValue → Option (ℕ × ℕ)
  index_in none = some (0, 0)
  index_in (some kv) = elim (parse_int kv.value) [
    | none ↦ none
    | some i ↦ some (i, kv.mod_revision)
  ]

  -- RegisterRebootsEntry, RegisterRepairsEntry: one round, with what follows a failed transaction.
  unfoldable pub register_round : A → Call E Unit → Call E Unit
  register_round r again = do
    kv ← get E q.write_index_key
    found ← require E (index_in kv)
    data_text ← require E (q.codec.marshal (q.with_index found.0 r))
    succeeded ←
        txn E (mod_revision_is q.write_index_key found.1)
          (put (key_of found.0) data_text ∷ put q.write_index_key (format_int (found.0 + 1)) ∷ [])
    if succeeded then pure E tt else again

  unfoldable pub register_entry : ℕ → A → Call E Unit
  register_entry zero r w = (out_of_fuel, w)
  register_entry (suc fuel) r w = register_round r (register_entry fuel r) w

  -- UpdateRebootsEntry, UpdateRepairsEntry
  unfoldable pub update_round : ℕ → String → Call E Unit → Call E Unit
  update_round i text again = do
    kv ← get E (key_of i)
    old ← unmissed E kv
    succeeded ← txn E (mod_revision_is (key_of i) old.mod_revision) (put (key_of i) text ∷ [])
    if succeeded then pure E tt else again

  unfoldable pub update_rounds : ℕ → ℕ → String → Call E Unit
  update_rounds zero i text w = (out_of_fuel, w)
  update_rounds (suc fuel) i text w = update_round i text (update_rounds fuel i text) w

  unfoldable pub update_entry : ℕ → A → Call E Unit
  update_entry fuel r = do text ← require E (q.codec.marshal r); update_rounds fuel (q.index r) text

  -- GetRebootsEntry, GetRepairsEntry
  unfoldable pub get_entry : ℕ → Call E A
  get_entry i = do
    kv ← get E (key_of i)
    found ← unmissed E kv
    require E (q.codec.unmarshal found.value)

  abbrev pub both : Option A → Option (List A) → Option (List A)
  both none rest = none
  both (some r) none = none
  both (some r) (some rs) = some (r ∷ rs)

  abbrev pub unmarshal_all : List (String × KeyValue) → Option (List A)
  unmarshal_all [] = some []
  unmarshal_all (e ∷ es) = both (q.codec.unmarshal e.1.value) (unmarshal_all es)

  -- GetRebootsEntries, GetRepairsEntries
  unfoldable pub get_entries : Call E (List A)
  get_entries = do kvs ← list E q.prefix; require E (unmarshal_all kvs)

  -- DeleteRebootsEntry, DeleteRepairsEntry
  unfoldable pub delete_entry : String → ℕ → Call E Unit
  delete_entry leader_key i = write_by_leader E leader_key (delete (key_of i) ∷ [])

  -- IsRebootQueueDisabled, IsRepairQueueDisabled
  unfoldable pub is_queue_disabled : Call E Bool
  is_queue_disabled = is_set E q.disabled_key

  -- EnableRebootQueue, EnableRepairQueue
  unfoldable pub enable_queue : Bool → Call E Unit
  enable_queue flag = put_text E q.disabled_key (if flag then "false" else "true")
