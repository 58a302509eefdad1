-- ===== src/Storage/Records.antt =====
-- The records of operations in storage.go. The parameter of a method that counts records is a number;
-- a list of keys in descending order is the ascending one reversed.
mod Samples
pub mod Bounds
pub mod Maint
use cke.Prelude.{
  ℕ, zero, suc, ◌+◌, ◌-◌, String, Bool, List, [], ◌∷◌, ◌++◌, Option, none, some, ltb, leb, ◌==◌,
  take, get_elem?, length, if◌then◌else◌,
}
use cke.Record.{Record}
use cke.Etcd.{
  KeyValue, put, delete_range, Etcd, key_exists, Outcome, fails, client_error, crashed, no_leader,
  Call, get, list, txn, pure, fail, ◌>>=◌, ◌>>◌,
}
use cke.Storage.{Codec, require, write_by_leader}
use cke.Storage.Numbers.{format_int, parse_int}
use cke.Storage.Keys.{entry_key}

abbrev pub max_records : ℕ
max_records = 1000

abbrev pub record_key : Record → String
record_key r = entry_key "records/" r.id

abbrev reversed : {A : Type 0} → List A → List A
reversed [] = []
reversed (x ∷ xs) = reversed xs ++ x ∷ []

abbrev pub key_at : List (String × KeyValue) → ℕ → String
key_at l i = elim (get_elem? l i) [ none ↦ "" | some e ↦ e.0 ]

-- An error of the client leaves no response, and reading its field crashes.
abbrev pub or_crash : Outcome Bool → Outcome Bool
or_crash (fails client_error) = fails crashed
or_crash o = o

module _ (E : Etcd) where
  unfoldable pub delete_records : String → String → String → Call E Bool
  delete_records leader_key start_key end_key w =
      let r = txn E (key_exists leader_key) (delete_range start_key end_key ∷ []) w in
      (or_crash r.0, r.1)

  -- The keys from the oldest to before the last `max` ones.
  unfoldable pub delete_oldest : String → List (String × KeyValue) → ℕ → Call E Unit
  unfolding delete_records
  delete_oldest leader_key kvs max = do
    succeeded ← delete_records leader_key (key_at kvs 0) (key_at kvs (length kvs - max))
    if succeeded then pure E tt else fail E no_leader

  unfoldable pub maint_records : String → ℕ → Call E Unit
  unfolding delete_oldest
  maint_records leader_key max = do
    kvs ← list E "records/"
    (if leb (length kvs) max then pure E tt else delete_oldest leader_key kvs max)

module _ (E : Etcd) (codec : Codec Record) where
  abbrev unmarshal_records : List (String × KeyValue) → Option (List Record)
  unmarshal_records [] = some []
  unmarshal_records (e ∷ es) = elim (codec.unmarshal e.1.value) [
    | none ↦ none
    | some r ↦ elim (unmarshal_records es) [ none ↦ none | some rs ↦ some (r ∷ rs) ]
  ]

  -- WithLimit is given for a positive count only.
  abbrev limited : {A : Type 0} → ℕ → List A → List A
  limited count l = if ltb 0 count then take count l else l

  unfoldable pub get_records : ℕ → Call E (List Record)
  get_records count = do
    kvs ← list E "records/"
    require E (unmarshal_records (limited count (reversed kvs)))

  abbrev id_in : Option KeyValue → Option ℕ
  id_in none = some 1
  id_in (some kv) = parse_int kv.value

  unfoldable pub next_record_id : Call E ℕ
  next_record_id = do kv ← get E "records"; require E (id_in kv)

  unfoldable pub register_record : String → Record → Call E Unit
  register_record leader_key r = do
    text ← require E (codec.marshal r)
    write_by_leader E leader_key
        (put (record_key r) text ∷ put "records" (format_int (r.id + 1)) ∷ [])
    maint_records E leader_key max_records

  unfoldable pub update_record : String → Record → Call E Unit
  update_record leader_key r = do
    text ← require E (codec.marshal r)
    write_by_leader E leader_key (put (record_key r) text ∷ [])
