-- ===== src/Storage/Records/Samples.antt =====
-- A registration of a record in a store in memory, and the theorem at this run.
use cke.Prelude.{
  ◌≡◌, refl, ◌≤◌, ◌-◌, String, [], ◌∷◌, none, some, length, ◌==◌, str_eq, if◌then◌else◌,
}
use cke.Record.{Record, new_record}
use cke.Etcd.{put, World, returns, arrive, get, list, txn}
use cke.Etcd.Memory.{memory, memory-IsLawful, empty_memory, written}
use cke.Etcd.Memory.Table.{lookup, set}
use cke.Storage.{Codec, write_by_leader}
use cke.Storage.Numbers.{digit, decimal, format_int, scalar, parse_int, read_digits}
use cke.Storage.Keys.{hex, hex_digit, entry_key}
use cke.Storage.Records.{
  max_records, record_key, register_record, maint_records, delete_oldest, delete_records,
  next_record_id, get_records,
}
use cke.Storage.Records.Bounds.{drop}
use cke.Storage.Records.Maint.{register_record-le}

abbrev rebooted : Record
rebooted = new_record 1 "reboot" ("10.0.0.1" ∷ []) 5

-- Texts that keep the number of the record only.
abbrev codec : Codec Record
codec = record {
  marshal = λ r. if r.id == 1 then some "rebooted" else none;
  unmarshal = λ t. if str_eq t "rebooted" then some rebooted else none;
}

abbrev led : World memory
led = record { state = written empty_memory (put "leader/1" "host" ∷ []); script = [] }

abbrev registered : World memory
registered = (register_record memory codec "leader/1" rebooted led).1

register_record-le_example :
    (text : String) × (codec.marshal rebooted ≡ some text)
    × (let s =
          written led.state (put (record_key rebooted) text ∷ put "records" (format_int 2) ∷ []) in
        (memory.list registered.state "records/"
          ≡ drop (length (memory.list s "records/") - max_records) (memory.list s "records/"))
        × (length (memory.list registered.state "records/") ≤ max_records))
unfolding register_record maint_records delete_oldest delete_records write_by_leader list txn arrive
    lookup written set entry_key hex hex_digit scalar format_int decimal digit
register_record-le_example =
    register_record-le memory memory-IsLawful codec "leader/1" rebooted led registered refl refl

next_id : (next_record_id memory codec registered).0 ≡ returns 2
unfolding next_record_id get parse_int read_digits register_record maint_records delete_oldest
    delete_records write_by_leader list txn arrive lookup written set entry_key hex hex_digit scalar
    format_int decimal digit
next_id = refl

listed : (get_records memory codec 1 registered).0 ≡ returns (rebooted ∷ [])
unfolding get_records register_record maint_records delete_oldest delete_records write_by_leader
    list txn arrive lookup written set entry_key hex hex_digit scalar format_int decimal digit
listed = refl
