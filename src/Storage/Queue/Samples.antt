-- ===== src/Storage/Queue/Samples.antt =====
-- Runs of the operations on the reboot queue, in a store in memory, and the theorems at these runs.
use cke.Prelude.{
  ℕ, ◌+◌, ◌≡◌, refl, sym, ◌∙◌, ap, subst, String, Bool, true, false, ◌&&◌, List, [], ◌∷◌, Option,
  none, some, ◌==◌, map, ◌⊎◌, ◌++◌, str_eq, eq_iff, if◌then◌else◌, Bool-cases, inl, inr, arith,
}
use cke.Reboot.{RebootQueueEntry, RebootStatus, queued, draining, status_eq}
use cke.Etcd.{Write, put, World, fine, returns, fails, no_leader, arrive, get, txn, write_all}
use cke.Etcd.Memory.{Memory, memory, memory-IsLawful, empty_memory, written}
use cke.Etcd.Memory.Table.{lookup, set}
use cke.Storage.Numbers.{digit, decimal, format_int, parse_int, read_digits, scalar}
use cke.Storage.Keys.{hex_digit, hex, entry_key}
use cke.Storage.{Codec}
use cke.Storage.Queue.{Queue, reboots, register_round, register_entry}
use text.Mathlib.Text.{starts_with}
use cke.Reboot.BackOff.{int64_half}
use cke.Etcd.{KeyValue, is_some}
use cke.Etcd.Calls.{HasEnded}
use cke.Storage.Queue.{key_of, update_round, update_rounds, update_entry, delete_entry, get_entries}
use cke.Storage.Queue.Invariant.{move-IsQueue}
use cke.Storage.Queue.Entries.{Contents, get_entries-Contents}
use cke.Storage.Queue.Entries.Changes.{add-Contents}
use cke.Storage.Queue.Entries.Rewriting.{replace}
use cke.Storage.Queue.Moves.{
  IsQueue, IsEntry, Move, reboots-IsApart, add_entry, adds, passes, entry_key-prefix,
}
use cke.Storage.Queue.Register.{Shared}
use cke.Storage.Queue.Refine.{
  IsLossless, rounds-HasEnded, register_entry_refines, update_entry_refines, delete_entry_lem,
}

abbrev first : RebootQueueEntry
first = record {
  index = 0;
  node = "10.0.0.1";
  status = queued;
  last_transition_time = 0;
  drain_backoff_count = 0;
  drain_backoff_expire = 0;
}

abbrev first_again : RebootQueueEntry
first_again = record first { index = 1 }

abbrev drained : RebootQueueEntry
drained = record first { status = draining }

abbrev same_entry : RebootQueueEntry → RebootQueueEntry → Bool
same_entry r e =
    (r.index == e.index)
    && (str_eq r.node e.node
        && (status_eq r.status e.status
            && ((r.last_transition_time == e.last_transition_time)
                && ((r.drain_backoff_count == e.drain_backoff_count)
                    && (r.drain_backoff_expire == e.drain_backoff_expire)))))

same_entry-eq : (r e : RebootQueueEntry) → same_entry r e ≡ true → r ≡ e
same_entry-eq r e h =
    let a : r.index ≡ e.index = ground arith in
    let b : r.node ≡ e.node = (eq_iff r.node e.node).0 (ground arith) in
    let c : r.status ≡ e.status = status_eq-eq r.status e.status (ground arith) in
    let d : r.last_transition_time ≡ e.last_transition_time = ground arith in
    let f : r.drain_backoff_count ≡ e.drain_backoff_count = ground arith in
    let g : r.drain_backoff_expire ≡ e.drain_backoff_expire = ground arith in
    λ i. record {
      index = a i;
      node = b i;
      status = c i;
      last_transition_time = d i;
      drain_backoff_count = f i;
      drain_backoff_expire = g i;
    }
  where
    status_eq-eq : (s t : RebootStatus) → status_eq s t ≡ true → s ≡ t
    status_eq-eq s t h = ground arith

-- Texts for the three entries, and for no others.
abbrev codec : Codec RebootQueueEntry
codec = record {
  marshal = λ r.
      if same_entry r first
      then some "first"
      else if same_entry r first_again
      then some "first_again"
      else if same_entry r drained
      then some "drained"
      else none;
  unmarshal = λ t.
      if str_eq t "first"
      then some first
      else if str_eq t "first_again"
      then some first_again
      else if str_eq t "drained"
      then some drained
      else none;
}

read_sample :
    (name : String) (e r : RebootQueueEntry) (text : String)
    → codec.unmarshal name ≡ some e
    → e ≡ r
    → ◌≡◌ {A = Option String} (some name) (some text)
    → codec.unmarshal text ≡ some r
read_sample name e r text u p h =
    let same : name ≡ text = cc in subst (λ t. codec.unmarshal t ≡ some r) same (u ∙ ap some p)

codec-IsLossless : IsLossless (reboots codec)
codec-IsLossless = record {
  unmarshal-marshal = λ r text e. elim (Bool-cases (same_entry r first)) [
    | inl t ↦
        let e' : some "first" ≡ some text = rw t at e in
        read_sample "first" first r text refl (sym (same_entry-eq r first t)) e'
    | inr f ↦ elim (Bool-cases (same_entry r first_again)) [
      | inl t ↦
          let e' : some "first_again" ≡ some text = rw (f, t) at e in
          read_sample "first_again" first_again r text refl (sym (same_entry-eq r first_again t)) e'
      | inr g ↦ elim (Bool-cases (same_entry r drained)) [
        | inl t ↦
            let e' : some "drained" ≡ some text = rw (f, g, t) at e in
            read_sample "drained" drained r text refl (sym (same_entry-eq r drained t)) e'
        | inr h ↦ let e' : none ≡ some text = rw (f, g, h) at e in cc
      ]
    ]
  ];
  index-with_index = λ i r. refl;
}

abbrev queue : Queue RebootQueueEntry
queue = reboots codec

-- Another client registers the first entry between the read and the transaction.
abbrev add_first : List Write
add_first = put "reboots/data/0000000000000000" "first" ∷ put "reboots/write-index" "1" ∷ []

abbrev start : World memory
start = record {
  state = empty_memory;
  script =
      record { others = []; fault = fine } ∷ record { others = add_first ∷ []; fault = fine } ∷ [];
}

registered_second : (register_entry memory queue 3 first_again start).0 ≡ returns tt
unfolding register_entry register_round get txn arrive write_all written set lookup parse_int
    read_digits format_int decimal digit scalar entry_key hex hex_digit
registered_second = refl

-- The states: an empty store, and one with an entry and a leader.
empty_memory-IsQueue : IsQueue memory queue empty_memory
unfolding lookup
empty_memory-IsQueue = record {
  next = 0;
  revision = 0;
  bound = omega arith;
  is_next = refl;
  unused = λ i a b. refl;
  filled = λ k kv e p. cc;
}

first_entry : IsEntry memory queue "reboots/data/0000000000000000" "first"
unfolding entry_key hex hex_digit scalar
first_entry = record {
  number = 0;
  small = omega arith;
  is_key = refl;
  entry = first;
  is_entry = refl;
  is_number = refl;
}

add_first_move : Move memory queue empty_memory add_first
unfolding entry_key hex hex_digit scalar format_int decimal digit lookup
add_first_move = adds 0 0 "first" refl (omega arith) first_entry

start-Shared : Shared memory queue start.state start.script
unfolding write_all
start-Shared = (tt, ((add_first_move, tt), tt))

-- The run after which the second entry is filled_store.
abbrev final : World memory
final = (register_entry memory queue 3 first start).1

rounds-HasEnded_example :
    HasEnded (register_entry memory queue 3 first start).0
    × HasEnded (update_entry memory queue 3 first start).0
rounds-HasEnded_example = rounds-HasEnded memory queue 3 first start (omega arith)

register_entry_refines_example :
    (s : Memory) × (i : ℕ) × (rs : List RebootQueueEntry) × Contents memory queue s rs
    × ((text : String) × (codec.marshal (queue.with_index i first) ≡ some text)
        × (final.state ≡ written s (add_entry memory queue i text)))
    × (Contents memory queue final.state (rs ++ queue.with_index i first ∷ [])
        ⊎ (i + 1 ≡ int64_half))
unfolding register_entry register_round get txn arrive write_all written set lookup parse_int
    read_digits format_int decimal digit scalar entry_key hex hex_digit
register_entry_refines_example =
    register_entry_refines memory queue memory-IsLawful (reboots-IsApart codec) codec-IsLossless 3
      first start final empty_memory-IsQueue start-Shared refl

-- A store with the leader, and then with the first entry.
abbrev led : Memory
led = written empty_memory (put "leader/1" "host" ∷ [])

not_leader : (k : String) → starts_with k "reboots/data/" ≡ true → str_eq k "leader/1" ≡ false
not_leader k p = elim (Bool-cases (str_eq k "leader/1")) [
  | inl t ↦
      let p' : starts_with "leader/1" "reboots/data/" ≡ true =
        subst (λ j. starts_with j "reboots/data/" ≡ true) ((eq_iff k "leader/1").0 t) p in
      cc
  | inr f ↦ f
]

led-IsQueue : IsQueue memory queue led
led-IsQueue =
    move-IsQueue memory queue memory-IsLawful (reboots-IsApart codec) empty_memory
      (put "leader/1" "host" ∷ [])
      (passes (put "leader/1" "host" ∷ []) refl (λ k p. rw (not_leader k p) refl))
      empty_memory-IsQueue

abbrev filled_store : Memory
filled_store = written led add_first

filled_store-IsQueue : IsQueue memory queue filled_store
unfolding entry_key hex hex_digit scalar format_int decimal digit lookup written set
filled_store-IsQueue =
    move-IsQueue memory queue memory-IsLawful (reboots-IsApart codec) led add_first
      (adds 0 0 "first" refl (omega arith) first_entry) led-IsQueue

nothing : {kv : KeyValue} → ◌≡◌ {A = Option KeyValue} none (some kv) → ⊥
nothing e = cc

led-Contents : Contents memory queue led []
unfolding written set lookup
led-Contents = record {
  reads = refl;
  ordered = tt;
  members = λ r. (
    λ m. elim m [ ],
    λ h.
        let p =
          not_leader (key_of memory queue r.index) (entry_key-prefix "reboots/data/" r.index) in
        absurd (nothing (rw p at h.found)),
  );
}

filled_store-Contents : Contents memory queue filled_store (first ∷ [])
unfolding entry_key hex hex_digit scalar format_int decimal digit lookup written set
filled_store-Contents =
    add-Contents memory queue memory-IsLawful (reboots-IsApart codec) led 0 "first" first []
      led-IsQueue filled_store-IsQueue refl refl led-Contents

-- The entry is written again while the other clients do nothing.
abbrev quiet : World memory
quiet = record { state = filled_store; script = [] }

abbrev after_update : World memory
after_update = (update_entry memory queue 1 drained quiet).1

update_entry_refines_example :
    (s : Memory) × (rs : List RebootQueueEntry) × Contents memory queue s rs
    × ((text : String) × (codec.marshal drained ≡ some text)
        × (after_update.state ≡ written s (put (key_of memory queue drained.index) text ∷ [])))
    × Contents memory queue after_update.state (map (replace memory queue drained) rs)
unfolding update_entry update_rounds update_round get txn arrive write_all written set lookup
    parse_int read_digits format_int decimal digit scalar entry_key hex hex_digit
update_entry_refines_example =
    update_entry_refines memory queue memory-IsLawful (reboots-IsApart codec) codec-IsLossless 1
      drained quiet after_update (omega arith) filled_store-IsQueue tt refl

delete_entry_example :
    ((is_some (lookup "leader/1" filled_store.entries) ≡ false)
      × (delete_entry memory queue "leader/1" 0 quiet ≡ (fails no_leader, quiet)))
    ⊎ ((is_some (lookup "leader/1" filled_store.entries) ≡ true)
        × ((delete_entry memory queue "leader/1" 0 quiet).0 ≡ returns tt)
        × Contents memory queue (delete_entry memory queue "leader/1" 0 quiet).1.state [])
unfolding arrive
delete_entry_example =
    delete_entry_lem memory queue memory-IsLawful (reboots-IsApart codec) codec-IsLossless
      "leader/1" 0 quiet (first ∷ []) (omega arith) refl filled_store-IsQueue filled_store-Contents

get_entries-Contents_example :
    (rs : List RebootQueueEntry) × Contents memory queue filled_store rs
    × (get_entries memory queue quiet ≡ (returns rs, quiet))
unfolding arrive
get_entries-Contents_example =
    get_entries-Contents memory queue memory-IsLawful quiet filled_store-IsQueue
