-- ===== src/Reboot/BackOff.antt =====
-- drainBackOff of op/reboot.go. An int64 is its bit pattern, a number below 2 ^ 64.
-- The stored entry is what GetRebootsEntry finds (`none` for an error), `r` is the number that
-- rand.Int63n(drainBackOffBaseSeconds) returns, and `now` is the time cut to whole seconds.
pub mod Delay
mod Samples
use cke.Prelude.{ℕ, ◌+◌, ◌-◌, ◌*◌, ◌%◌, ◌^◌, Option, none, some, ltb, ◌&&◌, if◌then◌else◌}
use cke.Cluster.{Time, second}
use cke.Reboot.{RebootStatus, queued, cancelled, RebootQueueEntry, status_eq}

abbrev pub drain_back_off_base_seconds : ℕ
drain_back_off_base_seconds = 300

abbrev pub drain_back_off_max_seconds : ℕ
drain_back_off_max_seconds = 1200

abbrev pub int64_mod : ℕ
int64_mod = 0x1_0000_0000_0000_0000

abbrev pub int64_half : ℕ
int64_half = 0x8000_0000_0000_0000

-- `(1 << (count - 1)) * base`, cut at the maximum. A pattern from the half on is negative, so it
-- passes the comparison.
back_off_seconds : ℕ → ℕ
back_off_seconds count =
    let seconds = 2 ^ (count - 1) * drain_back_off_base_seconds % int64_mod in
    if ltb seconds int64_half && ltb drain_back_off_max_seconds seconds
    then drain_back_off_max_seconds
    else seconds

-- time.Time.Add of a duration: a negative one goes back.
unfoldable pub add_duration : Time → ℕ → Time
add_duration t d = if ltb d int64_half then t + d else t - (int64_mod - d)

unfoldable pub back_off_expire : Time → ℕ → ℕ → Time
unfolding back_off_seconds add_duration
back_off_expire now count r =
    add_duration now ((back_off_seconds count + r) % int64_mod * second % int64_mod)

pub data Outcome : Type 0 where
  storage_error : Outcome
  left_cancelled : Outcome
  update : RebootQueueEntry → Outcome

unfoldable pub back_off_entry : Time → ℕ → RebootQueueEntry → RebootQueueEntry
unfolding back_off_expire
back_off_entry now r entry = record entry {
  status = queued;
  last_transition_time = now;
  drain_backoff_count = entry.drain_backoff_count + 1;
  drain_backoff_expire = back_off_expire now (entry.drain_backoff_count + 1) r;
}

unfoldable pub drain_back_off : Option RebootQueueEntry → Time → ℕ → RebootQueueEntry → Outcome
unfolding back_off_entry
drain_back_off none now r entry = storage_error
drain_back_off (some stored) now r entry =
    if status_eq stored.status cancelled
    then left_cancelled
    else update (back_off_entry now r entry)
