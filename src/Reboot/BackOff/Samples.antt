-- ===== src/Reboot/BackOff/Samples.antt =====
-- A node whose drain failed.
use cke.Prelude.{ℕ, ◌≡◌, refl, some, arith}
use cke.Reboot.{queued, draining, RebootQueueEntry}
use cke.Reboot.BackOff.{drain_back_off, update}
use cke.Reboot.BackOff.Delay.{drain_back_off-doubles, drain_back_off-overflows}

abbrev failed_times : ℕ → RebootQueueEntry
failed_times count = record {
  index = 3;
  node = "10.0.0.2";
  status = draining;
  last_transition_time = 0;
  drain_backoff_count = count;
  drain_backoff_expire = 0;
}

abbrev again : ℕ → ℕ → ℕ → RebootQueueEntry
again count now expire = record {
  index = 3;
  node = "10.0.0.2";
  status = queued;
  last_transition_time = now;
  drain_backoff_count = count;
  drain_backoff_expire = expire;
}

second_failure :
    drain_back_off (some (failed_times 1)) 1_000_000_000 7 (failed_times 1)
    ≡ update (again 2 1_000_000_000 608_000_000_000)
unfolding drain_back_off
second_failure = refl

drain_back_off-doubles_example :
    drain_back_off (some (failed_times 3)) 0 7 (failed_times 3)
    ≡ update (again 4 0 1_207_000_000_000)
drain_back_off-doubles_example =
    drain_back_off-doubles (failed_times 3) (failed_times 3) 0 7 refl (omega arith) (omega arith)

drain_back_off-overflows_example :
    drain_back_off (some (failed_times 65)) 0 7 (failed_times 65)
    ≡ update (again 66 0 7_000_000_000)
drain_back_off-overflows_example =
    drain_back_off-overflows (failed_times 65) (failed_times 65) 0 7 3 refl refl (omega arith)
