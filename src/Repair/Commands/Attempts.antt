-- ===== src/Repair/Commands/Attempts.antt =====
-- The attempts of a repair command, and the back-off of a drain for a repair.
use cke.Prelude.{
  inl, inr, Bool-cases, any, if◌then◌else◌, ℕ, zero, suc, ◌+◌, ◌*◌, ◌%◌, ◌<◌, ◌≤◌, String, ◌≡◌,
  refl, Bool, true, false, List, [], ◌∷◌, ◌++◌, Option, arith, or_default,
}
use cke.Cluster.{Cluster, RepairStep, default_repair_command_timeout_seconds, second}
use cke.Repair.{RepairQueueEntry, failed}
use cke.Reboot.BackOff.{add_duration, int64_mod}
use cke.Repair.Ops.{repair_execute, repair_drain_timeout}
use cke.Repair.Commands.{
  Answers, run, watching_entry, run_attempts, executes, finish, final_status, store, execute,
  repair_drain_back_off, back_off_entry,
}

-- The n numbers from i on.
abbrev pub numbers : ℕ → ℕ → List ℕ
numbers zero i = []
numbers (suc n) i = i ∷ numbers n (i + 1)

small_lem : (a : ℕ) → a < int64_mod → a % int64_mod ≡ a
small_lem a lt = omega arith

duration_lem :
    (t s : ℕ)
    → s < 9_200_000_000
    → add_duration t (s % int64_mod * second % int64_mod) ≡ t + s * second
unfolding add_duration
duration_lem t s lt =
    rw (small_lem s (omega arith), small_lem (s * second) (omega arith)) (ground arith)

module _ (c : Cluster) (x : Answers) where
  run_attempts-any :
      (timeout : ℕ) (command : List String) (interval : Option ℕ) (n i : ℕ)
      → ((j : ℕ) → x.interrupted j ≡ false)
      → run_attempts c x timeout command interval n i ≡ any (x.runs timeout command) (numbers n i)
  unfolding run_attempts
  run_attempts-any timeout command interval zero i quiet = refl
  run_attempts-any timeout command interval (suc n) i quiet =
      ground (arith, quiet i, run_attempts-any timeout command interval n (i + 1) quiet)

  -- The attempts of the command of a step that runs on the machine of an entry.
  abbrev pub attempt : RepairQueueEntry → RepairStep → ℕ → Bool
  attempt entry step m =
      x.runs (or_default step.command_timeout_seconds default_repair_command_timeout_seconds)
        (step.repair_command ++ entry.address ∷ []) m

  abbrev pub failed_entry : RepairQueueEntry → RepairQueueEntry
  failed_entry entry = record (watching_entry c x entry) {
    status = failed;
    last_transition_time = x.later;
  }

  abbrev pub retries : RepairStep → ℕ
  retries step = or_default step.command_retries 0

  -- Where the storage takes every entry and no pause is interrupted, a repair command stores its
  -- entry as watching before it runs, and stores it as failed if and only if the first attempt and
  -- all the configured retries fail.
  pub repair_execute_lem :
      (entry : RepairQueueEntry) (step : RepairStep)
      → ((e : RepairQueueEntry) → x.stores e ≡ true)
      → ((j : ℕ) → x.interrupted j ≡ false)
      → (run c x (repair_execute entry step)).written
        ≡ watching_entry c x entry
          ∷ (if any (attempt entry step) (numbers (retries step + 1) 0)
              then []
              else failed_entry entry ∷ [])
  unfolding run execute executes finish final_status store
  repair_execute_lem entry step stores quiet =
      let tried =
        run_attempts-any
          (or_default step.command_timeout_seconds default_repair_command_timeout_seconds)
          (step.repair_command ++ entry.address ∷ []) step.command_interval (retries step + 1) 0
          quiet in
      elim (Bool-cases (any (attempt entry step) (numbers (retries step + 1) 0))) [
        | inl good ↦ rw (stores (watching_entry c x entry), tried, good) refl
        | inr bad ↦
            rw (stores (watching_entry c x entry), tried, bad, stores (failed_entry entry)) refl
      ]

  -- Where the storage takes the entry, the random number is below its bound, and the drain has
  -- failed less than thirty million times, a drain that is given up waits for at least 300 seconds,
  -- and for less than 300 seconds times one more than the number of its failures.
  pub repair_drain_timeout_lem :
      (entry : RepairQueueEntry)
      → ((e : RepairQueueEntry) → x.stores e ≡ true)
      → x.random (300 * (entry.drain_backoff_count + 1)) < 300 * (entry.drain_backoff_count + 1)
      → entry.drain_backoff_count < 30_000_000
      → (w : RepairQueueEntry) × ((run c x (repair_drain_timeout entry)).written ≡ w ∷ [])
        × (w.drain_backoff_count ≡ entry.drain_backoff_count + 1)
        × (x.later + 300 * second ≤ w.drain_backoff_expire)
        × (w.drain_backoff_expire < x.later + 300 * (entry.drain_backoff_count + 2) * second)
  unfolding run repair_drain_back_off back_off_entry store add_duration
  repair_drain_timeout_lem entry stores r few =
      let at =
        duration_lem x.later (300 + x.random (300 * (entry.drain_backoff_count + 1)))
          (omega arith) in
      (
        back_off_entry c x entry,
        rw (stores (back_off_entry c x entry)) refl,
        refl,
        rw at (omega arith),
        rw at (omega arith),
      )
