-- ===== src/Reboot/Commands/Samples.antt =====
-- The drain of a node whose eviction fails.
use cke.Prelude.{◌≡◌, refl, true, false, [], ◌∷◌, some}
use cke.Samples.{no_reboot}
use cke.Reboot.{RebootQueueEntry, queued, draining, rebooting}
use cke.Reboot.BackOff.{drain_back_off, back_off_entry, back_off_expire}
use cke.Reboot.Commands.{Answers, done, draining_entry, drain_start, reboot_all}
use cke.Reboot.Commands.Drain.{retreated_entry, drain_start_lem}

abbrev entry : RebootQueueEntry
entry = record {
  index = 2;
  node = "10.0.0.4";
  status = queued;
  last_transition_time = 0;
  drain_backoff_count = 0;
  drain_backoff_expire = 0;
}

abbrev answers : Answers
answers = record {
  stores = λ _. true;
  deletes = λ _. true;
  stored = λ e. some e;
  kube_client = true;
  protected_namespaces = true;
  cordons = λ _. true;
  eviction_dry_run = λ _. true;
  evicts = λ _. false;
  deletes_daemon_set_pods = λ _. true;
  runs = λ _ _ _. true;
  interrupted = λ _ _. false;
  random = λ _. 7;
  now = 61_000_000_000;
  later = 62_000_000_000;
}

drain_start_example : drain_start no_reboot answers (entry ∷ []) ≡ record done {
  written = draining_entry no_reboot answers entry ∷ retreated_entry no_reboot answers entry ∷ [];
  failed = "10.0.0.4" ∷ [];
}
drain_start_example =
    drain_start_lem no_reboot answers entry (draining_entry no_reboot answers entry) refl refl
      (λ _. refl) refl refl

retreat_run : drain_start no_reboot answers (entry ∷ []) ≡ record done {
  written =
      record entry { status = draining; last_transition_time = 61_000_000_000 }
      ∷ record entry {
        last_transition_time = 62_000_000_000;
        drain_backoff_count = 1;
        drain_backoff_expire = 369_000_000_000;
      }
      ∷ [];
  failed = "10.0.0.4" ∷ [];
}
unfolding drain_start drain_back_off back_off_entry back_off_expire
retreat_run = refl

boot_run : reboot_all no_reboot answers (entry ∷ []) ≡ record done {
  written = record entry { status = rebooting; last_transition_time = 61_000_000_000 } ∷ [];
}
unfolding reboot_all
boot_run = refl
