-- ===== src/Reboot/Commands/Stored.antt =====
-- What the commands store, by the life of an entry of the reboot queue.
use cke.Prelude.{
  ◌∙◌, ℕ, ◌+◌, String, ◌≡◌, refl, Bool, true, false, not, ◌&&◌, List, [], ◌∷◌, map, keep_if, Option,
  none, some, All, arith, or_default, if◌then◌else◌,
}
use cke.Cluster.{RebootConfig, Time}
use cke.Reboot.{queued, draining, rebooting, RebootQueueEntry, status_eq}
use cke.Reboot.BackOff.{drain_back_off, back_off_entry}
use cke.Reboot.Commands.{
  Answers, Ran, given_up, write, report, write_if, after_outcome, back_off, draining_entry,
  prepared, cordon_all, evict_all, drain_start, rebooting_entry, reboot_node, reboot_all,
  drain_timeout, run_attempts,
}

pub data Move : RebootQueueEntry → RebootQueueEntry → Type 0 where
  drain :
      {e : RebootQueueEntry} {t : Time}
      → status_eq e.status queued ≡ true
      → Move e (record e { status = draining; last_transition_time = t })
  boot :
      {e : RebootQueueEntry} {t : Time}
      → status_eq e.status draining ≡ true
      → Move e (record e { status = rebooting; last_transition_time = t })
  retreat :
      {e : RebootQueueEntry} {t expire : Time}
      → status_eq e.status draining ≡ true
      → Move e (record e {
        status = queued;
        last_transition_time = t;
        drain_backoff_count = e.drain_backoff_count + 1;
        drain_backoff_expire = expire;
      })

-- Several moves.
pub data Course : RebootQueueEntry → RebootQueueEntry → Type 0 where
  here : {e : RebootQueueEntry} → Course e e
  further : {e f g : RebootQueueEntry} → Course e f → Move f g → Course e g

abbrev pub identity : RebootQueueEntry → ℕ × String
identity e = (e.index, e.node)

identity-Move : {e f : RebootQueueEntry} → Move e f → identity f ≡ identity e
identity-Move (drain _) = refl
identity-Move (boot _) = refl
identity-Move (retreat _) = refl

pub identity-Course : {e f : RebootQueueEntry} → Course e f → identity f ≡ identity e
identity-Course here = refl
identity-Course (further course move) = identity-Move move ∙ identity-Course course

module _ (config : RebootConfig) (x : Answers) (P : RebootQueueEntry → Type 0) where
  abbrev Kept : Ran → Type 0
  Kept r = All P r.written

  abbrev retreated : RebootQueueEntry → RebootQueueEntry
  retreated e = back_off_entry x.later (x.random e) e

  after_outcome-Kept :
      (o : Option RebootQueueEntry) (e : RebootQueueEntry) (next : Ran)
      → P (retreated e)
      → Kept next
      → Kept (after_outcome config x (drain_back_off o x.later (x.random e) e) next)
  unfolding after_outcome drain_back_off
  after_outcome-Kept none e next p k = tt
  after_outcome-Kept (some s) e next p k = ground arith

  back_off-Kept :
      (e : RebootQueueEntry) (next : Ran)
      → P (retreated e)
      → Kept next
      → Kept (back_off config x e next)
  unfolding back_off
  back_off-Kept e next p k = after_outcome-Kept (x.stored e) e next p k

  write_if-Kept :
      (b : Bool) (e : RebootQueueEntry) (next : Ran)
      → P e
      → Kept next
      → Kept (write_if config x b e next)
  write_if-Kept true e next p k = (p, k)
  write_if-Kept false e next p k = k

  cordon_all-Kept :
      (es : List RebootQueueEntry) (next : Ran)
      → All (λ e. P (draining_entry config x e) × P (retreated (draining_entry config x e))) es
      → Kept next
      → Kept (cordon_all config x es next)
  unfolding cordon_all
  cordon_all-Kept [] next h k = k
  cordon_all-Kept (e ∷ es) next h k =
      let rest = cordon_all-Kept es next h.1 k in
      write_if-Kept (x.stores (draining_entry config x e)) _ _ h.0.0 (
        if_lem (prepared config x e) _ _ rest
          (back_off-Kept (draining_entry config x e) _ h.0.1 rest))
    where
      if_lem : (b : Bool) (r s : Ran) → Kept r → Kept s → Kept (if b then r else report e.node s)
      if_lem true r s k l = k
      if_lem false r s k l = l

  evict_all-Kept :
      (es : List RebootQueueEntry) → All (λ e. P (retreated e)) es → Kept (evict_all config x es)
  unfolding evict_all
  evict_all-Kept [] h = tt
  evict_all-Kept (e ∷ es) h =
      let rest = evict_all-Kept es h.1 in
      ground (arith, back_off-Kept e (evict_all config x es) h.0 rest)

  pub drain_timeout-Kept :
      (es : List RebootQueueEntry)
      → All (λ e. P (retreated e)) es
      → Kept (drain_timeout config x es)
  unfolding drain_timeout
  drain_timeout-Kept [] h = tt
  drain_timeout-Kept (e ∷ es) h = back_off-Kept e _ h.0 (drain_timeout-Kept es h.1)

  pub reboot_all-Kept :
      (es : List RebootQueueEntry)
      → All (λ e. P (rebooting_entry config x e)) es
      → Kept (reboot_all config x es)
  unfolding reboot_all reboot_node
  reboot_all-Kept [] h = tt
  reboot_all-Kept (e ∷ es) h =
      let rest = reboot_all-Kept es h.1 in
      if_lem (not (x.stores (rebooting_entry config x e)))
        (run_attempts config x e.node (or_default config.command_retries 0 + 1) 0)
        (reboot_all config x es) h.0 rest
    where
      if_lem :
          (a b : Bool) (r : Ran)
          → P (rebooting_entry config x e)
          → Kept r
          → Kept (
              if a
              then record r { error = true }
              else write (rebooting_entry config x e) (if b then r else report e.node r))
      if_lem true b r p k = k
      if_lem false true r p k = (p, k)
      if_lem false false r p k = (p, k)

  kept_prepared :
      (es : List RebootQueueEntry)
      → All (λ e. P (retreated (draining_entry config x e))) es
      → All (λ e. P (retreated e)) (map (draining_entry config x) (keep_if (prepared config x) es))
  kept_prepared [] h = tt
  kept_prepared (e ∷ es) h = ground (arith, kept_prepared es h.1)

  pub drain_start-Kept :
      (es : List RebootQueueEntry)
      → All (λ e. P (draining_entry config x e) × P (retreated (draining_entry config x e))) es
      → Kept (drain_start config x es)
  unfolding drain_start
  drain_start-Kept es h =
      unless_lem (not (x.kube_client && x.protected_namespaces)) _
        (cordon_all-Kept es _ h (evict_all-Kept _ (kept_prepared es (seconds es h))))
    where
      unless_lem : (b : Bool) (r : Ran) → Kept r → Kept (if b then given_up else r)
      unless_lem true r k = tt
      unless_lem false r k = k

      seconds :
          (fs : List RebootQueueEntry)
          → All (λ e. P (draining_entry config x e) × P (retreated (draining_entry config x e))) fs
          → All (λ e. P (retreated (draining_entry config x e))) fs
      seconds [] k = tt
      seconds (f ∷ fs) k = (k.0.1, seconds fs k.1)
