-- ===== src/Reboot/Commands/Drain.antt =====
-- The drain of one node, which is what rebootOps asks for.
use cke.Prelude.{◌≡◌, Bool, true, false, ◌&&◌, [], ◌∷◌, some, if◌then◌else◌, Bool-cases, inl, inr}
use cke.Cluster.{RebootConfig}
use cke.Reboot.{RebootQueueEntry, cancelled, status_eq}
use cke.Reboot.BackOff.{drain_back_off, back_off_entry}
use cke.Reboot.Commands.{
  Answers, Ran, done, write, after_outcome, back_off, draining_entry, cordon_all, evict_all,
  drain_start,
}

module _ (config : RebootConfig) (x : Answers) where
  -- Whether the node is cordoned, and its Pods can be and are evicted.
  abbrev pub drains : RebootQueueEntry → Bool
  drains e = x.cordons e.node && (x.eviction_dry_run e.node && x.evicts e.node)

  abbrev pub retreated_entry : RebootQueueEntry → RebootQueueEntry
  retreated_entry e =
      back_off_entry x.later (x.random (draining_entry config x e)) (draining_entry config x e)

  back_off_lem :
      (e s : RebootQueueEntry)
      → ((f : RebootQueueEntry) → x.stores f ≡ true)
      → x.stored e ≡ some s
      → status_eq s.status cancelled ≡ false
      → (next : Ran) → back_off config x e next ≡ write (back_off_entry x.later (x.random e) e) next
  unfolding back_off after_outcome drain_back_off
  back_off_lem e s stores found kept next =
      simp (found, kept, stores (back_off_entry x.later (x.random e) e))

  -- Where the Kubernetes API answers, the storage takes every entry and the entry is not cancelled
  -- there, the drain of one node stores its entry as draining, and then as queued again with its
  -- back-off if and only if the cordoning, the dry run or the eviction fails. The node is reported
  -- as failed in this case, and no error is returned in any.
  pub drain_start_lem :
      (e s : RebootQueueEntry)
      → x.kube_client ≡ true
      → x.protected_namespaces ≡ true
      → ((f : RebootQueueEntry) → x.stores f ≡ true)
      → x.stored (draining_entry config x e) ≡ some s
      → status_eq s.status cancelled ≡ false
      → drain_start config x (e ∷ []) ≡ record done {
        written = draining_entry config x e ∷ (if drains e then [] else retreated_entry e ∷ []);
        failed = if drains e then [] else e.node ∷ [];
      }
  unfolding drain_start cordon_all evict_all
  drain_start_lem e s client namespaces stores found kept =
      let d = stores (draining_entry config x e) in
      let back = back_off_lem (draining_entry config x e) s stores found kept in
      elim (Bool-cases (x.cordons e.node)) [
        | inr a ↦ simp (client, namespaces, d, a, back)
        | inl a ↦ elim (Bool-cases (x.eviction_dry_run e.node)) [
          | inr b ↦ simp (client, namespaces, d, a, b, back)
          | inl b ↦ elim (Bool-cases (x.evicts e.node)) [
            | inr k ↦ simp (client, namespaces, d, a, b, k, back)
            | inl k ↦ simp (client, namespaces, d, a, b, k)
          ]
        ]
      ]
