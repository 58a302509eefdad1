-- ===== src/Reboot/Dedup.antt =====
-- DedupRebootQueueEntries against lookups of the first entry of a node.
use cke.Prelude.{
  ◌≤◌, String, ◌≡◌, Bool, List, [], ◌∷◌, Option, none, some, any, count_if, if◌then◌else◌, str_eq,
  eq_iff, arith,
}
use cke.Reboot.{RebootQueueEntry, dedup_from, dedup_reboot_queue_entries}

-- The first entry of a node: the one that a loop over the queue meets.
abbrev pub first_entry : String → List RebootQueueEntry → Option RebootQueueEntry
first_entry node [] = none
first_entry node (e ∷ es) = if str_eq e.node node then some e else first_entry node es

abbrev of_node : String → RebootQueueEntry → Bool
of_node node e = str_eq e.node node

any_eq : (a b : String) (nodes : List String) → a ≡ b → any (str_eq a) nodes ≡ any (str_eq b) nodes
any_eq a b nodes e = rw e

first_entry-dedup_from :
    (node : String) (nodes : List String) (es : List RebootQueueEntry)
    → first_entry node (dedup_from nodes es)
      ≡ (if any (str_eq node) nodes then none else first_entry node es)
unfolding dedup_from
first_entry-dedup_from node nodes [] = ground arith
first_entry-dedup_from node nodes (e ∷ es) = ground (
  arith,
  first_entry-dedup_from node nodes es,
  first_entry-dedup_from node (e.node ∷ nodes) es,
  eq_iff e.node node,
  eq_iff node e.node,
  any_eq e.node node nodes,
)

count-dedup_from :
    (node : String) (nodes : List String) (es : List RebootQueueEntry)
    → count_if (of_node node) (dedup_from nodes es) ≤ (if any (str_eq node) nodes then 0 else 1)
unfolding dedup_from
count-dedup_from node nodes [] = ground arith
count-dedup_from node nodes (e ∷ es) = ground (
  arith,
  count-dedup_from node nodes es,
  count-dedup_from node (e.node ∷ nodes) es,
  eq_iff e.node node,
  eq_iff node e.node,
  any_eq e.node node nodes,
)

-- For every node, the queue without duplicates has the same first entry as the queue, and at most
-- one entry.
pub dedup_reboot_queue_entries_lem :
    (node : String) (entries : List RebootQueueEntry)
    → (first_entry node (dedup_reboot_queue_entries entries) ≡ first_entry node entries)
      × (count_if (of_node node) (dedup_reboot_queue_entries entries) ≤ 1)
unfolding dedup_reboot_queue_entries
dedup_reboot_queue_entries_lem node entries =
    (first_entry-dedup_from node [] entries, count-dedup_from node [] entries)
