-- ===== src/Sabakan/Repairer/Requests.antt =====
-- Which repairs are requested.
use cke.Prelude.{
  ◌+◌, ◌≤◌, String, ◌≡◌, ◌⊎◌, inl, inr, refl, Bool, true, false, List, [], ◌∷◌, All, Memᴰ, arith,
  length, ltb, Bool-cases,
}
use cke.Cluster.{Constraints}
use cke.Reboot.{RebootQueueEntry}
use cke.Repair.{RepairQueueEntry, queued, waiting, new_repair_queue_entry}
use cke.Sabakan.{Machine}
use cke.Sabakan.Repairer.{
  lower_state, recent, is_rebooting, just_unreachable, accepted_at, accepted, new_machines, request,
  requests, repairer,
}

module _ (repair_entries : List RepairQueueEntry) (reboot_entries : List RebootQueueEntry)
    (has_status : String → Bool) (constraints : Constraints) where
  -- A request is a new entry for the first address of a machine of the list, for the operation that
  -- its state names. The queue has no entry of that address. A machine that became unreachable only
  -- just now is of a node of the cluster that is not being rebooted.
  pub record IsRequest (machines : List Machine) (e : RepairQueueEntry) : Type 0 where
    pub machine : Machine
    pub rest : List String
    pub listed : Memᴰ machine machines
    pub first : machine.ipv4 ≡ e.address ∷ rest
    pub operation : e.operation ≡ lower_state machine.state
    pub fresh : (e.status ≡ queued) × (e.step ≡ 0) × (e.step_status ≡ waiting)
    pub unlisted : recent repair_entries reboot_entries has_status constraints e.address ≡ false
    pub settled :
        (just_unreachable repair_entries reboot_entries has_status constraints machine ≡ false)
        ⊎ ((is_rebooting repair_entries reboot_entries has_status constraints e.address ≡ false)
            × (has_status e.address ≡ true))

  IsRequest-more :
      (m : Machine) (ms : List Machine) (es : List RepairQueueEntry)
      → All (IsRequest ms) es
      → All (IsRequest (m ∷ ms)) es
  IsRequest-more m ms [] h = tt
  IsRequest-more m ms (e ∷ es) (r, h) = (
    record {
      machine = r.machine;
      rest = r.rest;
      listed = Memᴰ.tail r.listed;
      first = r.first;
      operation = r.operation;
      fresh = r.fresh;
      unlisted = r.unlisted;
      settled = r.settled;
    },
    IsRequest-more m ms es h,
  )

  one-IsRequest :
      (m : Machine) (ms : List Machine) (ips : List String)
      → m.ipv4 ≡ ips
      → accepted repair_entries reboot_entries has_status constraints m ips ≡ true
      → IsRequest (m ∷ ms) (request repair_entries reboot_entries has_status constraints m)
  unfolding accepted accepted_at request new_repair_queue_entry
  one-IsRequest m ms [] e h = ground arith
  one-IsRequest m ms (a ∷ rest) e h = record {
    machine = m;
    rest = rest;
    listed = Memᴰ.head refl;
    first = rw e refl;
    operation = refl;
    fresh = (refl, refl, refl);
    unlisted = rw e (ground arith);
    settled = settled_lem;
  }
    where
      settled_lem :
          (just_unreachable repair_entries reboot_entries has_status constraints m ≡ false)
          ⊎ ((is_rebooting repair_entries reboot_entries has_status constraints
                  (request repair_entries reboot_entries has_status constraints m).address
                ≡ false)
              × (has_status (request repair_entries reboot_entries has_status constraints m).address
                  ≡ true))
      settled_lem =
          elim (Bool-cases
            (just_unreachable repair_entries reboot_entries has_status constraints m)) [
              | inr f ↦ inl f
              | inl t ↦ inr (rw e (ground arith))
            ]

  requests-IsRequest :
      (ms : List Machine)
      → All (IsRequest ms) (
          requests repair_entries reboot_entries has_status constraints
            (new_machines repair_entries reboot_entries has_status constraints ms))
  unfolding requests new_machines
  requests-IsRequest [] = tt
  requests-IsRequest (m ∷ ms) =
      let more = IsRequest-more m ms _ (requests-IsRequest ms) in
      elim (Bool-cases (accepted repair_entries reboot_entries has_status constraints m m.ipv4)) [
        | inl t ↦ simp t (one-IsRequest m ms m.ipv4 refl t, more)
        | inr f ↦ simp f more
      ]

  length-requests :
      (ms : List Machine)
      → length (requests repair_entries reboot_entries has_status constraints ms) ≡ length ms
  unfolding requests
  length-requests [] = refl
  length-requests (m ∷ ms) = omega (arith, length-requests ms)

  -- Repairs are requested only while the entries of the repair queue and the requests together are
  -- at most the configured maximum. Each request is a new entry for the first address of a machine
  -- of the list, for the operation that its state names, and the queue has no entry of that address.
  -- A machine that became unreachable just now is of a node of the cluster that is not rebooting.
  pub repairer-IsRequest :
      (machines : List Machine)
      → ((repairer repair_entries reboot_entries has_status constraints machines ≡ [])
          ⊎ (length repair_entries
                + length (repairer repair_entries reboot_entries has_status constraints machines)
              ≤ constraints.maximum_repairs))
        × All
            (IsRequest machines)
            (repairer repair_entries reboot_entries has_status constraints machines)
  unfolding repairer
  repairer-IsRequest machines =
      let new = new_machines repair_entries reboot_entries has_status constraints machines in
      let count = length-requests new in
      elim (Bool-cases (ltb constraints.maximum_repairs (length repair_entries + length new))) [
        | inl many ↦ rw many (inl refl, tt)
        | inr few ↦ rw few (inr (rw count (ground arith)), requests-IsRequest machines)
      ]
