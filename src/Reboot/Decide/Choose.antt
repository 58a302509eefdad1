-- ===== src/Reboot/Decide/Choose.antt =====
-- What ChooseRebootCandidates may pick: the loop against a description by filters, and the rules.
use mathlib.Core.List.Memᴰ.{eq_of_singleton}
use cke.Prelude.{
  ℕ, ◌≤◌, ◌<◌, String, ◌≡◌, refl, sym, Bool, true, false, not, ◌&&◌, ◌||◌, List, [], ◌∷◌, ◌++◌,
  Option, none, some, ltb, length, take, keep_if, any, if◌then◌else◌, append-nil, append_assoc,
  Memᴰ, arith, mem-keep_if, subst, ◌⊎◌, inl, inr, ltb→lt, All, All-mem,
}
use cke.Cluster.{Cluster, Time}
use cke.Reboot.{RebootStatus, queued, draining, rebooting, RebootQueueEntry, cluster_member}
use cke.Reboot.Decide.{
  Scan, scan, scan_entry, empty_scan, max_concurrent_reboots, choose_reboot_candidates,
}

abbrev pub is_in_progress : RebootStatus → Bool
is_in_progress draining = true
is_in_progress rebooting = true
is_in_progress _ = false

abbrev is_queued : RebootStatus → Bool
is_queued queued = true
is_queued _ = false

one_if :
    (b : Bool) {w e : RebootQueueEntry} → Memᴰ e (if b then w ∷ [] else []) → (b ≡ true) × (e ≡ w)
one_if true m = (refl, eq_of_singleton m)
one_if false m = elim m [ ]

module _ (api_servers : String → Bool) (c : Cluster) (now : Time) where
  abbrev pub api_in_progress : RebootQueueEntry → Bool
  api_in_progress e = cluster_member c e && is_in_progress e.status && api_servers e.node

  abbrev pub worker_in_progress : RebootQueueEntry → Bool
  worker_in_progress e = cluster_member c e && is_in_progress e.status && not (api_servers e.node)

  abbrev pub is_drainable : RebootQueueEntry → Bool
  is_drainable e = cluster_member c e && is_queued e.status && not (ltb now e.drain_backoff_expire)

  abbrev pub api_drainable : RebootQueueEntry → Bool
  api_drainable e = is_drainable e && api_servers e.node

  abbrev pub worker_drainable : RebootQueueEntry → Bool
  worker_drainable e = is_drainable e && not (api_servers e.node)

  scan-worker_in_progress :
      (es : List RebootQueueEntry) (s : Scan)
      → (scan api_servers c now es s).worker_in_progress
        ≡ s.worker_in_progress ++ keep_if worker_in_progress es
  unfolding scan
  scan-worker_in_progress [] s = sym (append-nil _)
  scan-worker_in_progress (e ∷ es) s = ground (
    arith,
    scan-worker_in_progress es (scan_entry api_servers c now e s),
    append_assoc s.worker_in_progress (e ∷ []) (keep_if worker_in_progress es),
  )

  scan-worker_drainable :
      (es : List RebootQueueEntry) (s : Scan)
      → (scan api_servers c now es s).worker_drainable
        ≡ s.worker_drainable ++ keep_if worker_drainable es
  unfolding scan
  scan-worker_drainable [] s = sym (append-nil _)
  scan-worker_drainable (e ∷ es) s = ground (
    arith,
    scan-worker_drainable es (scan_entry api_servers c now e s),
    append_assoc s.worker_drainable (e ∷ []) (keep_if worker_drainable es),
  )

  scan-api_in_progress :
      (es : List RebootQueueEntry) (s : Scan)
      → (scan api_servers c now es s).api_server_in_progress
        ≡ (s.api_server_in_progress || any api_in_progress es)
  unfolding scan
  scan-api_in_progress [] s = ground arith
  scan-api_in_progress (e ∷ es) s =
      ground (arith, scan-api_in_progress es (scan_entry api_servers c now e s))

  abbrev first_from : Option RebootQueueEntry → List RebootQueueEntry → Option RebootQueueEntry
  first_from (some e) es = some e
  first_from none [] = none
  first_from none (e ∷ es) = some e

  scan-api_drainable :
      (es : List RebootQueueEntry) (s : Scan)
      → (scan api_servers c now es s).api_server_drainable
        ≡ first_from s.api_server_drainable (keep_if api_drainable es)
  unfolding scan
  scan-api_drainable [] s = ground arith
  scan-api_drainable (e ∷ es) s =
      ground (arith, scan-api_drainable es (scan_entry api_servers c now e s))

  -- The choice in terms of the four classes of entries.
  abbrev pub choice :
      ℕ
      → Bool
      → List RebootQueueEntry
      → List RebootQueueEntry
      → List RebootQueueEntry
      → List RebootQueueEntry
  choice most true doing waiting apis = []
  choice most false [] [] apis = take 1 apis
  choice most false doing [] apis = []
  choice most false doing (e ∷ waiting) apis = if ltb (length doing) most then e ∷ [] else []

  -- The loop over the queue and the rules after it are a choice among four classes of the entries
  -- of cluster members: API servers in progress, workers in progress, and the queued workers and
  -- API servers whose back-off has expired. Nothing is chosen while an API server is in progress.
  -- With no worker in progress or waiting, the first waiting API server is. Otherwise it is the
  -- first waiting worker, if fewer workers are in progress than the configured maximum.
  pub choose_lem :
      (entries : List RebootQueueEntry)
      → choose_reboot_candidates c api_servers now entries
        ≡ choice
            (max_concurrent_reboots c)
            (any api_in_progress entries)
            (keep_if worker_in_progress entries)
            (keep_if worker_drainable entries)
            (keep_if api_drainable entries)
  unfolding choose_reboot_candidates
  choose_lem entries =
      rw
        (
          scan-worker_in_progress entries empty_scan,
          scan-worker_drainable entries empty_scan,
          scan-api_in_progress entries empty_scan,
          scan-api_drainable entries empty_scan,
        )
        (ground arith)

  -- Where the entry is an API server, no worker is in progress or waiting; where it is a worker,
  -- the limit leaves room for it.
  abbrev pub RoleRule : RebootQueueEntry → List RebootQueueEntry → Type 0
  RoleRule e entries =
      (api_servers e.node ≡ true)
        × (keep_if worker_in_progress entries ≡ [])
        × (keep_if worker_drainable entries ≡ [])
      ⊎ ((api_servers e.node ≡ false)
          × (length (keep_if worker_in_progress entries) < max_concurrent_reboots c))

  pub record IsAllowed (e : RebootQueueEntry) (entries : List RebootQueueEntry) : Type 0 where
    pub listed : Memᴰ e entries
    pub drainable : is_drainable e ≡ true
    pub no_api_server : any api_in_progress entries ≡ false
    pub role_rule : RoleRule e entries

  from_first :
      (p : RebootQueueEntry → Bool) (entries : List RebootQueueEntry) {x : RebootQueueEntry}
      {rest : List RebootQueueEntry}
      → keep_if p entries ≡ x ∷ rest
      → Memᴰ x entries × (p x ≡ true)
  from_first p entries {x} {rest} h =
      mem-keep_if p entries (subst (Memᴰ x) (sym h) (Memᴰ.head refl))

  abbrev Chosen :
      RebootQueueEntry
      → ℕ
      → List RebootQueueEntry
      → List RebootQueueEntry
      → List RebootQueueEntry
      → Type 0
  Chosen e most doing waiting apis =
      (doing ≡ []) × (waiting ≡ []) × ((rest : List RebootQueueEntry) × (apis ≡ e ∷ rest))
      ⊎ ((length doing < most) × ((rest : List RebootQueueEntry) × (waiting ≡ e ∷ rest)))

  choice_cases :
      (most : ℕ) (busy : Bool) (doing waiting apis : List RebootQueueEntry) {e : RebootQueueEntry}
      → Memᴰ e (choice most busy doing waiting apis)
      → (busy ≡ false) × Chosen e most doing waiting apis
  choice_cases most true doing waiting apis m = elim m [ ]
  choice_cases most false [] [] [] m = elim m [ ]
  choice_cases most false [] [] (a ∷ apis) (Memᴰ.head p) = (refl, inl (refl, refl, (apis, rw p)))
  choice_cases most false [] [] (a ∷ apis) (Memᴰ.tail m) = elim m [ ]
  choice_cases most false (d ∷ doing) [] apis m = elim m [ ]
  choice_cases most false [] (w ∷ waiting) apis m =
      let (t, p) = one_if (ltb 0 most) m in (refl, inr (ltb→lt _ _ t, (waiting, rw p)))
  choice_cases most false (d ∷ doing) (w ∷ waiting) apis m =
      let (t, p) = one_if (ltb (length (d ∷ doing)) most) m in
      (refl, inr (ltb→lt _ _ t, (waiting, rw p)))

  mem_choose_lem :
      (entries : List RebootQueueEntry) {e : RebootQueueEntry}
      → Memᴰ e (choose_reboot_candidates c api_servers now entries)
      → IsAllowed e entries
  mem_choose_lem entries {e} m =
      let (idle, chosen) =
        choice_cases (max_concurrent_reboots c) (any api_in_progress entries)
          (keep_if worker_in_progress entries) (keep_if worker_drainable entries)
          (keep_if api_drainable entries) (subst (Memᴰ e) (choose_lem entries) m) in
      elim chosen [
        | inl (none_doing, none_waiting, (rest, p)) ↦
            let (listed, fits) = from_first api_drainable entries p in
            record {
              listed = listed;
              drainable = ground arith;
              no_api_server = idle;
              role_rule = inl (ground arith, none_doing, none_waiting);
            }
        | inr (room, (rest, p)) ↦
            let (listed, fits) = from_first worker_drainable entries p in
            record {
              listed = listed;
              drainable = ground arith;
              no_api_server = idle;
              role_rule = inr (ground arith, room);
            }
      ]

  length-choice :
      (most : ℕ) (busy : Bool) (doing waiting apis : List RebootQueueEntry)
      → length (choice most busy doing waiting apis) ≤ 1
  length-choice most true doing waiting apis = omega arith
  length-choice most false [] [] [] = omega arith
  length-choice most false [] [] (a ∷ apis) = omega arith
  length-choice most false (d ∷ doing) [] apis = omega arith
  length-choice most false [] (w ∷ waiting) apis = ground arith
  length-choice most false (d ∷ doing) (w ∷ waiting) apis = ground arith

  pub choose-IsAllowed :
      (entries : List RebootQueueEntry)
      → (length (choose_reboot_candidates c api_servers now entries) ≤ 1)
        × All (λ e. IsAllowed e entries) (choose_reboot_candidates c api_servers now entries)
  choose-IsAllowed entries = (
    rw (choose_lem entries) (
        length-choice (max_concurrent_reboots c) (any api_in_progress entries)
          (keep_if worker_in_progress entries) (keep_if worker_drainable entries)
          (keep_if api_drainable entries)),
    All-mem (λ e. IsAllowed e entries) _ (λ e m. mem_choose_lem entries m),
  )
