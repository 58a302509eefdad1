-- ===== src/Server/Decide/Completed.antt =====
-- The branches that the completed phase has passed.
use cke.Prelude.{
  ◌≡◌, refl, Bool, true, false, not, List, [], ◌∷◌, arith, str_eq, eq_iff, if◌then◌else◌,
  Bool-cases, inl, inr,
}
use cke.Server.{NodeFilter, ssh_connected}
use cke.Server.Components.{rivers_ops, k8s_ops}
use cke.Server.Etcd.{etcd_bootstrapped, etcd_stopped}
use cke.Server.Operations.{
  Operation, Phase, phase_completed, phase_rivers, phase_etcd_start, phase_k8s_start,
}
use cke.Server.Decide.{
  Inputs, Decision, or_next, start_op, cps, decide_services, decide_start, decide_ops,
  config_version,
}

abbrev is_completed : Phase → Bool
is_completed phase_completed = true
is_completed _ = false

or_next_completed :
    (ops : List Operation) (phase : Phase) (next : Decision)
    → is_completed phase ≡ false
    → (or_next ops phase next).1 ≡ phase_completed
    → (ops ≡ []) × (next.1 ≡ phase_completed)
or_next_completed [] phase next other h = (refl, h)
or_next_completed (o ∷ ops) phase next other h = ground arith

module _ (i : Inputs) (nf : NodeFilter) where
  -- What the branches before the completed phase leave.
  pub record IsDone : Type 0 where
    pub current : nf.status.config_version ≡ config_version
    pub rivers : rivers_ops i.desired nf i.max_concurrent_updates ≡ []
    pub etcd_healthy : nf.status.etcd.is_healthy ≡ true
    pub components : k8s_ops i.desired nf i.max_concurrent_updates ≡ []

  abbrev AtEnd : Decision → Type 0
  AtEnd r = r.1 ≡ phase_completed

  healthy_completed :
      (healthy : Bool) (wait next : Decision)
      → is_completed wait.1 ≡ false
      → AtEnd (if not healthy then wait else next)
      → (healthy ≡ true) × AtEnd next
  healthy_completed true wait next other h = (refl, h)
  healthy_completed false wait next other h = ground arith

  services_completed :
      AtEnd (decide_services i nf)
      → (nf.status.etcd.is_healthy ≡ true) × (k8s_ops i.desired nf i.max_concurrent_updates ≡ [])
  unfolding decide_services
  services_completed h =
      let (_, h1) =
        or_next_completed (start_op (ssh_connected nf (etcd_stopped nf (cps i nf))))
          phase_etcd_start _ refl h in
      let (healthy, h2) = healthy_completed nf.status.etcd.is_healthy _ _ refl h1 in
      let (components, _) = or_next_completed _ phase_k8s_start _ refl h2 in (healthy, components)

  pub completed-IsDone : AtEnd (decide_ops i nf) → IsDone
  unfolding decide_ops decide_start
  completed-IsDone h = elim (Bool-cases (str_eq nf.status.config_version config_version)) [
    | inr old ↦ absurd (ground arith)
    | inl same ↦
        let h1 : AtEnd (decide_start i nf) = rw same at h in
        let (rivers, h2) = or_next_completed _ phase_rivers _ refl h1 in
        elim (Bool-cases (etcd_bootstrapped nf)) [
          | inr bare ↦ absurd (ground arith)
          | inl booted ↦
              let h3 : AtEnd (decide_services i nf) = rw booted at h2 in
              let (healthy, components) = services_completed h3 in
              record {
                current = (eq_iff nf.status.config_version config_version).0 same;
                rivers = rivers;
                etcd_healthy = healthy;
                components = components;
              }
        ]
  ]
