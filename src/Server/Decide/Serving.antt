-- ===== src/Server/Decide/Serving.antt =====
-- What runs on the nodes in the completed phase.
use cke.Prelude.{◌≡◌, true, Memᴰ}
use cke.Cluster.{Node}
use cke.Server.{NodeFilter, node_status}
use cke.Server.Components.Settled.{AllUp}
use cke.Server.Components.Serving.{NodeServes, settled-NodeServes}
use cke.Server.Operations.{phase_completed}
use cke.Server.Decide.{Inputs, decide_ops, config_version}
use cke.Server.Decide.Completed.{completed-IsDone}

-- Where every control plane node is reachable and has a healthy API server, DecideOps returns the
-- completed phase only while the configuration version is current and etcd is healthy, and on every
-- reachable node of the cluster the following is so: the rivers run with the wanted image and
-- parameters (the propagation and the label of mounts are not compared); the kubelet runs, and its node is registered in Kubernetes; kube-proxy does not run, if
-- it is disabled, and otherwise runs with the wanted image, parameters and configuration; and on a
-- control plane node so do the rivers of etcd, the API server, the controller manager and the
-- scheduler, the last with the wanted configuration.
pub completed-NodeServes :
    (i : Inputs) (nf : NodeFilter) (n : Node)
    → AllUp i.desired nf
    → (decide_ops i nf).1 ≡ phase_completed
    → Memᴰ n nf.cluster.nodes
    → (node_status nf n).ssh_connected ≡ true
    → (nf.status.config_version ≡ config_version)
      × (nf.status.etcd.is_healthy ≡ true)
      × NodeServes i.desired nf n
completed-NodeServes i nf n up h m reach =
    let done = completed-IsDone i nf h in
    (
      done.current,
      done.etcd_healthy,
      settled-NodeServes i.desired nf i.max_concurrent_updates n up done.rivers done.components m
          reach,
    )
