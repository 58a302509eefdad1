-- ===== src/Server/EndpointOps/Decide.antt =====
-- decideEpEpsOps of server/strategy.go and what it calls. The apiserver that every operation also
-- takes is left out.
pub mod Settled
pub mod Shown
use Prim.Native.String.{compare as compare_str}
use Prim.Native.Nat.{Ordering}
use cke.Prelude.{
  ℕ, String, Bool, true, false, not, ◌&&◌, ◌||◌, List, [], ◌∷◌, ◌++◌, map, Option, none, some, any,
  keep_if, length, ◌==◌, str_eq, if◌then◌else◌,
}
use cke.Cluster.{Node}
use cke.Reboot.Decide.{reboot_processing}
use cke.Server.{
  NodeFilter, EndpointSubset, Endpoints, Endpoint, EndpointPort, EndpointSlice, EtcdService,
  control_plane_nodes, node_status,
}

pub record EndpointParams : Type 0 where
  pub namespace : String
  pub name : String
  pub ready_ips : List String
  pub not_ready_ips : List String
  pub port : ℕ
  pub port_name : String
  pub service_name : String

-- The operations, with the namespace and the name of the object.
pub data EndpointOp : Type 0 where
  endpoints_create : String → String → Endpoints → EndpointOp
  endpoints_update : String → String → Endpoints → EndpointOp
  endpoint_slice_create : String → String → EndpointSlice → EndpointOp
  endpoint_slice_update : String → String → EndpointSlice → EndpointOp
  etcd_service_create : EndpointOp
  etcd_service_update : EndpointOp

-- A read of a map of texts: a missing key is the empty text.
abbrev pub value_at : String → List (String × String) → String
value_at k [] = ""
value_at k ((j, v) ∷ m) = if str_eq j k then v else value_at k m

labels_current : List (String × String) → List (String × String) → Bool
labels_current [] actual = true
labels_current ((k, v) ∷ expect) actual =
    if str_eq (value_at k actual) v then labels_current expect actual else false

-- The loop over `actual` that looks every address up in the set of the expected ones.
pub all_expected : List String → List String → Bool
all_expected expect [] = true
all_expected expect (a ∷ actual) = any (str_eq a) expect && all_expected expect actual

same_port : ℕ → List ℕ → Bool
same_port port (p ∷ []) = p == port
same_port port _ = false

-- The comparison of decideEpOp with the one subset that is expected.
subset_current : EndpointSubset → ℕ → List EndpointSubset → Bool
unfolding all_expected same_port
subset_current expect port (subset ∷ []) =
    same_port port subset.ports
    && (length subset.addresses == length expect.addresses
        && (length subset.not_ready_addresses == length expect.not_ready_addresses
            && (all_expected expect.addresses subset.addresses
                && all_expected expect.not_ready_addresses subset.not_ready_addresses)))
subset_current expect port _ = false

abbrev pub expected_subset : EndpointParams → EndpointSubset
expected_subset ep = record {
  addresses = ep.ready_ips;
  not_ready_addresses = ep.not_ready_ips;
  ports = ep.port ∷ [];
}

abbrev pub expected_endpoints : EndpointParams → Endpoints
expected_endpoints ep = record {
  labels = ("endpointslice.kubernetes.io/skip-mirror", "true") ∷ [];
  subsets = expected_subset ep ∷ [];
}

unfoldable pub endpoints_current : EndpointParams → Endpoints → Bool
unfolding labels_current subset_current
endpoints_current ep actual =
    labels_current (expected_endpoints ep).labels actual.labels
    && subset_current (expected_subset ep) ep.port actual.subsets

unfoldable pub decide_ep_op : EndpointParams → Option Endpoints → Option EndpointOp
decide_ep_op ep none = some (endpoints_create ep.namespace ep.name (expected_endpoints ep))
decide_ep_op ep (some actual) =
    if endpoints_current ep actual
    then none
    else some (endpoints_update ep.namespace ep.name (expected_endpoints ep))

-- slices.Sort and slices.Compact.
abbrev before : String → String → Bool
before a b = elim (compare_str a b) [ Ordering.gt ↦ false | _ ↦ true ]

insert_sorted : String → List String → List String
insert_sorted a [] = a ∷ []
insert_sorted a (b ∷ bs) = if before a b then a ∷ b ∷ bs else b ∷ insert_sorted a bs

sort : List String → List String
unfolding insert_sorted
sort [] = []
sort (a ∷ rest) = insert_sorted a (sort rest)

compact_from : String → List String → List String
compact_from a [] = a ∷ []
compact_from a (b ∷ bs) = if str_eq a b then compact_from a bs else a ∷ compact_from b bs

compact : List String → List String
unfolding compact_from
compact [] = []
compact (a ∷ rest) = compact_from a rest

-- The map `ready`, in which the addresses that are not ready are written last.
abbrev pub expected_endpoint : EndpointParams → String → Endpoint
expected_endpoint ep ip = record {
  addresses = ip ∷ [];
  ready = some (any (str_eq ip) ep.ready_ips && not (any (str_eq ip) ep.not_ready_ips));
}

abbrev pub ipv4 : String
ipv4 = "IPv4"

unfoldable pub expected_slice : EndpointParams → EndpointSlice
unfolding sort compact
expected_slice ep = record {
  labels =
      ("endpointslice.kubernetes.io/managed-by", "cke.cybozu.com")
      ∷ ("kubernetes.io/service-name", ep.service_name)
      ∷ [];
  address_type = ipv4;
  endpoints = map (expected_endpoint ep) (compact (sort (ep.ready_ips ++ ep.not_ready_ips)));
  ports = record { name = some ep.port_name; port = some ep.port } ∷ [];
}

abbrev same_ready : Option Bool → Option Bool → Bool
same_ready (some true) (some b) = b
same_ready (some false) (some b) = not b
same_ready _ _ = false

endpoint_current : Endpoint → Endpoint → Bool
unfolding all_expected
endpoint_current expect actual =
    same_ready actual.ready expect.ready
    && (length actual.addresses == length expect.addresses
        && all_expected expect.addresses actual.addresses)

-- The loop over two slices of equal length.
each_current : List Endpoint → List Endpoint → Bool
unfolding endpoint_current
each_current (e ∷ expect) (a ∷ actual) = endpoint_current e a && each_current expect actual
each_current _ _ = true

abbrev same_name : Option String → Option String → Bool
same_name (some a) (some b) = str_eq a b
same_name _ _ = false

abbrev same_number : Option ℕ → Option ℕ → Bool
same_number (some a) (some b) = a == b
same_number _ _ = false

ports_current : List EndpointPort → List EndpointPort → Bool
ports_current (e ∷ expect) (a ∷ []) = same_name a.name e.name && same_number a.port e.port
ports_current _ _ = false

unfoldable pub slice_current : EndpointSlice → EndpointSlice → Bool
unfolding labels_current each_current ports_current
slice_current expect actual =
    labels_current expect.labels actual.labels
    && (str_eq actual.address_type expect.address_type
        && (length actual.endpoints == length expect.endpoints
            && (each_current expect.endpoints actual.endpoints
                && ports_current expect.ports actual.ports)))

unfoldable pub decide_eps_op : EndpointParams → Option EndpointSlice → Option EndpointOp
decide_eps_op ep none = some (endpoint_slice_create ep.namespace ep.name (expected_slice ep))
decide_eps_op ep (some actual) =
    if slice_current (expected_slice ep) actual
    then none
    else some (endpoint_slice_update ep.namespace ep.name (expected_slice ep))

abbrev pub op_list : Option EndpointOp → List EndpointOp
op_list none = []
op_list (some op) = op ∷ []

unfoldable pub decide_ep_eps_ops :
    EndpointParams → Option Endpoints → Option EndpointSlice → List EndpointOp
unfolding decide_ep_op decide_eps_op
decide_ep_eps_ops ep endpoints slice =
    op_list (decide_ep_op ep endpoints) ++ op_list (decide_eps_op ep slice)

service_current : EtcdService → Bool
unfolding same_port
service_current svc =
    same_port 2379 svc.ports
    && (str_eq svc.service_type "ClusterIP" && str_eq svc.cluster_ip "None")

unfoldable pub decide_etcd_service_ops : Option EtcdService → Option EndpointOp
unfolding service_current
decide_etcd_service_ops none = some etcd_service_create
decide_etcd_service_ops (some svc) = if service_current svc then none else some etcd_service_update
