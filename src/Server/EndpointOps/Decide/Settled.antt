-- ===== src/Server/EndpointOps/Decide/Settled.antt =====
-- The endpoint operations leave nothing to do.
use text.Mathlib.TextPositions.{eq_refl}
use cke.Prelude.{
  String, ◌≡◌, refl, Bool, true, false, not, ◌&&◌, List, [], ◌∷◌, some, map, any, str_eq, arith,
  Memᴰ, mem-any, ◌==◌, ℕ,
}
use cke.Server.EndpointOps.Decide.{
  EndpointParams, all_expected, expected_endpoints, expected_endpoint, expected_slice,
  endpoint_current, each_current, same_ready, endpoints_current, slice_current, decide_ep_eps_ops,
}

pub all_expected_of_mem :
    (expect actual : List String)
    → ((a : String) → Memᴰ a actual → Memᴰ a expect)
    → all_expected expect actual ≡ true
unfolding all_expected
all_expected_of_mem expect [] h = refl
all_expected_of_mem expect (a ∷ actual) h =
    rw
      (
        mem-any (str_eq a) expect (h a (Memᴰ.head refl)) (eq_refl a),
        all_expected_of_mem expect actual (λ b m. h b (Memᴰ.tail m)),
      )
      refl

all_expected_self : (xs : List String) → all_expected xs xs ≡ true
all_expected_self xs = all_expected_of_mem xs xs (λ a m. m)

eq_self : (n : ℕ) → (n == n) ≡ true
eq_self n = ground arith

same_ready_self : (b : Bool) → same_ready (some b) (some b) ≡ true
same_ready_self true = refl
same_ready_self false = refl

endpoint_current_self :
    (ep : EndpointParams) (ip : String)
    → endpoint_current (expected_endpoint ep ip) (expected_endpoint ep ip) ≡ true
unfolding endpoint_current
endpoint_current_self ep ip =
    rw
      (
        same_ready_self (any (str_eq ip) ep.ready_ips && not (any (str_eq ip) ep.not_ready_ips)),
        all_expected_self (ip ∷ []),
      )
      refl

each_current_self :
    (ep : EndpointParams) (ips : List String)
    → each_current (map (expected_endpoint ep) ips) (map (expected_endpoint ep) ips) ≡ true
unfolding each_current
each_current_self ep [] = refl
each_current_self ep (ip ∷ ips) = rw (endpoint_current_self ep ip, each_current_self ep ips) refl

endpoints_current_self : (ep : EndpointParams) → endpoints_current ep (expected_endpoints ep) ≡ true
unfolding endpoints_current
endpoints_current_self ep =
    simp (eq_self, all_expected_self ep.ready_ips, all_expected_self ep.not_ready_ips)

slice_current_self :
    (ep : EndpointParams) → slice_current (expected_slice ep) (expected_slice ep) ≡ true
unfolding slice_current expected_slice
slice_current_self ep = simp (eq_refl, eq_self, each_current_self)

-- Where the Endpoints and the EndpointSlice are as the operations create or update them, no further
-- operation is decided.
pub decide_ep_eps_ops_settled :
    (ep : EndpointParams)
    → decide_ep_eps_ops ep (some (expected_endpoints ep)) (some (expected_slice ep)) ≡ []
unfolding decide_ep_eps_ops
decide_ep_eps_ops_settled ep = rw (endpoints_current_self ep, slice_current_self ep) refl
