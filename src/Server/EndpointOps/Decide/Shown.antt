-- ===== src/Server/EndpointOps/Decide/Shown.antt =====
-- What an Endpoints object shows when no operation is decided about it.
use cke.Prelude.{
  All, ap, ℕ, suc, String, ◌≡◌, refl, true, false, List, [], ◌∷◌, none, some, any, str_eq, eq_iff,
  arith, length, if◌then◌else◌,
}
use cke.Server.{EndpointSubset, Endpoints}
use cke.Server.EndpointOps.Decide.{
  EndpointParams, expected_subset, all_expected, decide_ep_op, endpoints_current, subset_current,
  same_port,
}

-- No address twice.
abbrev pub Distinct : List String → Type 0
Distinct [] = Unit {0}
Distinct (x ∷ xs) = (any (str_eq x) xs ≡ false) × Distinct xs

remove : String → List String → List String
remove a [] = []
remove a (b ∷ bs) = if str_eq a b then bs else b ∷ remove a bs

length-remove :
    (a : String) (bs : List String)
    → any (str_eq a) bs ≡ true
    → suc (length (remove a bs)) ≡ length bs
unfolding remove
length-remove a [] h = ground arith
length-remove a (b ∷ bs) h = ground (arith, length-remove a bs)

str_eq_sym : (a b : String) → str_eq a b ≡ str_eq b a
str_eq_sym a b = ground (arith, eq_iff a b, eq_iff b a)

any-remove :
    (x a : String) (bs : List String)
    → str_eq x a ≡ false
    → any (str_eq a) bs ≡ true
    → any (str_eq a) (remove x bs) ≡ true
unfolding remove
any-remove x a [] e h = h
any-remove x a (b ∷ bs) e h =
    ground (arith, any-remove x a bs e, eq_iff a b, eq_iff x b, eq_iff x a)

all_expected-remove :
    (x : String) (expect actual : List String)
    → any (str_eq x) actual ≡ false
    → all_expected expect actual ≡ true
    → all_expected (remove x expect) actual ≡ true
unfolding all_expected
all_expected-remove x expect [] n h = refl
all_expected-remove x expect (a ∷ actual) n h =
    ground (arith, all_expected-remove x expect actual, any-remove x a expect)

all_expected_more :
    (x : String) (xs bs : List String) → all_expected xs bs ≡ true → all_expected (x ∷ xs) bs ≡ true
unfolding all_expected
all_expected_more x xs [] h = refl
all_expected_more x xs (b ∷ bs) h = ground (arith, all_expected_more x xs bs)

all_expected_back :
    (x : String) (xs bs : List String)
    → all_expected xs (remove x bs) ≡ true
    → all_expected (x ∷ xs) bs ≡ true
unfolding all_expected remove
all_expected_back x xs [] h = refl
all_expected_back x xs (b ∷ bs) h =
    ground (arith, str_eq_sym x b, all_expected_more x xs bs, all_expected_back x xs bs)

-- As many addresses as expected, all expected and none twice, are all that are expected.
all_expected_turn :
    (actual expect : List String)
    → length actual ≡ length expect
    → Distinct actual
    → all_expected expect actual ≡ true
    → all_expected actual expect ≡ true
unfolding all_expected
all_expected_turn [] [] l d h = refl
all_expected_turn [] (e ∷ expect) l d h = ground arith
all_expected_turn (a ∷ actual) expect l d h = ground (
  arith,
  all_expected_back a actual expect,
  all_expected_turn actual (remove a expect),
  all_expected-remove a expect actual,
  length-remove a expect,
)

any_of_all_expected :
    (a : String) (expect actual : List String)
    → all_expected expect actual ≡ true
    → any (str_eq a) actual ≡ true
    → any (str_eq a) expect ≡ true
unfolding all_expected
any_of_all_expected a expect [] h k = ground arith
any_of_all_expected a expect (b ∷ actual) h k = ground (
  arith,
  eq_iff a b,
  any_of_all_expected a expect actual,
  λ (e : a ≡ b). ap (λ c. any (str_eq c) expect) e,
)

same_members :
    (a : String) (expect actual : List String)
    → length actual ≡ length expect
    → Distinct actual
    → all_expected expect actual ≡ true
    → any (str_eq a) actual ≡ any (str_eq a) expect
same_members a expect actual l d h = ground (
  arith,
  any_of_all_expected a expect actual h,
  any_of_all_expected a actual expect (all_expected_turn actual expect l d h),
)

-- Exactly the addresses that are expected.
abbrev pub Shows : EndpointParams → EndpointSubset → Type 0
Shows ep s =
    (a : String)
    → (any (str_eq a) s.addresses ≡ any (str_eq a) ep.ready_ips)
      × (any (str_eq a) s.not_ready_addresses ≡ any (str_eq a) ep.not_ready_ips)

abbrev pub NoneTwice : EndpointSubset → Type 0
NoneTwice s = Distinct s.addresses × Distinct s.not_ready_addresses

subset-Shows :
    (ep : EndpointParams) (subsets : List EndpointSubset)
    → All NoneTwice subsets
    → subset_current (expected_subset ep) ep.port subsets ≡ true
    → (s : EndpointSubset) × (subsets ≡ s ∷ []) × (s.ports ≡ ep.port ∷ []) × Shows ep s
unfolding subset_current
subset-Shows ep [] d h = ground arith
subset-Shows ep (s ∷ t ∷ rest) d h = ground arith
subset-Shows ep (s ∷ []) d h = (
  s,
  refl,
  port_lem s.ports (ground arith),
  λ a. (
    same_members a ep.ready_ips s.addresses (ground arith) d.0.0 (ground arith),
    same_members a ep.not_ready_ips s.not_ready_addresses (ground arith) d.0.1 (ground arith),
  ),
)
  where
    port_lem : (ports : List ℕ) → same_port ep.port ports ≡ true → ports ≡ ep.port ∷ []
    port_lem [] k = ground arith
    port_lem (p ∷ []) k = ground arith
    port_lem (p ∷ q ∷ rest) k = ground arith

-- Where no operation is decided about an Endpoints object, in no subset of which an address stands
-- twice, the object has one subset, with the expected port alone, and shows exactly the expected
-- addresses as ready and exactly the expected ones as not ready.
pub decide_ep_op-Shows :
    (ep : EndpointParams) (actual : Endpoints)
    → All NoneTwice actual.subsets
    → decide_ep_op ep (some actual) ≡ none
    → (s : EndpointSubset) × (actual.subsets ≡ s ∷ []) × (s.ports ≡ ep.port ∷ []) × Shows ep s
unfolding decide_ep_op endpoints_current
decide_ep_op-Shows ep actual d h = subset-Shows ep actual.subsets d (ground arith)
