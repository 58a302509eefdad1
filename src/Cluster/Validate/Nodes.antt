-- ===== src/Cluster/Validate/Nodes.antt =====
-- The addresses of nodes that validation has accepted.
use cke.Prelude.{
  String, ◌≡◌, ◌≢◌, ◌⊎◌, inl, inr, refl, true, false, List, [], ◌∷◌, none, any, str_eq, eq_iff,
  Memᴰ, All, All-mem, Ordered, Bool, arith,
}
use cke.Cluster.{Node}
use cke.Cluster.Validate.{Accepts, validate_from, validate_nodes}

module _ (accepts : Accepts) where
  pub address-unseen :
      (seen : List String) (ns : List Node) {n : Node}
      → validate_from accepts false seen ns ≡ none
      → Memᴰ n ns
      → any (str_eq n.address) seen ≡ false
  unfolding validate_from
  address-unseen seen [] h t = elim t [ ]
  address-unseen seen (k ∷ ns) h (Memᴰ.head e) = rw e (ground arith)
  address-unseen seen (k ∷ ns) {n} h (Memᴰ.tail t) =
      let later = address-unseen (k.address ∷ seen) ns (ground arith) t in ground arith

  pub rest_valid :
      (seen : List String) (k : Node) (ns : List Node)
      → validate_from accepts false seen (k ∷ ns) ≡ none
      → validate_from accepts false (k.address ∷ seen) ns ≡ none
  unfolding validate_from
  rest_valid seen k ns h = ground arith

  -- No two of the nodes have one address.
  abbrev pub Distinct : List Node → Type 0
  Distinct = Ordered (λ n k. n.address ≢ k.address)

  unseen_by-Distinct :
      (seen : List String) (n : Node) (ns : List Node)
      → validate_from accepts false (n.address ∷ seen) ns ≡ none
      → All (λ k. n.address ≢ k.address) ns
  unseen_by-Distinct seen n ns h = All-mem _ ns (λ k m e.
      let new = address-unseen (n.address ∷ seen) ns h m in
      ground (arith, eq_iff k.address n.address))

  validate_from-Distinct :
      (seen : List String) (ns : List Node)
      → validate_from accepts false seen ns ≡ none
      → Distinct ns
  validate_from-Distinct seen [] h = tt
  validate_from-Distinct seen (n ∷ ns) h =
      let later = rest_valid seen n ns h in
      (unseen_by-Distinct seen n ns later, validate_from-Distinct (n.address ∷ seen) ns later)

  -- The user of a node is given, and its address is one or, in a template, left out.
  abbrev pub IsNamed : Bool → Node → Type 0
  IsNamed true n = (n.user ≢ "") × (n.address ≡ "")
  IsNamed false n = (n.user ≢ "") × (accepts.address n.address ≡ true)

  validate_from-IsNamed :
      (is_template : Bool) (seen : List String) (ns : List Node)
      → validate_from accepts is_template seen ns ≡ none
      → All (IsNamed is_template) ns
  unfolding validate_from
  validate_from-IsNamed is_template seen [] h = tt
  validate_from-IsNamed true seen (n ∷ ns) h = (
    ground (arith, eq_iff n.user "", eq_iff n.address ""),
    validate_from-IsNamed true seen ns (ground arith),
  )
  validate_from-IsNamed false seen (n ∷ ns) h = (
    ground (arith, eq_iff n.user ""),
    validate_from-IsNamed false (n.address ∷ seen) ns (rest_valid seen n ns h),
  )

  pub validate_nodes-Distinct :
      (is_template : Bool) (ns : List Node)
      → validate_nodes accepts is_template ns ≡ none
      → All (IsNamed is_template) ns × ((is_template ≡ true) ⊎ Distinct ns)
  unfolding validate_nodes
  validate_nodes-Distinct true ns h = (validate_from-IsNamed true [] ns h, inl refl)
  validate_nodes-Distinct false ns h =
      (validate_from-IsNamed false [] ns h, inr (validate_from-Distinct [] ns h))
