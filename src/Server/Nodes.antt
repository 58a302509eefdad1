-- ===== src/Server/Nodes.antt =====
-- The nodes of a validated configuration are found by their addresses.
use cke.Prelude.{
  String, ◌≡◌, subst, sym, refl, false, List, [], ◌∷◌, Option, none, some, str_eq, Memᴰ, arith,
  if◌then◌else◌,
}
use text.Mathlib.TextPositions.{eq_refl}
use cke.Cluster.{Node}
use cke.Cluster.Validate.{Accepts, validate_nodes, validate_from}
use cke.Cluster.Validate.Nodes.{address-unseen, rest_valid}
use cke.Server.{NodeFilter, last_of, find_node}

last_of-other :
    (address : String) (ns : List Node) (found : Option Node)
    → ((n : Node) → Memᴰ n ns → str_eq n.address address ≡ false)
    → last_of address ns found ≡ found
unfolding last_of
last_of-other address [] found h = refl
last_of-other address (n ∷ ns) found h =
    let other = h n (Memᴰ.head refl) in
    let rest = last_of-other address ns found (λ m t. h m (Memᴰ.tail t)) in rw other rest

module _ (accepts : Accepts) where
  last_of-listed :
      (seen : List String) (ns : List Node) (found : Option Node) (n : Node)
      → validate_from accepts false seen ns ≡ none
      → Memᴰ n ns
      → last_of n.address ns found ≡ some n
  unfolding last_of
  last_of-listed seen [] found n h t = elim t [ ]
  last_of-listed seen (k ∷ ns) found n h (Memᴰ.head e) =
      let ok = rest_valid accepts seen k ns h in
      let later =
        last_of-other k.address ns (some k)
          (λ m t. let new = address-unseen accepts (k.address ∷ seen) ns ok t in ground arith) in
      let first : last_of k.address (k ∷ ns) found ≡ some k = rw (eq_refl k.address) later in
      subst (λ z. last_of z.address (k ∷ ns) found ≡ some z) (sym e) first
  last_of-listed seen (k ∷ ns) found n h (Memᴰ.tail t) =
      last_of-listed (k.address ∷ seen) ns (if str_eq k.address n.address then some k else found) n
        (rest_valid accepts seen k ns h) t

  -- In a configuration that validation accepts, every node is found by its address, and no other
  -- node in its place.
  pub find_node-validate :
      (nf : NodeFilter) (n : Node)
      → validate_nodes accepts false nf.cluster.nodes ≡ none
      → Memᴰ n nf.cluster.nodes
      → find_node nf n.address ≡ some n
  unfolding find_node validate_nodes
  find_node-validate nf n h t = last_of-listed [] nf.cluster.nodes none n h t
