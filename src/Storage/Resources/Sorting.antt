-- ===== src/Storage/Resources/Sorting.antt =====
-- The order in which GetAllResources returns the resources.
use Prim.Native.Nat.{Ordering}
use Prim.Native.String.{compare as text_compare}
use text.Mathlib.Text.{is_lt, starts_with}
use cke.Prelude.{
  ◌≡◌, refl, sym, ap, subst, ◌∙◌, ◌↔◌, inl, inr, String, true, false, List, [], ◌∷◌, Option, none,
  some, All, Memᴰ, Ordered, SameMembers, Bool-cases, arith,
}
use cke.Etcd.{KeyValue, Etcd, World, returns, arrive}
use cke.Etcd.Calls.{list-ok}
use cke.Etcd.Laws.{IsLawful, IsBefore}
use cke.Etcd.Laws.Order.{IsBefore-irrefl, IsBefore-trans, order_cases}
use cke.Storage.Steps.{require-ok}
use cke.Storage.Resources.Parts.{MadeFrom, resource_of-MadeFrom, MadeFrom-resource_of}
use cke.Storage.Resources.Stages.{Precedes, Sorts-Precedes}
use cke.Storage.Resources.{
  StoredResource, after_prefix, less, insert, sort_resources, resource_of, both, resources_of,
  get_all_resources,
}

-- `less` lets `a` stand before `b`.
abbrev Sorts : StoredResource → StoredResource → Type 0
Sorts a b = less b a ≡ false

is_before : (s t : String) → is_lt (text_compare s t) ≡ true → IsBefore s t
is_before s t = go (text_compare s t)
  where
    go : (o : Ordering) → is_lt o ≡ true → o ≡ Ordering.lt
    go Ordering.lt h = refl
    go Ordering.eq h = cc
    go Ordering.gt h = cc

not_before : (s t : String) → is_lt (text_compare s t) ≡ false → IsBefore s t → ⊥
not_before s t h b = let h' : is_lt Ordering.lt ≡ false = rw b at h in cc

key_asym : (s t : String) → is_lt (text_compare s t) ≡ true → is_lt (text_compare t s) ≡ false
key_asym s t h = elim (Bool-cases (is_lt (text_compare t s))) [
  | inl b ↦ absurd (IsBefore-irrefl s (IsBefore-trans s t s (is_before s t h) (is_before t s b)))
  | inr f ↦ f
]

key_trans :
    (s t u : String)
    → is_lt (text_compare t s) ≡ false
    → is_lt (text_compare u t) ≡ false
    → is_lt (text_compare u s) ≡ false
key_trans s t u h g = elim (Bool-cases (is_lt (text_compare u s))) [
  | inr f ↦ f
  | inl b ↦ elim (order_cases s t) [
    | inl before ↦ absurd (not_before u t g (IsBefore-trans u s t (is_before u s b) before))
    | inr (inl same) ↦
        let b' : is_lt (text_compare u t) ≡ true =
          subst (λ x. is_lt (text_compare u x) ≡ true) same b in
        cc
    | inr (inr later) ↦ absurd (not_before t s h later)
  ]
]

Sorts-trans : (a b c : StoredResource) → Sorts a b → Sorts b c → Sorts a c
unfolding less
Sorts-trans a b c h g = grind (arith, key_trans a.key b.key c.key)

less-Sorts : (a b : StoredResource) → less a b ≡ true → Sorts a b
unfolding less
less-Sorts a b h = grind (arith, key_asym a.key b.key)

insert-All :
    (P : StoredResource → Type 0) (a : StoredResource) (l : List StoredResource)
    → P a
    → All P l
    → All P (insert a l)
unfolding insert
insert-All P a [] p ps = (p, tt)
insert-All P a (b ∷ bs) p ps = elim (Bool-cases (less a b)) [
  | inl first ↦ rw first (p, ps)
  | inr later ↦ rw later (ps.0, insert-All P a bs p ps.1)
]

Sorts-All :
    (a b : StoredResource) (l : List StoredResource) → Sorts a b → All (Sorts b) l → All (Sorts a) l
Sorts-All a b [] h ps = tt
Sorts-All a b (c ∷ l) h ps = (Sorts-trans a b c h ps.0, Sorts-All a b l h ps.1)

insert-Ordered :
    (a : StoredResource) (l : List StoredResource) → Ordered Sorts l → Ordered Sorts (insert a l)
unfolding insert
insert-Ordered a [] o = (tt, tt)
insert-Ordered a (b ∷ bs) o = elim (Bool-cases (less a b)) [
  | inl first ↦
      let before = less-Sorts a b first in rw first ((before, Sorts-All a b bs before o.0), o)
  | inr later ↦ rw later (insert-All (Sorts b) a bs later o.0, insert-Ordered a bs o.1)
]

sort_resources-Ordered : (l : List StoredResource) → Ordered Sorts (sort_resources l)
unfolding sort_resources
sort_resources-Ordered [] = tt
sort_resources-Ordered (a ∷ l) = insert-Ordered a (sort_resources l) (sort_resources-Ordered l)

All-Precedes : (a : StoredResource) (l : List StoredResource) → All (Sorts a) l → All (Precedes a) l
All-Precedes a [] ps = tt
All-Precedes a (b ∷ l) ps = (Sorts-Precedes a b ps.0, All-Precedes a l ps.1)

Ordered-Precedes : (l : List StoredResource) → Ordered Sorts l → Ordered Precedes l
Ordered-Precedes [] o = tt
Ordered-Precedes (a ∷ l) o = (All-Precedes a l o.0, Ordered-Precedes l o.1)

mem_insert :
    {e : StoredResource} (a : StoredResource) (l : List StoredResource)
    → Memᴰ e (insert a l)
    → Memᴰ e (a ∷ l)
unfolding insert
mem_insert a [] m = m
mem_insert {e} a (b ∷ bs) m = elim (Bool-cases (less a b)) [
  | inl first ↦ rw first at m
  | inr later ↦ past_second (rw later at m) (λ n. mem_insert a bs n)
]
  where
    past_second :
        Memᴰ e (b ∷ insert a bs) → (Memᴰ e (insert a bs) → Memᴰ e (a ∷ bs)) → Memᴰ e (a ∷ b ∷ bs)
    past_second (Memᴰ.head p) f = Memᴰ.tail (Memᴰ.head p)
    past_second (Memᴰ.tail n) f = elim (f n) [
      | Memᴰ.head p ↦ Memᴰ.head p
      | Memᴰ.tail k ↦ Memᴰ.tail (Memᴰ.tail k)
    ]

insert_mem :
    {e : StoredResource} (a : StoredResource) (l : List StoredResource)
    → Memᴰ e (a ∷ l)
    → Memᴰ e (insert a l)
unfolding insert
insert_mem a [] m = m
insert_mem {e} a (b ∷ bs) m = elim (Bool-cases (less a b)) [
  | inl first ↦ rw first m
  | inr later ↦ rw later (past_second m (λ n. insert_mem a bs n))
]
  where
    past_second :
        Memᴰ e (a ∷ b ∷ bs) → (Memᴰ e (a ∷ bs) → Memᴰ e (insert a bs)) → Memᴰ e (b ∷ insert a bs)
    past_second (Memᴰ.head p) f = Memᴰ.tail (f (Memᴰ.head p))
    past_second (Memᴰ.tail (Memᴰ.head p)) f = Memᴰ.head p
    past_second (Memᴰ.tail (Memᴰ.tail n)) f = Memᴰ.tail (f (Memᴰ.tail n))

below_head :
    {e a : StoredResource} {xs ys : List StoredResource}
    → Memᴰ e (a ∷ xs)
    → (Memᴰ e xs → Memᴰ e ys)
    → Memᴰ e (a ∷ ys)
below_head (Memᴰ.head p) f = Memᴰ.head p
below_head (Memᴰ.tail n) f = Memᴰ.tail (f n)

sort_resources-SameMembers : (l : List StoredResource) → SameMembers (sort_resources l) l
unfolding sort_resources
sort_resources-SameMembers [] e = (λ m. m, λ m. m)
sort_resources-SameMembers (a ∷ l) e =
    let (from, to) = sort_resources-SameMembers l e in
    (
      λ m. below_head (mem_insert a (sort_resources l) m) from,
      λ m. insert_mem a (sort_resources l) (below_head m to),
    )

-- The resource is read from a key and its value in the list.
abbrev ReadFrom : List (String × KeyValue) → StoredResource → Type 0
ReadFrom l r = (e : String × KeyValue) × Memᴰ e l × (resource_of e ≡ some r)

both-some :
    (o : Option StoredResource) (p : Option (List StoredResource)) (rs : List StoredResource)
    → both o p ≡ some rs
    → (r : StoredResource) × (l : List StoredResource) × (o ≡ some r) × (p ≡ some l) × (rs ≡ r ∷ l)
both-some none p rs h = cc
both-some (some r) none rs h = cc
both-some (some r) (some l) rs h = (r, l, refl, refl, cc)

mem_resources-ReadFrom :
    (l : List (String × KeyValue)) (rs : List StoredResource) {r : StoredResource}
    → resources_of l ≡ some rs
    → Memᴰ r rs
    → ReadFrom l r
mem_resources-ReadFrom [] [] h m = elim m [ ]
mem_resources-ReadFrom [] (x ∷ rs) h m = cc
mem_resources-ReadFrom (e ∷ l) rs {r} h m =
    let (x, later, is_x, is_later, same) = both-some _ _ rs h in
    elim (subst (λ ys. Memᴰ r ys) same m) [
      | Memᴰ.head p ↦ (e, Memᴰ.head refl, is_x ∙ ap some (sym p))
      | Memᴰ.tail n ↦
          let (f, k, v) = mem_resources-ReadFrom l later is_later n in (f, Memᴰ.tail k, v)
    ]

ReadFrom-mem :
    (l : List (String × KeyValue)) (rs : List StoredResource) (r : StoredResource)
    (e : String × KeyValue)
    → resources_of l ≡ some rs
    → Memᴰ e l
    → resource_of e ≡ some r
    → Memᴰ r rs
ReadFrom-mem [] rs r e h m v = elim m [ ]
ReadFrom-mem (f ∷ l) rs r e h (Memᴰ.head p) v =
    let (x, later, is_x, is_later, same) = both-some _ _ rs h in
    let first : resource_of f ≡ some r = subst (λ y. resource_of y ≡ some r) p v in
    subst (λ ys. Memᴰ r ys) (sym same) (Memᴰ.head cc)
ReadFrom-mem (f ∷ l) rs r e h (Memᴰ.tail n) v =
    let (x, later, is_x, is_later, same) = both-some _ _ rs h in
    subst (λ ys. Memᴰ r ys) (sym same) (Memᴰ.tail (ReadFrom-mem l later r e is_later n v))

module _ (E : Etcd) where
  -- The store holds the resource under a key of the resources.
  pub record Stored (s : E.State) (r : StoredResource) : Type 0 where
    pub stored_key : String
    pub kv : KeyValue
    pub in_prefix : starts_with stored_key "resource/" ≡ true
    pub found : E.get s stored_key ≡ some kv
    pub made : MadeFrom (after_prefix "resource/" stored_key) kv r

  -- The resources are returned in the order of their creation: Namespaces, ServiceAccounts,
  -- CustomResourceDefinitions, ClusterRoles and ClusterRoleBindings, one kind after the other; then
  -- the other resources without a namespace; then Roles, RoleBindings, NetworkPolicies, Secrets and
  -- ConfigMaps, one kind after the other; then the other resources of a namespace; and within each
  -- of these by their keys. They are those that the store holds under the prefix of the resources:
  -- of each key, the parts between the slashes are the kind, the namespace if there are three, and
  -- the name, with the value and the revision of the key.
  pub get_all_resources_lem :
      (L : IsLawful E) (w w' : World E) (rs : List StoredResource)
      → get_all_resources E w ≡ (returns rs, w')
      → Ordered Precedes rs × ((r : StoredResource) → Memᴰ r rs ↔ Stored (arrive E w).1.state r)
  unfolding get_all_resources
  get_all_resources_lem L w w' rs e =
      let s = (arrive E w).1.state in
      let l = E.list s "resource/" in
      let e₁ = list-ok E w "resource/" _ w' rs e in
      let (found, is_found, e₂) = require-ok E (resources_of l) _ (arrive E w).1 w' rs e₁ in
      let sorted : sort_resources found ≡ rs = cc in
      subst (λ ys. Ordered Precedes ys × ((r : StoredResource) → Memᴰ r ys ↔ Stored s r)) sorted
        (
          Ordered-Precedes (sort_resources found) (sort_resources-Ordered found),
          λ r. (
            λ m.
                let ((k, kv), is_mem, is_resource) =
                  mem_resources-ReadFrom l found is_found
                    ((sort_resources-SameMembers found r).0 m) in
                let (in_prefix, stored) = (L.list_iff s "resource/" k kv).0 is_mem in
                record {
                  stored_key = k;
                  kv = kv;
                  in_prefix = in_prefix;
                  found = stored;
                  made = resource_of-MadeFrom k kv r is_resource;
                },
            λ h. (sort_resources-SameMembers found r).1 (
                ReadFrom-mem l found r (h.stored_key, h.kv) is_found
                  ((L.list_iff s "resource/" h.stored_key h.kv).1 (h.in_prefix, h.found))
                  (MadeFrom-resource_of h.stored_key h.kv r h.made)),
          ),
        )
