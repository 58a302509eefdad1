-- ===== src/Server/Every.antt =====
-- A predicate of every operation of a list, as a family, so that the parts of a list are found.
use cke.Prelude.{ℕ, List, [], ◌∷◌, ◌++◌, map, All, take}
use cke.Cluster.{Node}
use cke.Server.Operations.{Operation, if_some, if_some_most}

pub data Every (P : Operation → Type 0) : List Operation → Type 0 where
  none_left : Every P []
  one_more : {o : Operation} {ops : List Operation} → P o → Every P ops → Every P (o ∷ ops)

module _ {P : Operation → Type 0} where
  pub Every-append : {xs ys : List Operation} → Every P xs → Every P ys → Every P (xs ++ ys)
  Every-append none_left k = k
  Every-append (one_more h hs) k = one_more h (Every-append hs k)

  pub Every-All : {xs : List Operation} → Every P xs → All P xs
  Every-All none_left = tt
  Every-All (one_more h hs) = (h, Every-All hs)

  pub Every-of_All : (xs : List Operation) → All P xs → Every P xs
  Every-of_All [] h = none_left
  Every-of_All (o ∷ xs) h = one_more h.0 (Every-of_All xs h.1)

  pub Every-map {ℓ} :
      {A : Type ℓ} (f : A → Operation) (xs : List A) → ((x : A) → P (f x)) → Every P (map f xs)
  Every-map f [] h = none_left
  Every-map f (x ∷ xs) h = one_more (h x) (Every-map f xs h)

  pub Every-map-All {ℓ κ} :
      {A : Type ℓ} (Q : A → Type κ) (f : A → Operation) (xs : List A)
      → ((x : A) → Q x → P (f x))
      → All Q xs
      → Every P (map f xs)
  Every-map-All Q f [] h k = none_left
  Every-map-All Q f (x ∷ xs) h k = one_more (h x k.0) (Every-map-All Q f xs h k.1)

  pub Every-if_some {ℓ} :
      {A : Type ℓ} (xs : List A) (f : List A → Operation) → P (f xs) → Every P (if_some xs f)
  Every-if_some [] f h = none_left
  Every-if_some (x ∷ xs) f h = one_more h none_left

  pub Every-if_some_most :
      (max : ℕ) (ns : List Node) (f : List Node → Operation)
      → P (f (take max ns))
      → Every P (if_some_most max ns f)
  Every-if_some_most max [] f h = none_left
  Every-if_some_most max (n ∷ ns) f h = one_more h none_left

module _ {P Q : Operation → Type 0} where
  pub Every-weaken : ((o : Operation) → P o → Q o) → {xs : List Operation} → Every P xs → Every Q xs
  Every-weaken f none_left = none_left
  Every-weaken f (one_more {o = o} h hs) = one_more (f o h) (Every-weaken f hs)
