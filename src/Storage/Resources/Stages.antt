-- ===== src/Storage/Resources/Stages.antt =====
-- The stages in which resources are to be created, described apart from the ranks of resource.go.
use Prim.Native.String.{compare as text_compare}
use text.Mathlib.Text.{is_lt}
use cke.Prelude.{
  ℕ, ◌+◌, ◌*◌, ◌≤◌, ◌<◌, ◌≡◌, ◌⊎◌, inl, inr, String, Bool, false, List, [], ◌∷◌, str_eq, ltb, ◌==◌,
  arith, if◌then◌else◌,
}
use cke.Storage.Resources.{StoredResource, rank, rank_in, less}

-- The kinds that come first, and those that come after all resources without a namespace.
abbrev early : List String
early =
    "Namespace" ∷ "ServiceAccount" ∷ "CustomResourceDefinition" ∷ "ClusterRole"
    ∷ "ClusterRoleBinding" ∷ []

abbrev late : List String
late = "Role" ∷ "RoleBinding" ∷ "NetworkPolicy" ∷ "Secret" ∷ "ConfigMap" ∷ []

-- The place of a kind in a list whose first place is `i`, or `other`.
abbrev place : String → ℕ → ℕ → List String → ℕ
place kind i other [] = other
place kind i other (k ∷ ks) =
    let rest = place kind (i + 1) other ks in if str_eq k kind then i else rest

-- The early kinds have the stages 0 to 4, the others without a namespace 5, the late kinds 6 to 10,
-- and the others of a namespace 11.
abbrev pub stage : StoredResource → ℕ
stage d = place d.kind 0 (place d.kind 6 (if str_eq d.namespace "" then 5 else 11) late) early

-- `a` is of an earlier stage than `b`, or of the same stage, and the key of `b` is not smaller.
abbrev pub Precedes : StoredResource → StoredResource → Type 0
Precedes a b =
    (stage a < stage b) ⊎ ((stage a ≡ stage b) × (is_lt (text_compare b.key a.key) ≡ false))

-- The rank of a stage.
abbrev HasRank : ℕ → ℕ → Type 0
HasRank s r =
    ((s ≤ 4) × (r ≡ 10 * (s + 1)))
    ⊎ (((s ≡ 5) × (r ≡ 1000))
        ⊎ (((6 ≤ s) × (s ≤ 10) × (r + 60 ≡ 2000 + 10 * s)) ⊎ ((s ≡ 11) × (r ≡ 3000))))

stage-HasRank : (d : StoredResource) → HasRank (stage d) (rank d)
unfolding rank rank_in
stage-HasRank d = ground arith

ranks_agree :
    (s t p q : ℕ)
    → HasRank s p
    → HasRank t q
    → ((s < t) × (p < q)) ⊎ (((s ≡ t) × (p ≡ q)) ⊎ ((t < s) × (q < p)))
ranks_agree s t p q h g = ground (arith, h, g)

same_rank : (p q : ℕ) (key : Bool) → (if q == p then key else ltb q p) ≡ false → p ≡ q → key ≡ false
same_rank p q key h e = ground arith

lower_rank : (p q : ℕ) (key : Bool) → (if q == p then key else ltb q p) ≡ false → q < p → ⊥
lower_rank p q key h e = ground arith

pub Sorts-Precedes : (a b : StoredResource) → less b a ≡ false → Precedes a b
unfolding less
Sorts-Precedes a b h =
    elim (ranks_agree (stage a) (stage b) (rank a) (rank b) (stage-HasRank a) (stage-HasRank b)) [
      | inl (earlier, lower) ↦ inl earlier
      | inr (inl (same, equal)) ↦ inr (same, same_rank (rank a) (rank b) _ h equal)
      | inr (inr (later, higher)) ↦ absurd (lower_rank (rank a) (rank b) _ h higher)
    ]
