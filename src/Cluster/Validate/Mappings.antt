-- ===== src/Cluster/Validate/Mappings.antt =====
-- The lookup in a list of mappings that validation has accepted.
use text.Mathlib.TextPositions.{eq_refl}
use cke.Prelude.{
  ℕ, ◌+◌, String, ◌≡◌, refl, Bool, true, false, ◌&&◌, List, [], ◌∷◌, none, some, any, str_eq,
  eq_iff, Memᴰ, All, Ordered, ◌≢◌, All-mem, arith, Bool-cases, inl, inr,
}
use cke.Cluster.{TrustedRestMapping}
use cke.Cluster.Validate.{
  mapping_key, validate_mappings_from, validate_trusted_rest_mappings, rest_mapping,
  lookup_trusted_rest_mapping,
}

unseen :
    (i : ℕ) (seen : List String) (ms : List TrustedRestMapping) {m : TrustedRestMapping}
    → validate_mappings_from i seen ms ≡ none
    → Memᴰ m ms
    → any (str_eq (mapping_key m)) seen ≡ false
unfolding validate_mappings_from
unseen i seen [] h m = elim m [ ]
unseen i seen (k ∷ ms) h (Memᴰ.head e) = rw e (ground arith)
unseen i seen (k ∷ ms) {m = m} h (Memᴰ.tail t) =
    let later = unseen (i + 1) (mapping_key k ∷ seen) ms (ground arith) t in ground arith

abbrev matches : TrustedRestMapping → TrustedRestMapping → Bool
matches k m = str_eq k.group m.group && (str_eq k.version m.version && str_eq k.kind m.kind)

same_key : (k m : TrustedRestMapping) → matches k m ≡ true → mapping_key k ≡ mapping_key m
same_key k m h =
    let g : k.group ≡ m.group = ground (arith, eq_iff k.group m.group) in
    let v : k.version ≡ m.version = ground (arith, eq_iff k.version m.version) in
    let d : k.kind ≡ m.kind = ground (arith, eq_iff k.kind m.kind) in cc

found_from :
    (i : ℕ) (seen : List String) (ms : List TrustedRestMapping) (m : TrustedRestMapping)
    → validate_mappings_from i seen ms ≡ none
    → Memᴰ m ms
    → lookup_trusted_rest_mapping ms m.group m.version m.kind
      ≡ some (rest_mapping m m.group m.version m.kind)
unfolding validate_mappings_from lookup_trusted_rest_mapping
found_from i seen [] m h t = elim t [ ]
found_from i seen (k ∷ ms) m h (Memᴰ.head e) =
    rw e (rw (eq_refl k.group, eq_refl k.version, eq_refl k.kind) refl)
found_from i seen (k ∷ ms) m h (Memᴰ.tail t) =
    let ok : validate_mappings_from (i + 1) (mapping_key k ∷ seen) ms ≡ none = ground arith in
    elim (Bool-cases (matches k m)) [
      | inl same ↦ absurd (
          ground (
            arith,
            unseen (i + 1) (mapping_key k ∷ seen) ms ok t,
            eq_iff (mapping_key m) (mapping_key k),
            same_key k m same,
          ))
      | inr other ↦ rw other (found_from (i + 1) (mapping_key k ∷ seen) ms m ok t)
    ]

-- In mappings that validation accepts, the lookup of the group, version and kind of any mapping
-- gives that mapping, whatever the others are.
pub lookup-validate :
    (mappings : List TrustedRestMapping) (m : TrustedRestMapping)
    → validate_trusted_rest_mappings mappings ≡ none
    → Memᴰ m mappings
    → lookup_trusted_rest_mapping mappings m.group m.version m.kind
      ≡ some (rest_mapping m m.group m.version m.kind)
unfolding validate_trusted_rest_mappings
lookup-validate mappings m h t = found_from 0 [] mappings m h t

-- The version, the kind and the resource of a mapping are given.
abbrev pub IsGiven : TrustedRestMapping → Type 0
IsGiven m = (m.version ≢ "") × (m.kind ≢ "") × (m.resource ≢ "")

-- The two mappings are of different resources.
abbrev pub Differs : TrustedRestMapping → TrustedRestMapping → Type 0
Differs m k = (m.group ≡ k.group) × (m.version ≡ k.version) × (m.kind ≡ k.kind) → ⊥

Differs-key :
    (m k : TrustedRestMapping) → str_eq (mapping_key k) (mapping_key m) ≡ false → Differs m k
Differs-key m k h (group, version, kind) =
    let same : mapping_key k ≡ mapping_key m = cc in
    let found = (eq_iff (mapping_key k) (mapping_key m)).1 same in cc

IsGiven-validate :
    (i : ℕ) (seen : List String) (ms : List TrustedRestMapping)
    → validate_mappings_from i seen ms ≡ none
    → All IsGiven ms
unfolding validate_mappings_from
IsGiven-validate i seen [] h = tt
IsGiven-validate i seen (m ∷ ms) h = (
  ground (arith, eq_iff m.version "", eq_iff m.kind "", eq_iff m.resource ""),
  IsGiven-validate (i + 1) (mapping_key m ∷ seen) ms (ground arith),
)

Differs-validate :
    (i : ℕ) (seen : List String) (ms : List TrustedRestMapping)
    → validate_mappings_from i seen ms ≡ none
    → Ordered Differs ms
unfolding validate_mappings_from
Differs-validate i seen [] h = tt
Differs-validate i seen (m ∷ ms) h =
    let later : validate_mappings_from (i + 1) (mapping_key m ∷ seen) ms ≡ none = ground arith in
    (
      All-mem _ ms (λ k t.
          let new = unseen (i + 1) (mapping_key m ∷ seen) ms later t in
          Differs-key m k (ground arith)),
      Differs-validate (i + 1) (mapping_key m ∷ seen) ms later,
    )

pub mappings-Differs :
    (ms : List TrustedRestMapping)
    → validate_trusted_rest_mappings ms ≡ none
    → All IsGiven ms × Ordered Differs ms
unfolding validate_trusted_rest_mappings
mappings-Differs ms h = (IsGiven-validate 0 [] ms h, Differs-validate 0 [] ms h)
