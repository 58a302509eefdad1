-- ===== src/Storage/Resources/Parts.antt =====
-- A resource and the key that it is stored under.
use cke.Prelude.{◌≡◌, refl, sym, ◌⊎◌, inl, inr, String, List, [], ◌∷◌, some}
use cke.Etcd.{KeyValue}
use cke.Storage.Resources.{StoredResource, after_prefix, split, by_parts, resource_of}

-- The resource of a key without its prefix, and of its value.
pub record MadeFrom (key : String) (kv : KeyValue) (r : StoredResource) : Type 0 where
  pub is_key : r.key ≡ key
  pub revision : r.revision ≡ kv.mod_revision
  pub definition : r.definition ≡ kv.value
  pub parts :
      ((split key ≡ r.kind ∷ r.name ∷ []) × (r.namespace ≡ ""))
      ⊎ (split key ≡ r.kind ∷ r.namespace ∷ r.name ∷ [])

abbrev PartsOf : List String → StoredResource → Type 0
PartsOf ps r =
    ((ps ≡ r.kind ∷ r.name ∷ []) × (r.namespace ≡ "")) ⊎ (ps ≡ r.kind ∷ r.namespace ∷ r.name ∷ [])

by_parts-PartsOf :
    (key : String) (kv : KeyValue) (ps : List String) (r : StoredResource)
    → by_parts key kv ps ≡ some r
    → (r.key ≡ key) × (r.revision ≡ kv.mod_revision) × (r.definition ≡ kv.value) × PartsOf ps r
by_parts-PartsOf key kv [] r h = cc
by_parts-PartsOf key kv (a ∷ []) r h = cc
by_parts-PartsOf key kv (a ∷ b ∷ []) r h = (cc, cc, cc, inl (cc, cc))
by_parts-PartsOf key kv (a ∷ b ∷ c ∷ []) r h = (cc, cc, cc, inr cc)
by_parts-PartsOf key kv (a ∷ b ∷ c ∷ e ∷ ps) r h = cc

pub resource_of-MadeFrom :
    (k : String) (kv : KeyValue) (r : StoredResource)
    → resource_of (k, kv) ≡ some r
    → MadeFrom (after_prefix "resource/" k) kv r
unfolding resource_of
resource_of-MadeFrom k kv r h =
    let key = after_prefix "resource/" k in
    let (is_key, revision, definition, parts) = by_parts-PartsOf key kv (split key) r h in
    record { is_key = is_key; revision = revision; definition = definition; parts = parts }

pub MadeFrom-resource_of :
    (k : String) (kv : KeyValue) (r : StoredResource)
    → MadeFrom (after_prefix "resource/" k) kv r
    → resource_of (k, kv) ≡ some r
unfolding resource_of
MadeFrom-resource_of k kv r x = elim x.parts [
  | inl (two, cluster) ↦ rw (two, sym x.is_key, sym x.revision, sym x.definition, sym cluster) refl
  | inr three ↦ rw (three, sym x.is_key, sym x.revision, sym x.definition) refl
]
