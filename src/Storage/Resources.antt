-- ===== src/Storage/Resources.antt =====
-- The user resources: ListResources and GetAllResources of storage.go, and SortResources of
-- resource.go. The keys of resources are different, so any algorithm sorts them to one list.
pub mod Parts
pub mod Stages
pub mod Sorting
mod Samples
use Prim.Native.Char.{Char, code}
use Prim.Native.String.{[] as empty, ◌∷◌ as cons, compare as text_compare}
use text.Mathlib.Text.{is_lt}
use cke.Prelude.{
  ℕ, String, Bool, List, [], ◌∷◌, Option, none, some, ltb, ◌==◌, str_eq, map, if◌then◌else◌,
}
use cke.Etcd.{KeyValue, Etcd, Call, list, pure, ◌>>=◌}
use cke.Storage.{require}

-- ResourceDefinition as GetAllResources fills it.
pub record StoredResource : Type 0 where
  pub key : String
  pub kind : String
  pub namespace : String
  pub name : String
  pub revision : ℕ
  pub definition : String

abbrev ranks : List (String × ℕ)
ranks =
    ("Namespace", 10)
    ∷ ("ServiceAccount", 20)
    ∷ ("CustomResourceDefinition", 30)
    ∷ ("ClusterRole", 40)
    ∷ ("ClusterRoleBinding", 50)
    ∷ ("Role", 2000)
    ∷ ("RoleBinding", 2010)
    ∷ ("NetworkPolicy", 2020)
    ∷ ("Secret", 2030)
    ∷ ("ConfigMap", 2040)
    ∷ []

unfoldable pub rank_in : String → ℕ → List (String × ℕ) → ℕ
rank_in kind other [] = other
rank_in kind other ((k, r) ∷ rs) = if str_eq k kind then r else rank_in kind other rs

unfoldable pub rank : StoredResource → ℕ
unfolding rank_in
rank d = rank_in d.kind (if str_eq d.namespace "" then 1000 else 3000) ranks

-- `less` of SortResources.
unfoldable pub less : StoredResource → StoredResource → Bool
less a b = if rank a == rank b then is_lt (text_compare a.key b.key) else ltb (rank a) (rank b)

unfoldable pub insert : StoredResource → List StoredResource → List StoredResource
insert a [] = a ∷ []
insert a (b ∷ bs) = let rest = insert a bs in if less a b then a ∷ b ∷ bs else b ∷ rest

unfoldable pub sort_resources : List StoredResource → List StoredResource
sort_resources [] = []
sort_resources (a ∷ rest) = insert a (sort_resources rest)

-- The text after as many characters as the prefix has.
unfoldable pub after_prefix : String → String → String
after_prefix empty k = k
after_prefix (cons c p) empty = ""
after_prefix (cons c p) (cons d k) = after_prefix p k

abbrev grow : Char → List String → List String
grow c [] = cons c "" ∷ []
grow c (p ∷ ps) = cons c p ∷ ps

-- strings.Split at the slashes.
unfoldable pub split : String → List String
split empty = "" ∷ []
split (cons c s) = let rest = split s in if code c == 47 then "" ∷ rest else grow c rest

abbrev pub by_parts : String → KeyValue → List String → Option StoredResource
by_parts key kv (kind ∷ name ∷ []) = some (record {
  key = key;
  kind = kind;
  namespace = "";
  name = name;
  revision = kv.mod_revision;
  definition = kv.value;
})
by_parts key kv (kind ∷ namespace ∷ name ∷ []) = some (record {
  key = key;
  kind = kind;
  namespace = namespace;
  name = name;
  revision = kv.mod_revision;
  definition = kv.value;
})
by_parts key kv _ = none

unfoldable pub resource_of : String × KeyValue → Option StoredResource
resource_of e = let key = after_prefix "resource/" e.0 in by_parts key e.1 (split key)

abbrev pub both :
    Option StoredResource → Option (List StoredResource) → Option (List StoredResource)
both none rest = none
both (some r) none = none
both (some r) (some rs) = some (r ∷ rs)

abbrev pub resources_of : List (String × KeyValue) → Option (List StoredResource)
resources_of [] = some []
resources_of (e ∷ es) = both (resource_of e) (resources_of es)

module _ (E : Etcd) where
  unfoldable pub list_resources : Call E (List String)
  list_resources = do kvs ← list E "resource/"; pure E (map (λ e. after_prefix "resource/" e.0) kvs)

  unfoldable pub get_all_resources : Call E (List StoredResource)
  get_all_resources = do
    kvs ← list E "resource/"
    rs ← require E (resources_of kvs)
    pure E (sort_resources rs)
