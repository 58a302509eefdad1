-- ===== src/Params.antt =====
-- ServiceParams of cluster.go and the comparisons of collections.go. A map is an association list.
pub mod Equality
mod Samples
use cke.Prelude.{
  ℕ, String, Bool, true, false, not, ◌&&◌, List, [], ◌∷◌, Option, none, some, ◌==◌, length, str_eq,
  if◌then◌else◌,
}

pub record Mount : Type 0 where
  pub source : String
  pub destination : String
  pub read_only : Bool
  pub propagation : String
  pub label : String

pub record ServiceParams : Type 0 where
  pub extra_arguments : List String
  pub extra_binds : List Mount
  pub extra_envvar : List (String × String)

abbrev pub bool_eq : Bool → Bool → Bool
bool_eq true b = b
bool_eq false b = not b

-- Mount.Equal
mount_equal : Mount → Mount → Bool
mount_equal m o =
    str_eq m.source o.source
    && (str_eq m.destination o.destination && bool_eq m.read_only o.read_only)

-- The loops over two slices of equal length.
same_strings : List String → List String → Bool
same_strings (a ∷ s1) (b ∷ s2) = if str_eq a b then same_strings s1 s2 else false
same_strings _ _ = true

unfoldable pub compare_strings : List String → List String → Bool
unfolding same_strings
compare_strings s1 s2 = if length s1 == length s2 then same_strings s1 s2 else false

same_mounts : List Mount → List Mount → Bool
unfolding mount_equal
same_mounts (a ∷ s1) (b ∷ s2) = if mount_equal a b then same_mounts s1 s2 else false
same_mounts _ _ = true

unfoldable pub compare_mounts : List Mount → List Mount → Bool
unfolding same_mounts
compare_mounts m1 m2 = if length m1 == length m2 then same_mounts m1 m2 else false

abbrev pub find_key : String → List (String × String) → Option String
find_key k [] = none
find_key k ((j, v) ∷ m) = if str_eq j k then some v else find_key k m

abbrev pub is_value : Option String → String → Bool
is_value none v = false
is_value (some w) v = str_eq v w

all_in : List (String × String) → List (String × String) → Bool
all_in [] m2 = true
all_in ((k, v) ∷ m1) m2 = if is_value (find_key k m2) v then all_in m1 m2 else false

unfoldable pub compare_string_map : List (String × String) → List (String × String) → Bool
unfolding all_in
compare_string_map m1 m2 = if length m1 == length m2 then all_in m1 m2 else false

-- ServiceParams.Equal
unfoldable pub equal : ServiceParams → ServiceParams → Bool
equal s o =
    compare_strings s.extra_arguments o.extra_arguments
    && (compare_mounts s.extra_binds o.extra_binds
        && compare_string_map s.extra_envvar o.extra_envvar)
