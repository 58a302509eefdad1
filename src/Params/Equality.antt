-- ===== src/Params/Equality.antt =====
-- What ServiceParams.Equal compares.
use cke.Prelude.{
  String, ◌≡◌, ◌↔◌, refl, Bool, true, ◌&&◌, List, [], ◌∷◌, Option, none, some, length, eq_iff,
  arith, map, All,
}
use cke.Params.{
  Mount, ServiceParams, compare_strings, compare_mounts, mount_equal, find_key, all_in,
  compare_string_map, equal, is_value,
}

compare_strings_iff :
    (s t : List String)
    → (compare_strings s t ≡ true → s ≡ t) × (s ≡ t → compare_strings s t ≡ true)
unfolding compare_strings
compare_strings_iff [] [] = (λ h. refl, λ h. refl)
compare_strings_iff [] (b ∷ t) = (λ h. ground arith, λ h. cc)
compare_strings_iff (a ∷ s) [] = (λ h. ground arith, λ h. cc)
compare_strings_iff (a ∷ s) (b ∷ t) =
    let (to, from) = compare_strings_iff s t in
    (λ h. ground (arith, eq_iff a b, to), λ h. ground (arith, eq_iff a b, from))

-- The part of a mount that is compared.
abbrev pub core : Mount → String × String × Bool
core m = (m.source, m.destination, m.read_only)

mount_equal_iff :
    (m o : Mount)
    → (mount_equal m o ≡ true → core m ≡ core o) × (core m ≡ core o → mount_equal m o ≡ true)
unfolding mount_equal
mount_equal_iff m o = (
  λ h. ground (arith, eq_iff m.source o.source, eq_iff m.destination o.destination),
  λ h. ground (arith, eq_iff m.source o.source, eq_iff m.destination o.destination),
)

compare_mounts_iff :
    (s t : List Mount)
    → (compare_mounts s t ≡ true → map core s ≡ map core t)
      × (map core s ≡ map core t → compare_mounts s t ≡ true)
unfolding compare_mounts
compare_mounts_iff [] [] = (λ h. refl, λ h. refl)
compare_mounts_iff [] (b ∷ t) = (λ h. ground arith, λ h. cc)
compare_mounts_iff (a ∷ s) [] = (λ h. ground arith, λ h. cc)
compare_mounts_iff (a ∷ s) (b ∷ t) =
    let (to, from) = compare_mounts_iff s t in
    let (one, back) = mount_equal_iff a b in
    (λ h. ground (arith, to, one), λ h. ground (arith, from, back))

abbrev pub Agree : List (String × String) → String × String → Type 0
Agree m (k, v) = find_key k m ≡ some v

is_value_iff :
    (o : Option String) (v : String)
    → (is_value o v ≡ true → o ≡ some v) × (o ≡ some v → is_value o v ≡ true)
is_value_iff none v = (λ h. cc, λ h. cc)
is_value_iff (some w) v = (λ h. ground (arith, eq_iff v w), λ h. ground (arith, eq_iff v w))

all_in_iff :
    (m n : List (String × String))
    → (all_in m n ≡ true → All (Agree n) m) × (All (Agree n) m → all_in m n ≡ true)
unfolding all_in
all_in_iff [] n = (λ h. tt, λ h. refl)
all_in_iff ((k, v) ∷ m) n =
    let (to, from) = all_in_iff m n in
    let (one, back) = is_value_iff (find_key k n) v in
    (λ h. ground (arith, to, one), λ h. ground (arith, from, back))

abbrev pub Same : ServiceParams → ServiceParams → Type 0
Same s o =
    (s.extra_arguments ≡ o.extra_arguments)
    × (map core s.extra_binds ≡ map core o.extra_binds)
    × (length s.extra_envvar ≡ length o.extra_envvar)
    × All (Agree o.extra_envvar) s.extra_envvar

compare_string_map_iff :
    (m n : List (String × String))
    → (compare_string_map m n ≡ true → (length m ≡ length n) × All (Agree n) m)
      × ((length m ≡ length n) × All (Agree n) m → compare_string_map m n ≡ true)
unfolding compare_string_map
compare_string_map_iff m n =
    let (to, from) = all_in_iff m n in
    (λ h. (ground arith, to (ground arith)), λ h. ground (arith, from h.1))

and_true : (a b : Bool) → (a && b) ≡ true → (a ≡ true) × (b ≡ true)
and_true a b h = ground arith

-- Two service parameters compare as equal exactly when they have the same arguments in the same
-- order, mounts of the same sources, destinations and read-only flags in the same order, and as many
-- environment variables, each of the first with its value in the second. The propagation and the
-- label of a mount are not compared.
pub equal_iff : (s o : ServiceParams) → (equal s o ≡ true) ↔ Same s o
unfolding equal
equal_iff s o =
    let (args, args') = compare_strings_iff s.extra_arguments o.extra_arguments in
    let (binds, binds') = compare_mounts_iff s.extra_binds o.extra_binds in
    let (env, env') = compare_string_map_iff s.extra_envvar o.extra_envvar in
    (
      λ h.
          let (a, rest) = and_true _ _ h in
          let (b, c) = and_true _ _ rest in (args a, binds b, (env c).0, (env c).1),
      λ (a, b, n, c). rw (args' a, binds' b, env' (n, c)),
    )
