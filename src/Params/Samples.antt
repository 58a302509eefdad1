-- ===== src/Params/Samples.antt =====
-- Service parameters that compare as equal.
use cke.Prelude.{◌↔◌, ◌≡◌, refl, String, true, false, List, [], ◌∷◌}
use cke.Params.{Mount, ServiceParams, equal, compare_strings, compare_mounts, compare_string_map}
use cke.Params.Equality.{Same, equal_iff}

abbrev mount : String → Mount
mount label = record {
  source = "/var/log";
  destination = "/var/log";
  read_only = false;
  propagation = "";
  label = label;
}

abbrev params : String → List (String × String) → ServiceParams
params label envvar = record {
  extra_arguments = "--v=2" ∷ [];
  extra_binds = mount label ∷ [];
  extra_envvar = envvar;
}

abbrev left : ServiceParams
left = params "z" (("A", "1") ∷ ("B", "2") ∷ [])

abbrev right : ServiceParams
right = params "Z" (("B", "2") ∷ ("A", "1") ∷ [])

equal_run : equal left right ≡ true
unfolding equal compare_strings compare_mounts compare_string_map
equal_run = refl

differ_run : equal left (params "z" (("A", "1") ∷ [])) ≡ false
unfolding equal compare_strings compare_mounts compare_string_map
differ_run = refl

equal_iff_example : (equal left right ≡ true) ↔ Same left right
equal_iff_example = equal_iff left right
