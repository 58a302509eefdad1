-- ===== src/Storage/Resources/Samples.antt =====
-- Three resources in a store in memory, and the theorem at the call that reads them.
use cke.Prelude.{◌≡◌, refl, ◌↔◌, String, List, [], ◌∷◌, Ordered, Memᴰ}
use cke.Etcd.{put, World, returns, fails, bad_value, arrive, list}
use cke.Etcd.Memory.{memory, memory-IsLawful, empty_memory, written}
use cke.Etcd.Memory.Table.{lookup, set}
use cke.Storage.Resources.{
  StoredResource, rank, less, insert, sort_resources, after_prefix, split, resource_of,
  get_all_resources, list_resources,
}
use cke.Storage.Resources.Stages.{Precedes}
use cke.Storage.Resources.Sorting.{Stored, get_all_resources_lem}

abbrev three : World memory
three = record {
  state = written empty_memory (
      put "resource/Namespace/apps" "n"
      ∷ put "resource/ConfigMap/apps/conf" "c"
      ∷ put "resource/Role/apps/reader" "r"
      ∷ put "settings" "s"
      ∷ []);
  script = [];
}

abbrev stored : String → String → String → String → String → StoredResource
stored key kind namespace name definition = record {
  key = key;
  kind = kind;
  namespace = namespace;
  name = name;
  revision = 2;
  definition = definition;
}

abbrev in_order : List StoredResource
in_order =
    stored "Namespace/apps" "Namespace" "" "apps" "n"
    ∷ stored "Role/apps/reader" "Role" "apps" "reader" "r"
    ∷ stored "ConfigMap/apps/conf" "ConfigMap" "apps" "conf" "c"
    ∷ []

read_run : get_all_resources memory three ≡ (returns in_order, three)
unfolding get_all_resources list arrive sort_resources insert less rank resource_of split
    after_prefix lookup written set
read_run = refl

listed_run :
    (list_resources memory three).0
    ≡ returns ("ConfigMap/apps/conf" ∷ "Namespace/apps" ∷ "Role/apps/reader" ∷ [])
unfolding list_resources list arrive after_prefix lookup written set
listed_run = refl

-- A key of one part is refused.
refused_run :
    (get_all_resources memory
      (record { state = written empty_memory (put "resource/Namespace" "n" ∷ []); script = [] })).0
    ≡ fails bad_value
unfolding get_all_resources list arrive resource_of split after_prefix lookup written set
refused_run = refl

get_all_resources_example :
    Ordered Precedes in_order
    × ((r : StoredResource) → Memᴰ r in_order ↔ Stored memory (arrive memory three).1.state r)
get_all_resources_example =
    get_all_resources_lem memory memory-IsLawful three three in_order read_run
