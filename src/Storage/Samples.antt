-- ===== src/Storage/Samples.antt =====
-- Runs of the methods for single values, in a store in memory, and the theorem at such a run.
use cke.Prelude.{◌≡◌, refl, sym, String, [], ◌∷◌, some, arith}
use cke.Etcd.{put, World, returns, arrive, txn, fails, no_leader, not_found, get}
use cke.Etcd.Memory.{memory, memory-IsLawful, empty_memory, written}
use cke.Etcd.Memory.Table.{lookup, set}
use cke.Storage.{Codec, write_by_leader}
use cke.Storage.Values.{
  put_cluster_with_template_revision, get_cluster_with_revision, get_config_version,
  get_string_value, get_sabakan_url,
}
use cke.Storage.Values.RoundTrip.{get_cluster_with_revision-put}

-- A configuration that is its own text.
abbrev plain : Codec String
plain = record { marshal = some; unmarshal = some }

abbrev led : World memory
led = record { state = written empty_memory (put "leader/1" "host" ∷ []); script = [] }

abbrev after_put : World memory
after_put = (put_cluster_with_template_revision memory plain "name: test" 12 "leader/1" led).1

get_cluster_with_revision-put_example :
    get_cluster_with_revision memory plain after_put ≡ (returns ("name: test", 12), after_put)
unfolding put_cluster_with_template_revision write_by_leader txn arrive lookup written set
get_cluster_with_revision-put_example =
    get_cluster_with_revision-put memory plain memory-IsLawful (λ c text e. sym e) "name: test" 12
      "leader/1" led after_put (omega arith) refl refl refl refl

not_leader :
    (put_cluster_with_template_revision memory plain "name: test" 12 "leader/2" led)
    ≡ (fails no_leader, led)
unfolding put_cluster_with_template_revision write_by_leader txn arrive lookup written set
not_leader = refl

missing_url : (get_sabakan_url memory led).0 ≡ fails not_found
unfolding get_sabakan_url get_string_value get arrive lookup written set
missing_url = refl

first_version : (get_config_version memory led).0 ≡ returns "1"
unfolding get_config_version get_string_value get arrive lookup written set
first_version = refl
