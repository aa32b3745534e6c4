-- ===== src/Provider/Tests.antt =====
-- Runs of the choice of the sources, and its property at a concrete configuration.
mod Contract
use tinycloud_platform.Base.{
  ◌≡◌, refl, true, false, Option, none, some, List, [], ◌∷◌, Str, codes, any, str_eq,
}
use tinycloud_platform.Provider.Config.{
  Entry, Client, client_of, client, native, Sources, slot_of, instances, metrics, alarms,
  infra_sources,
}
use tinycloud_platform.Provider.Config.Reference.{choice, first_naming, first_silent, is_infra}
use tinycloud_platform.Provider.Config.Choice.{infra_sources-choice}

abbrev entry : Str → Entry
entry name = record {
  kind = codes "infra";
  name = name;
  base_url = codes "http://p";
  token_file = codes "/t";
  token = [];
}

abbrev two : List Entry
two = entry (codes "a") ∷ entry (codes "b") ∷ []

-- `a` cannot be asked, `b` serves the instances.
abbrev asks : Client → Option (List Str)
asks c = elim (str_eq c.name (codes "b")) [ true ↦ some (codes "instances" ∷ []) | false ↦ none ]

abbrev fallback : Sources
fallback = record {
  on_instances = none;
  on_metrics = none;
  on_alarms = some (native (codes "oci"));
  on_ingress = none;
  on_backups = none;
}

from_b :
    slot_of instances (infra_sources asks two fallback)
    ≡ some (client (client_of (entry (codes "b"))))
unfolding slot_of infra_sources str_eq
from_b = refl

from_fallback : slot_of alarms (infra_sources asks two fallback) ≡ some (native (codes "oci"))
unfolding slot_of infra_sources str_eq
from_fallback = refl

from_a :
    slot_of metrics (infra_sources asks two fallback)
    ≡ some (client (client_of (entry (codes "a"))))
unfolding slot_of infra_sources str_eq
from_a = refl

infra_sources-choice_example :
    slot_of metrics (infra_sources asks two fallback)
    ≡ choice
        (first_naming asks (codes "metrics") two)
        (slot_of metrics fallback)
        (first_silent asks two)
        (any is_infra two)
        metrics
infra_sources-choice_example = infra_sources-choice asks two fallback metrics
