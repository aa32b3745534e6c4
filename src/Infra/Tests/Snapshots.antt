-- ===== src/Infra/Tests/Snapshots.antt =====
-- Runs of the collector, and its properties at concrete inputs.
use tinycloud_platform.Base.{
  ℕ, ◌≡◌, refl, none, some, List, [], ◌∷◌, Str, codes, str_eq, lookup, pos, inl, inr, keep,
  sort_strings, sort_by, insert_by, str_lt, ltb,
}
use mathlib.Core.List.{Permᴰ}
use tinycloud_platform.Text.{Unicode, to_lower, contains, has_prefix, cut_prefix, trim_suffix}
use tinycloud_platform.Infra.Types.{Series, AlarmStatus, ObjectInfo}
use tinycloud_platform.Infra.Collect.{
  Sources, Source, src_instances, src_alarms, src_ingress, src_backups, src_cpu, src_memory,
  src_healthy, src_unhealthy, src_uptime, all_sources, default_config, role_for,
  latest_by_dimension,
}
use tinycloud_platform.Infra.Collect.Newest.{latest_by_dimension-newest, newest_in}
use tinycloud_platform.Infra.Assemble.{Collector, collect, summarise_backups, stream_of}
use tinycloud_platform.Infra.Assemble.Order.{collect_order}
use tinycloud_platform.Infra.Assemble.Failures.{
  collect_warnings, collect-IsUnknown, IsUnknown, failures,
}
use tinycloud_platform.Infra.Assemble.Streams.{summarise_backups-rows, latest_time}

abbrev ascii : Unicode
ascii = record { lower = λ s. s; upper = λ s. s; fold = λ s t. str_eq s t }

-- Floats that are whole numbers, for the tests.
abbrev collector : Collector
collector = record {
  cfg = default_config;
  floats = record { add = λ x y. x; above = λ x y. ltb y x; to_int = λ x. pos x };
  unicode = ascii;
  iterate = λ l. l;
}

abbrev low_disk : AlarmStatus
low_disk = record { name = codes "disk"; severity = codes "WARNING"; status = codes "FIRING" }

-- Alarms answer, the backups fail, and the rest is not configured.
abbrev sources : Sources
sources = record {
  instances = none;
  metrics = none;
  alarms = some (inr (low_disk ∷ []));
  ingress = none;
  backups = some (inl (codes "denied"));
}

-- The alarms come in before the instances.
abbrev alarms_first : List Source
alarms_first =
    src_alarms ∷ src_instances ∷ src_ingress ∷ src_backups ∷ src_cpu ∷ src_memory ∷ src_healthy
    ∷ src_unhealthy ∷ src_uptime ∷ []

alarms_first-Perm : Permᴰ alarms_first all_sources
alarms_first-Perm = Permᴰ.swap refl refl

-- Control plane and worker are told apart by the name of the machine.
roles :
    (role_for ascii (codes "k3s-control") ≡ codes "control-plane")
    × (role_for ascii (codes "box") ≡ codes "utility")
unfolding role_for to_lower contains
roles = (refl, refl)

collect_order_example :
    collect collector sources 9 alarms_first ≡ collect collector sources 9 all_sources
collect_order_example = collect_order collector sources 9 alarms_first all_sources alarms_first-Perm

collect_warnings_example :
    (collect collector sources 9 alarms_first).warnings
    ≡ codes "backups: denied"
      ∷ codes "cpu-metrics: source not configured"
      ∷ codes "healthy-backends: source not configured"
      ∷ codes "ingress: source not configured"
      ∷ codes "instances: source not configured"
      ∷ codes "memory-metrics: source not configured"
      ∷ codes "unhealthy-backends: source not configured"
      ∷ codes "uptime-metrics: source not configured"
      ∷ []
unfolding sort_strings sort_by insert_by str_lt failures
collect_warnings_example = collect_warnings collector sources 9 alarms_first alarms_first-Perm

collect-IsUnknown_example :
    IsUnknown collector src_backups (collect collector sources 9 alarms_first)
collect-IsUnknown_example =
    collect-IsUnknown collector sources 9 alarms_first src_backups (codes "denied") refl

abbrev datapoint : Str → ℕ → ℕ → Series
datapoint node t v = record { dimensions = (codes "instance", node) ∷ []; timestamp = t; value = v }

latest_by_dimension-newest_example :
    lookup (codes "a") (
      latest_by_dimension
        (datapoint (codes "a") 5 1
          ∷ datapoint (codes "b") 9 2
          ∷ datapoint (codes "a") 7 3
          ∷ datapoint (codes "a") 7 4
          ∷ [])
        (codes "instance"))
    ≡ some (7, 3)
unfolding newest_in keep str_eq lookup
latest_by_dimension-newest_example =
    latest_by_dimension-newest (codes "instance") (codes "a")
      (datapoint (codes "a") 5 1
        ∷ datapoint (codes "b") 9 2
        ∷ datapoint (codes "a") 7 3
        ∷ datapoint (codes "a") 7 4
        ∷ [])
      refl

abbrev backup : Str → ℕ → ObjectInfo
backup name t = record { name = name; size = pos 10; modified = t }

abbrev stored : List ObjectInfo
stored = backup (codes "sqlite/1") 5 ∷ backup (codes "sqlite/2") 8 ∷ backup (codes "stray") 9 ∷ []

abbrev prefixes : List Str
prefixes = codes "sqlite/" ∷ codes "gitops" ∷ []

summarise_backups-rows_example :
    ((summarise_backups (codes "b") prefixes stored).object_count ≡ some 3)
    × ((summarise_backups (codes "b") prefixes stored).streams
        ≡ record { prefix = codes "sqlite/"; count = 2; newest = some 8 }
          ∷ record { prefix = codes "gitops"; count = 0; newest = none }
          ∷ [])
unfolding keep stream_of has_prefix cut_prefix trim_suffix str_eq latest_time
summarise_backups-rows_example = summarise_backups-rows (codes "b") prefixes stored
