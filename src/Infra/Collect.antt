-- ===== src/Infra/Collect.antt =====
-- internal/infra/collect.go: the collector. What a source yields within the call's timeout is a function
-- of the call. Each read ends at some time of its own, in any order; what it writes then, under the
-- mutex, is its own field and its own key of `ok`, which nothing reads before every read has ended, and
-- a warning. Floats enter by their operations, and Go's iteration over a map by what it does to the
-- entries.
pub mod Newest
use tinycloud_platform.Base.{
  ℕ, ◌+◌, ◌*◌, ◌==◌, Bool, true, false, not, ◌&&◌, ◌||◌, Option, none, some, List, [], ◌∷◌, ◌++◌,
  map, ltb, if◌then◌else◌, Str, codes, str_eq, is_empty, StrMap, lookup, insert, ℤ, pos, add64, ◌⊎◌,
  inl, inr, sort_by, sort_strings,
}
use tinycloud_platform.Text.{Unicode, to_lower, to_upper, contains, has_prefix, trim_suffix}
use tinycloud_platform.Infra.Types.{
  Float, InstanceInfo, Series, AlarmStatus, ObjectInfo, cpu_utilization, memory_utilization,
  healthy_backends, unhealthy_backends, uptime_availability,
}
use tinycloud_platform.Infra.Snapshot.{
  role_control_plane, role_worker, role_utility, Node, Alarm, Ingress, Stream, Backups, Uptime,
  Snapshot, new_snapshot,
}

pub record Config : Type 0 where
  pub compartment_id : Str
  pub network_load_balancer_id : Str
  pub object_storage_namespace : Str
  pub bucket : Str
  pub backup_prefixes : List Str
  pub call_timeout : ℕ

abbrev pub default_config : Config
default_config = record {
  compartment_id = [];
  network_load_balancer_id = [];
  object_storage_namespace = [];
  bucket = [];
  backup_prefixes = codes "sqlite" ∷ codes "gitops" ∷ codes "coordinator" ∷ [];
  call_timeout = 5000000000;
}

abbrev pub overridden : Str → Str → Str
overridden v d = if is_empty v then d else v

unfoldable pub config_with_overrides : Str → Str → Str → Str → Config
config_with_overrides compartment_id nlb_id namespace bucket = record default_config {
  compartment_id = overridden compartment_id default_config.compartment_id;
  network_load_balancer_id = overridden nlb_id default_config.network_load_balancer_id;
  object_storage_namespace = overridden namespace default_config.object_storage_namespace;
  bucket = overridden bucket default_config.bucket;
}

-- x + y, x > y and int(x)
pub record Floats : Type 0 where
  pub add : Float → Float → Float
  pub above : Float → Float → Bool
  pub to_int : Float → ℤ

-- A nil source is none; an error is the inl of its text.
pub record Sources : Type 0 where
  pub instances : Option (Str ⊎ List InstanceInfo)
  pub metrics : Option (Str → ℕ → Str ⊎ List Series)
  pub alarms : Option (Str ⊎ List AlarmStatus)
  pub ingress : Option (Str ⊎ Str)
  pub backups : Option (Str ⊎ List ObjectInfo)

pub data Source : Type 0 where
  src_instances src_alarms src_ingress src_backups src_cpu src_memory src_healthy src_unhealthy
        src_uptime :
      Source

abbrev pub source_name : Source → Str
source_name src_instances = codes "instances"
source_name src_alarms = codes "alarms"
source_name src_ingress = codes "ingress"
source_name src_backups = codes "backups"
source_name src_cpu = codes "cpu-metrics"
source_name src_memory = codes "memory-metrics"
source_name src_healthy = codes "healthy-backends"
source_name src_unhealthy = codes "unhealthy-backends"
source_name src_uptime = codes "uptime-metrics"

abbrev pub all_sources : List Source
all_sources =
    src_instances ∷ src_alarms ∷ src_ingress ∷ src_backups ∷ src_cpu ∷ src_memory ∷ src_healthy
    ∷ src_unhealthy ∷ src_uptime ∷ []

-- The type of a source's field in `collectResult`.
abbrev pub Payload : Source → Type 0
Payload src_instances = List InstanceInfo
Payload src_alarms = List AlarmStatus
Payload src_ingress = Str
Payload src_backups = List ObjectInfo
Payload src_cpu = List Series
Payload src_memory = List Series
Payload src_healthy = List Series
Payload src_unhealthy = List Series
Payload src_uptime = List Series

abbrev pub no_payload : (s : Source) → Payload s
no_payload src_instances = []
no_payload src_alarms = []
no_payload src_ingress = []
no_payload src_backups = []
no_payload src_cpu = []
no_payload src_memory = []
no_payload src_healthy = []
no_payload src_unhealthy = []
no_payload src_uptime = []

abbrev pub no_source : Str
no_source = codes "source not configured"

abbrev pub configured : {A : Type 0} → Option (Str ⊎ A) → Str ⊎ A
configured none = inl no_source
configured (some a) = a

abbrev pub metric : Option (Str → ℕ → Str ⊎ List Series) → Str → ℕ → Str ⊎ List Series
metric none name window = inl no_source
metric (some query) name window = query name window

abbrev pub compute_window : ℕ
compute_window = 1200000000000

abbrev pub ingress_window : ℕ
ingress_window = 1200000000000

abbrev pub uptime_window : ℕ
uptime_window = 10800000000000

-- What the read of a source yields.
abbrev pub answer : Sources → (s : Source) → Str ⊎ Payload s
answer src src_instances = configured src.instances
answer src src_alarms = configured src.alarms
answer src src_ingress = configured src.ingress
answer src src_backups = configured src.backups
answer src src_cpu = metric src.metrics cpu_utilization compute_window
answer src src_memory = metric src.metrics memory_utilization compute_window
answer src src_healthy = metric src.metrics healthy_backends ingress_window
answer src src_unhealthy = metric src.metrics unhealthy_backends ingress_window
answer src src_uptime = metric src.metrics uptime_availability uptime_window

-- `field s` is the field that the read of `s` writes.
pub record CollectResult : Type 0 where
  pub field : (s : Source) → Payload s
  pub ok : Source → Bool
  pub warnings : List Str

abbrev pub no_result : CollectResult
no_result = record { field = no_payload; ok = λ s. false; warnings = [] }

unfoldable pub same : Source → Source → Bool
unfolding str_eq
same s t = str_eq (source_name s) (source_name t)

abbrev pub payload_or : {A : Type 0} → A → Str ⊎ A → A
payload_or old (inl e) = old
payload_or old (inr p) = p

abbrev pub warning : Source → Str → Str
warning s e = source_name s ++ codes ": " ++ e

-- The read of `s` ends: it writes its field and `succeed`s, or it `fail`s.
abbrev pub ended : Sources → Source → {A : Type 0} → Str ⊎ A → CollectResult → CollectResult
ended src s (inl e) r = record r { warnings = r.warnings ++ warning s e ∷ [] }
ended src s (inr p) r = record r {
  field = λ t. if same s t then payload_or (r.field t) (answer src t) else r.field t;
  ok = λ t. if same s t then true else r.ok t;
}

-- The reads end in this order.
unfoldable pub fan_out : Sources → List Source → CollectResult → CollectResult
unfolding same
fan_out src [] r = r
fan_out src (s ∷ order) r = fan_out src order (ended src s (answer src s) r)

unfoldable pub role_for : Unicode → Str → Str
unfolding to_lower contains
role_for u name =
    let n = to_lower u name in
    if contains n (codes "control")
    then role_control_plane
    else if contains n (codes "worker")
    then role_worker
    else role_utility

unfoldable pub is_ampere : Unicode → Str → Bool
unfolding to_upper contains
is_ampere u shape = contains (to_upper u shape) (codes ".A1.")

-- m[k], the empty string when it is missing
abbrev pub or_empty : Option Str → Str
or_empty none = []
or_empty (some v) = v

abbrev pub is_newer : ℕ → Option (ℕ × Float) → Bool
is_newer t none = true
is_newer t (some (seen, v)) = ltb seen t

-- The maps `newest` and `out` in one.
unfoldable pub latest_from : Str → List Series → StrMap (ℕ × Float) → StrMap (ℕ × Float)
unfolding lookup insert
latest_from dimension [] m = m
latest_from dimension (s ∷ series) m =
    let key = or_empty (lookup dimension s.dimensions) in
    latest_from dimension series (
      if is_empty key || not (is_newer s.timestamp (lookup key m))
      then m
      else insert key (s.timestamp, s.value) m)

unfoldable pub latest_by_dimension : List Series → Str → StrMap (ℕ × Float)
unfolding latest_from
latest_by_dimension series dimension = latest_from dimension series []

abbrev pub value_of : Option (ℕ × Float) → Option Float
value_of none = none
value_of (some (t, v)) = some v

unfoldable pub greatest : Floats → Float → List Series → Float
greatest fl best [] = best
greatest fl best (s ∷ series) = greatest fl (if fl.above s.value best then s.value else best) series

-- 0.5
abbrev pub half : Float
half = 4602678819172646912

unfoldable pub max_across_series : Floats → List Series → Option ℤ
unfolding greatest
max_across_series fl [] = none
max_across_series fl (s ∷ series) = some (fl.to_int (fl.add (greatest fl s.value series) half))
