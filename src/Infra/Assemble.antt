-- ===== src/Infra/Assemble.antt =====
-- internal/infra/collect.go: the assembly of the snapshot from what the reads have written. `iterate` is
-- the order in which Go goes through the monitors, which is left open; `sort.Slice` is that of up to
-- twelve elements.
pub mod Order
pub mod Failures
pub mod Streams
use tinycloud_platform.Base.{
  ℕ, ◌+◌, ◌==◌, Bool, true, false, not, ◌&&◌, ◌||◌, Option, none, some, List, [], ◌∷◌, ◌++◌, map,
  ltb, if◌then◌else◌, Str, codes, str_eq, is_empty, StrMap, lookup, insert, ℤ, pos, add64, sort_by,
  sort_strings,
}
use tinycloud_platform.Text.{Unicode, has_prefix, trim_suffix}
use tinycloud_platform.Infra.Types.{Float, InstanceInfo, Series, AlarmStatus, ObjectInfo}
use tinycloud_platform.Infra.Snapshot.{
  Node, Alarm, Ingress, Stream, Backups, Uptime, Capacity, Snapshot, new_snapshot,
}
use tinycloud_platform.Infra.Collect.{
  Config, Floats, Sources, Source, src_instances, src_alarms, src_ingress, src_backups, src_cpu,
  src_memory, src_healthy, src_unhealthy, src_uptime, CollectResult, no_result, fan_out, role_for,
  is_ampere, or_empty, latest_by_dimension, value_of, max_across_series,
}

-- The counters of `summariseBackups`.
pub record BackupCounts : Type 0 where
  pub total : ℕ
  pub size : ℤ
  pub counts : StrMap ℕ
  pub newest : StrMap ℕ

abbrev pub no_counts : BackupCounts
no_counts = record { total = 0; size = pos 0; counts = []; newest = [] }

abbrev pub or_zero : Option ℕ → ℕ
or_zero none = 0
or_zero (some n) = n

-- The prefix at which the inner loop stops.
unfoldable pub stream_of : List Str → Str → Option Str
unfolding has_prefix trim_suffix
stream_of [] name = none
stream_of (p ∷ prefixes) name =
    let rest = stream_of prefixes name in
    if has_prefix name (trim_suffix p (codes "/") ++ codes "/") then some p else rest

abbrev pub newer : Str → ℕ → StrMap ℕ → StrMap ℕ
newer p t newest = if ltb (or_zero (lookup p newest)) t then insert p t newest else newest

abbrev pub counted_in : Option Str → ObjectInfo → BackupCounts → BackupCounts
counted_in none o b = record b { total = b.total + 1; size = add64 b.size o.size }
counted_in (some p) o b = record {
  total = b.total + 1;
  size = add64 b.size o.size;
  counts = insert p (or_zero (lookup p b.counts) + 1) b.counts;
  newest = newer p o.modified b.newest;
}

unfoldable pub count_objects : List Str → List ObjectInfo → BackupCounts → BackupCounts
unfolding stream_of lookup insert add64
count_objects prefixes [] b = b
count_objects prefixes (o ∷ objects) b =
    count_objects prefixes objects (counted_in (stream_of prefixes o.name) o b)

abbrev pub unless_zero : Option ℕ → Option ℕ
unless_zero none = none
unless_zero (some t) = if t == 0 then none else some t

unfoldable pub stream_row : BackupCounts → Str → Stream
unfolding lookup
stream_row b p = record {
  prefix = p;
  count = or_zero (lookup p b.counts);
  newest = unless_zero (lookup p b.newest);
}

unfoldable pub summarise_backups : Str → List Str → List ObjectInfo → Backups
unfolding count_objects stream_row
summarise_backups bucket prefixes objects =
    let b = count_objects prefixes objects no_counts in
    record {
      bucket = bucket;
      object_count = some b.total;
      size_bytes = some b.size;
      streams = map (stream_row b) prefixes;
    }

-- A monitor and its target.
abbrev pub Key : Type 0
Key = Str × Str

abbrev pub key_eq : Key → Key → Bool
key_eq (a, b) (c, d) = str_eq a c && str_eq b d

-- newest[k] = s, unless a series of the key is as new
unfoldable pub put_newest : Key → Series → List (Key × Series) → List (Key × Series)
unfolding str_eq
put_newest k s [] = (k, s) ∷ []
put_newest k s ((j, old) ∷ m) =
    let rest = put_newest k s m in
    if key_eq j k
    then (if not (ltb old.timestamp s.timestamp) then (j, old) ∷ m else (k, s) ∷ m)
    else (j, old) ∷ rest

abbrev pub key_of : Series → Key
key_of s = (
  or_empty (lookup (codes "monitor") s.dimensions),
  or_empty (lookup (codes "target") s.dimensions),
)

unfoldable pub newest_series : List Series → List (Key × Series) → List (Key × Series)
unfolding put_newest lookup
newest_series [] m = m
newest_series (s ∷ series) m =
    newest_series series (if is_empty (key_of s).0 then m else put_newest (key_of s) s m)

abbrev pub uptime_of : Key × Series → Uptime
uptime_of ((monitor, target), s) = record {
  monitor = monitor;
  target = target;
  availability = some s.value;
}

unfoldable pub summarise_uptime :
    (List (Key × Series) → List (Key × Series)) → List Series → List Uptime
unfolding newest_series sort_by
summarise_uptime iterate series =
    sort_by (λ (e : Uptime). e.monitor) (map uptime_of (iterate (newest_series series [])))

abbrev pub if_ok : {A : Type 0} → Bool → Option A → Option A
if_ok true a = a
if_ok false a = none

unfoldable pub node_of : Unicode → CollectResult → InstanceInfo → Node
unfolding latest_by_dimension lookup role_for
node_of u res inst = record {
  name = inst.name;
  state = inst.state;
  shape = inst.shape;
  ocpus = inst.ocpus;
  memory_gb = inst.memory_gb;
  fault_domain = inst.fault_domain;
  private_ip = inst.private_ip;
  cpu_percent =
      if_ok (res.ok src_cpu)
        (value_of (lookup inst.name (latest_by_dimension (res.field src_cpu) (codes "instance"))));
  memory_percent =
      if_ok (res.ok src_memory) (
        value_of
          (lookup inst.name (latest_by_dimension (res.field src_memory) (codes "instance"))));
  role = role_for u inst.name;
}

-- The sum of a field over the Ampere instances.
unfoldable pub ampere_sum :
    Floats → Unicode → (InstanceInfo → Float) → List InstanceInfo → Float → Float
unfolding is_ampere
ampere_sum fl u part [] sum = sum
ampere_sum fl u part (inst ∷ insts) sum =
    ampere_sum fl u part insts (if is_ampere u inst.shape then fl.add sum (part inst) else sum)

abbrev pub alarm_of : AlarmStatus → Alarm
alarm_of a = record { name = a.name; severity = a.severity; status = a.status }

-- The backups' section when its source has not answered.
abbrev pub unknown_backups : Str → Backups
unknown_backups bucket = record {
  bucket = bucket;
  object_count = none;
  size_bytes = none;
  streams = [];
}

abbrev pub backups_if : Bool → Backups → Backups → Backups
backups_if true known unknown = known
backups_if false known unknown = unknown

abbrev pub uptime_if : Bool → List Uptime → List Uptime
uptime_if true u = u
uptime_if false u = []

-- What the collector is made of beside its sources.
pub record Collector : Type 0 where
  pub cfg : Config
  pub floats : Floats
  pub unicode : Unicode
  pub iterate : List (Key × Series) → List (Key × Series)

unfoldable pub assemble : Collector → ℕ → CollectResult → Snapshot
unfolding node_of ampere_sum max_across_series summarise_backups summarise_uptime sort_by
    sort_strings
assemble c now res =
    let known = summarise_backups c.cfg.bucket c.cfg.backup_prefixes (res.field src_backups) in
    let snap = new_snapshot now in
    record snap {
      nodes =
          sort_by (λ (n : Node). n.name) (map (node_of c.unicode res) (res.field src_instances));
      alarms = sort_by (λ (a : Alarm). a.name) (map alarm_of (res.field src_alarms));
      ingress = some (record {
        public_ip = res.field src_ingress;
        healthy_backends =
            if_ok (res.ok src_healthy) (max_across_series c.floats (res.field src_healthy));
        unhealthy_backends =
            if_ok (res.ok src_unhealthy) (max_across_series c.floats (res.field src_unhealthy));
      });
      backups = some (backups_if (res.ok src_backups) known (unknown_backups c.cfg.bucket));
      uptime = uptime_if (res.ok src_uptime) (summarise_uptime c.iterate (res.field src_uptime));
      capacity = record snap.capacity {
        ampere_ocpu_used = if_ok (res.ok src_instances) (
            some (
              ampere_sum c.floats c.unicode (λ (i : InstanceInfo). i.ocpus)
                (res.field src_instances) 0));
        ampere_memory_gb_used = if_ok (res.ok src_instances) (
            some (
              ampere_sum c.floats c.unicode (λ (i : InstanceInfo). i.memory_gb)
                (res.field src_instances) 0));
        object_storage_used_bytes = if_ok (res.ok src_backups) known.size_bytes;
      };
      warnings = sort_strings res.warnings;
    }

-- `Collect`, with the order in which the reads end.
unfoldable pub collect : Collector → Sources → ℕ → List Source → Snapshot
unfolding fan_out assemble
collect c src now order = assemble c now (fan_out src order no_result)
