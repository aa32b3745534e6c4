-- ===== src/Infra/Types.antt =====
-- internal/infra/collect.go: what a Provider reports, and the names of the metrics. A float64 is kept as
-- its 64 bits, a time.Time as the nanoseconds since the zero time.
use tinycloud_platform.Base.{ℕ, List, [], ◌∷◌, Str, codes, StrMap, ℤ}

abbrev pub Float : Type 0
Float = ℕ

pub record InstanceInfo : Type 0 where
  pub id : Str
  pub name : Str
  pub state : Str
  pub shape : Str
  pub ocpus : Float
  pub memory_gb : Float
  pub fault_domain : Str
  pub private_ip : Str

pub record Series : Type 0 where
  pub dimensions : StrMap Str
  pub timestamp : ℕ
  pub value : Float

pub record AlarmStatus : Type 0 where
  pub name : Str
  pub severity : Str
  pub status : Str

pub record ObjectInfo : Type 0 where
  pub name : Str
  pub size : ℤ
  pub modified : ℕ

abbrev pub cpu_utilization : Str
cpu_utilization = codes "cpu.utilization"

abbrev pub memory_utilization : Str
memory_utilization = codes "memory.utilization"

abbrev pub healthy_backends : Str
healthy_backends = codes "ingress.healthy_backends"

abbrev pub unhealthy_backends : Str
unhealthy_backends = codes "ingress.unhealthy_backends"

abbrev pub uptime_availability : Str
uptime_availability = codes "uptime.availability"

abbrev pub metric_names : List Str
metric_names =
    cpu_utilization ∷ memory_utilization ∷ healthy_backends ∷ unhealthy_backends
    ∷ uptime_availability ∷ []
