-- ===== src/Infra/Snapshot.antt =====
-- internal/infra/snapshot.go: the snapshot of the infrastructure. A pointer that may be nil is an Option;
-- the slices are never nil but for the warnings, which are left out of the payload when there are none.
use tinycloud_platform.Base.{ℕ, Bool, false, Option, none, List, [], Str, codes, ℤ}
use tinycloud_platform.Infra.Types.{Float}

-- 2.0 and 12.0
abbrev pub ampere_ocpu_total : Float
ampere_ocpu_total = 4611686018427387904

abbrev pub ampere_memory_gb_total : Float
ampere_memory_gb_total = 4622945017495814144

abbrev pub object_storage_total_bytes : ℕ
object_storage_total_bytes = 21474836480

abbrev pub role_control_plane : Str
role_control_plane = codes "control-plane"

abbrev pub role_worker : Str
role_worker = codes "worker"

abbrev pub role_utility : Str
role_utility = codes "utility"

pub record Node : Type 0 where
  pub name : Str
  pub state : Str
  pub shape : Str
  pub ocpus : Float
  pub memory_gb : Float
  pub fault_domain : Str
  pub private_ip : Str
  pub cpu_percent : Option Float
  pub memory_percent : Option Float
  pub role : Str

pub record Alarm : Type 0 where
  pub name : Str
  pub severity : Str
  pub status : Str

pub record Ingress : Type 0 where
  pub public_ip : Str
  pub healthy_backends : Option ℤ
  pub unhealthy_backends : Option ℤ

pub record Stream : Type 0 where
  pub prefix : Str
  pub count : ℕ
  pub newest : Option ℕ

pub record Backups : Type 0 where
  pub bucket : Str
  pub object_count : Option ℕ
  pub size_bytes : Option ℤ
  pub streams : List Stream

pub record Uptime : Type 0 where
  pub monitor : Str
  pub target : Str
  pub availability : Option Float

pub record Capacity : Type 0 where
  pub ampere_ocpu_used : Option Float
  pub ampere_ocpu_total : Float
  pub ampere_memory_gb_used : Option Float
  pub ampere_memory_gb_total : Float
  pub object_storage_used_bytes : Option ℤ
  pub object_storage_total_bytes : ℕ

pub record Snapshot : Type 0 where
  pub updated_at : ℕ
  pub stale : Bool
  pub nodes : List Node
  pub alarms : List Alarm
  pub ingress : Option Ingress
  pub backups : Option Backups
  pub uptime : List Uptime
  pub capacity : Capacity
  pub warnings : List Str

abbrev pub new_snapshot : ℕ → Snapshot
new_snapshot now = record {
  updated_at = now;
  stale = false;
  nodes = [];
  alarms = [];
  ingress = none;
  backups = none;
  uptime = [];
  capacity = record {
    ampere_ocpu_used = none;
    ampere_ocpu_total = ampere_ocpu_total;
    ampere_memory_gb_used = none;
    ampere_memory_gb_total = ampere_memory_gb_total;
    object_storage_used_bytes = none;
    object_storage_total_bytes = object_storage_total_bytes;
  };
  warnings = [];
}
