-- ===== src/Provider/Contract.antt =====
-- internal/provider/provider.go and wire.go: the Provider contract `/v0`. The JSON encoding is an
-- interface, `Json`: `Raw` is a response body as it travels.
use tinycloud_platform.Base.{
  ℕ, Bool, Option, some, List, ◌++◌, Str, codes, StrMap, ℤ, any, str_eq, is_empty, if◌then◌else◌,
  ◌≡◌, map,
}
use tinycloud_platform.Text.{quote}
use tinycloud_platform.Infra.Types.{InstanceInfo, Series, AlarmStatus, ObjectInfo, metric_names}
use tinycloud_platform.Provider.Config.{
  Slot, instances, metrics, alarms, ingress, backups, capability, infra_slots,
}

-- An error with its text; `errors.Is(err, ErrNotImplemented)` holds of the first kind only.
pub data ProviderError : Type 0 where
  not_implemented : Str → ProviderError
  other : Str → ProviderError

pub data Answer (A : Type 0) : Type 0 where
  answered : A → Answer A
  failed : ProviderError → Answer A

-- The interface `Infra`: what the Provider answers when it is asked. A nil slice is `none`; the window
-- of a metric is a time.Duration.
pub record Infra : Type 0 where
  pub name : Str
  pub capabilities : List Str
  pub instances : Answer (Option (List InstanceInfo))
  pub metric : Str → ℤ → Answer (Option (List Series))
  pub alarms : Answer (Option (List AlarmStatus))
  pub ingress_address : Answer Str
  pub backup_objects : Answer (Option (List ObjectInfo))

pub data Body : Type 0 where
  health_body : Body
  capabilities_body : Str → Str → Option (List Str) → Body
  instances_body : Option (List InstanceInfo) → Body
  series_body : Option (List Series) → Body
  alarms_body : Option (List AlarmStatus) → Body
  ingress_body : Str → Body
  backups_body : Option (List ObjectInfo) → Body
  error_body : Str → Str → Body

-- A request of the contract. `base` is what stands in front of the path, `authorization` is empty
-- without the header.
pub record Request : Type 0 where
  pub method : Str
  pub base : Str
  pub path : Str
  pub query : StrMap Str
  pub authorization : Str

pub record Response : Type 0 where
  pub status : ℕ
  pub body : Body

-- encoding/json. A decoder yields none at an error; a field that is missing or null is an inner none.
-- `decode_failure` is the text of such an error; `limit n` is the first n bytes of a body; `decode_error` and
-- `text` are the message and the trimmed text of an error's body.
pub record Json : Type 1 where
  pub Raw : Type 0
  pub encode : Body → Raw
  pub decode_capabilities : Raw → Option (Str × Str × Option (List Str))
  pub decode_instances : Raw → Option (Option (List InstanceInfo))
  pub decode_series : Raw → Option (Option (List Series))
  pub decode_alarms : Raw → Option (Option (List AlarmStatus))
  pub decode_ingress : Raw → Option (Option Str)
  pub decode_backups : Raw → Option (Option (List ObjectInfo))
  pub decode_failure : Raw → Str
  pub limit : ℕ → Raw → Raw
  pub decode_error : Raw → Str
  pub text : Raw → Str

-- That a body is read as it was written; of an error's body 8 KiB are read. Not every body is: a byte that
-- is no UTF-8 is replaced by the encoder.
unfoldable pub Decodes : Json → Body → Type 0
Decodes j health_body = Unit
Decodes j (capabilities_body kind name cs) =
    j.decode_capabilities (j.encode (capabilities_body kind name cs)) ≡ some (kind, name, cs)
Decodes j (instances_body l) = j.decode_instances (j.encode (instances_body l)) ≡ some l
Decodes j (series_body l) = j.decode_series (j.encode (series_body l)) ≡ some l
Decodes j (alarms_body l) = j.decode_alarms (j.encode (alarms_body l)) ≡ some l
Decodes j (ingress_body ip) = j.decode_ingress (j.encode (ingress_body ip)) ≡ some (some ip)
Decodes j (backups_body l) = j.decode_backups (j.encode (backups_body l)) ≡ some l
Decodes j (error_body code message) =
    j.decode_error (j.limit 8192 (j.encode (error_body code message))) ≡ message

abbrev pub path_health : Str
path_health = codes "/healthz"

abbrev pub path_capabilities : Str
path_capabilities = codes "/v0/capabilities"

abbrev pub path_for : Slot → Str
path_for instances = codes "/v0/infra/instances"
path_for metrics = codes "/v0/infra/metrics"
path_for alarms = codes "/v0/infra/alarms"
path_for ingress = codes "/v0/infra/ingress"
path_for backups = codes "/v0/infra/backups"

unfoldable pub valid_metric : Str → Bool
unfolding any
valid_metric name = any (str_eq name) metric_names

abbrev pub infra_capabilities : List Str
infra_capabilities = map capability infra_slots

unfoldable pub valid_capability : Str → Bool
unfolding any
valid_capability name = any (str_eq name) infra_capabilities

unfoldable pub not_implemented_by : (Str → Str) → Str → Str → ProviderError
unfolding quote
not_implemented_by q cap name = not_implemented (
    if is_empty name
    then codes "capability " ++ quote q cap ++ codes " is served by no configured provider"
    else codes "provider "
      ++ quote q name
      ++ codes " does not implement the "
      ++ quote q cap
      ++ codes " capability")
