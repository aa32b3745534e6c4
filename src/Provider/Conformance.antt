-- ===== src/Provider/Conformance.antt =====
-- internal/conformance/conformance.go: the suite that runs the contract against a Provider. The transport
-- is that of a client, with the suite's timeout; `Reader` says what becomes of the body of a response, of
-- which four mebibytes are read. Decoding is json.Unmarshal. The printed report is left out.
pub mod Sound
pub mod Lawful
use tinycloud_platform.Base.{
  ℕ, ◌==◌, Bool, true, false, not, Option, none, some, List, [], ◌∷◌, ◌++◌, ltb, if◌then◌else◌, Str,
  codes, str_eq, is_empty, StrMap, any, all, map, length, take, ◌⊎◌, inl, inr, sort_strings,
}
use tinycloud_platform.Text.{trim_suffix, quote, decimal}
use tinycloud_platform.Infra.Types.{cpu_utilization, metric_names}
use tinycloud_platform.Provider.Config.{
  Slot, instances, metrics, alarms, ingress, backups, capability, kind_infra, infra_slots,
}
use tinycloud_platform.Provider.Contract.{
  Request, Json, path_capabilities, path_for, valid_capability,
}
use tinycloud_platform.Provider.Client.{Exchange, unreachable, replied, Transport}

-- What io.ReadAll makes of a body, its trimmed text, and json.Unmarshal's error at it.
pub record Reader (R : Type 0) : Type 0 where
  pub failed : R → Option Str
  pub limited : R → R
  pub text : R → Str
  pub unmarshal_error : R → Str

pub data Outcome : Type 0 where
  pass not_implemented fail : Outcome

pub record Result : Type 0 where
  pub about : Str
  pub outcome : Outcome
  pub detail : Str

pub record Report : Type 0 where
  pub provider : Str
  pub kind : Str
  pub declared : List Str
  pub results : List Result

abbrev pub is_fail : Outcome → Bool
is_fail pass = false
is_fail not_implemented = false
is_fail fail = true

unfoldable pub passed : Report → Bool
unfolding all
passed r = all (λ result. not (is_fail result.outcome)) r.results

pub record Suite : Type 0 where
  pub base_url : Str
  pub token : Str

unfoldable pub new_suite : Str → Str → Suite
unfolding trim_suffix
new_suite base_url token = record { base_url = trim_suffix base_url (codes "/"); token = token }

abbrev pub failure : Str → Str → Result
failure about detail = record { about = about; outcome = fail; detail = detail }

abbrev pub success : Str → Outcome → Result
success about outcome = record { about = about; outcome = outcome; detail = [] }

abbrev pub shortened : Str → Str
shortened text = if ltb 200 (length text) then take 200 text ++ 0xe2 ∷ 0x80 ∷ 0xa6 ∷ [] else text

unfoldable pub snippet : {R : Type 0} → Reader R → R → Str
snippet rd raw = shortened (rd.text raw)

abbrev pub request_by : Suite → Str → StrMap Str → Str → Request
request_by s path query authorization = record {
  method = codes "GET";
  base = s.base_url;
  path = path;
  query = query;
  authorization = authorization;
}

abbrev pub header_of : Suite → Str
header_of s = if is_empty s.token then [] else codes "Bearer " ++ s.token

abbrev pub body_of : {R : Type 0} → Option Str → ℕ → R → Str ⊎ (ℕ × R)
body_of (some e) code raw = inl e
body_of none code raw = inr (code, raw)

abbrev pub body_read : {R : Type 0} → Reader R → Exchange R → Str ⊎ (ℕ × R)
body_read rd (unreachable e) = inl e
body_read rd (replied code status raw) = body_of (rd.failed raw) code (rd.limited raw)

-- The status and the body, or the error.
unfoldable pub suite_get :
    {R : Type 0} → Transport R → Reader R → Suite → Str → StrMap Str → Str ⊎ (ℕ × R)
suite_get net rd s path query = elim (net.invalid (request_by s path query [])) [
  | some e ↦ inl e
  | none ↦ body_read rd (net.send (request_by s path query (header_of s)))
]

abbrev pub authentication_result : {R : Type 0} → Exchange R → Result
authentication_result (unreachable e) = failure (codes "authentication") e
authentication_result (replied code status raw) =
    if code == 401
    then success (codes "authentication") pass
    else failure (codes "authentication")
        (codes "a request with no bearer token got " ++ decimal code ++ codes ", expected 401")

unfoldable pub check_authentication : {R : Type 0} → Transport R → Suite → Result
unfolding decimal
check_authentication net s = elim (net.invalid (request_by s path_capabilities [] [])) [
  | some e ↦ failure (codes "authentication") e
  | none ↦ authentication_result (net.send (request_by s path_capabilities [] []))
]

-- A field that must be there.
abbrev pub field_detail : {R A : Type 0} → Reader R → R → Str → Option (Option A) → Str
field_detail rd raw missing none =
    codes "response is not the documented shape: " ++ rd.unmarshal_error raw
field_detail rd raw missing (some none) = missing
field_detail rd raw missing (some (some a)) = []

unfoldable pub check_body : (j : Json) → Reader j.Raw → Slot → j.Raw → Str
check_body j rd instances raw =
    field_detail rd raw (codes "response has no `instances` array") (j.decode_instances raw)
check_body j rd metrics raw =
    field_detail rd raw (codes "response has no `series` array") (j.decode_series raw)
check_body j rd alarms raw =
    field_detail rd raw (codes "response has no `alarms` array") (j.decode_alarms raw)
check_body j rd ingress raw =
    field_detail rd raw
      (codes "response has no `publicIp` field; an address still pending is the empty string")
      (j.decode_ingress raw)
check_body j rd backups raw =
    field_detail rd raw (codes "response has no `objects` array") (j.decode_backups raw)

abbrev pub metric_query : Str → StrMap Str
metric_query metric = (codes "metric", metric) ∷ (codes "window", codes "300") ∷ []

abbrev pub metric_detail : (j : Json) → Reader j.Raw → Str → Str ⊎ (ℕ × j.Raw) → Str
metric_detail j rd metric (inl e) = codes "metric " ++ metric ++ codes ": " ++ e
metric_detail j rd metric (inr (status, raw)) =
    if not (status == 200)
    then codes "metric "
      ++ metric
      ++ codes ": expected 200, got "
      ++ decimal status
      ++ codes ": "
      ++ snippet rd raw
    else if is_empty (check_body j rd metrics raw)
    then []
    else codes "metric " ++ metric ++ codes ": " ++ check_body j rd metrics raw

unfoldable pub metric_details : (j : Json) → Transport j.Raw → Reader j.Raw → Suite → List Str → Str
unfolding suite_get check_body snippet decimal
metric_details j net rd s [] = []
metric_details j net rd s (m ∷ ms) =
    let d = metric_detail j rd m (suite_get net rd s (path_for metrics) (metric_query m)) in
    let rest = metric_details j net rd s ms in if is_empty d then rest else d

-- That a request is refused with 400; `what` names it.
abbrev pub refusal_detail : {R : Type 0} → Str → Str ⊎ (ℕ × R) → Str
refusal_detail what (inl e) = e
refusal_detail what (inr (status, raw)) =
    if not (status == 400)
    then what ++ codes " got " ++ decimal status ++ codes ", expected 400"
    else []

abbrev pub first_detail : Str → Str → Str
first_detail d e = if is_empty d then e else d

unfoldable pub check_every_metric : (j : Json) → Transport j.Raw → Reader j.Raw → Suite → Str
unfolding metric_details suite_get decimal
check_every_metric j net rd s = first_detail (metric_details j net rd s metric_names) (
    first_detail
      (refusal_detail (codes "a metric the contract does not define")
        (suite_get net rd s (path_for metrics) (metric_query (codes "not.a.contract.metric"))))
      (refusal_detail (codes "a request with no window")
        (suite_get net rd s (path_for metrics) ((codes "metric", cpu_utilization) ∷ []))))

abbrev pub query_for : Slot → StrMap Str
query_for metrics = metric_query cpu_utilization
query_for _ = []

abbrev pub every_metric_detail : (j : Json) → Transport j.Raw → Reader j.Raw → Suite → Slot → Str
every_metric_detail j net rd s metrics = check_every_metric j net rd s
every_metric_detail j net rd s _ = []

abbrev pub detail_result : Slot → Str → Result
detail_result slot d =
    if is_empty d then success (capability slot) pass else failure (capability slot) d

abbrev pub capability_result :
    (j : Json) → Transport j.Raw → Reader j.Raw → Suite → Slot → Bool → Str ⊎ (ℕ × j.Raw) → Result
capability_result j net rd s slot declared (inl e) = failure (capability slot) e
capability_result j net rd s slot false (inr (status, raw)) =
    if not (status == 501)
    then failure (capability slot) (
        codes "not declared in capability discovery, so it must answer 501, but answered "
        ++ decimal status)
    else success (capability slot) not_implemented
capability_result j net rd s slot true (inr (status, raw)) =
    if status == 501
    then failure (capability slot) (codes "declared in capability discovery but answers 501")
    else if not (status == 200)
    then failure (capability slot)
        (codes "expected 200, got " ++ decimal status ++ codes ": " ++ snippet rd raw)
    else detail_result slot
        (first_detail (check_body j rd slot raw) (every_metric_detail j net rd s slot))

unfoldable pub check_capability :
    (j : Json) → Transport j.Raw → Reader j.Raw → Suite → Slot → Bool → Result
unfolding suite_get check_body check_every_metric snippet decimal
check_capability j net rd s slot declared =
    capability_result j net rd s slot declared (suite_get net rd s (path_for slot) (query_for slot))

abbrev pub classified : Str → Report → Report
classified c r =
    if not (valid_capability c)
    then record r {
      results =
          r.results ++ failure c (codes "declared capability is not one the contract defines") ∷ [];
    }
    else record r { declared = r.declared ++ c ∷ [] }

unfoldable pub classify : List Str → Report → Report
unfolding valid_capability
classify [] r = r
classify (c ∷ cs) r = classify cs (classified c r)

abbrev pub no_report : Report
no_report = record { provider = []; kind = []; declared = []; results = [] }

unfoldable pub checked_report :
    (j : Json) → Transport j.Raw → Reader j.Raw → Suite → Report → Report
unfolding any sort_strings check_authentication check_capability
checked_report j net rd s r = record r {
  declared = sort_strings r.declared;
  results =
      r.results
      ++ check_authentication net s
        ∷ map (λ slot. check_capability j net rd s slot (any (str_eq (capability slot)) r.declared))
            infra_slots;
}

abbrev pub capabilities_list : Option (List Str) → List Str
capabilities_list none = []
capabilities_list (some cs) = cs

abbrev pub discovery_report :
    (j : Json)
    → Transport j.Raw
    → Reader j.Raw
    → (Str → Str)
    → Suite
    → j.Raw
    → Option (Str × Str × Option (List Str))
    → Report × Option Str
discovery_report j net rd q s raw none = (
  no_report,
  some (
      codes "capability discovery: response is not the documented shape: "
      ++ rd.unmarshal_error raw),
)
discovery_report j net rd q s raw (some (kind, name, cs)) =
    if not (str_eq kind kind_infra)
    then (
      no_report,
      some (
          codes "capability discovery: kind "
          ++ quote q kind
          ++ codes " is not "
          ++ quote q kind_infra),
    )
    else (
      checked_report j net rd s
          (classify (capabilities_list cs) (record no_report { provider = name; kind = kind })),
      none,
    )

abbrev pub discovery_answer :
    (j : Json)
    → Transport j.Raw
    → Reader j.Raw
    → (Str → Str)
    → Suite
    → Str ⊎ (ℕ × j.Raw)
    → Report × Option Str
discovery_answer j net rd q s (inl e) = (no_report, some (codes "capability discovery: " ++ e))
discovery_answer j net rd q s (inr (status, raw)) =
    if not (status == 200)
    then (
      no_report,
      some (
          codes "capability discovery: expected 200, got "
          ++ decimal status
          ++ codes ": "
          ++ snippet rd raw),
    )
    else discovery_report j net rd q s raw (j.decode_capabilities raw)

-- The report, and the error when the Provider could not be asked what it serves.
unfoldable pub run :
    (j : Json) → Transport j.Raw → Reader j.Raw → (Str → Str) → Suite → Report × Option Str
unfolding suite_get classify checked_report quote decimal snippet
run j net rd q s = discovery_answer j net rd q s (suite_get net rd s path_capabilities [])
