-- ===== src/Provider/Conformance/Sound.antt =====
-- What a run of the suite that passes says of the Provider.
use tinycloud_platform.Base.{
  ℕ, codes, ◌==◌, ◌≡◌, refl, sym, ap, subst, ◌∙◌, Bool, true, false, not, ◌&&◌, Option, none, some,
  List, [], ◌∷◌, ◌++◌, arith, if◌then◌else◌, Str, str_eq, is_empty, any, all, map, All, ◌⊎◌, inl,
  inr, Bool-cases, Option-cases, sort_strings, any-sort_by,
}
use tinycloud_platform.Infra.Types.{metric_names, InstanceInfo, Series, AlarmStatus, ObjectInfo}
use tinycloud_platform.Provider.Config.{
  Slot, instances, metrics, alarms, ingress, backups, capability, kind_infra, infra_slots,
}
use tinycloud_platform.Provider.Contract.{Json, path_capabilities, path_for}
use tinycloud_platform.Provider.Client.{Exchange, unreachable, replied, Transport}
use tinycloud_platform.Provider.Conformance.{
  Reader, Result, is_fail, Report, passed, Suite, request_by, suite_get, check_authentication,
  authentication_result, check_body, metric_query, metric_detail, metric_details,
  check_every_metric, field_detail, first_detail, query_for, every_metric_detail, detail_result,
  capability_result, check_capability, checked_report, capabilities_list, classify, no_report,
  discovery_report, discovery_answer, run,
}

succeeds : Result → Bool
succeeds r = not (is_fail r.outcome)

and_true : (a b : Bool) → a && b ≡ true → (a ≡ true) × (b ≡ true)
and_true true b h = (refl, h)
and_true false b h = cc

all-All : (xs ys : List Result) → all succeeds (xs ++ ys) ≡ true → All (λ r. succeeds r ≡ true) ys
unfolding all
all-All [] [] h = tt
all-All [] (y ∷ ys) h =
    let (e, es) = and_true (succeeds y) (all succeeds ys) h in (e, all-All [] ys es)
all-All (x ∷ xs) ys h = all-All xs ys (and_true (succeeds x) (all succeeds (xs ++ ys)) h).1

All-slots :
    (f : Slot → Result)
    → All (λ r. succeeds r ≡ true) (map f infra_slots)
    → (slot : Slot) → succeeds (f slot) ≡ true
All-slots f h instances = h.0
All-slots f h metrics = h.1.0
All-slots f h alarms = h.1.1.0
All-slots f h ingress = h.1.1.1.0
All-slots f h backups = h.1.1.1.1.0

authentication_result-passes :
    {R : Type 0} (x : Exchange R)
    → succeeds (authentication_result x) ≡ true
    → (status : Str) × (raw : R) × (x ≡ replied 401 status raw)
unfolding succeeds
authentication_result-passes (unreachable e) h = cc
authentication_result-passes (replied code status raw) h = elim (Bool-cases (code == 401)) [
  | inl e ↦ (status, raw, ap (λ c. replied c status raw) (ground arith))
  | inr e ↦ cc (h, e)
]

check_authentication-valid :
    {R : Type 0} (net : Transport R) (s : Suite)
    → net.invalid (request_by s path_capabilities [] []) ≡ none
    → check_authentication net s
      ≡ authentication_result (net.send (request_by s path_capabilities [] []))
unfolding check_authentication
check_authentication-valid net s n = rw (n, check_authentication) refl

check_authentication-passes :
    {R : Type 0} (net : Transport R) (s : Suite)
    → succeeds (check_authentication net s) ≡ true
    → (status : Str) × (raw : R) × (net.send (request_by s path_capabilities [] [])
        ≡ replied 401 status raw)
unfolding check_authentication succeeds
check_authentication-passes net s h =
    elim (Option-cases (net.invalid (request_by s path_capabilities [] []))) [
      | inl n ↦
          authentication_result-passes (net.send (request_by s path_capabilities [] []))
            (sym (ap succeeds (check_authentication-valid net s n)) ∙ h)
      | inr (e, n) ↦ cc (h, n)
    ]

detail_result-passes :
    (slot : Slot) (d : Str) → succeeds (detail_result slot d) ≡ true → is_empty d ≡ true
unfolding succeeds
detail_result-passes slot [] h = refl
detail_result-passes slot (c ∷ d) h = cc

first_detail_empty :
    (d e : Str) → is_empty (first_detail d e) ≡ true → (is_empty d ≡ true) × (is_empty e ≡ true)
first_detail_empty [] e h = (refl, h)
first_detail_empty (c ∷ d) e h = cc

-- A body decodes and has the field of its slot, which is not null.
unfoldable pub HasField : (j : Json) → Slot → j.Raw → Type 0
HasField j instances raw = (l : List InstanceInfo) × (j.decode_instances raw ≡ some (some l))
HasField j metrics raw = (l : List Series) × (j.decode_series raw ≡ some (some l))
HasField j alarms raw = (l : List AlarmStatus) × (j.decode_alarms raw ≡ some (some l))
HasField j ingress raw = (ip : Str) × (j.decode_ingress raw ≡ some (some ip))
HasField j backups raw = (l : List ObjectInfo) × (j.decode_backups raw ≡ some (some l))

field_detail-some :
    {R A : Type 0} (rd : Reader R) (raw : R) (missing : Str) (o : Option (Option A))
    → is_empty missing ≡ false
    → is_empty (field_detail rd raw missing o) ≡ true
    → (a : A) × (o ≡ some (some a))
field_detail-some rd raw missing none n h = cc
field_detail-some rd raw missing (some none) n h = cc (n, h)
field_detail-some rd raw missing (some (some a)) n h = (a, refl)

check_body-HasField :
    (j : Json) (rd : Reader j.Raw) (slot : Slot) (raw : j.Raw)
    → is_empty (check_body j rd slot raw) ≡ true
    → HasField j slot raw
unfolding check_body HasField
check_body-HasField j rd instances raw h =
    field_detail-some rd raw (codes "response has no `instances` array") (j.decode_instances raw)
      refl h
check_body-HasField j rd metrics raw h =
    field_detail-some rd raw (codes "response has no `series` array") (j.decode_series raw) refl h
check_body-HasField j rd alarms raw h =
    field_detail-some rd raw (codes "response has no `alarms` array") (j.decode_alarms raw) refl h
check_body-HasField j rd ingress raw h =
    field_detail-some rd raw
      (codes "response has no `publicIp` field; an address still pending is the empty string")
      (j.decode_ingress raw) refl h
check_body-HasField j rd backups raw h =
    field_detail-some rd raw (codes "response has no `objects` array") (j.decode_backups raw) refl h

module _ (j : Json) (net : Transport j.Raw) (rd : Reader j.Raw) (s : Suite) where
  -- A declared capability answers 200 with a body that decodes and has its field.
  abbrev pub IsAnswered : Slot → Type 0
  IsAnswered slot =
      (raw : j.Raw) × (suite_get net rd s (path_for slot) (query_for slot) ≡ inr (200, raw))
      × HasField j slot raw

  abbrev pub IsMetricAnswered : Str → Type 0
  IsMetricAnswered metric =
      (raw : j.Raw) × (suite_get net rd s (path_for metrics) (metric_query metric) ≡ inr (200, raw))
      × HasField j metrics raw

  abbrev pub IsRefused : Slot → Type 0
  IsRefused slot =
      (raw : j.Raw) × (suite_get net rd s (path_for slot) (query_for slot) ≡ inr (501, raw))

  metric_detail-passes :
      (metric : Str) (x : Str ⊎ (ℕ × j.Raw))
      → is_empty (metric_detail j rd metric x) ≡ true
      → (raw : j.Raw) × (x ≡ inr (200, raw)) × HasField j metrics raw
  metric_detail-passes metric (inl e) h = cc
  metric_detail-passes metric (inr (status, raw)) h = elim (Bool-cases (status == 200)) [
    | inl e ↦ elim (Bool-cases (is_empty (check_body j rd metrics raw))) [
      | inl d ↦ (raw, ap (λ c. inr (c, raw)) (ground arith), check_body-HasField j rd metrics raw d)
      | inr d ↦ cc (h, e, d)
    ]
    | inr e ↦ cc (h, e)
  ]

  capability_result-ok :
      (slot : Slot) (status : ℕ) (raw : j.Raw)
      → status == 501 ≡ false
      → status == 200 ≡ true
      → capability_result j net rd s slot true (inr (status, raw))
        ≡ detail_result slot
            (first_detail (check_body j rd slot raw) (every_metric_detail j net rd s slot))
  capability_result-ok slot status raw e d = rw (e, d) refl

  capability_result-declared :
      (slot : Slot) (x : Str ⊎ (ℕ × j.Raw))
      → succeeds (capability_result j net rd s slot true x) ≡ true
      → (raw : j.Raw) × (x ≡ inr (200, raw))
        × (is_empty (first_detail (check_body j rd slot raw) (every_metric_detail j net rd s slot))
            ≡ true)
  unfolding succeeds
  capability_result-declared slot (inl e) h = cc
  capability_result-declared slot (inr (status, raw)) h = elim (Bool-cases (status == 501)) [
    | inl e ↦ cc (h, e)
    | inr e ↦ elim (Bool-cases (status == 200)) [
      | inl d ↦ (
        raw,
        ap (λ c. inr (c, raw)) (ground arith),
        detail_result-passes slot
            (first_detail (check_body j rd slot raw) (every_metric_detail j net rd s slot))
            (sym (ap succeeds (capability_result-ok slot status raw e d)) ∙ h),
      )
      | inr d ↦ cc (h, e, d)
    ]
  ]

  capability_result-undeclared :
      (slot : Slot) (x : Str ⊎ (ℕ × j.Raw))
      → succeeds (capability_result j net rd s slot false x) ≡ true
      → (raw : j.Raw) × (x ≡ inr (501, raw))
  unfolding succeeds
  capability_result-undeclared slot (inl e) h = cc
  capability_result-undeclared slot (inr (status, raw)) h = elim (Bool-cases (status == 501)) [
    | inl e ↦ (raw, ap (λ c. inr (c, raw)) (ground arith))
    | inr e ↦ cc (h, e)
  ]

  metric_details-passes :
      (ms : List Str) → is_empty (metric_details j net rd s ms) ≡ true → All IsMetricAnswered ms
  unfolding metric_details
  metric_details-passes [] h = tt
  metric_details-passes (m ∷ ms) h =
      let (d, e) =
        first_detail_empty
          (metric_detail j rd m (suite_get net rd s (path_for metrics) (metric_query m)))
          (metric_details j net rd s ms) h in
      (
        metric_detail-passes m (suite_get net rd s (path_for metrics) (metric_query m)) d,
        metric_details-passes ms e,
      )

  check_capability-passes :
      (slot : Slot) (declared : Bool)
      → succeeds (check_capability j net rd s slot declared) ≡ true
      → if declared then IsAnswered slot else IsRefused slot
  unfolding check_capability
  check_capability-passes slot true h =
      let (raw, e, d) =
        capability_result-declared slot (suite_get net rd s (path_for slot) (query_for slot)) h in
      (
        raw,
        e,
        check_body-HasField j rd slot raw
            (first_detail_empty (check_body j rd slot raw) (every_metric_detail j net rd s slot)
              d).0,
      )
  check_capability-passes slot false h =
      capability_result-undeclared slot (suite_get net rd s (path_for slot) (query_for slot)) h

  check_capability-metrics :
      succeeds (check_capability j net rd s metrics true) ≡ true → All IsMetricAnswered metric_names
  unfolding check_capability check_every_metric
  check_capability-metrics h =
      let (raw, e, d) =
        capability_result-declared metrics
          (suite_get net rd s (path_for metrics) (query_for metrics)) h in
      metric_details-passes metric_names
        (first_detail_empty (metric_details j net rd s metric_names) _
          (first_detail_empty (check_body j rd metrics raw) (check_every_metric j net rd s) d).1).0

  -- The conditions of the contract, as far as the suite looks; `declared` are the declared capabilities.
  pub record IsConformant (declared : List Str) : Type 0 where
    pub refuses :
        (status : Str) × (raw : j.Raw) × (net.send (request_by s path_capabilities [] [])
          ≡ replied 401 status raw)
    pub answers : (slot : Slot) → any (str_eq (capability slot)) declared ≡ true → IsAnswered slot
    pub absent : (slot : Slot) → any (str_eq (capability slot)) declared ≡ false → IsRefused slot
    pub every_metric :
        any (str_eq (capability metrics)) declared ≡ true → All IsMetricAnswered metric_names

  report_passes :
      (r : Report)
      → passed (checked_report j net rd s r) ≡ true
      → (succeeds (check_authentication net s) ≡ true)
        × ((slot : Slot)
            → succeeds
                (check_capability j net rd s slot (any (str_eq (capability slot)) r.declared))
              ≡ true)
  unfolding passed checked_report succeeds
  report_passes r h =
      let es =
        all-All r.results
          (check_authentication net s
            ∷ map
                (λ slot.
                  check_capability j net rd s slot (any (str_eq (capability slot)) r.declared))
                infra_slots)
          h in
      (
        es.0,
        All-slots
            (λ slot. check_capability j net rd s slot (any (str_eq (capability slot)) r.declared))
            es.1,
      )

  passed-IsConformant :
      (r : Report)
      → passed (checked_report j net rd s r) ≡ true
      → IsConformant (checked_report j net rd s r).declared
  unfolding checked_report sort_strings
  passed-IsConformant r h =
      let (a, cs) = report_passes r h in
      let declared_as : (slot : Slot) (b : Bool)
          → any (str_eq (capability slot)) (sort_strings r.declared) ≡ b
          → succeeds (check_capability j net rd s slot b) ≡ true =
        λ slot b e.
          subst (λ b. succeeds (check_capability j net rd s slot b) ≡ true)
            (sym (any-sort_by (λ d. d) (str_eq (capability slot)) r.declared) ∙ e) (cs slot) in
      record {
        refuses = check_authentication-passes net s a;
        answers = λ slot e. check_capability-passes slot true (declared_as slot true e);
        absent = λ slot e. check_capability-passes slot false (declared_as slot false e);
        every_metric = λ e. check_capability-metrics (declared_as metrics true e);
      }

  -- What is to be shown of an outcome of the run.
  abbrev IsSoundOutcome : Report × Option Str → Type 0
  IsSoundOutcome o = o.1 ≡ none → passed o.0 ≡ true → IsConformant o.0.declared

  discovery_report-IsSoundOutcome :
      (q : Str → Str) (raw : j.Raw) (o : Option (Str × Str × Option (List Str)))
      → IsSoundOutcome (discovery_report j net rd q s raw o)
  discovery_report-IsSoundOutcome q raw none = λ h p. cc
  discovery_report-IsSoundOutcome q raw (some (kind, name, cs)) =
      elim (Bool-cases (str_eq kind kind_infra)) [
        | inl e ↦ rw e (λ h p.
            passed-IsConformant
              (classify (capabilities_list cs) (record no_report { provider = name; kind = kind }))
              p)
        | inr e ↦ rw e (λ h p. cc)
      ]

  discovery_answer-IsSoundOutcome :
      (q : Str → Str) (x : Str ⊎ (ℕ × j.Raw)) → IsSoundOutcome (discovery_answer j net rd q s x)
  discovery_answer-IsSoundOutcome q (inl e) = λ h p. cc
  discovery_answer-IsSoundOutcome q (inr (status, raw)) = elim (Bool-cases (status == 200)) [
    | inl e ↦ rw e (discovery_report-IsSoundOutcome q raw (j.decode_capabilities raw))
    | inr e ↦ rw e (λ h p. cc)
  ]

  -- A run that ends without an error and whose report has passed: the Provider refuses a request without
  -- a token with 401; answers each declared capability, and each metric of the contract if the metrics are
  -- declared, with 200 and a body that decodes and has the field of that capability, which is not null; and
  -- answers each other capability with 501. Of the items in a field only that they decode is said.
  pub run-IsConformant :
      (q : Str → Str)
      → (run j net rd q s).1 ≡ none
      → passed (run j net rd q s).0 ≡ true
      → IsConformant (run j net rd q s).0.declared
  unfolding run
  run-IsConformant q = discovery_answer-IsSoundOutcome q (suite_get net rd s path_capabilities [])
