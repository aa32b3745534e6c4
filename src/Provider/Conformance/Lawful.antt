-- ===== src/Provider/Conformance/Lawful.antt =====
-- The suite against the server of a Provider that answers.
use tinycloud_platform.Base.{
  ℕ, ◌≡◌, refl, sym, ap, subst, ◌∙◌, Bool, true, false, not, none, some, List, [], ◌∷◌, ◌++◌, arith,
  if◌then◌else◌, Str, codes, str_eq, is_empty, StrMap, pos, any, all, map, All, ◌⊎◌, inl, inr,
  Bool-cases, sort_strings, lookup, append_assoc, append-nil, All-keep, str_eq_refl,
}
use tinycloud_platform.Text.{trim_space, decimal, atoi}
use tinycloud_platform.Infra.Types.{metric_names, cpu_utilization}
use tinycloud_platform.Provider.Config.{
  Slot, instances, metrics, alarms, ingress, backups, capability, token, kind_infra, infra_slots,
}
use tinycloud_platform.Provider.Contract.{
  answered, Body, capabilities_body, instances_body, series_body, alarms_body, ingress_body,
  backups_body, Request, Response, Json, Decodes, path_capabilities, path_for, valid_metric,
  valid_capability, infra_capabilities,
}
use tinycloud_platform.Provider.Server.{
  Server, write_error, write_json, allow_get, refused_message, has_cap, capability_guard,
  capabilities_handler, listed, handler_of, serve, metrics_handler, query_value, write_answer,
}
use tinycloud_platform.Provider.Server.Access.{
  serve-capabilities, serve-authenticated, authenticated-sent, serve-has_cap, authenticated-refused,
  bearer_token-missing,
}
use tinycloud_platform.Provider.Server.Windows.{metrics_handler-exact}
use tinycloud_platform.Provider.Client.{replied, Transport}
use tinycloud_platform.Provider.Client.Served.{served_by, declared_by, declares-declared_by}
use tinycloud_platform.Provider.Conformance.{
  body_read, authentication_result, Reader, is_fail, pass, not_implemented, Result, success, Report,
  passed, Suite, request_by, header_of, suite_get, check_authentication, check_body, metric_query,
  metric_detail, metric_details, check_every_metric, query_for, capability_result, check_capability,
  classify, no_report, checked_report, discovery_report, discovery_answer, run, classified,
  refusal_detail, every_metric_detail,
}

-- The Provider answers what it declares, each metric of the contract over the suite's five minutes.
pub record IsLawful (srv : Server) : Type 0 where
  pub instances_answered :
      has_cap srv (capability instances) ≡ true → (l : _) × (srv.provider.instances ≡ answered l)
  pub metrics_answered :
      has_cap srv (capability metrics) ≡ true
      → (m : Str) → valid_metric m ≡ true
      → (l : _) × (srv.provider.metric m (pos 300000000000) ≡ answered l)
  pub alarms_answered :
      has_cap srv (capability alarms) ≡ true → (l : _) × (srv.provider.alarms ≡ answered l)
  pub ingress_answered :
      has_cap srv (capability ingress) ≡ true
      → (ip : Str) × (srv.provider.ingress_address ≡ answered ip)
  pub backups_answered :
      has_cap srv (capability backups) ≡ true → (l : _) × (srv.provider.backup_objects ≡ answered l)

-- The results and the report of a run against such a server.
abbrev expected : Server → Slot → Result
expected srv slot =
    success (capability slot) (if has_cap srv (capability slot) then pass else not_implemented)

abbrev pub lawful_report : Server → Report
lawful_report srv = record {
  provider = srv.provider.name;
  kind = kind_infra;
  declared = sort_strings (declared_by srv);
  results = success (codes "authentication") pass ∷ map (expected srv) infra_slots;
}

cpu_valid : valid_metric cpu_utilization ≡ true
unfolding valid_metric any str_eq
cpu_valid = refl

classified-valid :
    (c : Str) (r : Report)
    → valid_capability c ≡ true
    → classified c r ≡ record r { declared = r.declared ++ c ∷ [] }
classified-valid c r h = rw h refl

declared_by-valid : (srv : Server) → All (λ c. valid_capability c ≡ true) (declared_by srv)
unfolding valid_capability any str_eq
declared_by-valid srv =
    All-keep (λ c. valid_capability c ≡ true) (has_cap srv) infra_capabilities
      (refl, (refl, (refl, (refl, (refl, tt)))))

classify-valid :
    (cs : List Str) (r : Report)
    → All (λ c. valid_capability c ≡ true) cs
    → classify cs r ≡ record r { declared = r.declared ++ cs }
unfolding classify
classify-valid [] r h = ap (λ d. record r { declared = d }) (sym (append-nil r.declared))
classify-valid (c ∷ cs) r h =
    ap (classify cs) (classified-valid c r h.0)
    ∙ classify-valid cs (record r { declared = r.declared ++ c ∷ [] }) h.1
    ∙ ap (λ d. record r { declared = d }) (append_assoc r.declared (c ∷ []) cs)

-- The requests of the suite that want a body: the discovery, and what it reads of a declared capability.
pub data IsRead (srv : Server) : Str → StrMap Str → Type 0 where
  discovery : IsRead srv path_capabilities []
  declared_slot :
      (slot : Slot)
      → has_cap srv (capability slot) ≡ true
      → IsRead srv (path_for slot) (query_for slot)
  declared_metric :
      (m : Str)
      → has_cap srv (capability metrics) ≡ true
      → valid_metric m ≡ true
      → IsRead srv (path_for metrics) (metric_query m)

-- All the requests that the suite makes with its token.
pub data IsSuiteRequest : Str → StrMap Str → Type 0 where
  asks_capabilities : IsSuiteRequest path_capabilities []
  asks_slot : (slot : Slot) → IsSuiteRequest (path_for slot) (query_for slot)
  asks_metric :
      (m : Str) → valid_metric m ≡ true → IsSuiteRequest (path_for metrics) (metric_query m)
  asks_unknown_metric :
      IsSuiteRequest (path_for metrics) (metric_query (codes "not.a.contract.metric"))
  asks_no_window : IsSuiteRequest (path_for metrics) ((codes "metric", cpu_utilization) ∷ [])

-- A request of the suite with its token.
abbrev pub signed_by : Suite → Str → StrMap Str → Request
signed_by s path query = request_by s path query (codes "Bearer " ++ s.token)

module _ (j : Json) (status_text : ℕ → Str) (rd : Reader j.Raw) (srv : Server) (s : Suite)
    (faithful : (path : Str) (query : StrMap Str)
      → IsRead srv path query
      → Decodes j (serve srv (signed_by s path query)).body)
    (whole : (path : Str) (query : StrMap Str)
      → IsSuiteRequest path query
      → (rd.failed (j.encode (serve srv (signed_by s path query)).body) ≡ none)
        × (rd.limited (j.encode (serve srv (signed_by s path query)).body)
            ≡ j.encode (serve srv (signed_by s path query)).body))
    (paired : srv.secret ≡ some (token s.token)) (trimmed : trim_space s.token ≡ s.token)
    (nonempty : is_empty s.token ≡ false) where
  abbrev net : Transport j.Raw
  net = served_by j status_text srv

  abbrev signed : Str → StrMap Str → Request
  signed = signed_by s

  header_of-token : header_of s ≡ codes "Bearer " ++ s.token
  header_of-token = rw nonempty refl

  body_read-whole :
      (code : ℕ) (st : Str) (raw : j.Raw)
      → rd.failed raw ≡ none
      → rd.limited raw ≡ raw
      → body_read rd (replied code st raw) ≡ inr (code, raw)
  body_read-whole code st raw h k = rw (h, k) refl

  suite_get-served :
      (path : Str) (query : StrMap Str) (a : Response)
      → IsSuiteRequest path query
      → serve srv (signed path query) ≡ a
      → suite_get net rd s path query ≡ inr (a.status, j.encode a.body)
  unfolding suite_get served_by
  suite_get-served path query a asks h =
      let b = serve srv (signed path query) in
      let w = whole path query asks in
      ap (λ t. body_read rd (net.send (request_by s path query t))) header_of-token
      ∙ body_read-whole b.status (status_text b.status) (j.encode b.body) w.0 w.1
      ∙ ap (λ (a : Response). inr (a.status, j.encode a.body)) h

  check_authentication-served : check_authentication net s ≡ success (codes "authentication") pass
  unfolding check_authentication served_by
  check_authentication-served =
      let r = request_by s path_capabilities [] [] in
      ap
        (λ (a : Response).
          authentication_result (replied a.status (status_text a.status) (j.encode a.body)))
        (serve-capabilities srv r refl
          ∙ authenticated-refused srv r s.token (capabilities_handler srv r) paired
              (λ e. cc (sym (bearer_token-missing srv r refl) ∙ e, nonempty)))

  check_capability-undeclared :
      (slot : Slot)
      → has_cap srv (capability slot) ≡ false
      → check_capability j net rd s slot false ≡ success (capability slot) not_implemented
  unfolding check_capability capability_guard
  check_capability-undeclared slot k =
      let r = signed (path_for slot) (query_for slot) in
      ap (capability_result j net rd s slot false) (
        suite_get-served (path_for slot) (query_for slot)
          (write_error 501 (codes "not_implemented") (refused_message srv (capability slot)))
          (asks_slot slot)
          (serve-authenticated srv s.token r slot paired trimmed refl refl ∙ rw k refl))

  -- The handler answers a request for the slot with a body that has the field.
  abbrev IsWellAnswered : Slot → StrMap Str → Type 0
  IsWellAnswered slot query =
      (b : Body) × (handler_of srv (signed (path_for slot) query) slot ≡ write_json b)
      × (Decodes j b → check_body j rd slot (j.encode b) ≡ [])

  suite_get-answered :
      (slot : Slot) (query : StrMap Str)
      → has_cap srv (capability slot) ≡ true
      → IsSuiteRequest (path_for slot) query
      → IsRead srv (path_for slot) query
      → IsWellAnswered slot query
      → (raw : j.Raw) × (suite_get net rd s (path_for slot) query ≡ inr (200, raw))
        × (check_body j rd slot raw ≡ [])
  suite_get-answered slot query k asks reads (b, e, f) =
      let d =
        serve-has_cap srv s.token (signed (path_for slot) query) slot paired trimmed refl refl k
        ∙ e in
      (
        j.encode b,
        suite_get-served (path_for slot) query (write_json b) asks d,
        f (subst (λ (a : Response). Decodes j a.body) d (faithful (path_for slot) query reads)),
      )

  check_capability-declared :
      (slot : Slot)
      → has_cap srv (capability slot) ≡ true
      → IsWellAnswered slot (query_for slot)
      → every_metric_detail j net rd s slot ≡ []
      → check_capability j net rd s slot true ≡ success (capability slot) pass
  unfolding check_capability
  check_capability-declared slot k a m =
      let (raw, e, f) =
        suite_get-answered slot (query_for slot) k (asks_slot slot) (declared_slot slot k) a in
      ap (capability_result j net rd s slot true) e ∙ rw (f, m) refl

  answers_instances :
      (l : _) → srv.provider.instances ≡ answered l → IsWellAnswered instances (query_for instances)
  unfolding handler_of allow_get str_eq Decodes check_body
  answers_instances l e = (instances_body (some (listed l)), rw e refl, λ d. rw d refl)

  answers_alarms :
      (l : _) → srv.provider.alarms ≡ answered l → IsWellAnswered alarms (query_for alarms)
  unfolding handler_of allow_get str_eq Decodes check_body
  answers_alarms l e = (alarms_body (some (listed l)), rw e refl, λ d. rw d refl)

  answers_ingress :
      (ip : Str)
      → srv.provider.ingress_address ≡ answered ip
      → IsWellAnswered ingress (query_for ingress)
  unfolding handler_of allow_get str_eq Decodes check_body
  answers_ingress ip e = (ingress_body ip, rw e refl, λ d. rw d refl)

  answers_backups :
      (l : _)
      → srv.provider.backup_objects ≡ answered l
      → IsWellAnswered backups (query_for backups)
  unfolding handler_of allow_get str_eq Decodes check_body
  answers_backups l e = (backups_body (some (listed l)), rw e refl, λ d. rw d refl)

  answers_metric :
      (m : Str) (l : _)
      → valid_metric m ≡ true
      → srv.provider.metric m (pos 300000000000) ≡ answered l
      → IsWellAnswered metrics (metric_query m)
  unfolding handler_of allow_get str_eq Decodes check_body decimal
  answers_metric m l v e = (
    series_body (some (listed l)),
    metrics_handler-exact srv (signed (path_for metrics) (metric_query m)) m 300 v refl
          (omega arith) (omega arith)
        ∙ ap (write_answer srv (capability metrics) (λ l. series_body (some (listed l)))) e,
    λ d. rw d refl,
  )

  metric_detail-answered :
      (m : Str) (x : Str ⊎ (ℕ × j.Raw)) (raw : j.Raw)
      → x ≡ inr (200, raw)
      → check_body j rd metrics raw ≡ []
      → metric_detail j rd m x ≡ []
  metric_detail-answered m x raw e f = ap (metric_detail j rd m) e ∙ rw f refl

  metric_details-answered :
      (ms : List Str)
      → has_cap srv (capability metrics) ≡ true
      → ((m : Str) → valid_metric m ≡ true → IsWellAnswered metrics (metric_query m))
      → All (λ m. valid_metric m ≡ true) ms
      → metric_details j net rd s ms ≡ []
  unfolding metric_details
  metric_details-answered [] k a v = refl
  metric_details-answered (m ∷ ms) k a v =
      let x = suite_get net rd s (path_for metrics) (metric_query m) in
      let (raw, e, f) =
        suite_get-answered metrics (metric_query m) k (asks_metric m v.0) (declared_metric m k v.0)
          (a m v.0) in
      ap (λ d. if is_empty d then metric_details j net rd s ms else d)
        (metric_detail-answered m x raw e f)
      ∙ metric_details-answered ms k a v.1

  -- A query that the metrics' handler answers with 400 is refused as the suite wants it.
  refusal_detail-refused :
      (what : Str) (query : StrMap Str) (code message : Str)
      → has_cap srv (capability metrics) ≡ true
      → IsSuiteRequest (path_for metrics) query
      → metrics_handler srv (signed (path_for metrics) query) ≡ write_error 400 code message
      → refusal_detail what (suite_get net rd s (path_for metrics) query) ≡ []
  unfolding handler_of allow_get str_eq
  refusal_detail-refused what query code message k asks e = ap (refusal_detail what) (
      suite_get-served (path_for metrics) query (write_error 400 code message) asks (
        serve-has_cap srv s.token (signed (path_for metrics) query) metrics paired trimmed refl refl
          k
        ∙ e))

  check_every_metric-answered :
      has_cap srv (capability metrics) ≡ true
      → ((m : Str) → valid_metric m ≡ true → IsWellAnswered metrics (metric_query m))
      → check_every_metric j net rd s ≡ []
  unfolding check_every_metric metrics_handler query_value lookup str_eq valid_metric any atoi
  check_every_metric-answered k a =
      rw (metric_details-answered metric_names k a (refl, (refl, (refl, (refl, (refl, tt)))))) (
        rw
          (refusal_detail-refused (codes "a metric the contract does not define")
            (metric_query (codes "not.a.contract.metric")) _ _ k asks_unknown_metric refl)
          (refusal_detail-refused (codes "a request with no window")
            ((codes "metric", cpu_utilization) ∷ []) _ _ k asks_no_window refl))

  check_capability-lawful :
      (slot : Slot)
      → IsLawful srv
      → has_cap srv (capability slot) ≡ true
      → check_capability j net rd s slot true ≡ success (capability slot) pass
  check_capability-lawful instances h k =
      let (l, e) = h.instances_answered k in
      check_capability-declared instances k (answers_instances l e) refl
  check_capability-lawful metrics h k =
      let answers : (m : Str) → valid_metric m ≡ true → IsWellAnswered metrics (metric_query m) =
        λ m v. let (l, e) = h.metrics_answered k m v in answers_metric m l v e in
      check_capability-declared metrics k (answers cpu_utilization cpu_valid)
        (check_every_metric-answered k answers)
  check_capability-lawful alarms h k =
      let (l, e) = h.alarms_answered k in
      check_capability-declared alarms k (answers_alarms l e) refl
  check_capability-lawful ingress h k =
      let (ip, e) = h.ingress_answered k in
      check_capability-declared ingress k (answers_ingress ip e) refl
  check_capability-lawful backups h k =
      let (l, e) = h.backups_answered k in
      check_capability-declared backups k (answers_backups l e) refl

  check_capability-expected :
      (slot : Slot) (b : Bool)
      → IsLawful srv
      → has_cap srv (capability slot) ≡ b
      → check_capability j net rd s slot b ≡ expected srv slot
  check_capability-expected slot true h k = check_capability-lawful slot h k ∙ rw k refl
  check_capability-expected slot false h k = check_capability-undeclared slot k ∙ rw k refl

  checks-expected :
      (slots : List Slot)
      → IsLawful srv
      → map
          (λ slot.
            check_capability j net rd s slot (any (str_eq (capability slot)) (declared_by srv)))
          slots
        ≡ map (expected srv) slots
  checks-expected [] h = refl
  checks-expected (slot ∷ slots) h =
      ap
        (λ r.
          r
          ∷ map
              (λ slot.
                check_capability j net rd s slot (any (str_eq (capability slot)) (declared_by srv)))
              slots)
        (check_capability-expected slot (any (str_eq (capability slot)) (declared_by srv)) h
          (sym (declares-declared_by srv slot)))
      ∙ ap (λ rs. expected srv slot ∷ rs) (checks-expected slots h)

  checks-lawful :
      IsLawful srv
      → check_authentication net s
          ∷ map
              (λ slot.
                check_capability j net rd s slot (any (str_eq (capability slot)) (declared_by srv)))
              infra_slots
        ≡ success (codes "authentication") pass ∷ map (expected srv) infra_slots
  checks-lawful h =
      ap
        (λ r.
          r
          ∷ map
              (λ slot.
                check_capability j net rd s slot (any (str_eq (capability slot)) (declared_by srv)))
              infra_slots)
        check_authentication-served
      ∙ ap (λ rs. success (codes "authentication") pass ∷ rs) (checks-expected infra_slots h)

  expected-passes :
      (slots : List Slot)
      → all (λ result. not (is_fail result.outcome)) (map (expected srv) slots) ≡ true
  unfolding all
  expected-passes [] = refl
  expected-passes (slot ∷ slots) = elim (Bool-cases (has_cap srv (capability slot))) [
    | inl k ↦ rw k (expected-passes slots)
    | inr k ↦ rw k (expected-passes slots)
  ]

  discovery-served :
      suite_get net rd s path_capabilities []
      ≡ inr
          (200, j.encode (capabilities_body kind_infra srv.provider.name (some (declared_by srv))))
  unfolding capabilities_handler allow_get str_eq
  discovery-served =
      let r = signed path_capabilities [] in
      suite_get-served path_capabilities []
        (write_json (capabilities_body kind_infra srv.provider.name (some (declared_by srv))))
        asks_capabilities
        (serve-capabilities srv r refl
          ∙ authenticated-sent srv r s.token (capabilities_handler srv r) paired trimmed refl)

  discovery-decoded :
      j.decode_capabilities
        (j.encode (capabilities_body kind_infra srv.provider.name (some (declared_by srv))))
      ≡ some (kind_infra, srv.provider.name, some (declared_by srv))
  unfolding Decodes capabilities_handler allow_get str_eq
  discovery-decoded =
      let r = signed path_capabilities [] in
      subst (λ (a : Response). Decodes j a.body)
        (serve-capabilities srv r refl
          ∙ authenticated-sent srv r s.token (capabilities_handler srv r) paired trimmed refl)
        (faithful path_capabilities [] discovery)

  -- The suite passes the server of a Provider that answers what it declares, each metric of the contract
  -- over five minutes: the report lists the declared capabilities, and has a PASS for the authentication and
  -- for each of them, and NOT IMPLEMENTED for each other one. The suite has the server's token, which is not
  -- empty and has no space at its ends; the response to each request of the suite is read without an error
  -- and is within the four mebibytes that the suite reads; and the list of capabilities and the bodies of
  -- the declared reads decode to what was encoded.
  pub run_lawful :
      (q : Str → Str)
      → IsLawful srv
      → (run j net rd q s ≡ ((lawful_report srv), none)) × (passed (lawful_report srv) ≡ true)
  unfolding run passed all checked_report
  run_lawful q h = (
    ap (discovery_answer j net rd q s) discovery-served
        ∙ ap (discovery_report j net rd q s _) discovery-decoded
        ∙ rw (str_eq_refl kind_infra) refl
        ∙ ap (λ r. (checked_report j net rd s r, none))
            (classify-valid (declared_by srv)
              (record no_report { provider = srv.provider.name; kind = kind_infra })
              (declared_by-valid srv))
        ∙ ap (λ rs. (record (lawful_report srv) { results = rs }, none)) (checks-lawful h),
    expected-passes infra_slots,
  )
