-- ===== src/Provider/Tests/Contract.antt =====
-- Runs of the contract: a Provider behind its server, the client in front of it, and the suite.
use tinycloud_platform.Base.{
  ℕ, ◌/◌, StrMap, map, take, ltb, if◌then◌else◌, ◌≡◌, ◌≢◌, refl, sym, ap, ◌∙◌, is_empty, true,
  false, Option, none, some, List, [], ◌∷◌, arith, Str, codes, str_eq, negsuc, inl, any, keep,
}
use tinycloud_platform.Text.{Unicode, trim_space, decimal, cut, quote, trim_suffix, equal_fold}
use tinycloud_platform.Infra.Types.{InstanceInfo, Series, AlarmStatus, ObjectInfo, cpu_utilization}
use tinycloud_platform.Provider.Config.{
  Slot, instances, metrics, alarms, ingress, backups, capability, Token, token, kind_infra,
}
use tinycloud_platform.Provider.Contract.{
  other, answered, failed, Infra, Body, health_body, capabilities_body, instances_body, series_body,
  alarms_body, ingress_body, backups_body, error_body, Request, Json, Decodes, path_for,
  valid_metric,
}
use tinycloud_platform.Provider.Server.{
  Server, new_server, has_cap, serve, bearer_token, metrics_handler, write_answer, listed,
}
use tinycloud_platform.Provider.Server.Access.{serve-unauthenticated, with_provider}
use tinycloud_platform.Provider.Server.Windows.{metrics_handler-negative}
use tinycloud_platform.Provider.Client.{
  Client, new_client, got, error, list_instances, query_metric, list_alarm_statuses,
  ingress_public_ip, list_objects, Transport,
}
use tinycloud_platform.Provider.Client.Served.{served_by, IsPaired, declared_by}
use tinycloud_platform.Provider.Client.Reads.{reads_relayed, query_metric-relayed}
use tinycloud_platform.Provider.Conformance.{Reader, Suite, Report, new_suite, run, passed}
use tinycloud_platform.Provider.Conformance.Sound.{run-IsConformant, IsConformant}
use tinycloud_platform.Provider.Conformance.Lawful.{
  run_lawful, IsLawful, lawful_report, IsRead, signed_by,
}

-- Bodies that travel as they are.
abbrev capabilities_read : Body → Option (Str × Str × Option (List Str))
capabilities_read (capabilities_body kind name cs) = some (kind, name, cs)
capabilities_read _ = none

abbrev instances_read : Body → Option (Option (List InstanceInfo))
instances_read (instances_body l) = some l
instances_read _ = none

abbrev series_read : Body → Option (Option (List Series))
series_read (series_body l) = some l
series_read _ = none

abbrev alarms_read : Body → Option (Option (List AlarmStatus))
alarms_read (alarms_body l) = some l
alarms_read _ = none

abbrev ingress_read : Body → Option (Option Str)
ingress_read (ingress_body ip) = some (some ip)
ingress_read _ = none

abbrev backups_read : Body → Option (Option (List ObjectInfo))
backups_read (backups_body l) = some l
backups_read _ = none

abbrev message_read : Body → Str
message_read (error_body code message) = message
message_read _ = []

abbrev plain : Json
plain = record {
  Raw = Body;
  encode = λ b. b;
  decode_capabilities = capabilities_read;
  decode_instances = instances_read;
  decode_series = series_read;
  decode_alarms = alarms_read;
  decode_ingress = ingress_read;
  decode_backups = backups_read;
  decode_failure = λ b. [];
  limit = λ n b. b;
  decode_error = message_read;
  text = λ b. [];
}

Decodes-plain : (b : Body) → Decodes plain b
unfolding Decodes
Decodes-plain health_body = tt
Decodes-plain (capabilities_body kind name cs) = refl
Decodes-plain (instances_body l) = refl
Decodes-plain (series_body l) = refl
Decodes-plain (alarms_body l) = refl
Decodes-plain (ingress_body ip) = refl
Decodes-plain (backups_body l) = refl
Decodes-plain (error_body code message) = refl

-- The message of an error is encoded with `?` for a byte that is not ASCII, and is cut at the limit.
abbrev as_ascii : Body → Body
as_ascii (error_body code message) =
    error_body code (map (λ c. if ltb c 128 then c else 63) message)
as_ascii b = b

abbrev cut_at : ℕ → Body → Body
cut_at n (error_body code message) = error_body code (take n message)
cut_at n b = b

abbrev lossy : Json
lossy = record plain { encode = as_ascii; limit = cut_at }

abbrev ascii : Unicode
ascii = record { lower = λ s. s; upper = λ s. s; fold = λ s t. str_eq s t }

abbrev fire : AlarmStatus
fire = record { name = codes "fire"; severity = codes "CRITICAL"; status = codes "FIRING" }

-- Its backups fail.
abbrev cloud : List Str → Infra
cloud caps = record {
  name = codes "cloud";
  capabilities = caps;
  instances = answered none;
  metric = λ m d. answered (some []);
  alarms = answered (some (fire ∷ []));
  ingress_address = answered (codes "10.0.0.1");
  backup_objects = failed (other (codes "down"));
}

abbrev every : List Str
every =
    capability instances
    ∷ capability metrics
    ∷ capability alarms
    ∷ capability ingress
    ∷ capability backups
    ∷ []

abbrev quiet : Str → Str
quiet s = s

abbrev server_of : List Str → Server
server_of caps = new_server ascii quiet (cloud caps) (some (token (codes "t")))

abbrev plain_status : ℕ → Str
plain_status code = decimal code

abbrev first_client : Client
first_client =
    new_client quiet (λ n. n / 1000000000) (codes "a") (codes "http://p") (some (token (codes "t")))

first_client-IsPaired : (caps : List Str) → IsPaired first_client (server_of caps) (codes "t")
unfolding new_client new_server trim_space
first_client-IsPaired caps = record {
  sends = refl;
  wants = refl;
  trimmed = refl;
  current = inl refl;
}

cpu_is_valid : valid_metric cpu_utilization ≡ true
unfolding valid_metric any str_eq
cpu_is_valid = refl

trimmed_t : trim_space (codes "t") ≡ codes "t"
unfolding trim_space
trimmed_t = refl

every-has_cap : (s : Slot) → has_cap (server_of every) (capability s) ≡ true
unfolding has_cap new_server str_eq
every-has_cap instances = refl
every-has_cap metrics = refl
every-has_cap alarms = refl
every-has_cap ingress = refl
every-has_cap backups = refl

abbrev relay : List Str → Transport Body
relay caps = served_by plain plain_status (server_of caps)

abbrev lossy_relay : List Str → Transport Body
lossy_relay caps = served_by lossy plain_status (server_of caps)

lists_every :
    Decodes lossy
      (capabilities_body kind_infra (codes "cloud") (some (declared_by (server_of every))))
unfolding Decodes
lists_every = refl

-- The client once it knows the five capabilities at the time 7.
abbrev knowing : Client
knowing = record first_client { declared = some every; known_at = 7 }

reads_relayed_example :
    (list_instances lossy (lossy_relay every) 5 7 first_client ≡ (knowing, got (some [])))
    × (list_alarm_statuses lossy (lossy_relay every) 5 7 first_client
        ≡ (knowing, got (some (fire ∷ []))))
    × (ingress_public_ip lossy (lossy_relay every) 5 7 first_client
        ≡ (knowing, got (codes "10.0.0.1")))
    × (list_objects lossy (lossy_relay every) 5 7 first_client
        ≡ (knowing, error (other (codes "provider \"a\": 502: backups: down"))))
unfolding new_client new_server has_cap str_eq any keep quote decimal trim_suffix Decodes
reads_relayed_example =
    reads_relayed lossy plain_status (server_of every) (codes "t") lists_every 5 7 first_client
      (first_client-IsPaired every) every-has_cap refl refl refl refl

query_metric-relayed_example :
    query_metric lossy (lossy_relay every) 5 7 first_client cpu_utilization 1200000000000
    ≡ (knowing, got (some []))
unfolding new_client new_server has_cap str_eq any keep quote decimal trim_suffix Decodes
query_metric-relayed_example =
    query_metric-relayed lossy plain_status (server_of every) (codes "t") lists_every 5 7
      first_client cpu_utilization 1200000000000 (first_client-IsPaired every)
      (every-has_cap metrics) cpu_is_valid (omega arith) refl

abbrev nameless : Request
nameless = record {
  method = codes "GET";
  base = [];
  path = path_for alarms;
  query = [];
  authorization = codes "Bearer x";
}

abbrev other_cloud : Infra
other_cloud = record (cloud []) { name = codes "b" }

abbrev secret_text : Option Token → Str
secret_text (some (token t)) = t
secret_text _ = []

abbrev first_byte : Str → ℕ
first_byte [] = 0
first_byte (c ∷ s) = c

x_not_t : codes "x" ≢ codes "t"
x_not_t e = absurd (omega (arith, ap first_byte e))

nameless_carries :
    (want : Str) → (server_of every).secret ≡ some (token want) → bearer_token ascii nameless ≢ want
unfolding bearer_token cut equal_fold trim_space new_server
nameless_carries want h e = x_not_t (e ∙ sym (ap secret_text h))

serve-unauthenticated_example :
    serve (with_provider (server_of every) other_cloud []) nameless
    ≡ serve (server_of every) nameless
unfolding new_server
serve-unauthenticated_example =
    serve-unauthenticated (server_of every) other_cloud [] nameless nameless_carries (λ e. cc)

abbrev long_window : Request
long_window = record {
  method = codes "GET";
  base = [];
  path = path_for metrics;
  query = (codes "metric", cpu_utilization) ∷ (codes "window", codes "9223372037") ∷ [];
  authorization = codes "Bearer t";
}

metrics_handler-negative_example :
    metrics_handler (server_of every) long_window
    ≡ write_answer
        (server_of every)
        (codes "metrics")
        (λ l. series_body (some (listed l)))
        ((cloud every).metric cpu_utilization (negsuc 9223372036709551615))
unfolding decimal new_server
metrics_handler-negative_example =
    metrics_handler-negative (server_of every) long_window cpu_utilization 9223372037 cpu_is_valid
      refl (omega arith) (omega arith)

abbrev whole_body : Reader Body
whole_body = record {
  failed = λ b. none;
  limited = λ b. b;
  text = λ b. [];
  unmarshal_error = λ b. [];
}

abbrev checker : Suite
checker = new_suite (codes "http://p/") (codes "t")

abbrev three : List Str
three = capability instances ∷ capability metrics ∷ capability alarms ∷ []

server_of-IsLawful : IsLawful (server_of three)
unfolding new_server has_cap str_eq any
server_of-IsLawful = record {
  instances_answered = λ h. (none, refl);
  metrics_answered = λ h m v. (some [], refl);
  alarms_answered = λ h. (some (fire ∷ []), refl);
  ingress_answered = λ h. (codes "10.0.0.1", refl);
  backups_answered = λ h. cc;
}

serves_faithfully :
    (path : Str) (query : StrMap Str)
    → IsRead (server_of three) path query
    → Decodes plain (serve (server_of three) (signed_by checker path query)).body
serves_faithfully path query reads =
    Decodes-plain (serve (server_of three) (signed_by checker path query)).body

shares_t : (server_of three).secret ≡ some (token checker.token)
unfolding new_server new_suite
shares_t = refl

trimmed_token : trim_space checker.token ≡ checker.token
unfolding trim_space new_suite
trimmed_token = refl

nonempty_token : is_empty checker.token ≡ false
unfolding new_suite
nonempty_token = refl

passes_three :
    (run plain (relay three) whole_body quiet checker ≡ (lawful_report (server_of three), none))
    × (passed (lawful_report (server_of three)) ≡ true)
passes_three =
    run_lawful plain plain_status whole_body (server_of three) checker serves_faithfully
      (λ path query asks. (refl, refl)) shares_t trimmed_token nonempty_token quiet
      server_of-IsLawful

run_lawful_example :
    (run plain (relay three) whole_body quiet checker ≡ (lawful_report (server_of three), none))
    × (passed (lawful_report (server_of three)) ≡ true)
run_lawful_example =
    run_lawful plain plain_status whole_body (server_of three) checker serves_faithfully
      (λ path query asks. (refl, refl)) shares_t trimmed_token nonempty_token quiet
      server_of-IsLawful

run-IsConformant_example :
    IsConformant plain
      (relay three)
      whole_body
      checker
      (run plain (relay three) whole_body quiet checker).0.declared
run-IsConformant_example =
    run-IsConformant plain (relay three) whole_body checker quiet
      (ap (λ (o : Report × Option Str). o.1) passes_three.0)
      (ap (λ (o : Report × Option Str). passed o.0) passes_three.0 ∙ passes_three.1)
