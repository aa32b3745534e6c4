-- ===== src/Provider/Server.antt =====
-- internal/provider/server.go: the server of a Provider. Requests come with a clean path, as the mux of
-- net/http makes it; what is logged, and the body that a HEAD request does not get, are left out.
pub mod Windows
pub mod Access
use tinycloud_platform.Base.{
  ℕ, ◌*◌, ◌-◌, ◌%◌, Bool, true, false, ◌&&◌, ◌||◌, not, Option, none, some, List, [], ◌∷◌, ◌++◌,
  ltb, if◌then◌else◌, Str, codes, str_eq, is_empty, wrap64, StrMap, lookup, ℤ, pos, negsuc, any,
  keep, int_lt,
}
use tinycloud_platform.Text.{Unicode, cut, equal_fold, trim_space, quote, atoi}
use tinycloud_platform.Infra.Types.{metric_names}
use tinycloud_platform.Provider.Config.{
  Slot, instances, metrics, alarms, ingress, backups, capability, Token, token, no_token,
  kind_infra,
}
use tinycloud_platform.Provider.Contract.{
  ProviderError, not_implemented, other, Answer, answered, failed, Infra, Body, health_body,
  capabilities_body, instances_body, series_body, alarms_body, ingress_body, backups_body,
  error_body, Request, Response, path_health, path_capabilities, path_for, valid_metric,
  infra_capabilities,
}

-- `secret` is what the token source yields at the request; none is a nil source.
pub record Server : Type 0 where
  pub provider : Infra
  pub secret : Option Token
  pub caps : List Str
  pub unicode : Unicode
  pub quote_other : Str → Str

unfoldable pub new_server : Unicode → (Str → Str) → Infra → Option Token → Server
new_server u q p secret = record {
  provider = p;
  secret = secret;
  caps = p.capabilities;
  unicode = u;
  quote_other = q;
}

abbrev pub write_error : ℕ → Str → Str → Response
write_error status code message = record { status = status; body = error_body code message }

abbrev pub write_json : Body → Response
write_json b = record { status = 200; body = b }

unfoldable pub allow_get : Request → Response → Response
allow_get r next =
    if str_eq r.method (codes "GET") || str_eq r.method (codes "HEAD")
    then next
    else write_error 405 (codes "bad_request") (codes "only GET is supported")

abbrev pub bearer_of : Unicode → Option (Str × Str) → Str
bearer_of u none = []
bearer_of u (some (scheme, t)) = if equal_fold u scheme (codes "Bearer") then trim_space t else []

unfoldable pub bearer_token : Unicode → Request → Str
unfolding cut equal_fold trim_space
bearer_token u r = bearer_of u (cut b' ' r.authorization)

abbrev pub check_token : Option Token → Str → Response → Response
check_token none sent next = next
check_token (some (no_token e)) sent next =
    write_error 401 (codes "unauthorized") (codes "provider token unavailable")
check_token (some (token want)) sent next =
    if str_eq sent want
    then next
    else write_error 401 (codes "unauthorized") (codes "missing or invalid bearer token")

unfoldable pub authenticated : Server → Request → Response → Response
unfolding bearer_token
authenticated srv r next = check_token srv.secret (bearer_token srv.unicode r) next

unfoldable pub has_cap : Server → Str → Bool
unfolding any
has_cap srv name = any (str_eq name) srv.caps

abbrev pub refused_message : Server → Str → Str
refused_message srv name =
    codes "capability " ++ name ++ codes " is not implemented by provider " ++ srv.provider.name

unfoldable pub capability_guard : Server → Str → Response → Response
unfolding has_cap
capability_guard srv name next =
    if not (has_cap srv name)
    then write_error 501 (codes "not_implemented") (refused_message srv name)
    else next

unfoldable pub capabilities_handler : Server → Request → Response
unfolding allow_get has_cap keep
capabilities_handler srv r = allow_get r (
    write_json (
      capabilities_body kind_infra srv.provider.name
        (some (keep (has_cap srv) infra_capabilities))))

abbrev pub write_failure : Server → Str → ProviderError → Response
write_failure srv name (not_implemented e) =
    write_error 501 (codes "not_implemented") (refused_message srv name)
write_failure srv name (other e) =
    write_error 502 (codes "upstream_error") (name ++ codes ": " ++ e)

-- A nil slice is made an empty one.
abbrev pub listed : {A : Type 0} → Option (List A) → List A
listed none = []
listed (some l) = l

abbrev pub write_answer : {A : Type 0} → Server → Str → (A → Body) → Answer A → Response
write_answer srv name wrap (failed e) = write_failure srv name e
write_answer srv name wrap (answered a) = write_json (wrap a)

unfoldable pub join : Str → List Str → Str
join sep [] = []
join sep (s ∷ []) = s
join sep (s ∷ t ∷ ts) = s ++ sep ++ join sep (t ∷ ts)

-- time.Duration(seconds) * time.Second
abbrev pub duration : ℕ → ℤ
duration seconds = wrap64 (seconds * 1000000000)

abbrev pub metric_answer : Server → Str → Option ℤ → Response
metric_answer srv name (some (pos seconds)) =
    if ltb 0 seconds
    then write_answer srv (codes "metrics") (λ l. series_body (some (listed l)))
        (srv.provider.metric name (duration seconds))
    else write_error 400 (codes "bad_request") (codes "window must be a positive number of seconds")
metric_answer srv name _ =
    write_error 400 (codes "bad_request") (codes "window must be a positive number of seconds")

-- r.URL.Query().Get(key)
unfoldable pub query_value : Str → StrMap Str → Str
unfolding lookup
query_value k q = elim (lookup k q) [ none ↦ [] | some v ↦ v ]

unfoldable pub metrics_handler : Server → Request → Response
unfolding query_value valid_metric quote join atoi wrap64
metrics_handler srv r =
    let name = query_value (codes "metric") r.query in
    if not (valid_metric name)
    then write_error 400 (codes "bad_request") (
        codes "unknown metric "
        ++ quote srv.quote_other name
        ++ codes "; the contract defines "
        ++ join (codes ", ") metric_names)
    else metric_answer srv name (atoi (query_value (codes "window") r.query))

unfoldable pub handler_of : Server → Request → Slot → Response
unfolding allow_get metrics_handler
handler_of srv r instances = allow_get r (
    write_answer srv (codes "instances") (λ l. instances_body (some (listed l)))
      srv.provider.instances)
handler_of srv r metrics = allow_get r (metrics_handler srv r)
handler_of srv r alarms =
    allow_get r
      (write_answer srv (codes "alarms") (λ l. alarms_body (some (listed l))) srv.provider.alarms)
handler_of srv r ingress =
    allow_get r (write_answer srv (codes "ingress") ingress_body srv.provider.ingress_address)
handler_of srv r backups = allow_get r (
    write_answer srv (codes "backups") (λ l. backups_body (some (listed l)))
      srv.provider.backup_objects)

unfoldable pub serve_slot : Server → Request → Slot → Response
unfolding authenticated capability_guard handler_of
serve_slot srv r s = authenticated srv r (capability_guard srv (capability s) (handler_of srv r s))

-- The capability that a path belongs to.
unfoldable pub slot_at : Str → Option Slot
slot_at path =
    if str_eq path (path_for instances)
    then some instances
    else if str_eq path (path_for metrics)
    then some metrics
    else if str_eq path (path_for alarms)
    then some alarms
    else if str_eq path (path_for ingress)
    then some ingress
    else if str_eq path (path_for backups)
    then some backups
    else none

abbrev pub serve_at : Server → Request → Option Slot → Response
serve_at srv r (some s) = serve_slot srv r s
serve_at srv r none = write_error 404 (codes "bad_request") (codes "no such path: " ++ r.path)

unfoldable pub serve : Server → Request → Response
unfolding slot_at serve_slot authenticated capabilities_handler allow_get
serve srv r =
    if str_eq r.path path_health
    then allow_get r (write_json health_body)
    else if str_eq r.path path_capabilities
    then authenticated srv r (capabilities_handler srv r)
    else serve_at srv r (slot_at r.path)
