-- ===== src/Provider/Client.antt =====
-- internal/provider/client.go: the client of a Provider. The transport says what becomes of a request:
-- whether net/http makes it, and what comes back.
pub mod Served
pub mod Reads
use tinycloud_platform.Base.{
  ℕ, ◌-◌, ◌/◌, ◌==◌, Bool, true, false, not, Option, none, some, List, [], ◌∷◌, ◌++◌, ltb,
  if◌then◌else◌, Str, codes, str_eq, is_empty, StrMap, any, keep,
}
use tinycloud_platform.Text.{trim_suffix, quote, decimal, trim_space}
use tinycloud_platform.Infra.Types.{InstanceInfo, Series, AlarmStatus, ObjectInfo}
use tinycloud_platform.Provider.Config.{
  Slot, instances, metrics, alarms, ingress, backups, capability, Token, token, no_token,
  kind_infra,
}
use tinycloud_platform.Provider.Contract.{
  ProviderError, not_implemented, other, Request, Json, path_capabilities, path_for,
  valid_capability, not_implemented_by,
}

-- A response's status code, the text of the status, and its body.
pub data Exchange (R : Type 0) : Type 0 where
  unreachable : Str → Exchange R
  replied : ℕ → Str → R → Exchange R

-- `invalid` is the error of http.NewRequest, if it makes one.
pub record Transport (R : Type 0) : Type 0 where
  pub invalid : Request → Option Str
  pub send : Request → Exchange R

-- `secret` is what the token source yields at the call; `declared` is nil before the first discovery;
-- `int_seconds` is `int(d.Seconds())` of a time.Duration that is not negative, which goes through a float64.
pub record Client : Type 0 where
  pub name : Str
  pub base_url : Str
  pub secret : Option Token
  pub declared : Option (List Str)
  pub known_at : ℕ
  pub quote_other : Str → Str
  pub int_seconds : ℕ → ℕ

unfoldable pub new_client : (Str → Str) → (ℕ → ℕ) → Str → Str → Option Token → Client
unfolding trim_suffix
new_client q int_seconds name base_url secret = record {
  name = name;
  base_url = trim_suffix base_url (codes "/");
  secret = secret;
  declared = none;
  known_at = 0;
  quote_other = q;
  int_seconds = int_seconds;
}

pub data Fetched (A : Type 0) : Type 0 where
  got : A → Fetched A
  error : ProviderError → Fetched A

-- fmt.Errorf("provider %q: %w", c.name, err)
abbrev pub named : Client → Str → Str
named c text = codes "provider " ++ quote c.quote_other c.name ++ codes ": " ++ text

abbrev pub detail_of : (j : Json) → j.Raw → Str
detail_of j raw =
    let head = j.limit 8192 raw in
    if is_empty (j.decode_error head) then j.text head else j.decode_error head

unfoldable pub status_error : (j : Json) → Client → ℕ → Str → j.Raw → ProviderError
unfolding quote
status_error j c code status raw =
    if code == 501
    then not_implemented (named c (detail_of j raw))
    else other (named c (status ++ codes ": " ++ detail_of j raw))

-- `failure` is the error of the decoder.
abbrev pub decoded_as : {A : Type 0} → Client → Str → Str → Option A → Fetched A
decoded_as c path failure none =
    error (other (named c (codes "decode " ++ path ++ codes ": " ++ failure)))
decoded_as c path failure (some a) = got a

abbrev pub received :
    {A : Type 0} → (j : Json) → Client → Str → (j.Raw → Option A) → Exchange j.Raw → Fetched A
received j c path decode (unreachable e) = error (other (named c e))
received j c path decode (replied code status raw) =
    if code == 200
    then decoded_as c path (j.decode_failure raw) (decode raw)
    else error (status_error j c code status raw)

abbrev pub request_of : Client → Str → StrMap Str → Str → Request
request_of c path query authorization = record {
  method = codes "GET";
  base = c.base_url;
  path = path;
  query = query;
  authorization = authorization;
}

-- The header, or the error of the token source.
abbrev pub authorization_of : Client → Option Token → Fetched Str
authorization_of c none = got []
authorization_of c (some (token t)) = got (codes "Bearer " ++ t)
authorization_of c (some (no_token e)) = error (other (named c e))

abbrev pub sent :
    {A : Type 0}
    → (j : Json) → Transport j.Raw
    → Client
    → Str
    → StrMap Str
    → (j.Raw → Option A)
    → Fetched Str
    → Fetched A
sent j net c path query decode (error e) = error e
sent j net c path query decode (got header) =
    received j c path decode (net.send (request_of c path query header))

abbrev pub made :
    {A : Type 0}
    → (j : Json) → Transport j.Raw
    → Client
    → Str
    → StrMap Str
    → (j.Raw → Option A)
    → Option Str
    → Fetched A
made j net c path query decode (some e) = error (other (named c e))
made j net c path query decode none = sent j net c path query decode (authorization_of c c.secret)

-- The request is made before its token is read.
unfoldable pub get :
    {A : Type 0}
    → (j : Json) → Transport j.Raw
    → Client
    → Str
    → StrMap Str
    → (j.Raw → Option A)
    → Fetched A
unfolding status_error quote
get j net c path query decode =
    made j net c path query decode (net.invalid (request_of c path query []))

abbrev pub list_of : Option (List Str) → List Str
list_of none = []
list_of (some l) = l

abbrev pub discovered :
    Client → ℕ → Fetched (Str × Str × Option (List Str)) → Client × Fetched (List Str)
discovered c now (error e) = (c, error e)
discovered c now (got (kind, name, cs)) =
    if not (str_eq kind kind_infra)
    then (
      c,
      error (
          other (
            codes "provider "
            ++ quote c.quote_other c.name
            ++ codes " declares kind "
            ++ quote c.quote_other kind
            ++ codes ", not "
            ++ quote c.quote_other kind_infra)),
    )
    else (
      record c { declared = some (keep valid_capability (list_of cs)); known_at = now },
      got (keep valid_capability (list_of cs)),
    )

-- `Capabilities`: an unknown capability is left out.
unfoldable pub capabilities :
    (j : Json) → Transport j.Raw → ℕ → Client → Client × Fetched (List Str)
unfolding get valid_capability keep quote
capabilities j net now c = discovered c now (get j net c path_capabilities [] j.decode_capabilities)

abbrev pub capability_ttl : ℕ
capability_ttl = 300000000000

abbrev pub is_known : ℕ → ℕ → Option (List Str) → Bool
is_known now known_at none = false
is_known now known_at (some ds) = not (ltb capability_ttl (now - known_at))

abbrev pub declares : Option (List Str) → Str → Bool
declares none name = false
declares (some ds) name = any (str_eq name) ds

unfoldable pub declared_error : Client → Str → Option ProviderError
unfolding any not_implemented_by
declared_error c name =
    if declares c.declared name then none else some (not_implemented_by c.quote_other name c.name)

abbrev pub rediscovered : Str → Client × Fetched (List Str) → Client × Option ProviderError
rediscovered name (c, error e) = (c, some e)
rediscovered name (c, got ds) = (c, declared_error c name)

-- `supports`, whose discovery is remembered at the time `stamp`.
unfoldable pub supports :
    (j : Json) → Transport j.Raw → ℕ → ℕ → Client → Str → Client × Option ProviderError
unfolding capabilities declared_error
supports j net now stamp c name =
    if is_known now c.known_at c.declared
    then (c, declared_error c name)
    else rediscovered name (capabilities j net stamp c)

-- What the five reads have in common.
abbrev pub read_supported :
    {A : Type 0}
    → (j : Json) → Transport j.Raw
    → Slot
    → StrMap Str
    → (j.Raw → Option A)
    → Client × Option ProviderError
    → Client × Fetched A
read_supported j net s query decode (c, some e) = (c, error e)
read_supported j net s query decode (c, none) = (c, get j net c (path_for s) query decode)

unfoldable pub read :
    {A : Type 0}
    → (j : Json) → Transport j.Raw
    → ℕ
    → ℕ
    → Client
    → Slot
    → StrMap Str
    → (j.Raw → Option A)
    → Client × Fetched A
unfolding supports get
read j net now stamp c s query decode =
    read_supported j net s query decode (supports j net now stamp c (capability s))

unfoldable pub list_instances :
    (j : Json) → Transport j.Raw → ℕ → ℕ → Client → Client × Fetched (Option (List InstanceInfo))
unfolding read
list_instances j net now stamp c = read j net now stamp c instances [] j.decode_instances

-- The seconds of the window, at least one.
unfoldable pub window_seconds : Client → ℕ → ℕ
window_seconds c window = let n = c.int_seconds window in if n == 0 then 1 else n

unfoldable pub query_metric :
    (j : Json)
    → Transport j.Raw
    → ℕ
    → ℕ
    → Client
    → Str
    → ℕ
    → Client × Fetched (Option (List Series))
unfolding read window_seconds decimal
query_metric j net now stamp c metric window =
    read j net now stamp c metrics
      ((codes "metric", metric) ∷ (codes "window", decimal (window_seconds c window)) ∷ [])
      j.decode_series

unfoldable pub list_alarm_statuses :
    (j : Json) → Transport j.Raw → ℕ → ℕ → Client → Client × Fetched (Option (List AlarmStatus))
unfolding read
list_alarm_statuses j net now stamp c = read j net now stamp c alarms [] j.decode_alarms

-- A field that is missing is the empty string.
abbrev pub ip_of : Option (Option Str) → Option Str
ip_of none = none
ip_of (some none) = some []
ip_of (some (some ip)) = some ip

unfoldable pub ingress_public_ip :
    (j : Json) → Transport j.Raw → ℕ → ℕ → Client → Client × Fetched Str
unfolding read
ingress_public_ip j net now stamp c =
    read j net now stamp c ingress [] (λ raw. ip_of (j.decode_ingress raw))

unfoldable pub list_objects :
    (j : Json) → Transport j.Raw → ℕ → ℕ → Client → Client × Fetched (Option (List ObjectInfo))
unfolding read
list_objects j net now stamp c = read j net now stamp c backups [] j.decode_backups
