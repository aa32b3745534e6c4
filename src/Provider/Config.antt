-- ===== src/Provider/Config.antt =====
-- internal/provider/config.go and token.go: the configured Providers, and the choice of the five sources
-- of the infrastructure. The file system, the JSON decoder and `url.Parse` are the run's; so is what a
-- Provider answers when it is asked for its capabilities.
pub mod Reference
pub mod Discovery
pub mod Choice
use tinycloud_platform.Base.{
  Bool, true, false, ◌&&◌, ◌||◌, not, Option, none, some, List, [], ◌∷◌, ◌++◌, if◌then◌else◌, Str,
  codes, str_eq, is_empty, StrMap, lookup, insert,
}
use tinycloud_platform.Text.{trim_space, quote}

pub record Entry : Type 0 where
  pub kind : Str
  pub name : Str
  pub base_url : Str
  pub token_file : Str
  pub token : Str

abbrev pub kind_infra : Str
kind_infra = codes "infra"

pub data TokenSource : Type 0 where
  static_token file_token : Str → TokenSource

pub data Token : Type 0 where
  token : Str → Token
  no_token : Str → Token

-- os.ReadFile: the contents, or the text of an error.
pub data File : Type 0 where
  contents : Str → File
  unreadable : Str → File

-- What the run has of the outside. A URL is parsed to its scheme and host.
pub record Outside : Type 0 where
  pub read_file : Str → File
  pub parse_url : Str → Option (Str × Str)
  pub quote_other : Str → Str

abbrev pub read_token : Str → File → Token
read_token path (unreadable e) =
    no_token (codes "read provider token from " ++ path ++ codes ": " ++ e)
read_token path (contents raw) =
    let t = trim_space raw in
    if is_empty t
    then no_token (codes "provider token file " ++ path ++ codes " is empty")
    else token t

-- The call of a token source.
unfoldable pub yield_token : Outside → TokenSource → Token
unfolding trim_space
yield_token out (static_token t) = token t
yield_token out (file_token path) = read_token path (out.read_file path)

abbrev pub provider_error : Outside → Str → Str → Str
provider_error out name text = codes "provider " ++ quote out.quote_other name ++ codes ": " ++ text

abbrev pub not_absolute : Outside → Entry → Str
not_absolute out e = provider_error out e.name (
    codes "baseUrl " ++ quote out.quote_other e.base_url ++ codes " is not an absolute http(s) URL")

abbrev pub url_error : Outside → Entry → Option (Str × Str) → Option Str
url_error out e none = some (not_absolute out e)
url_error out e (some (scheme, host)) =
    if is_empty scheme || is_empty host
    then some (not_absolute out e)
    else if not (str_eq scheme (codes "http")) && not (str_eq scheme (codes "https"))
    then some (
        provider_error out e.name (
          codes "baseUrl scheme " ++ quote out.quote_other scheme ++ codes " is not http or https"))
    else none

abbrev pub token_error : Outside → Entry → Option Str → Option Str
token_error out e (some x) = some x
token_error out e none =
    if is_empty e.token_file && is_empty e.token
    then some (provider_error out e.name (codes "one of tokenFile or token is required"))
    else none

unfoldable pub validate : Outside → Entry → Option Str
unfolding trim_space quote
validate out e =
    if not (str_eq e.kind kind_infra)
    then some (
        provider_error out e.name (
          codes "unknown kind "
          ++ quote out.quote_other e.kind
          ++ codes " (this build serves "
          ++ quote out.quote_other kind_infra
          ++ codes ")"))
    else if is_empty (trim_space e.name)
    then some (
        codes "provider with base URL "
        ++ quote out.quote_other e.base_url
        ++ codes ": name is required")
    else token_error out e (url_error out e (out.parse_url e.base_url))

unfoldable pub token_source : Entry → TokenSource
token_source e =
    if not (is_empty e.token_file) then file_token e.token_file else static_token e.token

-- The client of a Provider, by what `NewClient` is given.
pub record Client : Type 0 where
  pub name : Str
  pub base_url : Str
  pub source : TokenSource

abbrev pub client_of : Entry → Client
client_of e = record { name = e.name; base_url = e.base_url; source = token_source e }

pub data Slot : Type 0 where
  instances metrics alarms ingress backups : Slot

abbrev pub capability : Slot → Str
capability instances = codes "instances"
capability metrics = codes "metrics"
capability alarms = codes "alarms"
capability ingress = codes "ingress"
capability backups = codes "backups"

-- What stands in for a capability: a client, the stub, or a source of the fallback.
pub data Source : Type 0 where
  client : Client → Source
  unimplemented : Str → Source
  native : Str → Source

-- A source that is not there is nil.
pub record Sources : Type 0 where
  pub on_instances : Option Source
  pub on_metrics : Option Source
  pub on_alarms : Option Source
  pub on_ingress : Option Source
  pub on_backups : Option Source

unfoldable pub slot_of : Slot → Sources → Option Source
slot_of instances src = src.on_instances
slot_of metrics src = src.on_metrics
slot_of alarms src = src.on_alarms
slot_of ingress src = src.on_ingress
slot_of backups src = src.on_backups

unfoldable pub fill : Slot → Source → Sources → Sources
fill instances v src = record src { on_instances = some v }
fill metrics v src = record src { on_metrics = some v }
fill alarms v src = record src { on_alarms = some v }
fill ingress v src = record src { on_ingress = some v }
fill backups v src = record src { on_backups = some v }

-- The variables of the first loop of `InfraSources`.
pub record Found : Type 0 where
  pub configured : Bool
  pub by_capability : StrMap Client
  pub undiscovered : List Client

unfoldable pub declare_all : Client → List Str → StrMap Client → StrMap Client
unfolding lookup insert
declare_all c [] m = m
declare_all c (d ∷ ds) m = elim (lookup d m) [
  | none ↦ declare_all c ds (insert d c m)
  | some taken ↦ declare_all c ds m
]

-- `none` is a Provider that could not be asked.
unfoldable pub found_client : Client → Option (List Str) → Found → Found
unfolding declare_all
found_client c none f = record f { configured = true; undiscovered = f.undiscovered ++ c ∷ [] }
found_client c (some ds) f = record f {
  configured = true;
  by_capability = declare_all c ds f.by_capability;
}

unfoldable pub find_clients : (Client → Option (List Str)) → List Entry → Found → Found
unfolding found_client token_source
find_clients asks [] f = f
find_clients asks (e ∷ es) f =
    find_clients asks es
      (if str_eq e.kind kind_infra then found_client (client_of e) (asks (client_of e)) f else f)

abbrev pub fill_left : Found → Slot → Sources → Option Source → List Client → Sources
fill_left f slot src (some v) cs = src
fill_left f slot src none (c ∷ cs) = fill slot (client c) src
fill_left f slot src none [] =
    if f.configured then fill slot (unimplemented (capability slot)) src else src

unfoldable pub fill_slot : Found → Slot → Sources → Sources
unfolding fill slot_of lookup
fill_slot f slot src = elim (lookup (capability slot) f.by_capability) [
  | some c ↦ fill slot (client c) src
  | none ↦ fill_left f slot src (slot_of slot src) f.undiscovered
]

abbrev pub nothing_found : Found
nothing_found = record { configured = false; by_capability = []; undiscovered = [] }

unfoldable pub fill_slots : Found → List Slot → Sources → Sources
unfolding fill_slot
fill_slots f [] src = src
fill_slots f (slot ∷ slots) src = fill_slots f slots (fill_slot f slot src)

abbrev pub infra_slots : List Slot
infra_slots = instances ∷ metrics ∷ alarms ∷ ingress ∷ backups ∷ []

unfoldable pub infra_sources : (Client → Option (List Str)) → List Entry → Sources → Sources
unfolding find_clients fill_slots
infra_sources asks entries fallback =
    fill_slots (find_clients asks entries nothing_found) infra_slots fallback

pub data Loaded : Type 0 where
  loaded : List Entry → Loaded
  load_error : Str → Loaded

unfoldable pub first_error : Outside → List Entry → Option Str
unfolding validate
first_error out [] = none
first_error out (e ∷ es) = elim (validate out e) [ none ↦ first_error out es | some x ↦ some x ]

-- json.Unmarshal: the entries, or the text of an error.
pub data Decoded : Type 0 where
  decoded : List Entry → Decoded
  malformed : Str → Decoded

abbrev pub checked : Outside → List Entry → Option Str → Loaded
checked out es none = loaded es
checked out es (some x) = load_error x

abbrev pub decoded_entries : Outside → Decoded → Loaded
decoded_entries out (malformed e) =
    load_error (codes "provider configuration is not a JSON list of providers: " ++ e)
decoded_entries out (decoded es) = checked out es (first_error out es)

abbrev pub load_raw : Outside → (Str → Decoded) → Str → Loaded
load_raw out decode raw = if is_empty raw then loaded [] else decoded_entries out (decode raw)

abbrev pub load_file : Outside → (Str → Decoded) → Str → File → Loaded
load_file out decode path (unreadable e) =
    load_error (codes "read provider configuration from " ++ path ++ codes ": " ++ e)
load_file out decode path (contents raw) = load_raw out decode (trim_space raw)

unfoldable pub load_entries : Outside → (Str → Decoded) → Str → Str → Loaded
unfolding trim_space first_error
load_entries out decode inline path =
    let raw = trim_space inline in
    if is_empty raw && not (is_empty path)
    then load_file out decode path (out.read_file path)
    else load_raw out decode raw
