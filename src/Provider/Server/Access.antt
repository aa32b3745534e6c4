-- ===== src/Provider/Server/Access.antt =====
-- Who the server answers, and what: requests with its token and without.
use tinycloud_platform.Base.{
  ◌≡◌, ◌≢◌, refl, ap, ◌∙◌, true, Option, none, some, List, [], ◌++◌, if◌then◌else◌, Str, codes,
  str_eq, str_eq_refl, str_eq-false,
}
use tinycloud_platform.Text.{cut, equal_fold, trim_space}
use tinycloud_platform.Provider.Config.{
  Slot, instances, metrics, alarms, ingress, backups, capability, Token, token, no_token,
}
use tinycloud_platform.Provider.Contract.{
  Infra, health_body, Request, Response, path_health, path_capabilities, path_for,
}
use tinycloud_platform.Provider.Server.{
  Server, write_json, write_error, allow_get, bearer_token, check_token, authenticated, has_cap,
  capability_guard, capabilities_handler, handler_of, serve_slot, slot_at, serve_at, serve,
}

bearer_token-sent :
    (srv : Server) (r : Request) (t : Str)
    → r.authorization ≡ codes "Bearer " ++ t
    → bearer_token srv.unicode r ≡ trim_space t
unfolding bearer_token cut equal_fold
bearer_token-sent srv r t h = rw h refl

pub authenticated-sent :
    (srv : Server) (r : Request) (t : Str) (next : Response)
    → srv.secret ≡ some (token t)
    → trim_space t ≡ t
    → r.authorization ≡ codes "Bearer " ++ t
    → authenticated srv r next ≡ next
unfolding authenticated
authenticated-sent srv r t next w e h = rw (w, bearer_token-sent srv r t h, e, str_eq_refl t) refl

pub serve-capabilities :
    (srv : Server) (r : Request)
    → r.path ≡ path_capabilities
    → serve srv r ≡ authenticated srv r (capabilities_handler srv r)
unfolding serve str_eq
serve-capabilities srv r h = rw h refl

pub serve-slot :
    (srv : Server) (r : Request) (s : Slot) → r.path ≡ path_for s → serve srv r ≡ serve_slot srv r s
unfolding serve str_eq slot_at
serve-slot srv r instances h = rw h refl
serve-slot srv r metrics h = rw h refl
serve-slot srv r alarms h = rw h refl
serve-slot srv r ingress h = rw h refl
serve-slot srv r backups h = rw h refl

-- A request with the token, to the path of a capability.
pub serve-authenticated :
    (srv : Server) (t : Str) (r : Request) (s : Slot)
    → srv.secret ≡ some (token t)
    → trim_space t ≡ t
    → r.path ≡ path_for s
    → r.authorization ≡ codes "Bearer " ++ t
    → serve srv r ≡ capability_guard srv (capability s) (handler_of srv r s)
unfolding serve_slot
serve-authenticated srv t r s w e p a =
    serve-slot srv r s p
    ∙ authenticated-sent srv r t (capability_guard srv (capability s) (handler_of srv r s)) w e a

pub serve-has_cap :
    (srv : Server) (t : Str) (r : Request) (s : Slot)
    → srv.secret ≡ some (token t)
    → trim_space t ≡ t
    → r.path ≡ path_for s
    → r.authorization ≡ codes "Bearer " ++ t
    → has_cap srv (capability s) ≡ true
    → serve srv r ≡ handler_of srv r s
unfolding capability_guard
serve-has_cap srv t r s w e p a k = serve-authenticated srv t r s w e p a ∙ rw k refl

-- The token of the server is known, and is not the one that the request carries.
abbrev pub refused : Response
refused = write_error 401 (codes "unauthorized") (codes "missing or invalid bearer token")

pub authenticated-refused :
    (srv : Server) (r : Request) (want : Str) (next : Response)
    → srv.secret ≡ some (token want)
    → bearer_token srv.unicode r ≢ want
    → authenticated srv r next ≡ refused
unfolding authenticated
authenticated-refused srv r want next w h =
    rw (w, str_eq-false (bearer_token srv.unicode r) want h) refl

pub bearer_token-missing :
    (srv : Server) (r : Request) → r.authorization ≡ [] → bearer_token srv.unicode r ≡ []
unfolding bearer_token cut
bearer_token-missing srv r h = rw h refl

abbrev pub with_provider : Server → Infra → List Str → Server
with_provider srv p caps = record srv { provider = p; caps = caps }

check_token-refuses :
    (secret : Option Token) (carried : Str) (a b : Response)
    → ((want : Str) → secret ≡ some (token want) → carried ≢ want)
    → secret ≢ none
    → check_token secret carried a ≡ check_token secret carried b
check_token-refuses none carried a b h n = absurd (n refl)
check_token-refuses (some (no_token e)) carried a b h n = refl
check_token-refuses (some (token want)) carried a b h n =
    rw (str_eq-false carried want (h want refl)) refl

authenticated-with_provider :
    (srv : Server) (p : Infra) (caps : List Str) (r : Request) (a b : Response)
    → ((want : Str) → srv.secret ≡ some (token want) → bearer_token srv.unicode r ≢ want)
    → srv.secret ≢ none
    → authenticated (with_provider srv p caps) r a ≡ authenticated srv r b
unfolding authenticated
authenticated-with_provider srv p caps r a b h n =
    check_token-refuses srv.secret (bearer_token srv.unicode r) a b h n

serve_at-with_provider :
    (srv : Server) (p : Infra) (caps : List Str) (r : Request) (o : Option Slot)
    → ((want : Str) → srv.secret ≡ some (token want) → bearer_token srv.unicode r ≢ want)
    → srv.secret ≢ none
    → serve_at (with_provider srv p caps) r o ≡ serve_at srv r o
unfolding serve_slot
serve_at-with_provider srv p caps r none h n = refl
serve_at-with_provider srv p caps r (some s) h n =
    authenticated-with_provider srv p caps r
      (capability_guard (with_provider srv p caps) (capability s)
        (handler_of (with_provider srv p caps) r s))
      (capability_guard srv (capability s) (handler_of srv r s)) h n

-- A request without the server's token learns nothing of the Provider: whatever Provider the server is
-- given, and whatever it declares, the response is the same. The server has a source of its token, which
-- may fail.
pub serve-unauthenticated :
    (srv : Server) (p : Infra) (caps : List Str) (r : Request)
    → ((want : Str) → srv.secret ≡ some (token want) → bearer_token srv.unicode r ≢ want)
    → srv.secret ≢ none
    → serve (with_provider srv p caps) r ≡ serve srv r
unfolding serve
serve-unauthenticated srv p caps r h n =
    let srv' = with_provider srv p caps in
    ap
      (λ x.
        if str_eq r.path path_health
        then allow_get r (write_json health_body)
        else if str_eq r.path path_capabilities
        then x
        else serve_at srv' r (slot_at r.path))
      (authenticated-with_provider srv p caps r (capabilities_handler srv' r)
        (capabilities_handler srv r) h n)
    ∙ ap
        (λ x.
          if str_eq r.path path_health
          then allow_get r (write_json health_body)
          else if str_eq r.path path_capabilities
          then authenticated srv r (capabilities_handler srv r)
          else x)
        (serve_at-with_provider srv p caps r (slot_at r.path) h n)
