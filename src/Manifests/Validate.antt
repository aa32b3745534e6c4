-- ===== src/Manifests/Validate.antt =====
-- `ValidateCreateAppRequest`: its regular expressions as automata, and its checks in their order. An
-- error is its message.
pub mod Laws
use tinycloud_platform.Base.{
  ℕ, zero, suc, Bool, true, false, ◌&&◌, ◌||◌, not, Option, none, some, List, [], ◌∷◌, ◌++◌, ltb,
  leb, ◌==◌, if◌then◌else◌, Str, codes, str_eq, is_empty, lookup, ℤ, int_lt, lt_int, int_eq, length,
  all, any,
}
use tinycloud_platform.Text.{trim_space, contains, to_lower, Unicode}
use tinycloud_platform.Manifests.Request.{CreateAppRequest, max_replicas, app_port}

-- [a-z0-9]
unfoldable pub is_alnum : ℕ → Bool
is_alnum c = leb b'a' c && leb c b'z' || leb b'0' c && leb c b'9'

-- [-a-z0-9]*[a-z0-9]
unfoldable pub name_rest : Str → Bool
unfolding is_alnum
name_rest [] = false
name_rest (c ∷ []) = is_alnum c
name_rest (c ∷ d ∷ s) = (is_alnum c || c == b'-') && name_rest (d ∷ s)

-- ^[a-z0-9]([-a-z0-9]*[a-z0-9])?$
unfoldable pub is_app_name : Str → Bool
unfolding name_rest
is_app_name [] = false
is_app_name (c ∷ []) = is_alnum c
is_app_name (c ∷ d ∷ s) = is_alnum c && name_rest (d ∷ s)

-- ^[a-f0-9]{40}$
unfoldable pub is_commit_sha : Str → Bool
unfolding all
is_commit_sha s =
    length s == 40 && all (λ c. leb b'a' c && leb c b'f' || leb b'0' c && leb c b'9') s

-- The states of the automaton of `imageRegex`: before a run of [a-z0-9] and within one, in the first
-- path component (`first_gap`, `first_run`) and in a later one; and no match any more.
pub data ImageState : Type 0 where
  first_gap first_run later_gap later_run dead : ImageState

unfoldable pub image_step : ImageState → ℕ → ImageState
unfolding is_alnum
image_step first_gap c = if is_alnum c then first_run else dead
image_step first_run c =
    if is_alnum c
    then first_run
    else if c == b'.' || c == b'_' || c == b'-'
    then first_gap
    else if c == b'/'
    then later_gap
    else dead
image_step later_gap c = if is_alnum c then later_run else dead
image_step later_run c =
    if is_alnum c
    then later_run
    else if c == b'.' || c == b'_' || c == b'-' || c == b'/'
    then later_gap
    else dead
image_step dead c = dead

abbrev image_done : ImageState → Bool
image_done later_run = true
image_done _ = false

unfoldable pub image_run : ImageState → Str → ImageState
unfolding image_step
image_run st [] = st
image_run st (c ∷ s) = image_run (image_step st c) s

-- ^[a-z0-9]+(?:[._-][a-z0-9]+)*(?:/[a-z0-9]+(?:[._-][a-z0-9]+)*)+$
unfoldable pub is_image : Str → Bool
unfolding image_run
is_image s = image_done (image_run first_gap s)

abbrev pub reserved_names : List Str
reserved_names =
    codes "tinycloud-api"
    ∷ codes "tinycloud-ui"
    ∷ codes "tinycloud-platform"
    ∷ codes "nginx-proxy"
    ∷ codes "oauth2-proxy"
    ∷ codes "traefik"
    ∷ codes "kube-system"
    ∷ codes "monitoring"
    ∷ codes "argocd"
    ∷ codes "cert-manager"
    ∷ codes "kube-dns"
    ∷ codes "default"
    ∷ []

unfoldable pub is_reserved : Str → Bool
unfolding any
is_reserved name = any (str_eq name) reserved_names

unfoldable pub name_error : Str → Option Str
unfolding is_app_name is_reserved
name_error name =
    if is_empty name
    then some (codes "name is required")
    else if ltb 63 (length name)
    then some (codes "name must be at most 63 characters")
    else if not (is_app_name name)
    then some (codes "name must be DNS-1123 lowercase alphanumeric with hyphens")
    else if is_reserved name
    then some (codes "name '" ++ name ++ codes "' is reserved and cannot be used")
    else none

unfoldable pub image_error : Unicode → Str → Option Str
unfolding is_image contains to_lower
image_error u image =
    if is_empty image
    then some (codes "image is required")
    else if contains image (codes ":")
    then some (codes "image must not include a tag; use the tag field")
    else if not (is_image (to_lower u image))
    then some (codes "image must be a valid container image reference")
    else none

unfoldable pub tag_error : Str → Option Str
unfolding is_commit_sha
tag_error tag =
    if is_empty tag
    then some (codes "tag is required")
    else if not (is_commit_sha tag)
    then some (codes "tag must be a 40-character git commit SHA (lowercase hex)")
    else none

-- envPort, ok := req.Env["PORT"]; ok && strings.TrimSpace(envPort) != "8080"
abbrev pub is_wrong_port : Option Str → Bool
is_wrong_port none = false
is_wrong_port (some p) = not (str_eq (trim_space p) (codes "8080"))

unfoldable pub shape_error : CreateAppRequest → Option Str
shape_error req =
    if int_lt req.replicas 1 || lt_int max_replicas req.replicas
    then some (codes "replicas must be between 1 and 5")
    else if not (int_eq req.port app_port)
    then some (codes "port must be 8080 for the current platform contract")
    else if is_wrong_port (lookup (codes "PORT") req.env)
    then some (codes "env PORT must be 8080 for the current platform contract")
    else none

-- The first check that fails decides.
infixr 20 ◌or_else◌
abbrev pub ◌or_else◌ : Option Str → Option Str → Option Str
some e or_else f = some e
none or_else f = f

unfoldable pub validate_create_app_request : Unicode → Option CreateAppRequest → Option Str
unfolding name_error image_error tag_error shape_error trim_space
validate_create_app_request u none = some (codes "request body is required")
validate_create_app_request u (some req) =
    name_error (trim_space req.name)
    or_else image_error u (trim_space req.image)
    or_else tag_error (trim_space req.tag)
    or_else shape_error req
