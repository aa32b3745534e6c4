-- ===== src/Build/Webhook.antt =====
-- internal/build/coordinator/webhook.go. HMAC-SHA256 and the decoding of the JSON body are arguments;
-- what the handler reads for an app (clock, uuid, faults) is `runs` at the app's name.
pub mod Keeps
pub mod Signature
use tinycloud_platform.Base.{
  ℕ, zero, suc, ◌+◌, ◌-◌, ◌*◌, Bool, true, false, ◌&&◌, ◌||◌, not, Option, none, some, List, [],
  ◌∷◌, ◌++◌, ltb, leb, if◌then◌else◌, Str, codes, str_eq, is_empty,
}
use tinycloud_platform.Text.{
  Unicode, trim_space, to_lower, has_prefix, trim_prefix, trim_suffix, replace_first,
}
use tinycloud_platform.Build.Types.{BuildJob, is_active}
use tinycloud_platform.Build.Tables.{Result, ok, err}
use tinycloud_platform.Build.Store.{AppRepo, get_job_by_app_name, list_app_repos}
use tinycloud_platform.Build.World.{Server, Run, World, Response, reply, refuse, ignored, queued}
use tinycloud_platform.Build.Server.{start_rebuild, Started, started, not_dispatched, not_stored}

pub record PushEvent : Type 0 where
  pub git_ref : Str
  pub deleted : Bool
  pub clone_url : Str
  pub html_url : Str
  pub full_name : Str
  pub head_commit : Option Str

-- A hexadecimal digit, of either case.
unfoldable pub hex_digit : ℕ → Option ℕ
hex_digit c =
    if leb b'0' c && leb c b'9'
    then some (c - 48)
    else if leb b'a' c && leb c b'f'
    then some (c - 87)
    else if leb b'A' c && leb c b'F'
    then some (c - 55)
    else none

abbrev pub hex_byte : Option ℕ → Option ℕ → Option Str → Option Str
hex_byte (some h) (some l) (some s) = some ((h * 16 + l) ∷ s)
hex_byte _ _ _ = none

-- hex.DecodeString; an odd number of digits is an error
unfoldable pub decode_hex : Str → Option Str
unfolding hex_digit
decode_hex [] = some []
decode_hex (h ∷ []) = none
decode_hex (h ∷ l ∷ s) = hex_byte (hex_digit h) (hex_digit l) (decode_hex s)

abbrev pub signature_prefix : Str
signature_prefix = codes "sha256="

abbrev pub is_mac : Str → Option Str → Bool
is_mac mac none = false
is_mac mac (some sent) = str_eq sent mac

unfoldable pub valid_signature : (Str → Str → Str) → Str → Str → Str → Bool
valid_signature hmac secret body header =
    has_prefix header signature_prefix
    && is_mac (hmac secret body) (decode_hex (trim_prefix header signature_prefix))

unfoldable pub normalize_repo : Unicode → Str → Str
unfolding trim_space to_lower trim_suffix replace_first trim_prefix
normalize_repo u url =
    let a = trim_space (to_lower u url) in
    let b = trim_suffix (trim_suffix a (codes "/")) (codes ".git") in
    let c = replace_first b (codes "git@github.com:") (codes "github.com/") in
    trim_prefix (trim_prefix (trim_prefix c (codes "https://")) (codes "http://")) (codes "www.")

-- Whether a push of the repository and the branch is one of the app's source.
unfoldable pub builds_from : Unicode → Str → Str → AppRepo → Bool
unfolding normalize_repo
builds_from u pushed branch a =
    str_eq (normalize_repo u a.repo_url) pushed && str_eq a.git_ref branch

abbrev pub triggered : Str → World × Started → World × List Str
triggered app (w, started j) = (w, (app ++ codes "=" ++ j.id) ∷ [])
triggered app (w, not_dispatched) = (w, [])
triggered app (w, not_stored e) = (w, [])

unfoldable pub trigger_previous :
    Server → Run → World → Str → Result (Option BuildJob) → World × List Str
unfolding is_active start_rebuild
trigger_previous srv run w app (err e) = (w, [])
trigger_previous srv run w app (ok none) = (w, [])
trigger_previous srv run w app (ok (some j)) =
    if is_active j then (w, []) else triggered app (start_rebuild srv run w j)

-- One round of the loop over the apps: the world after it, and what it adds to the builds.
unfoldable pub trigger_app : Server → Run → Str → Str → World → AppRepo → World × List Str
trigger_app srv run pushed branch w a =
    if builds_from srv.unicode pushed branch a
    then trigger_previous srv run w a.app_name (get_job_by_app_name run.faults w.store a.app_name)
    else (w, [])

unfoldable pub trigger_apps :
    Server → (Str → Run) → Str → Str → World → List AppRepo → World × List Str
trigger_apps srv runs pushed branch w [] = (w, [])
trigger_apps srv runs pushed branch w (a ∷ as') =
    let (w', t) = trigger_app srv (runs a.app_name) pushed branch w a in
    let (w'', ts) = trigger_apps srv runs pushed branch w' as' in (w'', t ++ ts)

abbrev pub pushed_reply : PushEvent → Str → World × List Str → World × Response
pushed_reply ev branch (w, []) =
    (w, reply 200 (ignored (codes "no app builds from " ++ ev.full_name ++ codes "@" ++ branch)))
pushed_reply ev branch (w, t ∷ ts) = (w, reply 202 (queued (t ∷ ts)))

-- normalizeRepo of the clone URL, or of the HTML URL if that is empty
unfoldable pub pushed_repo : Unicode → PushEvent → Str
unfolding normalize_repo
pushed_repo u ev =
    let clone = normalize_repo u ev.clone_url in
    if is_empty clone then normalize_repo u ev.html_url else clone

unfoldable pub push_to_apps :
    Server → (Str → Run) → World → PushEvent → Str → Result (List AppRepo) → World × Response
push_to_apps srv runs w ev branch (err e) = (w, refuse 500 "failed to look up apps")
push_to_apps srv runs w ev branch (ok apps) =
    pushed_reply ev branch (trigger_apps srv runs (pushed_repo srv.unicode ev) branch w apps)

abbrev pub is_absent : Option Str → Bool
is_absent none = true
is_absent (some id) = false

unfoldable pub handle_push :
    Server → Run → (Str → Run) → World → Option PushEvent → World × Response
handle_push srv run runs w none = (w, refuse 400 "invalid payload")
handle_push srv run runs w (some ev) =
    let branch = trim_prefix ev.git_ref (codes "refs/heads/") in
    if ev.deleted || is_absent ev.head_commit
    then (w, reply 200 (ignored (codes "branch deleted or no head commit")))
    else if str_eq branch ev.git_ref
    then (w, reply 200 (ignored (codes "not a branch push")))
    else push_to_apps srv runs w ev branch (list_app_repos run.faults w.store)

-- A delivery: the two headers, and the raw body.
pub record Delivery : Type 0 where
  pub signature : Str
  pub event : Str
  pub body : Str

unfoldable pub github_webhook :
    (Str → Str → Str)
    → (Str → Option PushEvent)
    → Server
    → Run
    → (Str → Run)
    → World
    → Delivery
    → World × Response
github_webhook hmac parse srv run runs w d =
    if is_empty srv.webhook_secret
    then (w, refuse 503 "webhooks not configured")
    else if not (valid_signature hmac srv.webhook_secret d.body d.signature)
    then (w, refuse 401 "unauthorized")
    else if not (str_eq d.event (codes "push"))
    then (w, reply 200 (ignored (codes "not a push event")))
    else handle_push srv run runs w (parse d.body)
