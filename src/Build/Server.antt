-- ===== src/Build/Server.antt =====
-- internal/build/coordinator/server.go: the handlers over the job store. A body that does not parse is
-- `none`.
pub mod Sound
pub mod Steady
pub mod Keeps
pub mod Report
use tinycloud_platform.Base.{
  String, ℕ, Bool, true, false, ◌&&◌, ◌||◌, not, Option, none, some, List, [], ◌∷◌, ◌++◌, ◌==◌,
  if◌then◌else◌, Str, codes, str_eq, is_empty, ℤ, pos, int_eq, StrMap,
}
use tinycloud_platform.Text.{trim_space, has_prefix, contains, Unicode}
use tinycloud_platform.Manifests.Generate.{Walk}
use tinycloud_platform.Manifests.Request.{placeholder_tag}
use tinycloud_platform.Manifests.Validate.{validate_create_app_request}
use tinycloud_platform.Build.Types.{
  CreateBuildRequest, BuildJob, BuildLogLine, RunnerStatusRequest, status_queued, status_running,
  status_succeeded, status_failed, is_active,
}
use tinycloud_platform.Build.Time.{Time}
use tinycloud_platform.Build.Dispatch
use tinycloud_platform.Build.Dispatch.{Config, Request, Answer}
use tinycloud_platform.Build.Tables.{
  Store, Faults, Result, ok, err, DbError, no_rows, unique_violation, unsupported_status, failed,
}
use tinycloud_platform.Build.Store.{
  get_job_by_app_name, get_job, delete_job, create_job, append_log, update_runner_status,
  claim_next_queued_job, list_jobs, list_logs,
}
use tinycloud_platform.Build.World.{
  Commit, committed, commit_failed, Run, Server, Event, no_event, World, Body, error, created,
  builds, job, lines, polled, ignored, queued, empty, Response, reply, refuse,
}

-- `auth`: whether a request of the group under /v1 reaches its handler.
unfoldable pub auth : Server → Str → Bool
auth srv header = is_empty srv.token || str_eq header (codes "Bearer " ++ srv.token)

unfoldable pub normalize_build_request : CreateBuildRequest → CreateBuildRequest
unfolding trim_space
normalize_build_request req =
    let name = trim_space req.app_name in
    let git_ref = trim_space req.git_ref in
    record req {
      app_name = if is_empty name then trim_space req.name else name;
      repo_url = trim_space req.repo_url;
      git_ref = if is_empty git_ref then codes "main" else git_ref;
      port = pos 8080;
      replicas = if int_eq req.replicas 0 then pos 1 else req.replicas;
    }

unfoldable pub build_request_error : Unicode → CreateBuildRequest → Option Str
unfolding has_prefix validate_create_app_request
build_request_error u req =
    if is_empty req.repo_url
    then some (codes "repoUrl is required")
    else if not (has_prefix req.repo_url (codes "https://github.com/"))
    then some (codes "repoUrl must be an https GitHub repository URL")
    else validate_create_app_request u (
        some (record {
          name = req.app_name;
          image = codes "ghcr.io/placeholder/app";
          tag = placeholder_tag;
          replicas = req.replicas;
          port = req.port;
          env = [];
        }))

-- strings.Contains(err.Error(), "UNIQUE")
unfoldable pub mentions_unique : DbError → Bool
unfolding contains
mentions_unique no_rows = false
mentions_unique unique_violation = true
mentions_unique (unsupported_status s) = false
mentions_unique (failed e) = contains e (codes "UNIQUE")

-- The status report with only an outcome and an error.
abbrev pub failure_report : Str → RunnerStatusRequest
failure_report e = record {
  status = status_failed;
  commit_sha = [];
  framework = [];
  image = [];
  tag = [];
  gitops_commit_sha = [];
  gitops_path = [];
  deploy_status = [];
  app_url = [];
  verification_error = [];
  error = e;
}

-- The row of a new job, before it is stored.
unfoldable pub new_job : Str → Str → Str → Str → ℤ → ℤ → StrMap Str → BuildJob
new_job id app repo git_ref replicas port env = record {
  id = id;
  app_name = app;
  repo_url = repo;
  git_ref = git_ref;
  commit_sha = [];
  framework = [];
  image = [];
  tag = [];
  status = status_queued;
  attempts = 0;
  replicas = replicas;
  port = port;
  env = env;
  gitops_commit_sha = [];
  gitops_path = [];
  deploy_status = [];
  argo_sync_status = [];
  argo_health = [];
  app_url = [];
  verification_error = [];
  error = [];
  created_at = [];
  updated_at = [];
  started_at = none;
  finished_at = none;
}

-- What a failed dispatch leaves with the build: a log line, and the status `failed`. Errors of either
-- are dropped.
unfoldable pub record_dispatch_failure : Run → Store → Str → Str → Store
record_dispatch_failure run s id e =
    let s' =
      (append_log run.faults run.now s id (codes "stderr")
        (codes "failed to dispatch build: " ++ e)).0 in
    (update_runner_status run.faults run.now s' id
      (failure_report (codes "failed to dispatch build to executor: " ++ e))).0

abbrev pub with_request : Option Request → List Request → List Request
with_request none sent = sent
with_request (some r) sent = sent ++ r ∷ []

abbrev pub after_dispatch : Run → BuildJob → World → Option Request × Option Str → World × Bool
after_dispatch run j w (req, none) = (record w { sent = with_request req w.sent }, true)
after_dispatch run j w (req, some e) = (
  record w { sent = with_request req w.sent; store = record_dispatch_failure run w.store j.id e },
  false,
)

-- Hands a stored job to the executor, if there is one; `false` is a failed dispatch.
unfoldable pub hand_over : Server → Run → World → BuildJob → World × Bool
unfolding record_dispatch_failure
hand_over srv run w j = elim srv.dispatcher [
  | none ↦ (w, true)
  | some cfg ↦
      after_dispatch run j w
        (Dispatch.dispatch run.post (some cfg) j.id j.app_name j.repo_url j.git_ref j.port)
]

abbrev pub created_reply : BuildJob → World × Bool → World × Response
created_reply j (w, true) = (w, reply 201 (created j.app_name j.id j.status))
created_reply j (w, false) = (w, refuse 502 "failed to dispatch build")

abbrev pub stored_build :
    Server → Run → World → BuildJob → Store × Option DbError → World × Response
stored_build srv run w j (s, some e) = (
  record w { store = s },
  (if mentions_unique e
      then refuse 409 "build already exists for app"
      else refuse 500 "failed to create build"),
)
stored_build srv run w j (s, none) = created_reply j (hand_over srv run (record w { store = s }) j)

abbrev pub requested_job : Run → CreateBuildRequest → BuildJob
requested_job run req =
    new_job run.new_id req.app_name req.repo_url req.git_ref req.replicas req.port req.env

unfoldable pub insert_build : Server → Run → World → CreateBuildRequest → World × Response
unfolding new_job hand_over mentions_unique
insert_build srv run w req =
    stored_build srv run w (requested_job run req)
      (create_job run.faults run.now w.store (requested_job run req))

abbrev pub reset_build :
    Server → Run → World → CreateBuildRequest → Store × Option DbError → World × Response
reset_build srv run w req (s, some e) =
    (record w { store = s }, refuse 500 "failed to reset failed build")
reset_build srv run w req (s, none) = insert_build srv run (record w { store = s }) req

-- The last build of the app decides; a status that is none of the four decides nothing.
unfoldable pub replace_build :
    Server → Run → World → CreateBuildRequest → Result (Option BuildJob) → World × Response
unfolding insert_build is_active
replace_build srv run w req (err e) = (w, refuse 500 "failed to check existing build")
replace_build srv run w req (ok none) = insert_build srv run w req
replace_build srv run w req (ok (some j)) =
    if str_eq j.status status_failed
    then reset_build srv run w req (delete_job run.faults w.store j.id)
    else if is_active j
    then (w, refuse 409 "build already in progress for app")
    else if str_eq j.status status_succeeded
    then (w, refuse 409 "build already exists for app")
    else insert_build srv run w req

unfoldable pub create_validated : Server → Run → World → CreateBuildRequest → World × Response
unfolding replace_build
create_validated srv run w req = elim (run.path_exists (codes "apps/" ++ req.app_name)) [
  | none ↦ (w, refuse 500 "failed to check GitOps repo")
  | some true ↦ (w, refuse 409 "app already exists in GitOps repo")
  | some false ↦ replace_build srv run w req (get_job_by_app_name run.faults w.store req.app_name)
]

unfoldable pub create_build : Server → Run → World → Option CreateBuildRequest → World × Response
unfolding normalize_build_request build_request_error create_validated
create_build srv run w none = (w, refuse 400 "invalid request body")
create_build srv run w (some r) =
    let req = normalize_build_request r in
    elim (build_request_error srv.unicode req) [
      | some e ↦ (w, reply 400 (error e))
      | none ↦ create_validated srv run w req
    ]

-- What `startRebuild` returns.
pub data Started : Type 0 where
  started : BuildJob → Started
  not_dispatched : Started
  not_stored : DbError → Started

abbrev pub queued_event : BuildJob → Event
queued_event j = record no_event {
  kind = codes "build.status";
  job_id = j.id;
  app = j.app_name;
  status = j.status;
}

abbrev pub handed_over : BuildJob → World × Bool → World × Started
handed_over j (w, true) = (record w { events = w.events ++ queued_event j ∷ [] }, started j)
handed_over j (w, false) = (w, not_dispatched)

abbrev pub stored_rebuild :
    Server → Run → World → BuildJob → Store × Option DbError → World × Started
stored_rebuild srv run w j (s, some e) = (record w { store = s }, not_stored e)
stored_rebuild srv run w j (s, none) = handed_over j (hand_over srv run (record w { store = s }) j)

abbrev pub repeated_job : Run → BuildJob → BuildJob
repeated_job run p = new_job run.new_id p.app_name p.repo_url p.git_ref p.replicas p.port p.env

unfoldable pub start_rebuild : Server → Run → World → BuildJob → World × Started
unfolding new_job hand_over
start_rebuild srv run w previous =
    stored_rebuild srv run w (repeated_job run previous)
      (create_job run.faults run.now w.store (repeated_job run previous))

abbrev pub rebuilt : World × Started → World × Response
rebuilt (w, started j) = (w, reply 201 (created j.app_name j.id j.status))
rebuilt (w, not_dispatched) = (w, refuse 502 "failed to dispatch build")
rebuilt (w, not_stored e) = (w, refuse 500 "failed to create build")

unfoldable pub rebuild_previous : Server → Run → World → Result (Option BuildJob) → World × Response
unfolding start_rebuild is_active
rebuild_previous srv run w (err e) = (w, refuse 500 "failed to look up app")
rebuild_previous srv run w (ok none) = (w, refuse 404 "no build found for app")
rebuild_previous srv run w (ok (some j)) =
    if is_active j
    then (w, refuse 409 "build already in progress for app")
    else rebuilt (start_rebuild srv run w j)

unfoldable pub rebuild_app : Server → Run → World → Str → World × Response
unfolding rebuild_previous
rebuild_app srv run w app =
    if is_empty app
    then (w, refuse 400 "app name required")
    else rebuild_previous srv run w (get_job_by_app_name run.faults w.store app)

unfoldable pub list_builds : Run → World → ℤ → Response
list_builds run w limit = elim (list_jobs run.faults w.store limit) [
  | err e ↦ refuse 500 "failed to list builds"
  | ok js ↦ reply 200 (builds js)
]

unfoldable pub get_build : Run → World → Str → Response
get_build run w id = elim (get_job run.faults w.store id) [
  | err e ↦ refuse 404 "build not found"
  | ok j ↦ reply 200 (job j)
]

unfoldable pub get_logs : Run → World → Str → ℤ → Response
get_logs run w id after = elim (list_logs run.faults w.store id after) [
  | err e ↦ refuse 500 "failed to list logs"
  | ok ls ↦ reply 200 (lines ls)
]

abbrev pub max_attempts : ℕ
max_attempts = 2

abbrev pub poll_reply : World → Store × Result (Option BuildJob) → World × Response
poll_reply w (s, err e) = (record w { store = s }, refuse 500 "failed to claim job")
poll_reply w (s, ok j) = (record w { store = s }, reply 200 (polled j))

unfoldable pub poll_runner : Run → World → World × Response
poll_runner run w = poll_reply w (claim_next_queued_job run.faults run.now max_attempts w.store)

abbrev pub log_reply : World → Str → Str → Str → Store × Option DbError → World × Response
log_reply w id stream message (s, some e) =
    (record w { store = s }, refuse 500 "failed to append log")
log_reply w id stream message (s, none) = (
  record w {
    store = s;
    events =
        w.events
        ++ record no_event {
          kind = codes "build.log";
          job_id = id;
          stream = stream;
          message = message;
        }
          ∷ [];
  },
  reply 204 empty,
)

-- The stream and the message of the body.
unfoldable pub append_runner_log : Run → World → Str → Option (Str × Str) → World × Response
append_runner_log run w id none = (w, refuse 400 "invalid request body")
append_runner_log run w id (some (stream, message)) =
    let out = if is_empty stream then codes "stdout" else stream in
    log_reply w id out message (append_log run.faults run.now w.store id out message)
