-- ===== src/Build/Tests.antt =====
-- Runs of the build plane on small stores, and the properties at concrete inputs.
mod Steady
use tinycloud_platform.Base.{
  ℕ, ap, is_empty, ◌≡◌, ◌≢◌, refl, true, false, Option, none, some, [], ◌∷◌, ◌++◌, arith, Str,
  codes, str_eq, str_lt, any, keep, pos, drop, inl, inr, Bool-cases, ◌⊎◌, if◌then◌else◌,
}
use tinycloud_platform.Text.{Unicode, has_prefix, trim_prefix}
use tinycloud_platform.Build.Types.{
  BuildJob, CreateBuildRequest, RunnerStatusRequest, is_active, status_failed, status_queued,
  status_running, status_succeeded,
}
use tinycloud_platform.Build.Time.{Time, format_time}
use tinycloud_platform.Build.Dispatch.{unreachable}
use tinycloud_platform.Build.Tables.{
  Store, LogRow, of_app, of_job, newest, no_faults, ok, oldest, update_where,
}
use tinycloud_platform.Build.Store.{
  create_job, get_job_by_app_name, latest_rows, app_repo, claim_found, commit_claimed,
  claim_next_queued_job, list_logs, append_log, find_job, update_runner_status, claimed, get_job,
  is_claimable, list_app_repos,
}
use tinycloud_platform.Build.Store.Query.{IsKeyed}
use tinycloud_platform.Build.Store.Single.{IsPresent, IsSingle, IsSingle-keep, rows_of}
use tinycloud_platform.Build.Store.Order.{str_lt-format_time}
use tinycloud_platform.Build.Store.Claim.{Claimed, claim_inversion, claim_once}
use tinycloud_platform.Build.Store.Logs.{
  IsNumbered, lines_of, list_logs-eq-drop, lines_of-append_log, written,
}
use tinycloud_platform.Build.Store.Reports.{
  is_supported, running_report_status, finished_report, FinishedRow, report_others,
}
use tinycloud_platform.Build.Server.Report.{report_status, commit_message, committed_files, author}
use tinycloud_platform.Build.Server.Report.Outcome.{DeployedRow, report_status-deployed}
use tinycloud_platform.Build.World.{committed, commit_failed, Server, Run, World, queued}
use tinycloud_platform.Build.Server.{
  start_rebuild, hand_over, create_build, rebuild_app, poll_runner, append_runner_log, new_job,
  failure_report,
}
use tinycloud_platform.Build.Server.Sound.{IsSound}
use tinycloud_platform.Build.Server.Keeps.{create_build-IsSound, rebuild_app-IsSound}
use tinycloud_platform.Build.Webhook.{
  PushEvent, Delivery, github_webhook, valid_signature, signature_prefix, decode_hex, trigger_apps,
  trigger_app, trigger_previous, handle_push, push_to_apps, builds_from, normalize_repo,
  pushed_repo,
}
use tinycloud_platform.Build.Webhook.Keeps.{
  IsPushTimely, github_webhook-IsSound, github_webhook-signed, trigger_apps-unmatched,
}
use tinycloud_platform.Build.Webhook.Signature.{
  signed-valid_signature, valid_signature_sound, encode_hex,
}

abbrev noon : Time
noon = record { seconds = 1700000000; nanos = 0 }

abbrev later : Time
later = record { seconds = 1700000060; nanos = 500000000 }

format_time-later : format_time later ≡ codes "2023-11-14T22:14:20.5Z"
unfolding format_time
format_time-later = refl

format_time_leap :
    format_time (record { seconds = 951782400; nanos = 120000000 })
    ≡ codes "2000-02-29T00:00:00.12Z"
unfolding format_time
format_time_leap = refl

abbrev job : Str → Str → Str → BuildJob
job id app status = record {
  id = id;
  app_name = app;
  repo_url = codes "https://github.com/o/r";
  git_ref = codes "main";
  commit_sha = [];
  framework = [];
  image = [];
  tag = [];
  status = status;
  attempts = 0;
  replicas = pos 1;
  port = pos 8080;
  env = [];
  gitops_commit_sha = [];
  gitops_path = [];
  deploy_status = [];
  argo_sync_status = [];
  argo_health = [];
  app_url = [];
  verification_error = [];
  error = [];
  created_at = codes "2023-11-14T22:13:20Z";
  updated_at = codes "2023-11-14T22:13:20Z";
  started_at = none;
  finished_at = none;
}

abbrev id_a : Str
id_a = codes "a"

abbrev id_b : Str
id_b = codes "b"

abbrev shop : Str
shop = codes "shop"

abbrev job_a : BuildJob
job_a = job id_a shop status_queued

abbrev job_b : BuildJob
job_b = job id_b (codes "blog") status_queued

abbrev done_a : BuildJob
done_a = job id_a shop status_failed

abbrev line_row : LogRow
line_row = record {
  job_id = id_a;
  line = record { sequence = 1; timestamp = []; stream = codes "stdout"; message = codes "go" };
}

abbrev one_queued : Store
one_queued = record { jobs = job_a ∷ []; logs = [] }

abbrev two_queued : Store
two_queued = record { jobs = job_a ∷ job_b ∷ []; logs = [] }

abbrev one_failed : Store
one_failed = record { jobs = done_a ∷ []; logs = line_row ∷ [] }

abbrev ascii : Unicode
ascii = record { lower = λ s. s; upper = λ s. s; fold = λ s t. str_eq s t }

abbrev server : Server
server = record {
  token = codes "t";
  dispatcher = none;
  webhook_secret = codes "k";
  unicode = ascii;
}

abbrev run_later : Run
run_later = record {
  now = later;
  new_id = codes "c";
  faults = no_faults;
  path_exists = λ path. some false;
  post = λ req. unreachable [];
  commit_files = λ message files author. committed (codes "d0");
  error_text = λ e. [];
  quote_other = λ s. s;
  walk = λ path vars. vars;
}

abbrev world : Store → World
world s = record { store = s; events = []; sent = []; commits = [] }

abbrev shop_request : CreateBuildRequest
shop_request = record {
  name = shop;
  app_name = [];
  repo_url = codes "https://github.com/o/r";
  git_ref = [];
  replicas = pos 0;
  port = pos 0;
  env = [];
}

two_queued-IsKeyed : IsKeyed two_queued.jobs
unfolding any str_eq
two_queued-IsKeyed = (refl, (refl, tt))

rows_of-IsSingle : (app : Str) (j : BuildJob) → IsSingle (rows_of app (j ∷ []))
rows_of-IsSingle app j = IsSingle-keep (of_app app) (j ∷ []) tt

one_failed-IsNumbered : IsNumbered one_failed.logs
unfolding lines_of
one_failed-IsNumbered id = elim (Bool-cases (of_job id line_row)) [
  | inl e ↦ rw e (refl, tt)
  | inr e ↦ rw e tt
]

one_failed-IsSound : IsSound one_failed
unfolding any
one_failed-IsSound = record {
  keyed = (refl, tt);
  orderly = record { chronological = (tt, tt); single = λ app. rows_of-IsSingle app done_a };
  numbered = one_failed-IsNumbered;
}

one_failed-IsPresent : IsPresent later one_failed.jobs
unfolding format_time str_lt
one_failed-IsPresent = (refl, tt)

create_build-IsSound_example :
    IsSound (create_build server run_later (world one_failed) (some shop_request)).0.store
create_build-IsSound_example =
    create_build-IsSound server run_later (world one_failed) (some shop_request) one_failed-IsSound
      one_failed-IsPresent

rebuild_app-IsSound_example : IsSound (rebuild_app server run_later (world one_failed) shop).0.store
rebuild_app-IsSound_example =
    rebuild_app-IsSound server run_later (world one_failed) shop one_failed-IsSound
      one_failed-IsPresent

abbrev push : PushEvent
push = record {
  git_ref = codes "refs/heads/main";
  deleted = false;
  clone_url = codes "https://github.com/O/r.git";
  html_url = [];
  full_name = codes "O/r";
  head_commit = some (codes "c0");
}

abbrev mac : Str → Str → Str
mac secret body = 171 ∷ []

abbrev parse_push : Str → Option PushEvent
parse_push body = some push

abbrev signed : Delivery
signed = record { signature = codes "sha256=ab"; event = codes "push"; body = [] }

abbrev unsigned : Delivery
unsigned = record { signature = codes "sha256=aa"; event = codes "push"; body = [] }

-- The signed push starts a build of the app that failed.
push_started :
    (github_webhook mac parse_push server run_later (λ app. run_later) (world one_failed) signed).1
    ≡ record { status = 202; body = queued (codes "shop=c" ∷ []) }
unfolding github_webhook handle_push push_to_apps trigger_apps trigger_app trigger_previous
    start_rebuild hand_over create_job builds_from normalize_repo list_app_repos get_job_by_app_name
    valid_signature decode_hex pushed_repo new_job is_active newest latest_rows has_prefix str_eq
push_started = refl

push-IsPushTimely :
    (ev : PushEvent)
    → parse_push signed.body ≡ some ev
    → IsPushTimely server
        (λ app. run_later)
        (world one_failed)
        ev
        (list_app_repos no_faults one_failed)
unfolding list_app_repos latest_rows any
push-IsPushTimely ev e = (one_failed-IsPresent, tt)

github_webhook-IsSound_example :
    IsSound
      (github_webhook mac parse_push server run_later
        (λ app. run_later)
        (world one_failed)
        signed).0.store
github_webhook-IsSound_example =
    github_webhook-IsSound mac parse_push server run_later (λ app. run_later) (world one_failed)
      signed one_failed-IsSound push-IsPushTimely

invalid : valid_signature mac server.webhook_secret unsigned.body unsigned.signature ≡ false
unfolding valid_signature decode_hex has_prefix trim_prefix str_eq
invalid = refl

-- A delivery without a signature is refused.
unsigned_refused :
    (github_webhook mac parse_push server run_later
      (λ app. run_later)
      (world one_failed)
      unsigned).1.status
    ≡ 401
unfolding github_webhook
unsigned_refused = rw invalid refl

github_webhook-signed_example :
    ((github_webhook mac parse_push server run_later (λ app. run_later) (world one_failed) signed).0
      ≡ world one_failed)
    ⊎ ((digits : Str) × (codes "sha256=ab" ≡ codes "sha256=" ++ digits)
        × (decode_hex digits ≡ some (171 ∷ []))
        × (is_empty server.webhook_secret ≡ false))
github_webhook-signed_example =
    github_webhook-signed mac parse_push server run_later (λ app. run_later) (world one_failed)
      signed

accepted : valid_signature mac server.webhook_secret signed.body signed.signature ≡ true
unfolding valid_signature decode_hex has_prefix trim_prefix str_eq
accepted = refl

valid_signature_sound_example :
    (digits : Str) × (codes "sha256=ab" ≡ signature_prefix ++ digits)
    × (decode_hex digits ≡ some (171 ∷ []))
valid_signature_sound_example =
    valid_signature_sound mac server.webhook_secret signed.body signed.signature accepted

signed-valid_signature_example :
    valid_signature mac [] [] (signature_prefix ++ encode_hex (171 ∷ [])) ≡ true
signed-valid_signature_example = signed-valid_signature mac [] [] (omega arith, tt)

first_of : Str → ℕ
first_of [] = 0
first_of (c ∷ s) = c

main_ne_dev : (app_repo done_a).git_ref ≢ codes "dev"
unfolding first_of
main_ne_dev e = absurd (omega (arith, ap first_of e))

trigger_apps-unmatched_example :
    trigger_apps server
      (λ app. run_later)
      (codes "github.com/o/r")
      (codes "dev")
      (world one_failed)
      (app_repo done_a ∷ [])
    ≡ (world one_failed, [])
trigger_apps-unmatched_example =
    trigger_apps-unmatched server (λ app. run_later) (codes "github.com/o/r") (codes "dev")
      (world one_failed) (app_repo done_a ∷ []) (inl main_ne_dev, tt)

abbrev after_claim : Store
after_claim = record { jobs = claimed (format_time later) job_a ∷ job_b ∷ []; logs = [] }

abbrev after_claims : Store
after_claims = record {
  jobs = claimed (format_time later) job_a ∷ claimed (format_time later) job_b ∷ [];
  logs = [];
}

first_claim :
    claim_next_queued_job no_faults later 2 two_queued
    ≡ (after_claim, ok (some (claimed (format_time later) job_a)))
unfolding claim_next_queued_job claim_found commit_claimed get_job is_claimable update_where oldest
    find_job str_eq str_lt keep claimed
first_claim = refl

second_claim :
    claim_next_queued_job no_faults later 2 after_claim
    ≡ (after_claims, ok (some (claimed (format_time later) job_b)))
unfolding claim_next_queued_job claim_found commit_claimed get_job is_claimable update_where oldest
    find_job str_eq str_lt keep claimed
second_claim = refl

claim_inversion_example : Claimed later 2 two_queued after_claim (claimed (format_time later) job_a)
claim_inversion_example =
    claim_inversion no_faults later 2 two_queued after_claim (claimed (format_time later) job_a)
      two_queued-IsKeyed first_claim

claim_once_example : (claimed (format_time later) job_a).id ≢ (claimed (format_time later) job_b).id
claim_once_example =
    claim_once no_faults no_faults later later 2 2 two_queued after_claim after_claims
      (claimed (format_time later) job_a) (claimed (format_time later) job_b) two_queued-IsKeyed
      first_claim second_claim

list_logs-eq-drop_example :
    list_logs no_faults one_failed id_a (pos 1) ≡ ok (drop 1 (lines_of id_a one_failed.logs))
list_logs-eq-drop_example = list_logs-eq-drop one_failed id_a (pos 1) one_failed-IsNumbered

lines_of-append_log_example :
    lines_of id_a (append_log no_faults later one_failed id_a (codes "stderr") []).0.logs ≡ (
      if str_eq id_a id_a
      then lines_of id_a one_failed.logs ++ written later one_failed id_a (codes "stderr") [] ∷ []
      else lines_of id_a one_failed.logs)
lines_of-append_log_example =
    lines_of-append_log later one_failed id_a (codes "stderr") [] id_a one_failed-IsNumbered

abbrev report : Str → RunnerStatusRequest
report status = record (failure_report []) { status = status; commit_sha = codes "c0" }

found_a : find_job id_a one_queued.jobs ≡ some job_a
unfolding find_job str_eq
found_a = refl

finished_report_example :
    (k : BuildJob) × (find_job id_a
        (update_runner_status no_faults later one_queued id_a (report status_succeeded)).0.jobs
      ≡ some k)
    × FinishedRow (format_time later) (report status_succeeded) job_a k
finished_report_example =
    finished_report later one_queued id_a (report status_succeeded) job_a (inl refl) found_a

different : str_eq id_b id_a ≡ false
unfolding str_eq
different = refl

report_others_example :
    find_job id_a
      (update_runner_status no_faults later one_queued id_b (report status_failed)).0.jobs
    ≡ find_job id_a one_queued.jobs
report_others_example =
    report_others no_faults later one_queued id_b id_a (report status_failed) different

running_report_status_example :
    (k : BuildJob) × (find_job id_a
        (update_runner_status no_faults later one_queued id_a (report status_running)).0.jobs
      ≡ some k)
    × (k.status ≡ status_queued)
    × (is_claimable 2 k ≡ is_claimable 2 job_a)
running_report_status_example =
    running_report_status later one_queued id_a (report status_running) job_a refl found_a

str_lt-format_time_example :
    str_lt
      (format_time (record { seconds = 1700000060; nanos = 500000000 }))
      (format_time (record { seconds = 1700000060; nanos = 0 }))
    ≡ true
str_lt-format_time_example = str_lt-format_time 1700000060 500000000 (omega arith)

abbrev run_refused : Run
run_refused = record run_later {
  commit_files = λ message files author. commit_failed (codes "push rejected");
}

report_status-deployed_example :
    ((report_status run_later (world one_queued) id_a (some (report status_succeeded))).1.status
      ≡ 204)
    × ((report_status run_later (world one_queued) id_a (some (report status_succeeded))).0.commits
        ≡ (
          commit_message job_a (report status_succeeded),
          committed_files run_later job_a (report status_succeeded),
          author,
        )
          ∷ [])
    × (k : BuildJob) × (find_job id_a
          (report_status run_later
            (world one_queued)
            id_a
            (some (report status_succeeded))).0.store.jobs
        ≡ some k)
    × DeployedRow (format_time later) (codes "d0") (report status_succeeded) job_a k
report_status-deployed_example =
    report_status-deployed run_later (world one_queued) id_a (report status_succeeded) job_a refl
      refl refl found_a (codes "d0") refl
