-- ===== src/Build/Store.antt =====
-- internal/build/coordinator/store.go over its two tables: one function for each method. A statement
-- that the driver fails changes nothing: `faults` says which.
pub mod Writes
pub mod Query
pub mod Order
pub mod Single
pub mod Claim
pub mod Logs
pub mod Reports
use tinycloud_platform.Base.{
  ℕ, zero, suc, ◌+◌, Bool, true, false, ◌&&◌, ◌||◌, not, Option, none, some, List, [], ◌∷◌, ◌++◌,
  map, ltb, leb, ◌==◌, if◌then◌else◌, Str, codes, str_eq, str_lt, keep, any, take, ℤ, pos, int_lt,
  lt_int, is_empty,
}
use tinycloud_platform.Build.Types.{
  BuildJob, BuildLogLine, RunnerStatusRequest, status_queued, status_running, status_succeeded,
  status_failed,
}
use tinycloud_platform.Build.Time.{Time, format_time}
use tinycloud_platform.Build.Tables.{
  LogRow, Store, DbError, no_rows, unique_violation, unsupported_status, failed, Result, ok, err,
  Stmt, select_by_app, delete_lines, delete_row, insert_job, select_next, update_claim,
  commit_claim, select_job, select_sequence, insert_log, select_logs, update_status, select_recent,
  select_repos, Faults, no_faults, newer, newest, older, oldest, insert_desc, sort_desc,
  update_where, of_app, with_id, of_job,
}

unfoldable pub get_job_by_app_name : Faults → Store → Str → Result (Option BuildJob)
unfolding newest keep
get_job_by_app_name faults s app = elim (faults select_by_app) [
  | some e ↦ err e
  | none ↦ ok (newest (keep (of_app app) s.jobs))
]

-- SELECT … WHERE id = ?; no row is an error here
unfoldable pub find_job : Str → List BuildJob → Option BuildJob
find_job id [] = none
find_job id (j ∷ js) = if str_eq j.id id then some j else find_job id js

abbrev pub or_no_rows : Option BuildJob → Result BuildJob
or_no_rows none = err no_rows
or_no_rows (some j) = ok j

unfoldable pub get_job : Faults → Store → Str → Result BuildJob
unfolding find_job
get_job faults s id = elim (faults select_job) [
  | some e ↦ err e
  | none ↦ or_no_rows (find_job id s.jobs)
]

-- The logs go first; if the second statement fails they stay gone.
unfoldable pub delete_job : Faults → Store → Str → Store × Option DbError
unfolding keep
delete_job faults s id = elim (faults delete_lines) [
  | some e ↦ (s, some e)
  | none ↦
      let s' = record s { logs = keep (λ r. not (of_job id r)) s.logs } in
      elim (faults delete_row) [
        | some e ↦ (s', some e)
        | none ↦ (record s' { jobs = keep (λ j. not (with_id id j)) s.jobs }, none)
      ]
]

-- The columns that the INSERT does not name take the defaults of the table.
unfoldable pub inserted : Str → BuildJob → BuildJob
inserted now j = record j {
  commit_sha = [];
  framework = [];
  image = [];
  tag = [];
  gitops_commit_sha = [];
  gitops_path = [];
  deploy_status = [];
  argo_sync_status = [];
  argo_health = [];
  app_url = [];
  verification_error = [];
  error = [];
  created_at = now;
  updated_at = now;
  started_at = none;
  finished_at = none;
}

unfoldable pub create_job : Faults → Time → Store → BuildJob → Store × Option DbError
unfolding inserted any
create_job faults now s job = elim (faults insert_job) [
  | some e ↦ (s, some e)
  | none ↦
      if any (with_id job.id) s.jobs
      then (s, some unique_violation)
      else (record s { jobs = s.jobs ++ inserted (format_time now) job ∷ [] }, none)
]

abbrev pub coalesce : Option Str → Str → Option Str
coalesce none t = some t
coalesce (some u) t = some u

unfoldable pub claimed : Str → BuildJob → BuildJob
claimed now j = record j {
  status = status_running;
  attempts = j.attempts + 1;
  updated_at = now;
  started_at = coalesce j.started_at now;
}

-- WHERE status = 'queued' AND attempts < ?
unfoldable pub is_claimable : ℕ → BuildJob → Bool
is_claimable max_attempts j = str_eq j.status status_queued && ltb j.attempts max_attempts

abbrev pub as_claimed : Result BuildJob → Result (Option BuildJob)
as_claimed (ok j) = ok (some j)
as_claimed (err e) = err e

-- WHERE id = ? AND status = 'queued'
abbrev pub is_queued : Str → BuildJob → Bool
is_queued id r = with_id id r && str_eq r.status status_queued

-- The UPDATE, the commit, and the read of the row after it.
unfoldable pub commit_claimed : Faults → Time → Store → BuildJob → Store × Result (Option BuildJob)
commit_claimed faults now s j =
    let s' = record s { jobs = update_where (is_queued j.id) (claimed (format_time now)) s.jobs } in
    elim (faults update_claim) [
      | some e ↦ (s, err e)
      | none ↦ elim (faults commit_claim) [
        | some e ↦ (s, err e)
        | none ↦ (s', as_claimed (get_job faults s' j.id))
      ]
    ]

unfoldable pub claim_found :
    Faults → Time → Store → Option BuildJob → Store × Result (Option BuildJob)
claim_found faults now s none = (s, ok none)
claim_found faults now s (some j) = commit_claimed faults now s j

-- A transaction: if a statement or the commit fails, `Rollback` leaves the tables as they were.
unfoldable pub claim_next_queued_job : Faults → Time → ℕ → Store → Store × Result (Option BuildJob)
claim_next_queued_job faults now max_attempts s = elim (faults select_next) [
  | some e ↦ (s, err e)
  | none ↦ claim_found faults now s (oldest (keep (is_claimable max_attempts) s.jobs))
]

-- COALESCE(MAX(sequence), 0)
unfoldable pub last_sequence : Str → List LogRow → ℕ
last_sequence id [] = 0
last_sequence id (r ∷ rs) =
    let rest = last_sequence id rs in
    if of_job id r then (if ltb rest r.line.sequence then r.line.sequence else rest) else rest

unfoldable pub log_row : Str → ℕ → Str → Str → Str → LogRow
log_row id n now stream message = record {
  job_id = id;
  line = record { sequence = n; timestamp = now; stream = stream; message = message };
}

unfoldable pub append_log : Faults → Time → Store → Str → Str → Str → Store × Option DbError
unfolding last_sequence log_row
append_log faults now s id stream message = elim (faults select_sequence) [
  | some e ↦ (s, some e)
  | none ↦
      let next = last_sequence id s.logs + 1 in
      elim (faults insert_log) [
        | some e ↦ (s, some e)
        | none ↦ (
          record s { logs = s.logs ++ log_row id next (format_time now) stream message ∷ [] },
          none,
        )
      ]
]

-- ORDER BY sequence ASC
unfoldable pub insert_line : BuildLogLine → List BuildLogLine → List BuildLogLine
insert_line l [] = l ∷ []
insert_line l (k ∷ ks) =
    let rest = insert_line l ks in if ltb k.sequence l.sequence then k ∷ rest else l ∷ k ∷ ks

-- SELECT … WHERE job_id = ? AND sequence > ? ORDER BY sequence ASC
unfoldable pub lines_after : Str → ℤ → List LogRow → List BuildLogLine
unfolding insert_line
lines_after id after [] = []
lines_after id after (r ∷ rs) =
    let rest = lines_after id after rs in
    if of_job id r && int_lt after r.line.sequence then insert_line r.line rest else rest

unfoldable pub list_logs : Faults → Store → Str → ℤ → Result (List BuildLogLine)
unfolding lines_after
list_logs faults s id after = elim (faults select_logs) [
  | some e ↦ err e
  | none ↦ ok (lines_after id after s.logs)
]

unfoldable pub running_update : Str → RunnerStatusRequest → BuildJob → BuildJob
running_update now req j = record j {
  commit_sha = req.commit_sha;
  framework = req.framework;
  deploy_status = [];
  argo_sync_status = [];
  argo_health = [];
  verification_error = [];
  updated_at = now;
}

unfoldable pub succeeded_update : Str → RunnerStatusRequest → BuildJob → BuildJob
succeeded_update now req j = record j {
  status = status_succeeded;
  commit_sha = req.commit_sha;
  framework = req.framework;
  image = req.image;
  tag = req.tag;
  gitops_commit_sha = req.gitops_commit_sha;
  gitops_path = req.gitops_path;
  deploy_status = req.deploy_status;
  app_url = req.app_url;
  verification_error = req.verification_error;
  error = [];
  updated_at = now;
  finished_at = some now;
}

unfoldable pub failed_update : Str → RunnerStatusRequest → BuildJob → BuildJob
failed_update now req j = record j {
  status = status_failed;
  error = req.error;
  updated_at = now;
  finished_at = some now;
}

-- UPDATE build_jobs SET f WHERE id = ?
unfoldable pub exec_update : Faults → Store → Str → (BuildJob → BuildJob) → Store × Option DbError
unfolding update_where
exec_update faults s id f = elim (faults update_status) [
  | some e ↦ (s, some e)
  | none ↦ (record s { jobs = update_where (with_id id) f s.jobs }, none)
]

unfoldable pub update_runner_status :
    Faults → Time → Store → Str → RunnerStatusRequest → Store × Option DbError
update_runner_status faults now s id req =
    if str_eq req.status status_running
    then exec_update faults s id (running_update (format_time now) req)
    else if str_eq req.status status_succeeded
    then exec_update faults s id (succeeded_update (format_time now) req)
    else if str_eq req.status status_failed
    then exec_update faults s id (failed_update (format_time now) req)
    else (s, some (unsupported_status req.status))

-- if limit <= 0 || limit > 200 { limit = 50 }
unfoldable pub clamp_limit : ℤ → ℕ
clamp_limit (ℤ.negsuc n) = 50
clamp_limit (pos n) = if n == 0 || ltb 200 n then 50 else n

unfoldable pub list_jobs : Faults → Store → ℤ → Result (List BuildJob)
unfolding sort_desc clamp_limit
list_jobs faults s limit = elim (faults select_recent) [
  | some e ↦ err e
  | none ↦ ok (take (clamp_limit limit) (sort_desc s.jobs))
]

pub record AppRepo : Type 0 where
  pub app_name : Str
  pub repo_url : Str
  pub git_ref : Str

-- WHERE rowid IN (SELECT MAX(rowid) … GROUP BY app_name): a row with no later row of its app.
unfoldable pub latest_rows : List BuildJob → List BuildJob
unfolding any
latest_rows [] = []
latest_rows (j ∷ js) =
    let rest = latest_rows js in if any (of_app j.app_name) js then rest else j ∷ rest

abbrev pub app_repo : BuildJob → AppRepo
app_repo j = record { app_name = j.app_name; repo_url = j.repo_url; git_ref = j.git_ref }

unfoldable pub list_app_repos : Faults → Store → Result (List AppRepo)
unfolding latest_rows
list_app_repos faults s = elim (faults select_repos) [
  | some e ↦ err e
  | none ↦ ok (map app_repo (latest_rows s.jobs))
]
