-- ===== src/Build/Store/Reports.antt =====
-- What a runner's report makes of the build that it is about.
use tinycloud_platform.Base.{
  ℕ, codes, ◌⊎◌, sym, ◌≡◌, refl, ◌∙◌, Bool, true, false, some, if◌then◌else◌, Str, str_eq,
  str_eq_refl, Bool-cases, inl, inr,
}
use mathlib.Core.Option
use tinycloud_platform.Build.Types.{
  BuildJob, RunnerStatusRequest, status_running, status_succeeded, status_failed, is_active,
}
use tinycloud_platform.Build.Time.{Time, format_time}
use tinycloud_platform.Build.Tables.{Store, no_faults, Faults}
use tinycloud_platform.Build.Store.{
  find_job, exec_update, update_runner_status, running_update, succeeded_update, failed_update,
  is_claimable,
}
use tinycloud_platform.Build.Store.Writes.{update_runner_status_cases}
use tinycloud_platform.Build.Store.Query.{find_job-update, KeepsId}

-- What a supported report makes of a row, by its status.
unfoldable pub reported : Str → RunnerStatusRequest → BuildJob → BuildJob
unfolding running_update succeeded_update failed_update
reported now req j =
    if str_eq req.status status_running
    then running_update now req j
    else if str_eq req.status status_succeeded
    then succeeded_update now req j
    else failed_update now req j

unfoldable pub is_supported : Str → Bool
is_supported st =
    if str_eq st status_running
    then true
    else if str_eq st status_succeeded
    then true
    else str_eq st status_failed

running_id : (t : Str) (req : RunnerStatusRequest) → KeepsId (running_update t req)
unfolding running_update
running_id t req j = refl

succeeded_id : (t : Str) (req : RunnerStatusRequest) → KeepsId (succeeded_update t req)
unfolding succeeded_update
succeeded_id t req j = refl

failed_id : (t : Str) (req : RunnerStatusRequest) → KeepsId (failed_update t req)
unfolding failed_update
failed_id t req j = refl

found_update :
    (i id : Str) (f : BuildJob → BuildJob)
    → KeepsId f
    → (s : Store)
    → find_job i (exec_update no_faults s id f).0.jobs
      ≡ (if str_eq id i then Option.map f (find_job i s.jobs) else find_job i s.jobs)
unfolding exec_update
found_update i id f k s = find_job-update i id f k s.jobs

found_own :
    (id : Str) (f : BuildJob → BuildJob)
    → KeepsId f
    → (s : Store) (j : BuildJob) → find_job id s.jobs ≡ some j
    → find_job id (exec_update no_faults s id f).0.jobs ≡ some (f j)
unfolding Option.map
found_own id f k s j e = found_update id id f k s ∙ rw (str_eq_refl id, e) refl

-- A report with one of the statuses running, succeeded and failed makes of the build that has its id
-- what `reported` says.
supported_report :
    (now : Time) (s : Store) (id : Str) (req : RunnerStatusRequest) (j : BuildJob)
    → is_supported req.status ≡ true
    → find_job id s.jobs ≡ some j
    → find_job id (update_runner_status no_faults now s id req).0.jobs
      ≡ some (reported (format_time now) req j)
unfolding update_runner_status reported is_supported
supported_report now s id req j h e =
    let t = format_time now in
    elim (Bool-cases (str_eq req.status status_running)) [
      | inl r ↦
          rw (r, update_runner_status)
            (found_own id (running_update t req) (running_id t req) s j e)
      | inr r ↦ elim (Bool-cases (str_eq req.status status_succeeded)) [
        | inl u ↦ rw (r, u) (found_own id (succeeded_update t req) (succeeded_id t req) s j e)
        | inr u ↦
            let f : str_eq req.status status_failed ≡ true = rw (r, u) at h in
            rw (r, u, f) (found_own id (failed_update t req) (failed_id t req) s j e)
      ]
    ]

-- What the row of a build has after the report of its end; nothing can claim it again.
pub record FinishedRow (now : Str) (req : RunnerStatusRequest) (j k : BuildJob) : Type 0 where
  pub status : k.status ≡ req.status
  pub inactive : is_active k ≡ false
  pub unclaimable : (n : ℕ) → is_claimable n k ≡ false
  pub finished_at : k.finished_at ≡ some now
  pub updated_at : k.updated_at ≡ now
  pub id : k.id ≡ j.id
  pub app_name : k.app_name ≡ j.app_name
  pub created_at : k.created_at ≡ j.created_at
  pub attempts : k.attempts ≡ j.attempts

succeeded_update-FinishedRow :
    (now : Str) (req : RunnerStatusRequest) (j : BuildJob)
    → req.status ≡ codes "succeeded"
    → FinishedRow now req j (succeeded_update now req j)
unfolding succeeded_update is_active is_claimable str_eq
succeeded_update-FinishedRow now req j h = record {
  status = sym h;
  inactive = refl;
  unclaimable = λ n. refl;
  finished_at = refl;
  updated_at = refl;
  id = refl;
  app_name = refl;
  created_at = refl;
  attempts = refl;
}

failed_update-FinishedRow :
    (now : Str) (req : RunnerStatusRequest) (j : BuildJob)
    → req.status ≡ codes "failed"
    → FinishedRow now req j (failed_update now req j)
unfolding failed_update is_active is_claimable str_eq
failed_update-FinishedRow now req j h = record {
  status = sym h;
  inactive = refl;
  unclaimable = λ n. refl;
  finished_at = refl;
  updated_at = refl;
  id = refl;
  app_name = refl;
  created_at = refl;
  attempts = refl;
}

-- After a report that a build has succeeded or failed, when no statement fails, the row with its id has
-- the status of the report and the time of the report as its end; it is not active, no poll can claim it,
-- and its id, app, creation and attempts are what they were.
pub finished_report :
    (now : Time) (s : Store) (id : Str) (req : RunnerStatusRequest) (j : BuildJob)
    → (req.status ≡ codes "succeeded") ⊎ (req.status ≡ codes "failed")
    → find_job id s.jobs ≡ some j
    → (k : BuildJob) × (find_job id (update_runner_status no_faults now s id req).0.jobs ≡ some k)
      × FinishedRow (format_time now) req j k
unfolding reported is_supported str_eq
finished_report now s id req j (inl h) e = (
  succeeded_update (format_time now) req j,
  supported_report now s id req j (rw h refl) e ∙ rw (h, str_eq) refl,
  succeeded_update-FinishedRow (format_time now) req j h,
)
finished_report now s id req j (inr h) e = (
  failed_update (format_time now) req j,
  supported_report now s id req j (rw h refl) e ∙ rw (h, str_eq) refl,
  failed_update-FinishedRow (format_time now) req j h,
)

-- A report changes no build with another id, whatever its status and whatever fails.
pub report_others :
    (faults : Faults) (now : Time) (s : Store) (id i : Str) (req : RunnerStatusRequest)
    → str_eq id i ≡ false
    → find_job i (update_runner_status faults now s id req).0.jobs ≡ find_job i s.jobs
report_others faults now s id i req h =
    update_runner_status_cases (λ js. find_job i js ≡ find_job i s.jobs) faults now s id req refl
      λ f k. find_job-update i id f (λ j. (k j).id) s.jobs ∙ rw h refl

-- After a runner's report that a build is running, the build still has the status that it had before:
-- a queued build stays queued, and a poll can hand it out.
pub running_report_status :
    (now : Time) (s : Store) (id : Str) (req : RunnerStatusRequest) (j : BuildJob)
    → req.status ≡ status_running
    → find_job id s.jobs ≡ some j
    → (k : BuildJob) × (find_job id (update_runner_status no_faults now s id req).0.jobs ≡ some k)
      × (k.status ≡ j.status)
      × (is_claimable 2 k ≡ is_claimable 2 j)
unfolding reported running_update is_claimable is_supported str_eq
running_report_status now s id req j h e = (
  reported (format_time now) req j,
  supported_report now s id req j (rw h refl) e,
  rw (h, str_eq) refl,
  rw (h, str_eq) refl,
)
