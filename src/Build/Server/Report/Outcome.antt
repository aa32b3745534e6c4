-- ===== src/Build/Server/Report/Outcome.antt =====
-- What a report leaves: a sound store always, and after a succeeded build the commit and the row.
use tinycloud_platform.Base.{
  ◌≡◌, refl, sym, ap, subst, ◌∙◌, Option, none, some, List, [], ◌∷◌, ◌++◌, Str, codes, str_eq,
  str_eq_refl, str_eq_iff, Bool-cases, inl, inr,
}
use tinycloud_platform.Text.{trim_space}
use tinycloud_platform.Manifests.Generate.{app_path, app_base_url}
use tinycloud_platform.Build.Types.{BuildJob, RunnerStatusRequest, status_succeeded}
use tinycloud_platform.Build.Time.{Time, format_time}
use tinycloud_platform.Build.Tables.{
  Store, Faults, Result, ok, err, DbError, select_job, update_status, update_where, with_id,
}
use tinycloud_platform.Build.Store.{
  get_job, find_job, exec_update, update_runner_status, succeeded_update,
}
use tinycloud_platform.Build.Store.Query.{find_job-update, KeepsId}
use tinycloud_platform.Build.World.{Run, World, committed}
use tinycloud_platform.Build.Server.{failure_report}
use tinycloud_platform.Build.Server.Sound.{IsSound, update_runner_status-IsSound}
use tinycloud_platform.Build.Server.Report.{
  author, Deployed, deployed, not_deployed, commit_found, commit_gitops, commit_message,
  committed_files, status_reply, store_report, store_deployed, deployed_request, report_status,
}

pub status_reply-store :
    (w : World) (id : Str) (req : RunnerStatusRequest) (p : Store × Option DbError)
    → (status_reply w id req p).0.store ≡ p.0
status_reply-store w id req (s, some e) = refl
status_reply-store w id req (s, none) = refl

store_report-IsSound :
    (run : Run) (w : World) (id : Str) (req : RunnerStatusRequest)
    → IsSound w.store
    → IsSound (store_report run w id req).0.store
unfolding store_report
store_report-IsSound run w id req h =
    subst IsSound
      (sym (status_reply-store w id req (update_runner_status run.faults run.now w.store id req)))
      (update_runner_status-IsSound run.faults run.now w.store id req h)

store_deployed-IsSound :
    (run : Run) (id : Str) (req : RunnerStatusRequest) (p : World × Deployed)
    → IsSound p.0.store
    → IsSound (store_deployed run id req p).0.store
unfolding store_deployed
store_deployed-IsSound run id req (w, deployed sha path url) h =
    store_report-IsSound run w id (deployed_request req sha path url) h
store_deployed-IsSound run id req (w, not_deployed e) h =
    update_runner_status-IsSound run.faults run.now w.store id
      (failure_report (codes "image built but GitOps commit failed: " ++ e)) h

pub commit_found-store :
    (run : Run) (w : World) (req : RunnerStatusRequest) (r : Result BuildJob)
    → (commit_found run w req r).0.store ≡ w.store
unfolding commit_found
commit_found-store run w req (err e) = refl
commit_found-store run w req (ok job) = refl

-- From a store with distinct ids, `created_at` texts ascending over all the rows, only the last row of each
-- app queued or running, and numbered logs, a status report leaves a store with these four properties,
-- whatever its status, and whatever statement or commit fails.
report_status-IsSound :
    (run : Run) (w : World) (id : Str) (body : Option RunnerStatusRequest)
    → IsSound w.store
    → IsSound (report_status run w id body).0.store
unfolding report_status commit_gitops
report_status-IsSound run w id none h = h
report_status-IsSound run w id (some req) h =
    elim (Bool-cases (str_eq req.status status_succeeded)) [
      | inl e ↦ rw e (
          store_deployed-IsSound run id req (commit_gitops run w id req)
            (subst IsSound (sym (commit_found-store run w req (get_job run.faults w.store id))) h))
      | inr e ↦ rw e (store_report-IsSound run w id req h)
    ]

exec_update-done :
    (faults : Faults) (s : Store) (id : Str) (f : BuildJob → BuildJob)
    → faults update_status ≡ none
    → ◌≡◌ {A = Store × Option DbError}
        (exec_update faults s id f)
        (record s { jobs = update_where (with_id id) f s.jobs }, none)
unfolding exec_update
exec_update-done faults s id f h = rw (h, exec_update)

find_job-own :
    (id : Str) (f : BuildJob → BuildJob) (js : List BuildJob) (j : BuildJob)
    → KeepsId f
    → find_job id js ≡ some j
    → find_job id (update_where (with_id id) f js) ≡ some (f j)
find_job-own id f js j k h = find_job-update id id f k js ∙ rw (str_eq_refl id, h) refl

succeeded_report :
    (faults : Faults) (now : Time) (s : Store) (id : Str) (req : RunnerStatusRequest)
    → req.status ≡ status_succeeded
    → update_runner_status faults now s id req
      ≡ exec_update faults s id (succeeded_update (format_time now) req)
unfolding update_runner_status str_eq
succeeded_report faults now s id req h = rw h refl

found_job :
    (faults : Faults) (s : Store) (id : Str) (j : BuildJob)
    → faults select_job ≡ none
    → find_job id s.jobs ≡ some j
    → get_job faults s id ≡ ok j
unfolding get_job
found_job faults s id j f h = rw (f, get_job, h)

succeeded_id : (now : Str) (req : RunnerStatusRequest) → KeepsId (succeeded_update now req)
unfolding succeeded_update
succeeded_id now req j = refl

-- What the row of a deployed build has: the report's columns, the deployment's, and for the rest what the
-- row had.
pub record DeployedRow (now sha : Str) (req : RunnerStatusRequest) (j k : BuildJob) : Type 0 where
  pub status : k.status ≡ codes "succeeded"
  pub commit_sha : k.commit_sha ≡ req.commit_sha
  pub image : k.image ≡ req.image
  pub tag : k.tag ≡ req.tag
  pub gitops_commit_sha : k.gitops_commit_sha ≡ sha
  pub gitops_path : k.gitops_path ≡ codes "apps/" ++ j.app_name
  pub app_url : k.app_url ≡ codes "https://" ++ trim_space j.app_name ++ codes ".sasiru.lk/"
  pub deploy_status : k.deploy_status ≡ codes "gitops_committed"
  pub error : k.error ≡ []
  pub finished_at : k.finished_at ≡ some now
  pub id : k.id ≡ j.id
  pub app_name : k.app_name ≡ j.app_name
  pub created_at : k.created_at ≡ j.created_at
  pub attempts : k.attempts ≡ j.attempts

-- What the row of a build has whose commit failed.
pub record RefusedRow (now e : Str) (j k : BuildJob) : Type 0 where
  pub status : k.status ≡ codes "failed"
  pub error : k.error ≡ codes "image built but GitOps commit failed: " ++ e
  pub finished_at : k.finished_at ≡ some now
  pub id : k.id ≡ j.id
  pub image : k.image ≡ j.image
  pub gitops_commit_sha : k.gitops_commit_sha ≡ j.gitops_commit_sha
  pub gitops_path : k.gitops_path ≡ j.gitops_path
  pub app_url : k.app_url ≡ j.app_url
  pub created_at : k.created_at ≡ j.created_at
  pub attempts : k.attempts ≡ j.attempts

succeeded_update-DeployedRow :
    (now sha : Str) (req : RunnerStatusRequest) (j : BuildJob)
    → DeployedRow now sha req j (
        succeeded_update now
          (deployed_request req sha (app_path j.app_name) (app_base_url j.app_name))
          j)
unfolding succeeded_update app_base_url
succeeded_update-DeployedRow now sha req j = record {
  status = refl;
  commit_sha = refl;
  image = refl;
  tag = refl;
  gitops_commit_sha = refl;
  gitops_path = refl;
  app_url = refl;
  deploy_status = refl;
  error = refl;
  finished_at = refl;
  id = refl;
  app_name = refl;
  created_at = refl;
  attempts = refl;
}

module _ (run : Run) (w : World) (id : Str) (req : RunnerStatusRequest) (j : BuildJob)
    (s : req.status ≡ status_succeeded) (g : run.faults select_job ≡ none)
    (u : run.faults update_status ≡ none) (f : find_job id w.store.jobs ≡ some j) where
  abbrev after_commit : World
  after_commit = record w {
    commits = w.commits ++ (commit_message j req, committed_files run j req, author) ∷ [];
  }

  committed_world :
      (d : Deployed)
      → commit_found run w req (ok j) ≡ (after_commit, d)
      → report_status run w id (some req) ≡ store_deployed run id req (after_commit, d)
  unfolding report_status commit_gitops
  committed_world d e =
      let b = (str_eq_iff req.status status_succeeded).1 s in
      rw (b, commit_gitops, found_job run.faults w.store id j g f, e)

  stored_world :
      (r : RunnerStatusRequest)
      → r.status ≡ status_succeeded
      → store_report run after_commit id r
        ≡ status_reply after_commit id r (
          record w.store {
            jobs =
                update_where (with_id id) (succeeded_update (format_time run.now) r) w.store.jobs;
          },
          none,
        )
  unfolding store_report
  stored_world r h = ap (status_reply after_commit id r) (
      succeeded_report run.faults run.now w.store id r h
      ∙ exec_update-done run.faults w.store id (succeeded_update (format_time run.now) r) u)

  -- After a report of a succeeded build whose files are committed, when the statements that it runs do
  -- not fail: the answer is 204, the commit has the files of the app, and the row of the build has
  -- succeeded, with the report's commit, image and tag, the SHA of the commit, the path `apps/<name>`, the
  -- app's URL and no error, and with the time of the report as its end.
  pub report_status-deployed :
      (sha : Str)
      → run.commit_files (commit_message j req) (committed_files run j req) author ≡ committed sha
      → ((report_status run w id (some req)).1.status ≡ 204)
        × ((report_status run w id (some req)).0.commits
            ≡ w.commits ++ (commit_message j req, committed_files run j req, author) ∷ [])
        × (k : BuildJob) × (find_job id (report_status run w id (some req)).0.store.jobs ≡ some k)
        × DeployedRow (format_time run.now) sha req j k
  unfolding commit_found store_deployed
  report_status-deployed sha c =
      let r = deployed_request req sha (app_path j.app_name) (app_base_url j.app_name) in
      let world =
        committed_world (deployed sha (app_path j.app_name) (app_base_url j.app_name)) (rw c) in
      rw (world, stored_world r s)
        (
          refl,
          refl,
          succeeded_update (format_time run.now) r j,
          find_job-own id (succeeded_update (format_time run.now) r) w.store.jobs j
              (succeeded_id (format_time run.now) r) f,
          succeeded_update-DeployedRow (format_time run.now) sha req j,
        )
