-- ===== src/Build/Server/Report.antt =====
-- The handler of a runner's status report: what `updateRunnerStatus` and `commitGitOps` of
-- internal/build/coordinator/server.go do. The commit itself is the run's.
pub mod Outcome
use tinycloud_platform.Base.{
  ℕ, Bool, true, false, Option, none, some, List, [], ◌∷◌, ◌++◌, if◌then◌else◌, Str, codes, str_eq,
  StrMap, take, remove, leb, length,
}
use tinycloud_platform.Manifests.Request.{CreateAppRequest}
use tinycloud_platform.Manifests.Generate.{generate_app_files, updater_path, app_path, app_base_url}
use tinycloud_platform.Build.Types.{BuildJob, RunnerStatusRequest, status_succeeded}
use tinycloud_platform.Build.Tables.{Store, Result, ok, err, DbError}
use tinycloud_platform.Build.Store.{get_job, update_runner_status}
use tinycloud_platform.Build.World.{
  Run, World, Response, Event, no_event, reply, refuse, empty, Commit, committed, commit_failed,
}
use tinycloud_platform.Build.Server.{failure_report}

-- if len(s) <= 12 { return s }; return s[:12]
unfoldable pub short : Str → Str
short s = if leb (length s) 12 then s else take 12 s

unfoldable pub app_request : BuildJob → RunnerStatusRequest → CreateAppRequest
app_request job req = record {
  name = job.app_name;
  image = req.image;
  tag = req.tag;
  replicas = job.replicas;
  port = job.port;
  env = job.env;
}

unfoldable pub committed_files : Run → BuildJob → RunnerStatusRequest → StrMap Str
unfolding generate_app_files
committed_files run job req =
    remove (updater_path job.app_name)
      (generate_app_files run.quote_other run.walk (app_request job req))

unfoldable pub commit_message : BuildJob → RunnerStatusRequest → Str
unfolding short
commit_message job req =
    codes "onboard(" ++ job.app_name ++ codes "): deploy build " ++ short req.tag

abbrev pub author : Str
author = codes "tinycloud-build-coordinator"

-- The commit SHA, the path and the URL, or the text of an error.
pub data Deployed : Type 0 where
  deployed : Str → Str → Str → Deployed
  not_deployed : Str → Deployed

abbrev pub deployment : BuildJob → Commit → Deployed
deployment job (commit_failed e) = not_deployed e
deployment job (committed sha) = deployed sha (app_path job.app_name) (app_base_url job.app_name)

unfoldable pub commit_found : Run → World → RunnerStatusRequest → Result BuildJob → World × Deployed
unfolding committed_files commit_message
commit_found run w req (err e) = (w, not_deployed (run.error_text e))
commit_found run w req (ok job) =
    let message = commit_message job req in
    let files = committed_files run job req in
    (
      record w { commits = w.commits ++ (message, files, author) ∷ [] },
      deployment job (run.commit_files message files author),
    )

unfoldable pub commit_gitops : Run → World → Str → RunnerStatusRequest → World × Deployed
unfolding commit_found
commit_gitops run w id req = commit_found run w req (get_job run.faults w.store id)

abbrev pub status_event : Str → RunnerStatusRequest → Event
status_event id req = record no_event {
  kind = codes "build.status";
  job_id = id;
  status = req.status;
  image = req.image;
  tag = req.tag;
  error = req.error;
}

abbrev pub status_reply :
    World → Str → RunnerStatusRequest → Store × Option DbError → World × Response
status_reply w id req (s, some e) = (record w { store = s }, refuse 500 "failed to update job")
status_reply w id req (s, none) =
    (record w { store = s; events = w.events ++ status_event id req ∷ [] }, reply 204 empty)

unfoldable pub store_report : Run → World → Str → RunnerStatusRequest → World × Response
store_report run w id req =
    status_reply w id req (update_runner_status run.faults run.now w.store id req)

abbrev pub deployed_request : RunnerStatusRequest → Str → Str → Str → RunnerStatusRequest
deployed_request req sha path url = record req {
  gitops_commit_sha = sha;
  gitops_path = path;
  app_url = url;
  deploy_status = codes "gitops_committed";
}

unfoldable pub store_deployed :
    Run → Str → RunnerStatusRequest → World × Deployed → World × Response
unfolding store_report
store_deployed run id req (w, deployed sha path url) =
    store_report run w id (deployed_request req sha path url)
store_deployed run id req (w, not_deployed e) = (
  record w {
    store =
        (update_runner_status run.faults run.now w.store id
          (failure_report (codes "image built but GitOps commit failed: " ++ e))).0;
  },
  refuse 500 "failed to commit GitOps manifests",
)

unfoldable pub report_status : Run → World → Str → Option RunnerStatusRequest → World × Response
unfolding store_report store_deployed commit_gitops
report_status run w id none = (w, refuse 400 "invalid request body")
report_status run w id (some req) =
    if str_eq req.status status_succeeded
    then store_deployed run id req (commit_gitops run w id req)
    else store_report run w id req
