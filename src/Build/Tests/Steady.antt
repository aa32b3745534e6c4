-- ===== src/Build/Tests/Steady.antt =====
-- A store whose texts are not in the order of its times: the build of the later time has the lower text.
use tinycloud_platform.Base.{
  ◌≡◌, refl, some, [], ◌∷◌, codes, str_eq, str_lt, any, arith, Bool-cases, inl, inr,
}
use tinycloud_platform.Build.Types.{is_active, status_queued, status_failed, status_succeeded}
use tinycloud_platform.Build.Tables.{Store}
use tinycloud_platform.Build.Store.{get_job_by_app_name, create_job}
use tinycloud_platform.Build.Store.Logs.{lines_of}
use tinycloud_platform.Build.Server.{rebuild_app, poll_runner, append_runner_log}
use tinycloud_platform.Build.Server.Report.{report_status}
use tinycloud_platform.Build.Server.Steady.{
  IsSteady, active_of, report_status-IsSteady, runner_calls-IsSteady,
}
use tinycloud_platform.Build.Tests.{job, id_a, id_b, shop, report, run_later, server, world}

abbrev unordered : Store
unordered = record {
  jobs =
      job id_a shop status_failed
      ∷ (record (job id_b shop status_queued) { created_at = codes "2023-11-14T22:13:20.5Z" })
      ∷ [];
  logs = [];
}

-- The store has one active build, and a request to build the app again starts a second one, because the
-- newest text is that of the build that failed.
two_builds :
    (active_of shop unordered.jobs ≡ 1)
    × (active_of shop (rebuild_app server run_later (world unordered) shop).0.store.jobs ≡ 2)
unfolding active_of rebuild_app str_eq get_job_by_app_name str_lt create_job
two_builds = (refl, refl)

unordered-IsSteady : IsSteady unordered
unfolding active_of any str_eq is_active lines_of
unordered-IsSteady = record {
  keyed = (refl, (refl, tt));
  single = λ app. elim (Bool-cases (str_eq shop app)) [
    | inl e ↦ rw e (omega arith)
    | inr e ↦ rw e (omega arith)
  ];
  numbered = λ id. tt;
}

report_status-IsSteady_example :
    IsSteady
      (report_status run_later (world unordered) id_b (some (report status_succeeded))).0.store
report_status-IsSteady_example =
    report_status-IsSteady run_later (world unordered) id_b (some (report status_succeeded))
      unordered-IsSteady

runner_calls-IsSteady_example :
    IsSteady (poll_runner run_later (world unordered)).0.store
    × IsSteady (append_runner_log run_later (world unordered) id_b (some ([], codes "go"))).0.store
runner_calls-IsSteady_example =
    runner_calls-IsSteady run_later (world unordered) id_b (some ([], codes "go"))
      unordered-IsSteady
