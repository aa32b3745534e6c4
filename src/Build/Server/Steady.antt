-- ===== src/Build/Server/Steady.antt =====
-- What holds of the store whatever the texts of its times are, and what the calls of a runner in
-- internal/build/coordinator/server.go make of it.
use tinycloud_platform.Base.{
  ℕ, ◌+◌, ◌≤◌, ◌≡◌, refl, sym, ap, subst, ◌∙◌, Bool, true, false, ◌&&◌, Option, none, some, List,
  [], ◌∷◌, ◌++◌, Str, codes, str_eq, is_empty, if◌then◌else◌, Bool-cases, inl, inr, arith, keep,
}
use tinycloud_platform.Build.Types.{BuildJob, RunnerStatusRequest, is_active, status_succeeded}
use tinycloud_platform.Build.Time.{Time, format_time}
use tinycloud_platform.Build.Tables.{Store, Faults, update_where, with_id}
use tinycloud_platform.Build.Store.{
  append_log, update_runner_status, claim_next_queued_job, get_job,
}
use tinycloud_platform.Build.Store.Query.{
  IsKeyed, update_runner_status-IsKeyed, claim_next_queued_job-IsKeyed,
}
use tinycloud_platform.Build.Store.Single.{IsSingle, rows_of}
use tinycloud_platform.Build.Store.Logs.{IsNumbered, append_log-IsNumbered}
use tinycloud_platform.Build.Store.Writes.{update_runner_status_cases, claim_next_queued_job_cases}
use tinycloud_platform.Build.Store.Claim.{
  claim_row, update_where-claim, claim_row-app_name, claim_row-ends,
}
use tinycloud_platform.Build.World.{Run, World}
use tinycloud_platform.Build.Server.{max_attempts, poll_runner, append_runner_log, failure_report}
use tinycloud_platform.Build.Server.Report.{
  Deployed, deployed, not_deployed, report_status, store_report, store_deployed, commit_gitops,
  deployed_request,
}
use tinycloud_platform.Build.Server.Report.Outcome.{status_reply-store, commit_found-store}
use tinycloud_platform.Build.Server.Sound.{IsSound, append_log-jobs, update_runner_status-logs}
use tinycloud_platform.Build.Server.Keeps.{
  poll_reply-store, log_reply-store, claim_next_queued_job-logs,
}

abbrev is_build_of : Str → BuildJob → Bool
is_build_of app j = str_eq j.app_name app && is_active j

-- How many rows of the app are queued or running.
unfoldable pub active_of : Str → List BuildJob → ℕ
active_of app [] = 0
active_of app (j ∷ js) = (if str_eq j.app_name app && is_active j then 1 else 0) + active_of app js

-- Distinct ids, at most one queued or running build of each app, and numbered log lines.
pub record IsSteady (s : Store) : Type 0 where
  pub keyed : IsKeyed s.jobs
  pub single : (app : Str) → active_of app s.jobs ≤ 1
  pub numbered : IsNumbered s.logs

weight_le : (x y : Bool) → (y ≡ false → x ≡ false) → (if x then 1 else 0) ≤ (if y then 1 else 0)
weight_le true true h = omega arith
weight_le true false h = cc (h refl)
weight_le false true h = omega arith
weight_le false false h = omega arith

both_false : (a b c : Bool) → (b ≡ false → c ≡ false) → a && b ≡ false → a && c ≡ false
both_false true b c h e = h e
both_false false b c h e = refl

update_build_of :
    (app : Str) (f : BuildJob → BuildJob) (j : BuildJob)
    → ((f j).app_name ≡ j.app_name)
    → (is_active j ≡ false → is_active (f j) ≡ false)
    → is_build_of app j ≡ false
    → is_build_of app (f j) ≡ false
update_build_of app f j k a h =
    ap (λ name. str_eq name app && is_active (f j)) k
    ∙ both_false (str_eq j.app_name app) (is_active j) (is_active (f j)) a h

-- An update that makes no row active makes no app busier.
active_of-update :
    (app : Str) (p : BuildJob → Bool) (f : BuildJob → BuildJob)
    → ((j : BuildJob) → (f j).app_name ≡ j.app_name)
    → ((j : BuildJob) → is_active j ≡ false → is_active (f j) ≡ false)
    → (js : List BuildJob) → active_of app (update_where p f js) ≤ active_of app js
unfolding active_of update_where
active_of-update app p f k a [] = omega arith
active_of-update app p f k a (j ∷ js) =
    let rest = active_of-update app p f k a js in
    elim (Bool-cases (p j)) [
      | inl e ↦
          let here =
            weight_le (is_build_of app (f j)) (is_build_of app j)
              (update_build_of app f j (k j) (a j)) in
          rw e (omega arith)
      | inr e ↦ rw e (omega arith)
    ]

count_active : List BuildJob → ℕ
count_active [] = 0
count_active (j ∷ js) = (if is_active j then 1 else 0) + count_active js

active_of-count_active :
    (app : Str) (js : List BuildJob) → active_of app js ≡ count_active (rows_of app js)
unfolding active_of count_active keep
active_of-count_active app [] = refl
active_of-count_active app (j ∷ js) = ground (arith, active_of-count_active app js)

count_active-IsSingle : (js : List BuildJob) → IsSingle js → count_active js ≤ 1
unfolding count_active
count_active-IsSingle [] h = omega arith
count_active-IsSingle (j ∷ []) h = ground arith
count_active-IsSingle (j ∷ k ∷ js) h =
    let rest : count_active (k ∷ js) ≤ 1 = count_active-IsSingle (k ∷ js) h.1 in
    rw h.0 (omega arith)

-- A store of which only the last row of each app may be active has at most one active row of each.
pub IsSound-IsSteady : (s : Store) → IsSound s → IsSteady s
IsSound-IsSteady s h = record {
  keyed = h.keyed;
  single = λ app.
      rw (active_of-count_active app s.jobs)
        (count_active-IsSingle (rows_of app s.jobs) (h.orderly.single app));
  numbered = h.numbered;
}

pub append_log-IsSteady :
    (faults : Faults) (now : Time) (s : Store) (id stream message : Str)
    → IsSteady s
    → IsSteady (append_log faults now s id stream message).0
append_log-IsSteady faults now s id stream message h = record {
  keyed = subst IsKeyed (sym (append_log-jobs faults now s id stream message)) h.keyed;
  single = λ app.
      subst (λ js. active_of app js ≤ 1) (sym (append_log-jobs faults now s id stream message))
        (h.single app);
  numbered = append_log-IsNumbered faults now s id stream message h.numbered;
}

update_runner_status-IsSteady :
    (faults : Faults) (now : Time) (s : Store) (id : Str) (req : RunnerStatusRequest)
    → IsSteady s
    → IsSteady (update_runner_status faults now s id req).0
update_runner_status-IsSteady faults now s id req h = record {
  keyed = update_runner_status-IsKeyed faults now s id req h.keyed;
  single = λ app.
      update_runner_status_cases (λ js. active_of app js ≤ 1) faults now s id req (h.single app)
        (λ f k.
          let bound = h.single app in
          let less =
            active_of-update app (with_id id) f (λ j. (k j).app_name) (λ j. (k j).ends) s.jobs in
          omega arith);
  numbered = subst IsNumbered (sym (update_runner_status-logs faults now s id req)) h.numbered;
}

claim_next_queued_job-IsSteady :
    (faults : Faults) (now : Time) (n : ℕ) (s : Store)
    → IsSteady s
    → IsSteady (claim_next_queued_job faults now n s).0
claim_next_queued_job-IsSteady faults now n s h = record {
  keyed = claim_next_queued_job-IsKeyed faults now n s h.keyed;
  single = λ app.
      claim_next_queued_job_cases (λ js. active_of app js ≤ 1) faults now s n (h.single app)
        (λ id.
          let t = format_time now in
          let bound = h.single app in
          let less =
            active_of-update app (with_id id) (claim_row t) (claim_row-app_name t)
              (claim_row-ends t) s.jobs in
          rw (update_where-claim id t s.jobs) (omega arith));
  numbered = subst IsNumbered (sym (claim_next_queued_job-logs faults now n s)) h.numbered;
}

store_report-IsSteady :
    (run : Run) (w : World) (id : Str) (req : RunnerStatusRequest)
    → IsSteady w.store
    → IsSteady (store_report run w id req).0.store
unfolding store_report
store_report-IsSteady run w id req h =
    subst IsSteady
      (sym (status_reply-store w id req (update_runner_status run.faults run.now w.store id req)))
      (update_runner_status-IsSteady run.faults run.now w.store id req h)

store_deployed-IsSteady :
    (run : Run) (id : Str) (req : RunnerStatusRequest) (p : World × Deployed)
    → IsSteady p.0.store
    → IsSteady (store_deployed run id req p).0.store
unfolding store_deployed
store_deployed-IsSteady run id req (w, deployed sha path url) h =
    store_report-IsSteady run w id (deployed_request req sha path url) h
store_deployed-IsSteady run id req (w, not_deployed e) h =
    update_runner_status-IsSteady run.faults run.now w.store id
      (failure_report (codes "image built but GitOps commit failed: " ++ e)) h

-- From a store with distinct ids, at most one queued or running build of each app, and numbered logs, a
-- status report leaves a store with these three properties, whatever its status, whatever statement or
-- commit fails, and whatever the texts of the times are.
pub report_status-IsSteady :
    (run : Run) (w : World) (id : Str) (body : Option RunnerStatusRequest)
    → IsSteady w.store
    → IsSteady (report_status run w id body).0.store
unfolding report_status commit_gitops
report_status-IsSteady run w id none h = h
report_status-IsSteady run w id (some req) h =
    elim (Bool-cases (str_eq req.status status_succeeded)) [
      | inl e ↦ rw e (
          store_deployed-IsSteady run id req (commit_gitops run w id req)
            (subst IsSteady (sym (commit_found-store run w req (get_job run.faults w.store id))) h))
      | inr e ↦ rw e (store_report-IsSteady run w id req h)
    ]

poll_runner-IsSteady :
    (run : Run) (w : World) → IsSteady w.store → IsSteady (poll_runner run w).0.store
unfolding poll_runner
poll_runner-IsSteady run w h =
    subst IsSteady
      (sym (poll_reply-store w (claim_next_queued_job run.faults run.now max_attempts w.store)))
      (claim_next_queued_job-IsSteady run.faults run.now max_attempts w.store h)

append_runner_log-IsSteady :
    (run : Run) (w : World) (id : Str) (body : Option (Str × Str))
    → IsSteady w.store
    → IsSteady (append_runner_log run w id body).0.store
unfolding append_runner_log
append_runner_log-IsSteady run w id none h = h
append_runner_log-IsSteady run w id (some (stream, message)) h =
    let out = if is_empty stream then codes "stdout" else stream in
    subst IsSteady
      (sym
        (log_reply-store w id out message (append_log run.faults run.now w.store id out message)))
      (append_log-IsSteady run.faults run.now w.store id out message h)

-- From a store with distinct ids, at most one queued or running build of each app, and numbered logs, a
-- runner's poll and a runner's log line leave a store with these three properties, whatever fails on the
-- way, and whatever the texts of the times are.
pub runner_calls-IsSteady :
    (run : Run) (w : World) (id : Str) (body : Option (Str × Str))
    → IsSteady w.store
    → IsSteady (poll_runner run w).0.store × IsSteady (append_runner_log run w id body).0.store
runner_calls-IsSteady run w id body h =
    (poll_runner-IsSteady run w h, append_runner_log-IsSteady run w id body h)
