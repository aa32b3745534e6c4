-- ===== src/Build/Server/Sound.antt =====
-- The invariant of the store, and what the steps of the handlers of internal/build/coordinator/server.go
-- make of it.
use tinycloud_platform.Base.{
  ◌≡◌, refl, sym, subst, Bool, true, false, Option, none, some, List, ◌++◌, Str, codes,
  Option-cases, inl, inr, arith,
}
use tinycloud_platform.Build.Types.{CreateBuildRequest, BuildJob, RunnerStatusRequest, is_active}
use tinycloud_platform.Build.Time.{Time}
use tinycloud_platform.Build.Dispatch
use tinycloud_platform.Build.Dispatch.{Request}
use tinycloud_platform.Build.Tables.{Store, Faults, DbError, newest}
use tinycloud_platform.Build.Store.{
  exec_update, delete_job, create_job, append_log, update_runner_status,
}
use tinycloud_platform.Build.Store.Query.{
  IsKeyed, create_job-IsKeyed, delete_job-IsKeyed, update_runner_status-IsKeyed,
}
use tinycloud_platform.Build.Store.Single.{
  IsOrderly, IsPresent, rows_of, create_job-IsOrderly, delete_job-IsOrderly,
  update_runner_status-IsOrderly,
}
use tinycloud_platform.Build.Store.Logs.{IsNumbered, append_log-IsNumbered, delete_job-IsNumbered}
use tinycloud_platform.Build.World.{Server, Run, World}
use tinycloud_platform.Build.Server.{
  hand_over, after_dispatch, record_dispatch_failure, insert_build, start_rebuild, failure_report,
  requested_job, repeated_job, stored_build, created_reply, handed_over, stored_rebuild,
}

-- Distinct ids; the texts of `created_at` ascending over all the rows; of the rows of each app only the
-- last one queued or running; and numbered log lines. The texts are not in the order of the times
-- (Build/Store/Order.antt), so a store that is reached by real calls can fail the second condition.
pub record IsSound (s : Store) : Type 0 where
  pub keyed : IsKeyed s.jobs
  pub orderly : IsOrderly s.jobs
  pub numbered : IsNumbered s.logs

pub append_log-jobs :
    (faults : Faults) (now : Time) (s : Store) (id stream message : Str)
    → (append_log faults now s id stream message).0.jobs ≡ s.jobs
unfolding append_log
append_log-jobs faults now s id stream message = ground arith

pub update_runner_status-logs :
    (faults : Faults) (now : Time) (s : Store) (id : Str) (req : RunnerStatusRequest)
    → (update_runner_status faults now s id req).0.logs ≡ s.logs
unfolding update_runner_status exec_update
update_runner_status-logs faults now s id req = ground arith

pub create_job-logs :
    (faults : Faults) (now : Time) (s : Store) (j : BuildJob)
    → (create_job faults now s j).0.logs ≡ s.logs
unfolding create_job
create_job-logs faults now s j = ground arith

pub append_log-IsSound :
    (faults : Faults) (now : Time) (s : Store) (id stream message : Str)
    → IsSound s
    → IsSound (append_log faults now s id stream message).0
append_log-IsSound faults now s id stream message h = record {
  keyed = subst IsKeyed (sym (append_log-jobs faults now s id stream message)) h.keyed;
  orderly = subst IsOrderly (sym (append_log-jobs faults now s id stream message)) h.orderly;
  numbered = append_log-IsNumbered faults now s id stream message h.numbered;
}

pub update_runner_status-IsSound :
    (faults : Faults) (now : Time) (s : Store) (id : Str) (req : RunnerStatusRequest)
    → IsSound s
    → IsSound (update_runner_status faults now s id req).0
update_runner_status-IsSound faults now s id req h = record {
  keyed = update_runner_status-IsKeyed faults now s id req h.keyed;
  orderly = update_runner_status-IsOrderly faults now s h.orderly id req;
  numbered = subst IsNumbered (sym (update_runner_status-logs faults now s id req)) h.numbered;
}

-- The newest row of the app, if it has one, is not active.
abbrev pub IsIdle : Str → List BuildJob → Type 0
IsIdle app js = (l : BuildJob) → newest (rows_of app js) ≡ some l → is_active l ≡ false

pub create_job-IsSound :
    (faults : Faults) (now : Time) (s : Store) (j : BuildJob)
    → IsSound s
    → IsPresent now s.jobs
    → IsIdle j.app_name s.jobs
    → IsSound (create_job faults now s j).0
create_job-IsSound faults now s j h p a = record {
  keyed = create_job-IsKeyed faults now s j h.keyed;
  orderly = create_job-IsOrderly faults now s h.orderly j p a;
  numbered = subst IsNumbered (sym (create_job-logs faults now s j)) h.numbered;
}

pub delete_job-IsSound :
    (faults : Faults) (now : Time) (s : Store) (id : Str)
    → IsSound s
    → IsSound (delete_job faults s id).0
delete_job-IsSound faults now s id h = record {
  keyed = delete_job-IsKeyed faults now s id h.keyed;
  orderly = delete_job-IsOrderly faults now s h.orderly id;
  numbered = delete_job-IsNumbered faults s id h.numbered;
}

pub record_dispatch_failure-IsSound :
    (run : Run) (s : Store) (id e : Str) → IsSound s → IsSound (record_dispatch_failure run s id e)
unfolding record_dispatch_failure
record_dispatch_failure-IsSound run s id e h =
    let stderr = codes "stderr" in
    let text = codes "failed to dispatch build: " ++ e in
    update_runner_status-IsSound run.faults run.now
      (append_log run.faults run.now s id stderr text).0 id
      (failure_report (codes "failed to dispatch build to executor: " ++ e))
      (append_log-IsSound run.faults run.now s id stderr text h)

pub after_dispatch-IsSound :
    (run : Run) (j : BuildJob) (w : World) (p : Option Request × Option Str)
    → IsSound w.store
    → IsSound (after_dispatch run j w p).0.store
after_dispatch-IsSound run j w (req, none) h = h
after_dispatch-IsSound run j w (req, some e) h =
    record_dispatch_failure-IsSound run w.store j.id e h

pub hand_over-IsSound :
    (srv : Server) (run : Run) (w : World) (j : BuildJob)
    → IsSound w.store
    → IsSound (hand_over srv run w j).0.store
unfolding hand_over
hand_over-IsSound srv run w j h = elim (Option-cases srv.dispatcher) [
  | inl e ↦ rw (e, hand_over) h
  | inr (cfg, e) ↦
      rw (e, hand_over)
        (after_dispatch-IsSound run j w
          (Dispatch.dispatch run.post (some cfg) j.id j.app_name j.repo_url j.git_ref j.port) h)
]

pub created_reply-store :
    (j : BuildJob) (p : World × Bool) → (created_reply j p).0.store ≡ p.0.store
created_reply-store j (w, true) = refl
created_reply-store j (w, false) = refl

pub handed_over-store : (j : BuildJob) (p : World × Bool) → (handed_over j p).0.store ≡ p.0.store
handed_over-store j (w, true) = refl
handed_over-store j (w, false) = refl

pub stored_build-IsSound :
    (srv : Server) (run : Run) (w : World) (j : BuildJob) (p : Store × Option DbError)
    → IsSound p.0
    → IsSound (stored_build srv run w j p).0.store
stored_build-IsSound srv run w j (s, some e) h = h
stored_build-IsSound srv run w j (s, none) h =
    subst IsSound (sym (created_reply-store j (hand_over srv run (record w { store = s }) j)))
      (hand_over-IsSound srv run (record w { store = s }) j h)

pub stored_rebuild-IsSound :
    (srv : Server) (run : Run) (w : World) (j : BuildJob) (p : Store × Option DbError)
    → IsSound p.0
    → IsSound (stored_rebuild srv run w j p).0.store
stored_rebuild-IsSound srv run w j (s, some e) h = h
stored_rebuild-IsSound srv run w j (s, none) h =
    subst IsSound (sym (handed_over-store j (hand_over srv run (record w { store = s }) j)))
      (hand_over-IsSound srv run (record w { store = s }) j h)

pub insert_build-IsSound :
    (srv : Server) (run : Run) (w : World) (req : CreateBuildRequest)
    → IsSound w.store
    → IsPresent run.now w.store.jobs
    → IsIdle req.app_name w.store.jobs
    → IsSound (insert_build srv run w req).0.store
unfolding insert_build
insert_build-IsSound srv run w req h p a =
    stored_build-IsSound srv run w (requested_job run req)
      (create_job run.faults run.now w.store (requested_job run req))
      (create_job-IsSound run.faults run.now w.store (requested_job run req) h p a)

pub start_rebuild-IsSound :
    (srv : Server) (run : Run) (w : World) (previous : BuildJob)
    → IsSound w.store
    → IsPresent run.now w.store.jobs
    → IsIdle previous.app_name w.store.jobs
    → IsSound (start_rebuild srv run w previous).0.store
unfolding start_rebuild
start_rebuild-IsSound srv run w previous h p a =
    stored_rebuild-IsSound srv run w (repeated_job run previous)
      (create_job run.faults run.now w.store (repeated_job run previous))
      (create_job-IsSound run.faults run.now w.store (repeated_job run previous) h p a)
