-- ===== src/Build/Server/Keeps.antt =====
-- The invariant of the store under the handlers of internal/build/coordinator/server.go.
use tinycloud_platform.Base.{
  ℕ, ◌≡◌, refl, sym, subst, ◌∙◌, true, false, not, Option, none, some, List, [], ◌∷◌, ◌++◌,
  if◌then◌else◌, Str, codes, str_lt, str_eq, str_eq_iff, is_empty, All, All-keep, All-keep_self,
  All-last, keep, keep-keep, last, Bool-cases, Option-cases, inl, inr, arith,
}
use tinycloud_platform.Build.Types.{
  CreateBuildRequest, BuildJob, is_active, status_failed, status_succeeded,
}
use tinycloud_platform.Build.Time.{Time, format_time}
use tinycloud_platform.Build.Tables.{
  Store, select_by_app, select_next, oldest, Result, ok, err, Faults, DbError, newest, of_app,
  with_id,
}
use tinycloud_platform.Build.Store.{
  claim_found, commit_claimed, is_claimable, get_job_by_app_name, delete_job, append_log,
  claim_next_queued_job,
}
use tinycloud_platform.Build.Store.Query.{claim_next_queued_job-IsKeyed}
use tinycloud_platform.Build.Store.Single.{IsSingle, IsPresent, rows_of, idle_last}
use tinycloud_platform.Build.Store.Order.{newest-All, newest-eq-last, IsChronological-keep}
use tinycloud_platform.Build.Store.Claim.{claim_next_queued_job-IsOrderly}
use tinycloud_platform.Build.Store.Writes.{delete_job_cases}
use tinycloud_platform.Build.Store.Logs.{IsNumbered}
use tinycloud_platform.Build.World.{Server, Run, World}
use tinycloud_platform.Build.Server.{
  max_attempts, replace_build, create_validated, create_build, start_rebuild, rebuild_previous,
  rebuild_app, poll_runner, append_runner_log, reset_build, Started, started, not_dispatched,
  not_stored, rebuilt, log_reply, poll_reply, build_request_error, normalize_build_request,
}
use tinycloud_platform.Build.Server.Sound.{
  append_log-IsSound, IsIdle, delete_job-IsSound, insert_build-IsSound, start_rebuild-IsSound,
  IsSound,
}

-- Every row of an app is idle, if the last one is.
idle_rows :
    (js : List BuildJob)
    → IsSingle js
    → ((l : BuildJob) → last js ≡ some l → is_active l ≡ false)
    → All (λ j. is_active j ≡ false) js
unfolding last
idle_rows [] h a = tt
idle_rows (j ∷ []) h a = (a j refl, tt)
idle_rows (j ∷ k ∷ js) h a = (h.0, idle_rows (k ∷ js) h.1 a)

-- An app stays idle when a row is deleted.
delete_job-IsIdle :
    (faults : Faults) (now : Time) (s : Store) (id app : Str)
    → IsSound s
    → IsIdle app s.jobs
    → IsIdle app (delete_job faults s id).0.jobs
delete_job-IsIdle faults now s id app h a = delete_job_cases (IsIdle app) faults now s id a λ l e.
    All-last (λ j. is_active j ≡ false) (rows_of app (keep (λ j. not (with_id id j)) s.jobs))
      (rw (keep-keep (of_app app) (λ j. not (with_id id j)) s.jobs) (
        All-keep (λ j. is_active j ≡ false) (λ j. not (with_id id j)) (rows_of app s.jobs)
          (idle_rows (rows_of app s.jobs) (h.orderly.single app)
            (idle_last app s.jobs h.orderly a))))
      (sym (
          newest-eq-last (rows_of app (keep (λ j. not (with_id id j)) s.jobs)) (
            IsChronological-keep (of_app app) (keep (λ j. not (with_id id j)) s.jobs)
              (IsChronological-keep (λ j. not (with_id id j)) s.jobs h.orderly.chronological)))
        ∙ e)

delete_job-IsPresent :
    (faults : Faults) (now : Time) (s : Store) (id : Str)
    → IsPresent now s.jobs
    → IsPresent now (delete_job faults s id).0.jobs
delete_job-IsPresent faults now s id p = delete_job_cases (IsPresent now) faults now s id p (
    All-keep (λ k. str_lt (format_time now) k.created_at ≡ false) (λ j. not (with_id id j)) s.jobs
      p)

reset_build-IsSound :
    (srv : Server) (run : Run) (w : World) (req : CreateBuildRequest) (p : Store × Option DbError)
    → IsSound p.0
    → IsPresent run.now p.0.jobs
    → IsIdle req.app_name p.0.jobs
    → IsSound (reset_build srv run w req p).0.store
reset_build-IsSound srv run w req (s, some e) h p a = h
reset_build-IsSound srv run w req (s, none) h p a =
    insert_build-IsSound srv run (record w { store = s }) req h p a

-- A row that failed is not active.
failed_idle : (j : BuildJob) → str_eq j.status status_failed ≡ true → is_active j ≡ false
unfolding is_active str_eq
failed_idle j h = let e : j.status ≡ status_failed = (str_eq_iff j.status status_failed).0 h in rw e

-- What a handler reads as the last build of the app.
abbrev pub IsLast : World → Str → Result (Option BuildJob) → Type 0
IsLast w app (err e) = Unit
IsLast w app (ok o) = newest (rows_of app w.store.jobs) ≡ o

pub get_job-IsLast :
    (faults : Faults) (w : World) (app : Str)
    → IsLast w app (get_job_by_app_name faults w.store app)
unfolding get_job_by_app_name
get_job-IsLast faults w app = elim (Option-cases (faults select_by_app)) [
  | inl e ↦ rw (e, get_job_by_app_name) refl
  | inr (x, e) ↦ rw (e, get_job_by_app_name) tt
]

none-IsIdle : (app : Str) (js : List BuildJob) → newest (rows_of app js) ≡ none → IsIdle app js
none-IsIdle app js e l m = cc

pub some-IsIdle :
    (app : Str) (js : List BuildJob) (j : BuildJob)
    → newest (rows_of app js) ≡ some j
    → is_active j ≡ false
    → IsIdle app js
some-IsIdle app js j e a l m =
    let same : j ≡ l = cc in subst (λ (x : BuildJob). is_active x ≡ false) same a

replace_build-IsSound :
    (srv : Server) (run : Run) (w : World) (req : CreateBuildRequest) (r : Result (Option BuildJob))
    → IsSound w.store
    → IsPresent run.now w.store.jobs
    → IsLast w req.app_name r
    → IsSound (replace_build srv run w req r).0.store
unfolding replace_build
replace_build-IsSound srv run w req (err e) h p l = h
replace_build-IsSound srv run w req (ok none) h p l =
    insert_build-IsSound srv run w req h p (none-IsIdle req.app_name w.store.jobs l)
replace_build-IsSound srv run w req (ok (some j)) h p l =
    elim (Bool-cases (str_eq j.status status_failed)) [
      | inl f ↦
          let idle = some-IsIdle req.app_name w.store.jobs j l (failed_idle j f) in
          rw f (
            reset_build-IsSound srv run w req (delete_job run.faults w.store j.id)
              (delete_job-IsSound run.faults run.now w.store j.id h)
              (delete_job-IsPresent run.faults run.now w.store j.id p)
              (delete_job-IsIdle run.faults run.now w.store j.id req.app_name h idle))
      | inr f ↦ elim (Bool-cases (is_active j)) [
        | inl a ↦ rw (f, a) h
        | inr a ↦ elim (Bool-cases (str_eq j.status status_succeeded)) [
          | inl u ↦ rw (f, a, u) h
          | inr u ↦
              rw (f, a, u)
                (insert_build-IsSound srv run w req h p
                  (some-IsIdle req.app_name w.store.jobs j l a))
        ]
      ]
    ]

create_validated-IsSound :
    (srv : Server) (run : Run) (w : World) (req : CreateBuildRequest)
    → IsSound w.store
    → IsPresent run.now w.store.jobs
    → IsSound (create_validated srv run w req).0.store
unfolding create_validated
create_validated-IsSound srv run w req h p =
    elim (Option-cases (run.path_exists (codes "apps/" ++ req.app_name))) [
      | inl e ↦ rw (e, create_validated) h
      | inr (true, e) ↦ rw (e, create_validated) h
      | inr (false, e) ↦
          rw (e, create_validated)
            (replace_build-IsSound srv run w req
              (get_job_by_app_name run.faults w.store req.app_name) h p
              (get_job-IsLast run.faults w req.app_name))
    ]

rebuilt-store : (p : World × Started) → (rebuilt p).0.store ≡ p.0.store
rebuilt-store (w, started j) = refl
rebuilt-store (w, not_dispatched) = refl
rebuilt-store (w, not_stored e) = refl

-- The row that was found is a row of the app.
pub newest-of_app :
    (app : Str) (js : List BuildJob) (j : BuildJob)
    → newest (rows_of app js) ≡ some j
    → j.app_name ≡ app
newest-of_app app js j e =
    (str_eq_iff j.app_name app).0
      (newest-All (λ k. of_app app k ≡ true) (rows_of app js) j (All-keep_self (of_app app) js) e)

rebuild_previous-IsSound :
    (srv : Server) (run : Run) (w : World) (app : Str) (r : Result (Option BuildJob))
    → IsSound w.store
    → IsPresent run.now w.store.jobs
    → IsLast w app r
    → IsSound (rebuild_previous srv run w r).0.store
unfolding rebuild_previous
rebuild_previous-IsSound srv run w app (err e) h p l = h
rebuild_previous-IsSound srv run w app (ok none) h p l = h
rebuild_previous-IsSound srv run w app (ok (some j)) h p l = elim (Bool-cases (is_active j)) [
  | inl a ↦ rw a h
  | inr a ↦
      rw (a, rebuilt-store (start_rebuild srv run w j))
        (start_rebuild-IsSound srv run w j h p (
          subst (λ b. IsIdle b w.store.jobs) (sym (newest-of_app app w.store.jobs j l))
            (some-IsIdle app w.store.jobs j l a)))
]

-- From a store with distinct ids, `created_at` texts ascending over all the rows, only the last row of each
-- app queued or running, and numbered logs, and at a time whose stored text is not below the text of any
-- row, a request to create a build leaves a store with these four properties, whatever it answers and
-- whatever fails on the way. The order of texts is not the order of times.
pub create_build-IsSound :
    (srv : Server) (run : Run) (w : World) (req : Option CreateBuildRequest)
    → IsSound w.store
    → IsPresent run.now w.store.jobs
    → IsSound (create_build srv run w req).0.store
unfolding create_build create_validated
create_build-IsSound srv run w none h p = h
create_build-IsSound srv run w (some r) h p =
    let req = normalize_build_request r in
    elim (Option-cases (build_request_error srv.unicode req)) [
      | inr (x, e) ↦ rw (e, create_build) h
      | inl e ↦ rw (e, create_build) (create_validated-IsSound srv run w req h p)
    ]

-- From a store with distinct ids, `created_at` texts ascending over all the rows, only the last row of each
-- app queued or running, and numbered logs, and at a time whose stored text is not below the text of any
-- row, a request to build an app again leaves a store with these four properties, whatever it answers
-- and whatever fails on the way. The order of texts is not the order of times.
pub rebuild_app-IsSound :
    (srv : Server) (run : Run) (w : World) (app : Str)
    → IsSound w.store
    → IsPresent run.now w.store.jobs
    → IsSound (rebuild_app srv run w app).0.store
unfolding rebuild_app
rebuild_app-IsSound srv run w [] h p = h
rebuild_app-IsSound srv run w (c ∷ app) h p =
    rebuild_previous-IsSound srv run w (c ∷ app) (get_job_by_app_name run.faults w.store (c ∷ app))
      h p (get_job-IsLast run.faults w (c ∷ app))

claim_found-logs :
    (faults : Faults) (now : Time) (s : Store) (o : Option BuildJob)
    → (claim_found faults now s o).0.logs ≡ s.logs
unfolding claim_found commit_claimed
claim_found-logs faults now s none = refl
claim_found-logs faults now s (some j) = ground arith

pub claim_next_queued_job-logs :
    (faults : Faults) (now : Time) (n : ℕ) (s : Store)
    → (claim_next_queued_job faults now n s).0.logs ≡ s.logs
unfolding claim_next_queued_job
claim_next_queued_job-logs faults now n s = elim (Option-cases (faults select_next)) [
  | inr (x, e) ↦ rw (e, claim_next_queued_job) refl
  | inl e ↦
      rw (e, claim_next_queued_job)
        (claim_found-logs faults now s (oldest (keep (is_claimable n) s.jobs)))
]

pub claim_next_queued_job-IsSound :
    (faults : Faults) (now : Time) (n : ℕ) (s : Store)
    → IsSound s
    → IsSound (claim_next_queued_job faults now n s).0
claim_next_queued_job-IsSound faults now n s h = record {
  keyed = claim_next_queued_job-IsKeyed faults now n s h.keyed;
  orderly = claim_next_queued_job-IsOrderly faults now n s h.orderly;
  numbered = subst IsNumbered (sym (claim_next_queued_job-logs faults now n s)) h.numbered;
}

pub poll_reply-store :
    (w : World) (p : Store × Result (Option BuildJob)) → (poll_reply w p).0.store ≡ p.0
poll_reply-store w (s, err e) = refl
poll_reply-store w (s, ok j) = refl

pub log_reply-store :
    (w : World) (id stream message : Str) (p : Store × Option DbError)
    → (log_reply w id stream message p).0.store ≡ p.0
log_reply-store w id stream message (s, none) = refl
log_reply-store w id stream message (s, some e) = refl

poll_runner-IsSound :
    (run : Run) (w : World) → IsSound w.store → IsSound (poll_runner run w).0.store
unfolding poll_runner
poll_runner-IsSound run w h =
    subst IsSound
      (sym (poll_reply-store w (claim_next_queued_job run.faults run.now max_attempts w.store)))
      (claim_next_queued_job-IsSound run.faults run.now max_attempts w.store h)

append_runner_log-IsSound :
    (run : Run) (w : World) (id : Str) (body : Option (Str × Str))
    → IsSound w.store
    → IsSound (append_runner_log run w id body).0.store
unfolding append_runner_log
append_runner_log-IsSound run w id none h = h
append_runner_log-IsSound run w id (some (stream, message)) h =
    let out = if is_empty stream then codes "stdout" else stream in
    subst IsSound
      (sym
        (log_reply-store w id out message (append_log run.faults run.now w.store id out message)))
      (append_log-IsSound run.faults run.now w.store id out message h)

-- From a store with distinct ids, `created_at` texts ascending over all the rows, only the last row of each
-- app queued or running, and numbered logs, a runner's poll and a runner's log line leave a store with these
-- four properties, whatever fails on the way.
runner_calls-IsSound :
    (run : Run) (w : World) (id : Str) (body : Option (Str × Str))
    → IsSound w.store
    → IsSound (poll_runner run w).0.store × IsSound (append_runner_log run w id body).0.store
runner_calls-IsSound run w id body h =
    (poll_runner-IsSound run w h, append_runner_log-IsSound run w id body h)
