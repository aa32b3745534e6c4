-- ===== src/Build/Store/Single.antt =====
-- One build at a time, where the texts of `created_at` ascend over the rows: of the rows of an app only the
-- last may be queued or running.
use tinycloud_platform.Base.{
  ◌≡◌, refl, ap, ◌∙◌, Bool, true, false, not, some, List, [], ◌∷◌, ◌++◌, arith, if◌then◌else◌, Str,
  str_eq, keep, subst, append-nil, keep-append, keep-keep, All, last, Bool-cases, ◌⊎◌, inl, inr,
  str_lt, str_eq_iff,
}
use tinycloud_platform.Build.Types.{BuildJob, RunnerStatusRequest, is_active}
use tinycloud_platform.Build.Time.{Time, format_time}
use tinycloud_platform.Build.Tables.{Store, Faults, with_id, of_app, update_where, newest}
use tinycloud_platform.Build.Store.{create_job, inserted, update_runner_status, delete_job}
use tinycloud_platform.Build.Store.Order.{
  IsChronological, IsChronological-append, newest-eq-last, IsChronological-keep,
}
use tinycloud_platform.Build.Store.Writes.{
  create_job_cases, delete_job_cases, update_runner_status_cases,
}

abbrev pub IsSingle : List BuildJob → Type 0
IsSingle [] = Unit
IsSingle (j ∷ []) = Unit
IsSingle (j ∷ k ∷ js) = (is_active j ≡ false) × IsSingle (k ∷ js)

abbrev pub rows_of : Str → List BuildJob → List BuildJob
rows_of app js = keep (of_app app) js

-- The texts of `created_at` ascend over all the rows, and of the rows of each app only the last may be
-- active.
pub record IsOrderly (js : List BuildJob) : Type 0 where
  pub chronological : IsChronological js
  pub single : (app : Str) → IsSingle (rows_of app js)

IsSingle-cons :
    (j : BuildJob) (js : List BuildJob) → is_active j ≡ false → IsSingle js → IsSingle (j ∷ js)
IsSingle-cons j [] a h = tt
IsSingle-cons j (k ∷ js) a h = (a, h)

IsSingle-tail : (j : BuildJob) (js : List BuildJob) → IsSingle (j ∷ js) → IsSingle js
IsSingle-tail j [] h = tt
IsSingle-tail j (k ∷ js) h = h.1

pub IsSingle-keep : (p : BuildJob → Bool) (js : List BuildJob) → IsSingle js → IsSingle (keep p js)
unfolding keep
IsSingle-keep p [] h = tt
IsSingle-keep p (j ∷ []) h = elim (Bool-cases (p j)) [ inl e ↦ rw e tt | inr e ↦ rw e tt ]
IsSingle-keep p (j ∷ k ∷ js) h = elim (Bool-cases (p j)) [
  | inl e ↦ rw e (IsSingle-cons j (keep p (k ∷ js)) h.0 (IsSingle-keep p (k ∷ js) h.1))
  | inr e ↦ rw e (IsSingle-keep p (k ∷ js) h.1)
]

-- A row may follow when the last row before it is not active.
pub IsSingle-append :
    (js : List BuildJob) (j : BuildJob)
    → IsSingle js
    → ((l : BuildJob) → last js ≡ some l → is_active l ≡ false)
    → IsSingle (js ++ j ∷ [])
unfolding last
IsSingle-append [] j h a = tt
IsSingle-append (k ∷ []) j h a = (a k refl, tt)
IsSingle-append (k ∷ l ∷ js) j h a = (h.0, IsSingle-append (l ∷ js) j h.1 a)

-- An update that makes no row active keeps the rule.
pub IsSingle-update :
    (p : BuildJob → Bool) (f : BuildJob → BuildJob)
    → ((j : BuildJob) → is_active j ≡ false → is_active (f j) ≡ false)
    → (js : List BuildJob) → IsSingle js
    → IsSingle (update_where p f js)
unfolding update_where
IsSingle-update p f a [] h = tt
IsSingle-update p f a (j ∷ []) h = tt
IsSingle-update p f a (j ∷ k ∷ js) h = elim (Bool-cases (p j)) [
  | inl e ↦ rw e (a j h.0, IsSingle-update p f a (k ∷ js) h.1)
  | inr e ↦ rw e (h.0, IsSingle-update p f a (k ∷ js) h.1)
]

-- The rows of an app, under an update that leaves the app names alone.
rows_of-update :
    (app : Str) (p : BuildJob → Bool) (f : BuildJob → BuildJob)
    → ((j : BuildJob) → (f j).app_name ≡ j.app_name)
    → (js : List BuildJob) → rows_of app (update_where p f js) ≡ update_where p f (rows_of app js)
unfolding keep update_where
rows_of-update app p f k [] = refl
rows_of-update app p f k (j ∷ js) =
    ground (arith, rows_of-update app p f k js, ap (λ a. str_eq a app) (k j))

All-update :
    (t : Str) (p : BuildJob → Bool) (f : BuildJob → BuildJob)
    → ((j : BuildJob) → (f j).created_at ≡ j.created_at)
    → (js : List BuildJob) → All (λ k. str_lt k.created_at t ≡ false) js
    → All (λ k. str_lt k.created_at t ≡ false) (update_where p f js)
unfolding update_where
All-update t p f c [] h = tt
All-update t p f c (j ∷ js) h = elim (Bool-cases (p j)) [
  | inl e ↦ rw e (rw (c j) h.0, All-update t p f c js h.1)
  | inr e ↦ rw e (h.0, All-update t p f c js h.1)
]

IsChronological-update :
    (p : BuildJob → Bool) (f : BuildJob → BuildJob)
    → ((j : BuildJob) → (f j).created_at ≡ j.created_at)
    → (js : List BuildJob) → IsChronological js
    → IsChronological (update_where p f js)
unfolding update_where
IsChronological-update p f c [] h = tt
IsChronological-update p f c (j ∷ js) h = elim (Bool-cases (p j)) [
  | inl e ↦
      rw e (rw (c j) (All-update j.created_at p f c js h.0), IsChronological-update p f c js h.1)
  | inr e ↦ rw e (All-update j.created_at p f c js h.0, IsChronological-update p f c js h.1)
]

pub update-IsOrderly :
    (p : BuildJob → Bool) (f : BuildJob → BuildJob)
    → ((j : BuildJob) → (f j).app_name ≡ j.app_name)
    → ((j : BuildJob) → (f j).created_at ≡ j.created_at)
    → ((j : BuildJob) → is_active j ≡ false → is_active (f j) ≡ false)
    → (js : List BuildJob) → IsOrderly js
    → IsOrderly (update_where p f js)
update-IsOrderly p f k c a js h = record {
  chronological = IsChronological-update p f c js h.chronological;
  single = λ app.
      rw (rows_of-update app p f k js) (IsSingle-update p f a (rows_of app js) (h.single app));
}

keep-IsOrderly : (p : BuildJob → Bool) (js : List BuildJob) → IsOrderly js → IsOrderly (keep p js)
keep-IsOrderly p js h = record {
  chronological = IsChronological-keep p js h.chronological;
  single =
      λ app. rw (keep-keep (of_app app) p js) (IsSingle-keep p (rows_of app js) (h.single app));
}

-- The stored text of the time is not below the text of any row: texts are compared, not times.
abbrev pub IsPresent : Time → List BuildJob → Type 0
IsPresent now js = All (λ k. str_lt (format_time now) k.created_at ≡ false) js

rows_of-append :
    (app : Str) (js : List BuildJob) (j : BuildJob)
    → rows_of app (js ++ j ∷ [])
      ≡ (if str_eq j.app_name app then rows_of app js ++ j ∷ [] else rows_of app js)
rows_of-append app js j =
    keep-append (of_app app) js (j ∷ [])
    ∙ (unfold keep in
        elim (Bool-cases (str_eq j.app_name app)) [
          | inl e ↦ rw e
          | inr e ↦ rw e (append-nil (rows_of app js))
        ])

-- Of an app whose newest row is not active no row of the list's end is.
pub idle_last :
    (app : Str) (js : List BuildJob)
    → IsOrderly js
    → ((l : BuildJob) → newest (rows_of app js) ≡ some l → is_active l ≡ false)
    → (l : BuildJob) → last (rows_of app js) ≡ some l
    → is_active l ≡ false
idle_last app js h a l e =
    a l (newest-eq-last (rows_of app js) (IsChronological-keep (of_app app) js h.chronological) ∙ e)

-- A new row of an app may be added when the newest row of that app is not active.
append-IsOrderly :
    (now : Time) (job : BuildJob) (js : List BuildJob)
    → IsOrderly js
    → IsPresent now js
    → ((l : BuildJob) → newest (rows_of job.app_name js) ≡ some l → is_active l ≡ false)
    → IsOrderly (js ++ inserted (format_time now) job ∷ [])
unfolding inserted
append-IsOrderly now job js h l a = record {
  chronological = IsChronological-append js (inserted (format_time now) job) h.chronological l;
  single = λ app.
      rw (rows_of-append app js (inserted (format_time now) job))
        (IsSingle-new app (Bool-cases (str_eq job.app_name app)));
}
  where
    IsSingle-new :
        (app : Str)
        → (str_eq job.app_name app ≡ true) ⊎ (str_eq job.app_name app ≡ false)
        → IsSingle (
            if str_eq job.app_name app
            then rows_of app js ++ inserted (format_time now) job ∷ []
            else rows_of app js)
    IsSingle-new app (inl e) = rw e (
        IsSingle-append (rows_of app js) (inserted (format_time now) job) (h.single app) (
          idle_last app js h (
            subst (λ b. (k : BuildJob) → newest (rows_of b js) ≡ some k → is_active k ≡ false)
              ((str_eq_iff job.app_name app).0 e) a)))
    IsSingle-new app (inr e) = rw e (h.single app)

module _ (faults : Faults) (now : Time) (s : Store) (h : IsOrderly s.jobs) where
  -- A job may be created when the newest row of its app is not active.
  pub create_job-IsOrderly :
      (job : BuildJob)
      → IsPresent now s.jobs
      → ((l : BuildJob) → newest (rows_of job.app_name s.jobs) ≡ some l → is_active l ≡ false)
      → IsOrderly (create_job faults now s job).0.jobs
  create_job-IsOrderly job l a =
      create_job_cases IsOrderly faults now s job h (λ _. append-IsOrderly now job s.jobs h l a)

  pub delete_job-IsOrderly : (id : Str) → IsOrderly (delete_job faults s id).0.jobs
  delete_job-IsOrderly id =
      delete_job_cases IsOrderly faults now s id h
        (keep-IsOrderly (λ j. not (with_id id j)) s.jobs h)

  pub update_runner_status-IsOrderly :
      (id : Str) (req : RunnerStatusRequest)
      → IsOrderly (update_runner_status faults now s id req).0.jobs
  update_runner_status-IsOrderly id req =
      update_runner_status_cases IsOrderly faults now s id req h λ f k.
        update-IsOrderly (with_id id) f (λ j. (k j).app_name) (λ j. (k j).created_at)
          (λ j. (k j).ends) s.jobs h
