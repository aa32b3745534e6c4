-- ===== src/Build/Store/Query.antt =====
-- The primary key of build_jobs, and what one statement leaves of the other rows.
use tinycloud_platform.Base.{
  ℕ, ◌≡◌, refl, ◌∙◌, Bool, false, not, some, List, [], ◌∷◌, ◌++◌, arith, if◌then◌else◌, Str, str_eq,
  str_eq_iff, str_eq_comm, keep, any, any-append, Bool-cases, inl, inr,
}
use tinycloud_platform.Build.Types.{BuildJob, RunnerStatusRequest}
use tinycloud_platform.Build.Time.{Time, format_time}
use mathlib.Core.Option
use tinycloud_platform.Build.Store.Writes.{
  update_runner_status_cases, delete_job_cases, claim_next_queued_job_cases, create_job_cases,
}
use tinycloud_platform.Build.Tables.{Store, Faults, with_id, update_where}
use tinycloud_platform.Build.Store.{
  is_queued, find_job, create_job, inserted, update_runner_status, delete_job,
  claim_next_queued_job, claimed,
}

-- No two rows have the same id.
abbrev pub IsKeyed : List BuildJob → Type 0
IsKeyed [] = Unit
IsKeyed (j ∷ js) = (any (with_id j.id) js ≡ false) × IsKeyed js

-- An update that leaves the ids alone.
abbrev pub KeepsId : (BuildJob → BuildJob) → Type 0
KeepsId f = (j : BuildJob) → (f j).id ≡ j.id

any-with_id-update :
    (id : Str) (p : BuildJob → Bool) (f : BuildJob → BuildJob)
    → KeepsId f
    → (js : List BuildJob) → any (with_id id) (update_where p f js) ≡ any (with_id id) js
unfolding any update_where
any-with_id-update id p f k [] = refl
any-with_id-update id p f k (j ∷ js) = elim (Bool-cases (p j)) [
  | inl e ↦ rw (e, k j, any-with_id-update id p f k js)
  | inr e ↦ rw (e, any-with_id-update id p f k js)
]

pub update_where-IsKeyed :
    (p : BuildJob → Bool) (f : BuildJob → BuildJob)
    → KeepsId f
    → (js : List BuildJob) → IsKeyed js
    → IsKeyed (update_where p f js)
unfolding update_where
update_where-IsKeyed p f k [] h = tt
update_where-IsKeyed p f k (j ∷ js) h = elim (Bool-cases (p j)) [
  | inl e ↦
      rw e (rw (k j) (any-with_id-update j.id p f k js ∙ h.0), update_where-IsKeyed p f k js h.1)
  | inr e ↦ rw e (any-with_id-update j.id p f k js ∙ h.0, update_where-IsKeyed p f k js h.1)
]

any-keep-false :
    (p q : BuildJob → Bool) (js : List BuildJob) → any p js ≡ false → any p (keep q js) ≡ false
unfolding any keep
any-keep-false p q [] h = refl
any-keep-false p q (j ∷ js) h = ground (arith, any-keep-false p q js)

pub keep-IsKeyed : (q : BuildJob → Bool) (js : List BuildJob) → IsKeyed js → IsKeyed (keep q js)
unfolding keep
keep-IsKeyed q [] h = tt
keep-IsKeyed q (j ∷ js) h = elim (Bool-cases (q j)) [
  | inl e ↦ rw e (any-keep-false (with_id j.id) q js h.0, keep-IsKeyed q js h.1)
  | inr e ↦ rw e (keep-IsKeyed q js h.1)
]

append-IsKeyed :
    (js : List BuildJob) (j : BuildJob)
    → IsKeyed js
    → any (with_id j.id) js ≡ false
    → IsKeyed (js ++ j ∷ [])
unfolding any
append-IsKeyed [] j h e = (refl, tt)
append-IsKeyed (k ∷ ks) j h e = (
  any-append (with_id k.id) ks (j ∷ []) ∙ ground (arith, str_eq_comm k.id j.id),
  append-IsKeyed ks j h.1 (ground arith),
)

-- Every write of the store keeps the ids distinct, whatever statement fails.
pub create_job-IsKeyed :
    (faults : Faults) (now : Time) (s : Store) (job : BuildJob)
    → IsKeyed s.jobs
    → IsKeyed (create_job faults now s job).0.jobs
unfolding inserted
create_job-IsKeyed faults now s job h =
    create_job_cases IsKeyed faults now s job h
      (λ e. append-IsKeyed s.jobs (inserted (format_time now) job) h e)

find_job-append :
    (id : Str) (js : List BuildJob) (j : BuildJob)
    → any (with_id id) js ≡ false
    → j.id ≡ id
    → find_job id (js ++ j ∷ []) ≡ some j
unfolding find_job any
find_job-append id [] j h e = rw (e, (str_eq_iff id id).1 refl)
find_job-append id (k ∷ ks) j h e = ground (arith, find_job-append id ks j)

-- What an UPDATE by one id makes of a lookup by id.
pub find_job-update :
    (i id : Str) (f : BuildJob → BuildJob)
    → KeepsId f
    → (js : List BuildJob)
    → find_job i (update_where (with_id id) f js)
      ≡ (if str_eq id i then Option.map f (find_job i js) else find_job i js)
unfolding find_job update_where
find_job-update i id f k [] = ground arith
find_job-update i id f k (j ∷ js) = ground (
  arith,
  k j,
  find_job-update i id f k js,
  str_eq_iff id i,
  str_eq_iff j.id i,
  str_eq_iff j.id id,
)

pub update_runner_status-IsKeyed :
    (faults : Faults) (now : Time) (s : Store) (id : Str) (req : RunnerStatusRequest)
    → IsKeyed s.jobs
    → IsKeyed (update_runner_status faults now s id req).0.jobs
update_runner_status-IsKeyed faults now s id req h =
    update_runner_status_cases IsKeyed faults now s id req h
      (λ f k. update_where-IsKeyed (with_id id) f (λ j. (k j).id) s.jobs h)

pub delete_job-IsKeyed :
    (faults : Faults) (now : Time) (s : Store) (id : Str)
    → IsKeyed s.jobs
    → IsKeyed (delete_job faults s id).0.jobs
delete_job-IsKeyed faults now s id h =
    delete_job_cases IsKeyed faults now s id h (keep-IsKeyed (λ j. not (with_id id j)) s.jobs h)

pub claim_next_queued_job-IsKeyed :
    (faults : Faults) (now : Time) (n : ℕ) (s : Store)
    → IsKeyed s.jobs
    → IsKeyed (claim_next_queued_job faults now n s).0.jobs
unfolding claimed
claim_next_queued_job-IsKeyed faults now n s h =
    claim_next_queued_job_cases IsKeyed faults now s n h
      (λ id. update_where-IsKeyed (is_queued id) (claimed (format_time now)) (λ j. refl) s.jobs h)
