-- ===== src/Build/Store/Writes.antt =====
-- The writes of the store, one rule for each: what holds of the tables before it and of what its
-- statements make of them holds after it, whichever of them fails.
use tinycloud_platform.Base.{
  Option, none, some, ℕ, ◌≡◌, refl, false, not, List, [], ◌∷◌, ◌++◌, Str, str_eq, keep, any,
  Bool-cases, Option-cases, inl, inr,
}
use tinycloud_platform.Build.Types.{
  BuildJob, RunnerStatusRequest, is_active, status_running, status_succeeded, status_failed,
}
use tinycloud_platform.Build.Time.{Time, format_time}
use tinycloud_platform.Build.Tables.{
  Store, Faults, insert_job, delete_lines, delete_row, select_next, update_claim, commit_claim,
  update_status, with_id, update_where, oldest,
}
use tinycloud_platform.Build.Store.{
  create_job, inserted, update_runner_status, delete_job, claim_next_queued_job, is_claimable,
  claimed, running_update, succeeded_update, failed_update, exec_update, is_queued, commit_claimed,
  claim_found,
}

-- What the three status updates have in common.
pub record KeepsIdentity (f : BuildJob → BuildJob) (j : BuildJob) : Type 0 where
  pub id : (f j).id ≡ j.id
  pub app_name : (f j).app_name ≡ j.app_name
  pub created_at : (f j).created_at ≡ j.created_at
  pub attempts : (f j).attempts ≡ j.attempts
  pub ends : is_active j ≡ false → is_active (f j) ≡ false

running_KeepsIdentity :
    (t : Str) (req : RunnerStatusRequest) (j : BuildJob) → KeepsIdentity (running_update t req) j
unfolding running_update is_active
running_KeepsIdentity t req j = record {
  id = refl;
  app_name = refl;
  created_at = refl;
  attempts = refl;
  ends = λ h. h;
}

succeeded_KeepsIdentity :
    (t : Str) (req : RunnerStatusRequest) (j : BuildJob) → KeepsIdentity (succeeded_update t req) j
unfolding succeeded_update is_active str_eq
succeeded_KeepsIdentity t req j = record {
  id = refl;
  app_name = refl;
  created_at = refl;
  attempts = refl;
  ends = λ h. refl;
}

failed_KeepsIdentity :
    (t : Str) (req : RunnerStatusRequest) (j : BuildJob) → KeepsIdentity (failed_update t req) j
unfolding failed_update is_active str_eq
failed_KeepsIdentity t req j = record {
  id = refl;
  app_name = refl;
  created_at = refl;
  attempts = refl;
  ends = λ h. refl;
}

module _ {ℓ} (P : List BuildJob → Type ℓ) (faults : Faults) (now : Time) (s : Store) where
  pub create_job_cases :
      (job : BuildJob)
      → P s.jobs
      → (any (with_id job.id) s.jobs ≡ false → P (s.jobs ++ inserted (format_time now) job ∷ []))
      → P (create_job faults now s job).0.jobs
  unfolding create_job
  create_job_cases job h k = elim (Option-cases (faults insert_job)) [
    | inr (x, e) ↦ rw (e, create_job) h
    | inl e ↦ elim (Bool-cases (any (with_id job.id) s.jobs)) [
      | inl t ↦ rw (e, t, create_job) h
      | inr t ↦ rw (e, t, create_job) (k t)
    ]
  ]

  pub delete_job_cases :
      (id : Str)
      → P s.jobs
      → P (keep (λ j. not (with_id id j)) s.jobs)
      → P (delete_job faults s id).0.jobs
  unfolding delete_job
  delete_job_cases id h k = elim (Option-cases (faults delete_lines)) [
    | inr (x, e) ↦ rw (e, delete_job) h
    | inl e ↦ elim (Option-cases (faults delete_row)) [
      | inr (x, d) ↦ rw (e, d, delete_job) h
      | inl d ↦ rw (e, d, delete_job) k
    ]
  ]

  commit_claimed_cases :
      (j : BuildJob)
      → P s.jobs
      → P (update_where (is_queued j.id) (claimed (format_time now)) s.jobs)
      → P (commit_claimed faults now s j).0.jobs
  unfolding commit_claimed
  commit_claimed_cases j h k = elim (Option-cases (faults update_claim)) [
    | inr (x, u) ↦ rw (u, commit_claimed) h
    | inl u ↦ elim (Option-cases (faults commit_claim)) [
      | inr (x, c) ↦ rw (u, c, commit_claimed) h
      | inl c ↦ rw (u, c, commit_claimed) k
    ]
  ]

  claim_found_cases :
      (o : Option BuildJob)
      → P s.jobs
      → ((id : Str) → P (update_where (is_queued id) (claimed (format_time now)) s.jobs))
      → P (claim_found faults now s o).0.jobs
  unfolding claim_found
  claim_found_cases none h k = h
  claim_found_cases (some j) h k = commit_claimed_cases j h (k j.id)

  pub claim_next_queued_job_cases :
      (n : ℕ)
      → P s.jobs
      → ((id : Str) → P (update_where (is_queued id) (claimed (format_time now)) s.jobs))
      → P (claim_next_queued_job faults now n s).0.jobs
  unfolding claim_next_queued_job
  claim_next_queued_job_cases n h k = elim (Option-cases (faults select_next)) [
    | inr (x, e) ↦ rw (e, claim_next_queued_job) h
    | inl e ↦
        rw (e, claim_next_queued_job)
          (claim_found_cases (oldest (keep (is_claimable n) s.jobs)) h k)
  ]

  pub exec_update_cases :
      (id : Str) (f : BuildJob → BuildJob)
      → P s.jobs
      → P (update_where (with_id id) f s.jobs)
      → P (exec_update faults s id f).0.jobs
  unfolding exec_update
  exec_update_cases id f h k = elim (Option-cases (faults update_status)) [
    | inr (x, e) ↦ rw (e, exec_update) h
    | inl e ↦ rw (e, exec_update) k
  ]

  pub update_runner_status_cases :
      (id : Str) (req : RunnerStatusRequest)
      → P s.jobs
      → ((f : BuildJob → BuildJob)
          → ((j : BuildJob) → KeepsIdentity f j)
          → P (update_where (with_id id) f s.jobs))
      → P (update_runner_status faults now s id req).0.jobs
  unfolding update_runner_status is_active
  update_runner_status_cases id req h k =
      let t = format_time now in
      elim (Bool-cases (str_eq req.status status_running)) [
        | inl r ↦ rw r (
            exec_update_cases id (running_update t req) h
              (k (running_update t req) (λ j. running_KeepsIdentity t req j)))
        | inr r ↦ elim (Bool-cases (str_eq req.status status_succeeded)) [
          | inl u ↦
              rw (r, u)
                (exec_update_cases id (succeeded_update t req) h
                  (k (succeeded_update t req) (λ j. succeeded_KeepsIdentity t req j)))
          | inr u ↦ elim (Bool-cases (str_eq req.status status_failed)) [
            | inl f ↦
                rw (r, u, f)
                  (exec_update_cases id (failed_update t req) h
                    (k (failed_update t req) (λ j. failed_KeepsIdentity t req j)))
            | inr f ↦ rw (r, u, f) h
          ]
        ]
      ]
