-- ===== src/Build/Store/Claim.antt =====
-- Which row `ClaimNextQueuedJob` takes, and what it makes of it.
use tinycloud_platform.Base.{
  ℕ, ◌+◌, ◌<◌, ltb, ◌&&◌, codes, ◌≡◌, ◌≢◌, refl, sym, ap, ◌∙◌, true, false, Option, none, some,
  List, [], ◌∷◌, arith, if◌then◌else◌, Str, str_eq, str_eq_sound, str_eq_iff, keep, All, All-keep,
  All-keep_self, All-zip, All-of-any, str_eq_refl, str_eq_comm, Bool-cases, Option-cases, inl, inr,
  str_lt, subst, str_le_trans, str_lt_asymm, str_lt_irrefl,
}
use mathlib.Core.Option
use tinycloud_platform.Build.Types.{BuildJob, is_active, status_queued, status_running}
use tinycloud_platform.Build.Time.{Time, format_time}
use tinycloud_platform.Build.Tables.{
  Store, Faults, select_next, update_claim, commit_claim, select_job, with_id, update_where, oldest,
  older, ok, err, DbError, Result,
}
use tinycloud_platform.Build.Store.{
  as_claimed, claim_found, commit_claimed, claim_next_queued_job, claimed, is_claimable, is_queued,
  find_job, get_job,
}
use tinycloud_platform.Build.Store.Query.{
  IsKeyed, claim_next_queued_job-IsKeyed, find_job-update, KeepsId,
}
use tinycloud_platform.Build.Store.Single.{IsOrderly, update-IsOrderly}
use tinycloud_platform.Build.Store.Writes.{claim_next_queued_job_cases}

-- The claim changes a row only where it is queued.
abbrev pub claim_row : Str → BuildJob → BuildJob
claim_row now r = if str_eq r.status status_queued then claimed now r else r

pub update_where-claim :
    (id now : Str) (js : List BuildJob)
    → update_where (is_queued id) (claimed now) js ≡ update_where (with_id id) (claim_row now) js
unfolding update_where
update_where-claim id now [] = refl
update_where-claim id now (j ∷ js) = ground (arith, update_where-claim id now js)

pub claim_row-app_name : (now : Str) (j : BuildJob) → (claim_row now j).app_name ≡ j.app_name
unfolding claimed
claim_row-app_name now j = ground arith

claim_row-created_at : (now : Str) (j : BuildJob) → (claim_row now j).created_at ≡ j.created_at
unfolding claimed
claim_row-created_at now j = ground arith

claim_row-id : (now : Str) → KeepsId (claim_row now)
unfolding claimed
claim_row-id now j = ground arith

pub claim_row-ends :
    (now : Str) (j : BuildJob) → is_active j ≡ false → is_active (claim_row now j) ≡ false
unfolding claimed is_active
claim_row-ends now j h = elim (Bool-cases (str_eq j.status status_queued)) [
  | inl e ↦ ground arith
  | inr e ↦ rw e (ground arith)
]

pub claim_next_queued_job-IsOrderly :
    (faults : Faults) (now : Time) (n : ℕ) (s : Store)
    → IsOrderly s.jobs
    → IsOrderly (claim_next_queued_job faults now n s).0.jobs
claim_next_queued_job-IsOrderly faults now n s h =
    claim_next_queued_job_cases IsOrderly faults now s n h λ id.
      let t = format_time now in
      rw (update_where-claim id t s.jobs) (
        update-IsOrderly (with_id id) (claim_row t) (claim_row-app_name t) (claim_row-created_at t)
          (claim_row-ends t) s.jobs h)

older-mem :
    (P : BuildJob → Type 0) (j : BuildJob) (o : Option BuildJob)
    → P j
    → ((k : BuildJob) → o ≡ some k → P k)
    → P (older j o)
unfolding older
older-mem P j none h k = h
older-mem P j (some i) h k = elim (Bool-cases (str_lt i.created_at j.created_at)) [
  | inl e ↦ rw e (k i refl)
  | inr e ↦ rw e h
]

-- What holds of every row holds of the oldest.
oldest-All :
    (P : BuildJob → Type 0) (js : List BuildJob) (j : BuildJob)
    → All P js
    → oldest js ≡ some j
    → P j
unfolding oldest
oldest-All P [] j h e = cc
oldest-All P (k ∷ js) j h e =
    subst P (cc) (older-mem P k (oldest js) h.0 (λ i d. oldest-All P js i h.1 d))

-- The row that is found is queued and has attempts left.
pub oldest-is_claimable :
    (n : ℕ) (js : List BuildJob) (j : BuildJob)
    → oldest (keep (is_claimable n) js) ≡ some j
    → is_claimable n j ≡ true
oldest-is_claimable n js j e =
    oldest-All (λ k. is_claimable n k ≡ true) (keep (is_claimable n) js) j
      (All-keep_self (is_claimable n) js) e

oldest-none : (P : BuildJob → Type 0) (js : List BuildJob) → oldest js ≡ none → All P js
unfolding oldest
oldest-none P [] o = tt
oldest-none P (j ∷ js) o = cc

-- No text is below that of the row that is found.
oldest-first :
    (js : List BuildJob) (j : BuildJob)
    → oldest js ≡ some j
    → All (λ k. str_lt k.created_at j.created_at ≡ false) js
unfolding oldest older
oldest-first [] j e = tt
oldest-first (k ∷ js) j e = elim (Option-cases (oldest js)) [
  | inl o ↦
      let here : k ≡ j = cc (rw (o, oldest, older) at e) in
      subst (λ (i : BuildJob). All (λ b. str_lt b.created_at i.created_at ≡ false) (k ∷ js)) here
        (
          str_lt_irrefl k.created_at,
          oldest-none (λ b. str_lt b.created_at k.created_at ≡ false) js o,
        )
  | inr (i, o) ↦ elim (Bool-cases (str_lt i.created_at k.created_at)) [
    | inl b ↦
        let here : i ≡ j = cc (rw (o, older, b) at e) in
        subst (λ (i : BuildJob). All (λ b. str_lt b.created_at i.created_at ≡ false) (k ∷ js)) here
          (str_lt_asymm k.created_at i.created_at b, oldest-first js i o)
    | inr b ↦
        let here : k ≡ j = cc (rw (o, older, b) at e) in
        subst (λ (i : BuildJob). All (λ b. str_lt b.created_at i.created_at ≡ false) (k ∷ js)) here
          (
            str_lt_irrefl k.created_at,
            All-zip (λ d. str_lt d.created_at i.created_at ≡ false)
                (λ d. str_lt d.created_at i.created_at ≡ false)
                (λ d. str_lt d.created_at k.created_at ≡ false) js
                (λ d p q. str_le_trans k.created_at i.created_at d.created_at b p)
                (oldest-first js i o) (oldest-first js i o),
          )
  ]
]

-- Of distinct ids each finds its own row.
All-find_job : (js : List BuildJob) → IsKeyed js → All (λ k. find_job k.id js ≡ some k) js
unfolding find_job
All-find_job [] h = tt
All-find_job (j ∷ js) h = (
  rw (str_eq_refl j.id),
  All-zip (λ k. with_id j.id k ≡ false) (λ k. find_job k.id js ≡ some k)
      (λ k. find_job k.id (j ∷ js) ≡ some k) js (λ k p q. rw (str_eq_comm j.id k.id) (rw p q))
      (All-of-any (with_id j.id) js h.0) (All-find_job js h.1),
)

-- The claim of a job, read backwards.
pub record Claimed (now : Time) (n : ℕ) (s s' : Store) (c : BuildJob) : Type 0 where
  pub row : BuildJob
  pub stored : find_job row.id s.jobs ≡ some row
  pub queued : row.status ≡ status_queued
  pub room : row.attempts < n
  pub first :
      All
        (λ k. str_lt k.created_at row.created_at ≡ false)
        (keep (λ k. str_eq k.status status_queued && ltb k.attempts n) s.jobs)
  pub result_id : c.id ≡ row.id
  pub result_status : c.status ≡ codes "running"
  pub result_attempts : c.attempts ≡ row.attempts + 1
  pub result : c ≡ claimed (format_time now) row
  pub left : find_job row.id s'.jobs ≡ some c
  pub jobs : s'.jobs ≡ update_where (with_id row.id) (claim_row (format_time now)) s.jobs
  pub logs : s'.logs ≡ s.logs

find_job-claim :
    (now : Str) (js : List BuildJob) (j : BuildJob)
    → find_job j.id js ≡ some j
    → str_eq j.status status_queued ≡ true
    → find_job j.id (update_where (is_queued j.id) (claimed now) js) ≡ some (claimed now j)
find_job-claim now js j f q =
    rw
      (
        update_where-claim j.id now js,
        find_job-update j.id j.id (claim_row now) (claim_row-id now) js,
        str_eq_refl j.id,
        f,
      )
      (unfold Option.map in rw q)

abbrev claimed_store : Time → BuildJob → Store → Store
claimed_store now j s = record s {
  jobs = update_where (is_queued j.id) (claimed (format_time now)) s.jobs;
}

stored_row :
    (n : ℕ) (js : List BuildJob) (j : BuildJob)
    → IsKeyed js
    → oldest (keep (is_claimable n) js) ≡ some j
    → find_job j.id js ≡ some j
stored_row n js j k o =
    oldest-All (λ i. find_job i.id js ≡ some i) (keep (is_claimable n) js) j
      (All-keep (λ i. find_job i.id js ≡ some i) (is_claimable n) js (All-find_job js k)) o

module _ (faults : Faults) (now : Time) (n : ℕ) (s s' : Store) (c j : BuildJob) (k : IsKeyed s.jobs)
    (o : oldest (keep (is_claimable n) s.jobs) ≡ some j)
    (h : ◌≡◌ {A = Store × Result (Option BuildJob)}
      (claimed_store now j s, as_claimed (get_job faults (claimed_store now j s) j.id))
      (s', ok (some c))) where
  queued_row : str_eq j.status status_queued ≡ true
  unfolding is_claimable
  queued_row = ground (arith, oldest-is_claimable n s.jobs j o)

  room_left : j.attempts < n
  unfolding is_claimable
  room_left = ground (arith, oldest-is_claimable n s.jobs j o)

  get_claimed :
      (faults select_job ≡ none)
      → get_job faults (claimed_store now j s) j.id ≡ ok (claimed (format_time now) j)
  unfolding get_job
  get_claimed g =
      rw (
        g,
        get_job,
        find_job-claim (format_time now) s.jobs j (stored_row n s.jobs j k o) queued_row,
      )

  get_failed :
      (x : DbError)
      → faults select_job ≡ some x
      → get_job faults (claimed_store now j s) j.id ≡ err x
  unfolding get_job
  get_failed x g = rw (g, get_job)

  claimed_job : c ≡ claimed (format_time now) j
  claimed_job = elim (Option-cases (faults select_job)) [
    | inr (x, g) ↦ cc (get_failed x g)
    | inl g ↦ cc (get_claimed g)
  ]

  found_Claimed : Claimed now n s s' c
  unfolding claimed is_claimable
  found_Claimed = record {
    row = j;
    stored = stored_row n s.jobs j k o;
    queued = str_eq_sound j.status status_queued queued_row;
    room = room_left;
    first = oldest-first (keep (is_claimable n) s.jobs) j o;
    result_id = ap (λ (b : BuildJob). b.id) claimed_job;
    result_status = ap (λ (b : BuildJob). b.status) claimed_job;
    result_attempts = ap (λ (b : BuildJob). b.attempts) claimed_job;
    result = claimed_job;
    left =
        ap (λ (p : Store × Result (Option BuildJob)). find_job j.id p.0.jobs) (sym h)
        ∙ find_job-claim (format_time now) s.jobs j (stored_row n s.jobs j k o) queued_row
        ∙ ap some (sym claimed_job);
    jobs =
        ap (λ (p : Store × Result (Option BuildJob)). p.0.jobs) (sym h)
        ∙ update_where-claim j.id (format_time now) s.jobs;
    logs = ap (λ (p : Store × Result (Option BuildJob)). p.0.logs) (sym h);
  }

commit_inversion :
    (faults : Faults) (now : Time) (s s' : Store) (c j : BuildJob)
    → commit_claimed faults now s j ≡ (s', ok (some c))
    → ◌≡◌ {A = Store × Result (Option BuildJob)}
        (claimed_store now j s, as_claimed (get_job faults (claimed_store now j s) j.id))
        (s', ok (some c))
unfolding commit_claimed
commit_inversion faults now s s' c j h = elim (Option-cases (faults update_claim)) [
  | inr (x, u) ↦ cc (rw (u, commit_claimed) at h)
  | inl u ↦ elim (Option-cases (faults commit_claim)) [
    | inr (x, d) ↦ cc (rw (u, d, commit_claimed) at h)
    | inl d ↦ rw (u, d, commit_claimed) at h
  ]
]

inverted_row :
    (faults : Faults) (now : Time) (n : ℕ) (s s' : Store) (c j : BuildJob)
    → IsKeyed s.jobs
    → oldest (keep (is_claimable n) s.jobs) ≡ some j
    → commit_claimed faults now s j ≡ (s', ok (some c))
    → Claimed now n s s' c
inverted_row faults now n s s' c j k o h =
    found_Claimed faults now n s s' c j k o (commit_inversion faults now s s' c j h)

found_row :
    (faults : Faults) (now : Time) (s s' : Store) (c : BuildJob) (o : Option BuildJob)
    → claim_found faults now s o ≡ (s', ok (some c))
    → (j : BuildJob) × (o ≡ some j) × (commit_claimed faults now s j ≡ (s', ok (some c)))
unfolding claim_found
found_row faults now s s' c none h = cc
found_row faults now s s' c (some j) h = (j, refl, h)

selected :
    (faults : Faults) (now : Time) (n : ℕ) (s s' : Store) (c : BuildJob)
    → claim_next_queued_job faults now n s ≡ (s', ok (some c))
    → claim_found faults now s (oldest (keep (is_claimable n) s.jobs)) ≡ (s', ok (some c))
unfolding claim_next_queued_job
selected faults now n s s' c h = elim (Option-cases (faults select_next)) [
  | inr (x, e) ↦ cc (rw (e, claim_next_queued_job) at h)
  | inl e ↦ rw (e, claim_next_queued_job) at h
]

-- On a store with distinct ids, a claim that hands out a job took a queued row with attempts left, below
-- whose `created_at` text that of no other such row is (the order of texts, not of times); the job it hands
-- out has the row's id, is running, and has one attempt more; the row with that id has become that job, no
-- other row and no log has changed.
pub claim_inversion :
    (faults : Faults) (now : Time) (n : ℕ) (s s' : Store) (c : BuildJob)
    → IsKeyed s.jobs
    → claim_next_queued_job faults now n s ≡ (s', ok (some c))
    → Claimed now n s s' c
claim_inversion faults now n s s' c k h =
    let (j, o, m) =
      found_row faults now s s' c (oldest (keep (is_claimable n) s.jobs))
        (selected faults now n s s' c h) in
    inverted_row faults now n s s' c j k o m

running_ne_queued : status_running ≢ status_queued
running_ne_queued e = ground arith

-- What a lookup by the claimed row's id finds after the claim.
left_by_claim :
    {now : Time} {n : ℕ} {s t : Store} {a : BuildJob} (p : Claimed now n s t a)
    → find_job p.row.id t.jobs ≡ some (claimed (format_time now) p.row)
left_by_claim {now} {s = s} p =
    ap (find_job p.row.id) (p.jobs ∙ sym (update_where-claim p.row.id (format_time now) s.jobs))
    ∙ find_job-claim (format_time now) s.jobs p.row p.stored
        ((str_eq_iff p.row.status status_queued).1 p.queued)

id-Claimed :
    {now : Time} {n : ℕ} {s t : Store} {a : BuildJob} (p : Claimed now n s t a) → a.id ≡ p.row.id
unfolding claimed
id-Claimed p = ap (λ (j : BuildJob). j.id) p.result

-- Of two claims of one id the second would have found the row that the first left.
stored_once :
    {now now' : Time} {n n' : ℕ} {s t u : Store} {a b : BuildJob} (p : Claimed now n s t a)
    (q : Claimed now' n' t u b)
    → a.id ≡ b.id
    → claimed (format_time now) p.row ≡ q.row
stored_once {now} {t = t} p q e =
    cc (
      left_by_claim p,
      q.stored,
      ap (λ i. find_job i t.jobs) (sym (id-Claimed p) ∙ e ∙ id-Claimed q),
    )

-- Of two claims, one after the other on a store with distinct ids, which both hand out a job, the
-- second hands out a job with another id.
pub claim_once :
    (faults faults' : Faults) (now now' : Time) (n n' : ℕ) (s t u : Store) (a b : BuildJob)
    → IsKeyed s.jobs
    → claim_next_queued_job faults now n s ≡ (t, ok (some a))
    → claim_next_queued_job faults' now' n' t ≡ (u, ok (some b))
    → a.id ≢ b.id
unfolding claimed
claim_once faults faults' now now' n n' s t u a b k h g e =
    let p = claim_inversion faults now n s t a k h in
    let kt : IsKeyed t.jobs =
      subst (λ (x : Store × Result (Option BuildJob)). IsKeyed x.0.jobs) h
        (claim_next_queued_job-IsKeyed faults now n s k) in
    let q = claim_inversion faults' now' n' t u b kt g in
    running_ne_queued (ap (λ (j : BuildJob). j.status) (stored_once p q e) ∙ q.queued)
