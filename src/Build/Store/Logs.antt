-- ===== src/Build/Store/Logs.antt =====
-- The log lines of a job: how `AppendLog` numbers them, and what `ListLogs` reads of them.
use tinycloud_platform.Base.{
  ℕ, zero, suc, ◌+◌, ◌-◌, ◌<◌, ◌≤◌, ◌≡◌, refl, sym, ap, ◌∙◌, not, List, [], ◌∷◌, ◌++◌, arith, ltb,
  if◌then◌else◌, Str, str_eq, str_eq_iff, keep, length, drop, Bool-cases, Option-cases, inl, inr, ℤ,
  pos, negsuc, int_lt,
}
use tinycloud_platform.Build.Types.{BuildLogLine}
use tinycloud_platform.Build.Time.{Time, format_time}
use tinycloud_platform.Build.Tables.{
  Store, LogRow, Faults, no_faults, select_sequence, insert_log, delete_lines, delete_row, of_job,
  ok,
}
use tinycloud_platform.Build.Store.{
  append_log, list_logs, log_row, lines_after, insert_line, last_sequence, delete_job,
}

-- The lines of a job, in the order in which they were written.
unfoldable pub lines_of : Str → List LogRow → List BuildLogLine
lines_of id [] = []
lines_of id (r ∷ rs) = let rest = lines_of id rs in if of_job id r then r.line ∷ rest else rest

-- The numbers are k + 1, k + 2, and so on.
abbrev pub IsNumberedFrom : ℕ → List BuildLogLine → Type 0
IsNumberedFrom k [] = Unit
IsNumberedFrom k (l ∷ ls) = (l.sequence ≡ suc k) × IsNumberedFrom (suc k) ls

-- The lines of every job are numbered from 1 on.
abbrev pub IsNumbered : List LogRow → Type 0
IsNumbered logs = (id : Str) → IsNumberedFrom 0 (lines_of id logs)

-- `last_sequence` and `lines_after`, of the lines of one job.
last_number : List BuildLogLine → ℕ
last_number [] = 0
last_number (l ∷ ls) = let rest = last_number ls in if ltb rest l.sequence then l.sequence else rest

numbers_after : ℤ → List BuildLogLine → List BuildLogLine
numbers_after after [] = []
numbers_after after (l ∷ ls) =
    let rest = numbers_after after ls in
    if int_lt after l.sequence then insert_line l rest else rest

last_sequence-lines_of :
    (id : Str) (logs : List LogRow) → last_sequence id logs ≡ last_number (lines_of id logs)
unfolding last_sequence lines_of last_number
last_sequence-lines_of id [] = refl
last_sequence-lines_of id (r ∷ rs) = elim (Bool-cases (of_job id r)) [
  | inl e ↦ rw (e, last_sequence-lines_of id rs)
  | inr e ↦ rw (e, last_sequence-lines_of id rs)
]

lines_after-lines_of :
    (id : Str) (after : ℤ) (logs : List LogRow)
    → lines_after id after logs ≡ numbers_after after (lines_of id logs)
unfolding lines_after lines_of numbers_after
lines_after-lines_of id after [] = refl
lines_after-lines_of id after (r ∷ rs) = elim (Bool-cases (of_job id r)) [
  | inl e ↦ rw (e, lines_after-lines_of id after rs)
  | inr e ↦ rw (e, lines_after-lines_of id after rs)
]

last_number-eq :
    (k : ℕ) (ls : List BuildLogLine) (l : BuildLogLine)
    → IsNumberedFrom k (l ∷ ls)
    → last_number (l ∷ ls) ≡ k + length (l ∷ ls)
unfolding last_number
last_number-eq k [] l h = ground arith
last_number-eq k (m ∷ ls) l h = ground (arith, last_number-eq (suc k) ls m h.1)

last_number_lem : (ls : List BuildLogLine) → IsNumberedFrom 0 ls → last_number ls ≡ length ls
unfolding last_number
last_number_lem [] h = refl
last_number_lem (l ∷ ls) h = unfold last_number in last_number-eq 0 ls l h ∙ omega arith

-- Under `after`, as the count of the lines that are left out.
abbrev pub seen : ℤ → ℕ
seen (pos a) = a
seen (negsuc a) = 0

insert_line-first :
    (k : ℕ) (l : BuildLogLine) (ls : List BuildLogLine)
    → IsNumberedFrom k (l ∷ ls)
    → insert_line l ls ≡ l ∷ ls
unfolding insert_line
insert_line-first k l [] h = refl
insert_line-first k l (m ∷ ls) h = ground arith

drop-zero_of_le : (a k : ℕ) (ls : List BuildLogLine) → a ≤ k → drop (a - k) ls ≡ ls
drop-zero_of_le a k ls h = let e : a - k ≡ 0 = omega arith in rw e

drop-suc :
    (a k : ℕ) (l : BuildLogLine) (ls : List BuildLogLine)
    → k < a
    → drop (a - k) (l ∷ ls) ≡ drop (a - suc k) ls
drop-suc a k l ls h = let e : a - k ≡ suc (a - suc k) = omega arith in ap (λ n. drop n (l ∷ ls)) e

drop-nil : (n : ℕ) → drop {A = BuildLogLine} n [] ≡ []
drop-nil zero = refl
drop-nil (suc n) = refl

-- The first line stays in front of what stays of the others, if it stays itself.
insert_line-drop :
    (a k : ℕ) (l : BuildLogLine) (ls : List BuildLogLine)
    → IsNumberedFrom k (l ∷ ls)
    → a ≤ k
    → insert_line l (drop (a - suc k) ls) ≡ drop (a - k) (l ∷ ls)
insert_line-drop a k l ls h m =
    rw (drop-zero_of_le a (suc k) ls (omega arith), drop-zero_of_le a k (l ∷ ls) m)
      (insert_line-first k l ls h)

numbers_after-drop :
    (after : ℤ) (k : ℕ) (ls : List BuildLogLine)
    → IsNumberedFrom k ls
    → numbers_after after ls ≡ drop (seen after - k) ls
unfolding numbers_after
numbers_after-drop after k [] h = sym (drop-nil (seen after - k))
numbers_after-drop (pos a) k (l ∷ ls) h = elim (Bool-cases (ltb a l.sequence)) [
  | inl e ↦
      rw (e, numbers_after-drop (pos a) (suc k) ls h.1) (insert_line-drop a k l ls h (ground arith))
  | inr e ↦
      rw (e, numbers_after-drop (pos a) (suc k) ls h.1) (sym (drop-suc a k l ls (ground arith)))
]
numbers_after-drop (negsuc a) k (l ∷ ls) h =
    rw (numbers_after-drop (negsuc a) (suc k) ls h.1) (insert_line-drop 0 k l ls h (omega arith))

-- In a store whose lines are numbered, a client that asks for what comes after `a` gets the job's
-- lines in order, without the first `a`; a number below 0 leaves out none.
pub list_logs-eq-drop :
    (s : Store) (id : Str) (after : ℤ)
    → IsNumbered s.logs
    → list_logs no_faults s id after ≡ ok (drop (seen after) (lines_of id s.logs))
unfolding list_logs
list_logs-eq-drop s id after h = ap ok (
    lines_after-lines_of id after s.logs
    ∙ numbers_after-drop after 0 (lines_of id s.logs) (h id)
    ∙ sub_zero)
  where
    sub_zero : drop (seen after - 0) (lines_of id s.logs) ≡ drop (seen after) (lines_of id s.logs)
    sub_zero = let e : seen after - 0 ≡ seen after = omega arith in rw e

lines_of-append :
    (id : Str) (logs : List LogRow) (r : LogRow)
    → lines_of id (logs ++ r ∷ [])
      ≡ (if of_job id r then lines_of id logs ++ r.line ∷ [] else lines_of id logs)
unfolding lines_of
lines_of-append id [] r = refl
lines_of-append id (q ∷ qs) r = ground (arith, lines_of-append id qs r)

IsNumberedFrom-append :
    (k : ℕ) (ls : List BuildLogLine) (l : BuildLogLine)
    → IsNumberedFrom k ls
    → l.sequence ≡ k + length ls + 1
    → IsNumberedFrom k (ls ++ l ∷ [])
IsNumberedFrom-append k [] l h e = (omega arith, tt)
IsNumberedFrom-append k (m ∷ ls) l h e = (h.0, IsNumberedFrom-append (suc k) ls l h.1 (omega arith))

lines_of-keep_other :
    (i id : Str) (logs : List LogRow)
    → lines_of i (keep (λ r. not (of_job id r)) logs)
      ≡ (if str_eq id i then [] else lines_of i logs)
unfolding lines_of keep
lines_of-keep_other i id [] = ground arith
lines_of-keep_other i id (r ∷ rs) = ground (
  arith,
  lines_of-keep_other i id rs,
  str_eq_iff id i,
  str_eq_iff r.job_id i,
  str_eq_iff r.job_id id,
)

-- The line that a call of `append_log` writes when no statement fails.
abbrev pub written : Time → Store → Str → Str → Str → BuildLogLine
written now s id stream message = record {
  sequence = length (lines_of id s.logs) + 1;
  timestamp = format_time now;
  stream = stream;
  message = message;
}

next_sequence :
    (s : Store) (id : Str)
    → IsNumbered s.logs
    → last_sequence id s.logs ≡ length (lines_of id s.logs)
next_sequence s id h =
    last_sequence-lines_of id s.logs ∙ last_number_lem (lines_of id s.logs) (h id)

-- In a store whose lines are numbered, a logged message is the job's new last line, numbered one
-- more than there were; the lines of other jobs stay.
pub lines_of-append_log :
    (now : Time) (s : Store) (id stream message i : Str)
    → IsNumbered s.logs
    → lines_of i (append_log no_faults now s id stream message).0.logs ≡ (
        if str_eq id i
        then lines_of i s.logs ++ written now s i stream message ∷ []
        else lines_of i s.logs)
unfolding append_log log_row
lines_of-append_log now s id stream message i h =
    lines_of-append i s.logs
      (log_row id (last_sequence id s.logs + 1) (format_time now) stream message)
    ∙ elim (Bool-cases (str_eq id i)) [
      | inl e ↦ let same : id ≡ i = (str_eq_iff id i).0 e in rw (e, same, next_sequence s i h)
      | inr e ↦ rw e
    ]

appended-IsNumbered :
    (now : Time) (s : Store) (id stream message : Str)
    → IsNumbered s.logs
    → IsNumbered (append_log no_faults now s id stream message).0.logs
appended-IsNumbered now s id stream message h i =
    rw (lines_of-append_log now s id stream message i h) (elim (Bool-cases (str_eq id i)) [
      | inl e ↦ rw e (
          IsNumberedFrom-append 0 (lines_of i s.logs) (written now s i stream message) (h i)
            (omega arith))
      | inr e ↦ rw e (h i)
    ])

-- Logging keeps the numbering, whichever statement fails.
pub append_log-IsNumbered :
    (faults : Faults) (now : Time) (s : Store) (id stream message : Str)
    → IsNumbered s.logs
    → IsNumbered (append_log faults now s id stream message).0.logs
unfolding append_log
append_log-IsNumbered faults now s id stream message h =
    elim (Option-cases (faults select_sequence)) [
      | inr (x, e) ↦ rw (e, append_log) h
      | inl e ↦ elim (Option-cases (faults insert_log)) [
        | inr (x, d) ↦ rw (e, d, append_log) h
        | inl d ↦ rw (e, d, append_log) (appended-IsNumbered now s id stream message h)
      ]
    ]

kept-IsNumbered :
    (s : Store) (id : Str) → IsNumbered s.logs → IsNumbered (keep (λ r. not (of_job id r)) s.logs)
kept-IsNumbered s id h i =
    rw (lines_of-keep_other i id s.logs)
      (elim (Bool-cases (str_eq id i)) [ inl e ↦ rw e tt | inr e ↦ rw e (h i) ])

-- So does the deletion of a job, which leaves it no line.
pub delete_job-IsNumbered :
    (faults : Faults) (s : Store) (id : Str)
    → IsNumbered s.logs
    → IsNumbered (delete_job faults s id).0.logs
unfolding delete_job
delete_job-IsNumbered faults s id h = elim (Option-cases (faults delete_lines)) [
  | inr (x, e) ↦ rw (e, delete_job) h
  | inl e ↦ elim (Option-cases (faults delete_row)) [
    | inr (x, d) ↦ rw (e, d, delete_job) (kept-IsNumbered s id h)
    | inl d ↦ rw (e, d, delete_job) (kept-IsNumbered s id h)
  ]
]
