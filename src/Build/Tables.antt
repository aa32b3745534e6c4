-- ===== src/Build/Tables.antt =====
-- The two tables of internal/build/coordinator/store.go, each the list of its rows in rowid order, and
-- what the SQL statements make of rows. Where `ORDER BY` leaves rows tied, the smaller rowid comes first.
use tinycloud_platform.Base.{
  Bool, Option, none, some, List, [], ◌∷◌, if◌then◌else◌, Str, str_eq, str_lt,
}
use tinycloud_platform.Build.Types.{BuildJob, BuildLogLine}

-- A row of build_logs.
pub record LogRow : Type 0 where
  pub job_id : Str
  pub line : BuildLogLine

pub record Store : Type 0 where
  pub jobs : List BuildJob
  pub logs : List LogRow

-- What a statement or a scan fails with. `unique_violation` is SQLite's refusal of a second row with
-- the same primary key; its text has the word UNIQUE.
pub data DbError : Type 0 where
  no_rows : DbError
  unique_violation : DbError
  unsupported_status : Str → DbError
  failed : Str → DbError

pub data Result {ℓ} (A : Type ℓ) : Type ℓ where
  ok : A → Result A
  err : DbError → Result A

-- The statements of the store, as far as they can fail on their own.
pub data Stmt : Type 0 where
  select_by_app delete_lines delete_row insert_job select_next update_claim commit_claim : Stmt
  select_job select_sequence insert_log select_logs update_status select_recent select_repos : Stmt

abbrev pub Faults : Type 0
Faults = Stmt → Option DbError

-- No statement fails.
abbrev pub no_faults : Faults
no_faults st = none

-- Of a row and the choice from the rows after it: the one with the later text, or the later row.
unfoldable pub newer : BuildJob → Option BuildJob → BuildJob
newer j none = j
newer j (some k) = if str_lt k.created_at j.created_at then j else k

-- ORDER BY created_at DESC, rowid DESC LIMIT 1
unfoldable pub newest : List BuildJob → Option BuildJob
unfolding newer
newest [] = none
newest (j ∷ js) = some (newer j (newest js))

-- Of a row and the choice from the rows after it: the one with the earlier text, or the earlier row.
unfoldable pub older : BuildJob → Option BuildJob → BuildJob
older j none = j
older j (some k) = if str_lt k.created_at j.created_at then k else j

-- ORDER BY created_at ASC LIMIT 1
unfoldable pub oldest : List BuildJob → Option BuildJob
unfolding older
oldest [] = none
oldest (j ∷ js) = some (older j (oldest js))

-- ORDER BY created_at DESC: a row goes in front of those that are older.
unfoldable pub insert_desc : BuildJob → List BuildJob → List BuildJob
insert_desc j [] = j ∷ []
insert_desc j (k ∷ ks) =
    let rest = insert_desc j ks in if str_lt j.created_at k.created_at then k ∷ rest else j ∷ k ∷ ks

unfoldable pub sort_desc : List BuildJob → List BuildJob
unfolding insert_desc
sort_desc [] = []
sort_desc (j ∷ js) = insert_desc j (sort_desc js)

-- UPDATE build_jobs SET f WHERE p
unfoldable pub update_where :
    (BuildJob → Bool) → (BuildJob → BuildJob) → List BuildJob → List BuildJob
update_where p f [] = []
update_where p f (j ∷ js) = (if p j then f j else j) ∷ update_where p f js

abbrev pub of_app : Str → BuildJob → Bool
of_app app j = str_eq j.app_name app

abbrev pub with_id : Str → BuildJob → Bool
with_id id j = str_eq j.id id

abbrev pub of_job : Str → LogRow → Bool
of_job id r = str_eq r.job_id id
