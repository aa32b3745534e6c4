-- ===== src/Git/Rollbacks.antt =====
-- internal/git/gitops.go: the history of rollbacks in rollbacks/rollbacks.yaml, and the rollback branch.
-- yaml.v2 is an interface; an app without a value in the file, which the code does not expect, is left
-- out. `stamp` is the time of the call as RFC 3339, and a target revision is ASCII.
pub mod Coherent
pub mod Origin
use tinycloud_platform.Base.{
  Bool, true, false, Option, none, some, List, [], ◌∷◌, ◌++◌, Str, codes, StrMap, lookup, insert,
  take, ◌⊎◌, inl, inr,
}
use tinycloud_platform.Git.Repository.{
  FileRead, content, missing, unreadable, Repository, attempt, attempt_with, on_main,
  rollback_branch, branch_reference,
}

pub record RollbackEntry : Type 0 where
  pub id : Str
  pub type : Str
  pub timestamp : Str
  pub target_revision : Str
  pub target_image : Str
  pub previous_revision : Str
  pub previous_image : Str
  pub restored_to_revision : Str
  pub restored_to_image : Str
  pub reason : Str
  pub rollback_branch : Str
  pub initiated_by : Str

pub record AppRollbacks : Type 0 where
  pub current_status : Str
  pub active_rollback : Option RollbackEntry
  pub history : List RollbackEntry

pub record RollbacksFile : Type 0 where
  pub version : Str
  pub schema : Str
  pub generated_at : Str
  pub apps : StrMap AppRollbacks

-- yaml.Marshal and yaml.Unmarshal; a map that is nil is read as an empty one.
pub record Yaml : Type 0 where
  pub marshal : RollbacksFile → Str ⊎ Str
  pub unmarshal : Str → Str ⊎ RollbacksFile

abbrev pub empty_file : Str → RollbacksFile
empty_file stamp = record {
  version = codes "1.0";
  schema = codes "rollback-history";
  generated_at = stamp;
  apps = [];
}

abbrev pub rollbacks_path : Str
rollbacks_path = codes "rollbacks/rollbacks.yaml"

abbrev pub parsed : Str ⊎ RollbacksFile → Str ⊎ RollbacksFile
parsed (inl e) = inl (codes "failed to parse rollbacks file: " ++ e)
parsed (inr file) = inr file

abbrev pub file_of : Yaml → Str → FileRead → Str ⊎ RollbacksFile
file_of y stamp missing = inr (empty_file stamp)
file_of y stamp (unreadable e) = inl (codes "failed to read rollbacks file: " ++ e)
file_of y stamp (content text) = parsed (y.unmarshal text)

unfoldable pub read_rollbacks_from_disk :
    {W : Type 0} → Repository W → Yaml → Str → W → Str ⊎ RollbacksFile
read_rollbacks_from_disk r y stamp w = file_of y stamp (r.read w rollbacks_path)

abbrev pub status_normal : Str
status_normal = codes "normal"

abbrev pub status_rollback : Str
status_rollback = codes "rollback"

abbrev pub app_or_new : Option AppRollbacks → AppRollbacks
app_or_new none = record { current_status = status_normal; active_rollback = none; history = [] }
app_or_new (some a) = a

-- The file after the entry of a rollback.
unfoldable pub with_rollback : Str → Str → RollbackEntry → RollbacksFile → RollbacksFile
unfolding lookup insert
with_rollback stamp app entry file =
    let a = app_or_new (lookup app file.apps) in
    record file {
      generated_at = stamp;
      apps =
          insert app
            (record {
              current_status = status_rollback;
              active_rollback = some entry;
              history = a.history ++ entry ∷ [];
            })
            file.apps;
    }

-- The file after the entry of a restore.
unfoldable pub with_restore : Str → Str → RollbackEntry → RollbacksFile → RollbacksFile
unfolding lookup insert
with_restore stamp app entry file =
    let a = app_or_new (lookup app file.apps) in
    record file {
      generated_at = stamp;
      apps =
          insert app
            (record {
              current_status = status_normal;
              active_rollback = none;
              history = a.history ++ entry ∷ [];
            })
            file.apps;
    }

abbrev pub push_rollbacks : {W : Type 0} → Repository W → W → W × Option Str
push_rollbacks r w = attempt (codes "failed to push rollbacks commit: ") (r.push w) (λ w. (w, none))

abbrev pub commit_rollbacks : {W : Type 0} → Repository W → Str → Str → W → W × Option Str
commit_rollbacks r message author w =
    attempt_with (codes "failed to commit rollbacks file: ") (r.commit message author w)
      (λ hash w. push_rollbacks r w)

abbrev pub stage_rollbacks : {W : Type 0} → Repository W → Str → Str → W → W × Option Str
stage_rollbacks r message author w =
    attempt (codes "failed to stage rollbacks file: ") (r.add rollbacks_path w)
      (commit_rollbacks r message author)

-- Write the file, stage it, commit and push.
abbrev pub write_rollbacks : {W : Type 0} → Repository W → Str → Str → Str → W → W × Option Str
write_rollbacks r message author text w =
    attempt (codes "failed to write rollbacks file: ") (r.write rollbacks_path text w)
      (stage_rollbacks r message author)

abbrev pub publish_change :
    {W : Type 0}
    → Repository W
    → Yaml
    → (RollbacksFile → RollbacksFile)
    → Str
    → Str
    → RollbacksFile
    → W
    → W × Option Str
publish_change r y change message author file w =
    attempt_with (codes "failed to marshal rollbacks: ") (w, y.marshal (change file))
      (write_rollbacks r message author)

-- Read the file, change it, and publish it.
abbrev pub publish :
    {W : Type 0}
    → Repository W
    → Yaml
    → Str
    → (RollbacksFile → RollbacksFile)
    → Str
    → Str
    → W
    → W × Option Str
publish r y stamp change message author w =
    attempt_with [] (w, read_rollbacks_from_disk r y stamp w)
      (publish_change r y change message author)

abbrev pub rollback_message : Str → RollbackEntry → Str
rollback_message app entry =
    codes "rollback("
    ++ app
    ++ codes "): revert to "
    ++ take 8 entry.target_revision
    ++ codes " - "
    ++ entry.reason

unfoldable pub record_rollback :
    {W : Type 0} → Repository W → Yaml → Str → Str → RollbackEntry → W → W × Option Str
unfolding read_rollbacks_from_disk with_rollback
record_rollback r y stamp app entry w = on_main r w (
    publish r y stamp (with_rollback stamp app entry) (rollback_message app entry)
      entry.initiated_by)

abbrev pub fast_forward : {W : Type 0} → Repository W → Str → Bool → W → W × Option Str
fast_forward r app false w = (w, none)
fast_forward r app true w =
    attempt_with (codes "failed to get HEAD: ") (w, r.head w)
      (λ hash w.
        attempt (codes "failed to update rollback branch ref: ")
          (r.set_reference (branch_reference (rollback_branch app)) hash w)
          (λ w.
            attempt (codes "failed to push fast-forwarded branch: ")
              (r.push_branch (branch_reference (rollback_branch app)) w) (λ w. (w, none))))

unfoldable pub record_restore :
    {W : Type 0} → Repository W → Yaml → Str → Str → RollbackEntry → Bool → W → W × Option Str
unfolding read_rollbacks_from_disk with_restore
record_restore r y stamp app entry fast_forward_branch w =
    attempt []
      (on_main r w (
        publish r y stamp (with_restore stamp app entry)
          (codes "restore(" ++ app ++ codes "): return to main - " ++ entry.reason)
          entry.initiated_by))
      (fast_forward r app fast_forward_branch)

unfoldable pub create_rollback_branch : {W : Type 0} → Repository W → Str → Str → W → W × Option Str
create_rollback_branch r app target_sha w =
    attempt (codes "failed to clone repo: ") (r.clone w) (λ w.
      attempt (codes "failed to create branch config: ") (r.create_branch (rollback_branch app) w)
        (λ w.
          attempt (codes "failed to set branch ref: ")
            (r.set_reference (branch_reference (rollback_branch app)) target_sha w)
            (λ w.
              attempt (codes "failed to push rollback branch: ")
                (r.push_branch (branch_reference (rollback_branch app)) w) (λ w. (w, none)))))

abbrev pub found_sha : {W : Type 0} → Repository W → Str → W × Option Str → W × (Str ⊎ Bool)
found_sha r sha (w, some e) = (w, inl (codes "failed to clone repo: " ++ e))
found_sha r sha (w, none) = (w, inr (r.has_commit sha w))

unfoldable pub validate_sha : {W : Type 0} → Repository W → Str → W → W × (Str ⊎ Bool)
validate_sha r sha w = found_sha r sha (r.clone w)
