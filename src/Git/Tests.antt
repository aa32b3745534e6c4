-- ===== src/Git/Tests.antt =====
-- Runs of the GitOps repository, and its properties at concrete inputs.
use tinycloud_platform.Base.{
  ◌≡◌, refl, true, none, some, List, [], ◌∷◌, Str, codes, str_eq, lookup, insert, inl, inr,
}
use tinycloud_platform.Git.Repository.{missing, Repository}
use tinycloud_platform.Git.Rollbacks.{
  RollbackEntry, Yaml, empty_file, status_normal, with_rollback, with_restore,
  read_rollbacks_from_disk, record_rollback,
}
use tinycloud_platform.Git.Rollbacks.Coherent.{
  Recorded, rolled_back, restored, replay, state_of, IsCoherent, entries_of, replay-IsCoherent,
}

abbrev entry_of : Str → RollbackEntry
entry_of id = record {
  id = id;
  type = codes "rollback";
  timestamp = codes "2026-01-01T00:00:00Z";
  target_revision = codes "0123456789";
  target_image = [];
  previous_revision = [];
  previous_image = [];
  restored_to_revision = [];
  restored_to_image = [];
  reason = codes "broken";
  rollback_branch = [];
  initiated_by = codes "ann";
}

abbrev three_events : List Recorded
three_events =
    rolled_back (codes "1") (codes "a") (entry_of (codes "x"))
    ∷ rolled_back (codes "2") (codes "b") (entry_of (codes "y"))
    ∷ restored (codes "3") (codes "a") (entry_of (codes "z"))
    ∷ []

-- The app `a` is back to normal, with its two entries; `b` is in its rollback.
after_three :
    ((state_of (codes "a") (replay three_events (empty_file []))).current_status ≡ status_normal)
    × ((state_of (codes "b") (replay three_events (empty_file []))).active_rollback
        ≡ some (entry_of (codes "y")))
unfolding replay with_rollback with_restore lookup insert str_eq
after_three = (refl, refl)

replay-IsCoherent_example :
    IsCoherent (state_of (codes "a") (replay three_events (empty_file [])))
    × ((state_of (codes "a") (replay three_events (empty_file []))).history
        ≡ entry_of (codes "x") ∷ entry_of (codes "z") ∷ [])
unfolding lookup entries_of str_eq
replay-IsCoherent_example =
    replay-IsCoherent (codes "a") three_events (empty_file []) (unfold lookup in inl (refl, refl))

-- A clone and an origin of one file; the origin does not accept a push.
abbrev read_only : Repository (Str × Str)
read_only = record {
  clone = λ w. ((w.1, w.1), none);
  worktree = λ w. none;
  checkout_main = λ w. (w, none);
  read = λ w path. missing;
  make_directory = λ path w. (w, none);
  write = λ path text w. ((text, w.1), none);
  add = λ path w. (w, none);
  commit = λ message author w. (w, inr (codes "c0ffee"));
  push = λ w. (w, some (codes "denied"));
  create_branch = λ branch w. (w, none);
  set_reference = λ name hash w. (w, none);
  push_branch = λ name w. (w, none);
  head = λ w. inr (codes "c0ffee");
  has_commit = λ sha w. true;
}

abbrev one_line : Yaml
one_line = record {
  marshal = λ file. inr file.generated_at;
  unmarshal = λ text. inr (empty_file text);
}

abbrev origin_of : Str × Str → Str
origin_of w = w.1

-- The push is refused, and the clone alone has changed.
push_denied :
    record_rollback read_only one_line
      (codes "now")
      (codes "a")
      (entry_of (codes "x"))
      (codes "", codes "old")
    ≡ ((codes "now", codes "old"), some (codes "failed to push rollbacks commit: denied"))
unfolding record_rollback read_rollbacks_from_disk with_rollback lookup insert
push_denied = refl
