-- ===== src/Git/Files.antt =====
-- internal/git/gitops.go: the commit of files. They are written in the order in which Go goes through
-- their map, which the list gives; `directory` is what filepath.Dir makes of a path.
use tinycloud_platform.Base.{Option, none, [], ◌∷◌, ◌++◌, Str, codes, StrMap}
use tinycloud_platform.Git.Repository.{
  Repository, attempt, attempt_with, on_main, author_or_default,
}

unfoldable pub write_files :
    {W : Type 0}
    → Repository W
    → (Str → Str)
    → StrMap Str
    → (W → W × Option Str)
    → W
    → W × Option Str
write_files r directory [] next w = next w
write_files r directory ((path, text) ∷ files) next w =
    attempt (codes "failed to create directory for " ++ path ++ codes ": ")
      (r.make_directory (directory path) w)
      (λ w. attempt (codes "failed to write " ++ path ++ codes ": ") (r.write path text w) (λ w.
        attempt (codes "failed to stage " ++ path ++ codes ": ") (r.add path w)
          (λ w. write_files r directory files next w)))

-- `CommitFiles`, but for the hash that it returns.
unfoldable pub commit_files :
    {W : Type 0} → Repository W → (Str → Str) → Str → StrMap Str → Str → W → W × Option Str
unfolding write_files
commit_files r directory message files author w = on_main r w (
    write_files r directory files (λ w.
      attempt_with (codes "failed to commit: ") (r.commit message (author_or_default author) w)
        (λ hash w. attempt (codes "failed to push commit: ") (r.push w) (λ w. (w, none)))))
