-- ===== src/Git/Repository.antt =====
-- internal/git/gitops.go: the steps that its methods are made of. What go-git and the file system do is
-- an interface over a state of clone and origin; each step yields the state after it, and its error. A
-- push that finds the origin up to date is one without an error.
use tinycloud_platform.Base.{
  Bool, Option, none, some, [], ◌++◌, Str, codes, is_empty, if◌then◌else◌, ◌⊎◌, inl, inr,
}

pub data FileRead : Type 0 where
  content : Str → FileRead
  missing : FileRead
  unreadable : Str → FileRead

pub record Repository (W : Type 0) : Type 0 where
  pub clone : W → W × Option Str
  pub worktree : W → Option Str
  pub checkout_main : W → W × Option Str
  pub read : W → Str → FileRead
  pub make_directory : Str → W → W × Option Str
  pub write : Str → Str → W → W × Option Str
  pub add : Str → W → W × Option Str
  pub commit : Str → Str → W → W × (Str ⊎ Str)
  pub push : W → W × Option Str
  pub create_branch : Str → W → W × Option Str
  pub set_reference : Str → Str → W → W × Option Str
  pub push_branch : Str → W → W × Option Str
  pub head : W → Str ⊎ Str
  pub has_commit : Str → W → Bool

-- if err != nil { return fmt.Errorf(prefix + "%w", err) }
abbrev pub attempt : {W : Type 0} → Str → W × Option Str → (W → W × Option Str) → W × Option Str
attempt prefix (w, some e) next = (w, some (prefix ++ e))
attempt prefix (w, none) next = next w

-- The same for a step with a result, and for one that changes nothing.
abbrev pub attempt_with :
    {W A : Type 0} → Str → W × (Str ⊎ A) → (A → W → W × Option Str) → W × Option Str
attempt_with prefix (w, inl e) next = (w, some (prefix ++ e))
attempt_with prefix (w, inr a) next = next a w

abbrev pub on_checkout : {W : Type 0} → Repository W → (W → W × Option Str) → W → W × Option Str
on_checkout r next w = attempt (codes "failed to checkout main: ") (r.checkout_main w) next

abbrev pub on_worktree : {W : Type 0} → Repository W → (W → W × Option Str) → W → W × Option Str
on_worktree r next w = attempt [] (w, r.worktree w) (on_checkout r next)

-- Clone, worktree, and the checkout of main.
abbrev pub on_main : {W : Type 0} → Repository W → W → (W → W × Option Str) → W × Option Str
on_main r w next = attempt (codes "failed to clone repo: ") (r.clone w) (on_worktree r next)

abbrev pub author_or_default : Str → Str
author_or_default author = if is_empty author then codes "tinycloud-api" else author

-- refs/heads/rollback/app
abbrev pub rollback_branch : Str → Str
rollback_branch app = codes "rollback/" ++ app

abbrev pub branch_reference : Str → Str
branch_reference branch = codes "refs/heads/" ++ branch
