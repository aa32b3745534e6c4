-- ===== src/Git/Rollbacks/Origin.antt =====
-- What a record of a rollback leaves of the origin.
use tinycloud_platform.Base.{◌≡◌, Option, some, ◌++◌, Str, codes, ◌⊎◌}
use mathlib.Core.Option
use tinycloud_platform.Git.Repository.{Repository}

-- What go-git documents of the origin: the steps in the clone do not touch it. Of a push nothing is
-- assumed.
pub record IsLocal {W O : Type 0} (r : Repository W) (origin : W → O) : Type 0 where
  pub clone_local : (w : W) → origin (r.clone w).0 ≡ origin w
  pub checkout_local : (w : W) → origin (r.checkout_main w).0 ≡ origin w
  pub write_local : (path text : Str) (w : W) → origin (r.write path text w).0 ≡ origin w
  pub add_local : (path : Str) (w : W) → origin (r.add path w).0 ≡ origin w
  pub commit_local :
      (message author : Str) (w : W) → origin (r.commit message author w).0 ≡ origin w

module _ {W O : Type 0} (r : Repository W) (origin : W → O) (laws : IsLocal r origin) where
  -- Either there is an error and the origin is what it was, or the result is that of one push from a
  -- world with that origin, whose error, if it has one, is passed on.
  abbrev pub IsSettled : O → W × Option Str → Type 0
  IsSettled o x =
      ((e : Str) × (x.1 ≡ some e) × (origin x.0 ≡ o))
      ⊎ ((w : W) × (origin w ≡ o)
          × (x.0 ≡ (r.push w).0)
          × (x.1 ≡ Option.map (λ e. codes "failed to push rollbacks commit: " ++ e) (r.push w).1))
