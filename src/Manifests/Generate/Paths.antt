-- ===== src/Manifests/Generate/Paths.antt =====
-- Where the files of an app go.
use tinycloud_platform.Base.{◌≡◌, refl, ◌∷◌, ◌++◌, Str, codes, str_eq, str_eq_refl, remove, All}
use tinycloud_platform.Manifests.Request.{CreateAppRequest}
use tinycloud_platform.Manifests.Generate.{Walk, generate_app_files, updater_path}

-- A path within the directory `apps/<name>/`.
abbrev pub IsWithin : Str → Str × Str → Type 0
IsWithin name f = (rest : Str) × (f.0 ≡ codes "apps/" ++ name ++ b'/' ∷ rest)

-- All files but the image updater's go to the directory `apps/<name>/`.
pub generate_app_files-IsWithin :
    (other : Str → Str) (walk : Walk) (req : CreateAppRequest)
    → All (IsWithin req.name) (remove (updater_path req.name) (generate_app_files other walk req))
unfolding generate_app_files remove str_eq
generate_app_files-IsWithin other walk req = rw (str_eq_refl (req.name ++ codes ".yaml")) (
  (codes "namespace.yaml", refl),
  (
    (codes "deployment.yaml", refl),
    (
      (codes "service.yaml", refl),
      (
        (codes "resource-quota.yaml", refl),
        (
          (codes "network-policies.yaml", refl),
          ((codes "pull-secret.yaml", refl), ((codes "kustomization.yaml", refl), tt)),
        ),
      ),
    ),
  ),
)
