-- ===== src/Manifests/Tests.antt =====
-- Runs of the validation, and its property at a concrete request.
use tinycloud_platform.Base.{
  ◌≡◌, refl, true, false, none, some, [], ◌∷◌, codes, lookup, str_eq, pos, str_lt, All, remove,
}
use tinycloud_platform.Text.{Unicode, trim_space, contains}
use tinycloud_platform.Manifests.Request.{
  normalize_create_app_request, CreateAppRequest, placeholder_tag,
}
use tinycloud_platform.Manifests.Generate.{
  Walk, sorted_keys, render_env_vars, generate_app_files, updater_path,
}
use tinycloud_platform.Manifests.Generate.Sorted.{IsSorted, count, sorted_keys_lem}
use tinycloud_platform.Manifests.Generate.Paths.{IsWithin, generate_app_files-IsWithin}
use tinycloud_platform.Manifests.Validate.{
  validate_create_app_request, is_image, is_app_name, is_reserved, is_commit_sha,
}
use tinycloud_platform.Manifests.Validate.Laws.{IsOnboardable, validated-IsOnboardable}

abbrev ascii : Unicode
ascii = record { lower = λ s. s; upper = λ s. s; fold = λ s t. str_eq s t }

abbrev shop : CreateAppRequest
shop = record {
  name = codes " shop-1 ";
  image = codes "ghcr.io/o/shop";
  tag = placeholder_tag;
  replicas = pos 2;
  port = pos 8080;
  env = (codes "PORT", codes "8080") ∷ [];
}

valid : validate_create_app_request ascii (some shop) ≡ none
unfolding validate_create_app_request is_image is_app_name is_commit_sha str_eq trim_space contains
    lookup
valid = refl

reserved : is_reserved (codes "argocd") ≡ true
unfolding is_reserved str_eq
reserved = refl

no_path : is_image (codes "shop") ≡ false
unfolding is_image
no_path = refl

doubled_dot : is_image (codes "ghcr..io/shop") ≡ false
unfolding is_image
doubled_dot = refl

validated-IsOnboardable_example : IsOnboardable (normalize_create_app_request shop)
validated-IsOnboardable_example = validated-IsOnboardable ascii shop valid

keys_sorted :
    sorted_keys (codes "b" ∷ codes "c" ∷ codes "a" ∷ []) ≡ codes "a" ∷ codes "b" ∷ codes "c" ∷ []
unfolding sorted_keys str_lt
keys_sorted = refl

env_rendered :
    render_env_vars (λ s. s) ((codes "X", codes "a\"b") ∷ (codes "PORT", codes "1") ∷ [])
    ≡ codes
        "          env:\n            - name: PORT\n              value: \"8080\"\n            - name: X\n              value: \"a\\\"b\"\n"
unfolding render_env_vars str_eq
env_rendered = refl

abbrev in_order : Walk
in_order path vars = vars

sorted_keys_lem_example :
    IsSorted (sorted_keys (codes "b" ∷ codes "a" ∷ []))
    × (count (str_eq (codes "a")) (sorted_keys (codes "b" ∷ codes "a" ∷ []))
        ≡ count (str_eq (codes "a")) (codes "b" ∷ codes "a" ∷ []))
sorted_keys_lem_example = sorted_keys_lem (codes "b" ∷ codes "a" ∷ []) (str_eq (codes "a"))

generate_app_files-IsWithin_example :
    All
      (IsWithin shop.name)
      (remove (updater_path shop.name) (generate_app_files (λ s. s) in_order shop))
generate_app_files-IsWithin_example = generate_app_files-IsWithin (λ s. s) in_order shop
