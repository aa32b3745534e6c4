-- ===== src/Manifests/Generate.antt =====
-- `GenerateAppFiles`: the files of an app, by their paths in the GitOps repository. A Go map is walked
-- in an order that the runtime chooses: the entries of `env` stand in the order of that walk, and
-- `walk` gives the order in which `replaceVars` meets the variables for the file at a path.
pub mod Sorted
pub mod Paths
use tinycloud_platform.Base.{
  ℕ, zero, suc, Bool, true, false, not, Option, none, some, List, [], ◌∷◌, ◌++◌, if◌then◌else◌, Str,
  codes, str_eq, str_lt, StrMap, lookup, length, pos,
}
use tinycloud_platform.Text.{trim_space, replace_all, quote, int_text}
use tinycloud_platform.Manifests.Request.{CreateAppRequest, app_port}
use tinycloud_platform.Manifests.Templates.Workload.{
  namespace_template, deployment_template, service_template, resource_quota_template,
}
use tinycloud_platform.Manifests.Templates.Policy.{
  network_policies_template, pull_secret_template, kustomization_template, image_updater_template,
}

-- The keys but PORT.
unfoldable pub other_keys : StrMap Str → List Str
other_keys [] = []
other_keys ((k, v) ∷ m) =
    let rest = other_keys m in if str_eq k (codes "PORT") then rest else k ∷ rest

-- The inner loop from j on: keys[i], and the keys behind it.
unfoldable pub exchange_pass : Str → List Str → Str × List Str
exchange_pass a [] = (a, [])
exchange_pass a (b ∷ bs) = elim (str_lt b a) [
  | true ↦ let p = exchange_pass b bs in (p.0, a ∷ p.1)
  | false ↦ let p = exchange_pass a bs in (p.0, b ∷ p.1)
]

-- The outer loop. It runs once for each key.
unfoldable pub exchange_from : ℕ → List Str → List Str
unfolding exchange_pass
exchange_from zero ks = ks
exchange_from (suc n) [] = []
exchange_from (suc n) (k ∷ ks) = let p = exchange_pass k ks in p.0 ∷ exchange_from n p.1

unfoldable pub sorted_keys : List Str → List Str
unfolding exchange_from
sorted_keys ks = exchange_from (length ks) ks

-- A map gives the empty string for a key that it has not.
abbrev pub or_empty : Option Str → Str
or_empty none = []
or_empty (some v) = v

abbrev pub env_entry : (Str → Str) → Str → Str → Str
env_entry other k v =
    codes "            - name: "
    ++ k
    ++ codes "\n              value: "
    ++ quote other v
    ++ codes "\n"

unfoldable pub env_entries : (Str → Str) → StrMap Str → List Str → Str
unfolding quote lookup
env_entries other env [] = []
env_entries other env (k ∷ ks) =
    env_entry other k (or_empty (lookup k env)) ++ env_entries other env ks

unfoldable pub render_env_vars : (Str → Str) → StrMap Str → Str
unfolding env_entries sorted_keys other_keys int_text quote
render_env_vars other env =
    codes "          env:\n"
    ++ env_entry other (codes "PORT") (int_text (pos app_port))
    ++ env_entries other env (sorted_keys (other_keys env))

unfoldable pub replace_vars : Str → StrMap Str → Str
unfolding replace_all
replace_vars out [] = out
replace_vars out ((k, v) ∷ vars) = replace_vars (replace_all out k v) vars

unfoldable pub app_vars : (Str → Str) → CreateAppRequest → StrMap Str
unfolding trim_space int_text
app_vars other req =
    (codes "{{APP_NAME}}", trim_space req.name)
    ∷ (codes "{{IMAGE}}", trim_space req.image)
    ∷ (codes "{{TAG}}", trim_space req.tag)
    ∷ (codes "{{REPLICAS}}", int_text req.replicas)
    ∷ (codes "{{PORT}}", int_text req.port)
    ∷ (codes "{{ENV_VARS}}", render_env_vars other req.env)
    ∷ []

abbrev pub app_path : Str → Str
app_path name = codes "apps/" ++ name

abbrev pub updater_path : Str → Str
updater_path name = codes "argocd/imageupdater-" ++ name ++ codes ".yaml"

abbrev pub Walk : Type 0
Walk = Str → StrMap Str → StrMap Str

abbrev pub app_file : Walk → StrMap Str → Str → Str → Str × Str
app_file walk vars path template = (path, replace_vars template (walk path vars))

unfoldable pub generate_app_files : (Str → Str) → Walk → CreateAppRequest → StrMap Str
unfolding replace_vars app_vars
generate_app_files other walk req =
    let file = app_file walk (app_vars other req) in
    let dir = app_path req.name in
    file (dir ++ codes "/namespace.yaml") namespace_template
    ∷ file (dir ++ codes "/deployment.yaml") deployment_template
    ∷ file (dir ++ codes "/service.yaml") service_template
    ∷ file (dir ++ codes "/resource-quota.yaml") resource_quota_template
    ∷ file (dir ++ codes "/network-policies.yaml") network_policies_template
    ∷ file (dir ++ codes "/pull-secret.yaml") pull_secret_template
    ∷ file (dir ++ codes "/kustomization.yaml") kustomization_template
    ∷ file (updater_path req.name) image_updater_template
    ∷ []

unfoldable pub app_base_url : Str → Str
unfolding trim_space
app_base_url name = codes "https://" ++ trim_space name ++ codes ".sasiru.lk/"
