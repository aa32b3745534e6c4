-- ===== src/Build/Types.antt =====
-- internal/build/types/types.go. Times are kept as the RFC 3339 texts that the store writes and JSON
-- shows; `env_json` is kept as the map that it decodes to.
use tinycloud_platform.Base.{ℕ, Option, Str, codes, StrMap, ℤ, Bool, ◌||◌, str_eq}

abbrev pub status_queued : Str
status_queued = codes "queued"

abbrev pub status_running : Str
status_running = codes "running"

abbrev pub status_succeeded : Str
status_succeeded = codes "succeeded"

abbrev pub status_failed : Str
status_failed = codes "failed"

pub record CreateBuildRequest : Type 0 where
  pub name : Str
  pub app_name : Str
  pub repo_url : Str
  pub git_ref : Str
  pub replicas : ℤ
  pub port : ℤ
  pub env : StrMap Str

pub record BuildJob : Type 0 where
  pub id : Str
  pub app_name : Str
  pub repo_url : Str
  pub git_ref : Str
  pub commit_sha : Str
  pub framework : Str
  pub image : Str
  pub tag : Str
  pub status : Str
  pub attempts : ℕ
  pub replicas : ℤ
  pub port : ℤ
  pub env : StrMap Str
  pub gitops_commit_sha : Str
  pub gitops_path : Str
  pub deploy_status : Str
  pub argo_sync_status : Str
  pub argo_health : Str
  pub app_url : Str
  pub verification_error : Str
  pub error : Str
  pub created_at : Str
  pub updated_at : Str
  pub started_at : Option Str
  pub finished_at : Option Str

pub record BuildLogLine : Type 0 where
  pub sequence : ℕ
  pub timestamp : Str
  pub stream : Str
  pub message : Str

pub record RunnerStatusRequest : Type 0 where
  pub status : Str
  pub commit_sha : Str
  pub framework : Str
  pub image : Str
  pub tag : Str
  pub gitops_commit_sha : Str
  pub gitops_path : Str
  pub deploy_status : Str
  pub app_url : Str
  pub verification_error : Str
  pub error : Str

-- The statuses of a build that is still to come to an end.
unfoldable pub is_active : BuildJob → Bool
is_active j = str_eq j.status status_queued || str_eq j.status status_running
