-- ===== src/Build/Dispatch.antt =====
-- internal/build/dispatch/dispatch.go. The HTTP client is an argument: what it answers to a request.
use tinycloud_platform.Base.{
  ℕ, ◌||◌, Option, none, some, ◌++◌, ◌==◌, if◌then◌else◌, Str, codes, is_empty, ℤ,
}
use tinycloud_platform.Text.{trim_space, trim_right_byte}

pub record Config : Type 0 where
  pub token : Str
  pub workflow_repo : Str
  pub coordinator_url : Str
  pub image_prefix : Str
  pub base_url : Str

pub record Payload : Type 0 where
  pub job_id : Str
  pub app_name : Str
  pub repo_url : Str
  pub git_ref : Str
  pub port : ℤ
  pub coordinator_url : Str
  pub image_prefix : Str

-- The POST request: the headers are constants but for the token.
pub record Request : Type 0 where
  pub url : Str
  pub authorization : Str
  pub event_type : Str
  pub payload : Payload

-- What becomes of a request: `http.NewRequest` refuses its URL, `http.Client.Do` has no response, or
-- there is a status code, its text, and what is read of the body.
pub data Answer : Type 0 where
  refused : Str → Answer
  unreachable : Str → Answer
  answered : ℕ → Str → Str → Answer

-- A dispatcher that is not configured is nil.
unfoldable pub new : Config → Option Config
unfolding trim_space
new cfg =
    if is_empty (trim_space cfg.token) || is_empty (trim_space cfg.workflow_repo)
    then none
    else some cfg

unfoldable pub request : Config → Str → Str → Str → Str → ℤ → Request
unfolding trim_right_byte
request cfg job_id app_name repo_url git_ref port = record {
  url =
      (if is_empty cfg.base_url then codes "https://api.github.com" else cfg.base_url)
      ++ codes "/repos/"
      ++ cfg.workflow_repo
      ++ codes "/dispatches";
  authorization = codes "Bearer " ++ cfg.token;
  event_type = codes "build-app";
  payload = record {
    job_id = job_id;
    app_name = app_name;
    repo_url = repo_url;
    git_ref = git_ref;
    port = port;
    coordinator_url = trim_right_byte b'/' cfg.coordinator_url;
    image_prefix = cfg.image_prefix;
  };
}

unfoldable pub answer_error : Answer → Option Str
answer_error (refused e) = some (codes "build dispatch request: " ++ e)
answer_error (unreachable e) = some (codes "dispatch to GitHub Actions: " ++ e)
answer_error (answered code text body) =
    if code == 204
    then none
    else some
        (codes "dispatch to GitHub Actions returned " ++ text ++ codes ": " ++ trim_space body)

abbrev pub sent_request : Request → Answer → Option Request
sent_request req (refused e) = none
sent_request req (unreachable e) = some req
sent_request req (answered code text body) = some req

-- The request that goes out, if one does, and the error.
unfoldable pub dispatch :
    (Request → Answer) → Option Config → Str → Str → Str → Str → ℤ → Option Request × Option Str
unfolding request answer_error trim_space
dispatch post none job_id app_name repo_url git_ref port =
    (none, some (codes "build dispatcher not configured: set GITHUB_TOKEN and BUILD_WORKFLOW_REPO"))
dispatch post (some cfg) job_id app_name repo_url git_ref port =
    let req = request cfg job_id app_name repo_url git_ref port in
    if is_empty (trim_space cfg.image_prefix)
    then (
      none,
      some (
          codes
            "build dispatcher not configured: set IMAGE_PREFIX to the registry path images are pushed under, e.g. ghcr.io/your-account"),
    )
    else if is_empty (trim_space cfg.coordinator_url)
    then (
      none,
      some (
          codes
            "build dispatcher not configured: set BUILD_COORDINATOR_PUBLIC_URL to the address the build reports back to"),
    )
    else (sent_request req (post req), answer_error (post req))
