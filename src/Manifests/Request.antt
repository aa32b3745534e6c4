-- ===== src/Manifests/Request.antt =====
-- The payload of an onboarding request, and its defaults.
use tinycloud_platform.Base.{ℕ, Str, codes, StrMap, ℤ, pos, int_eq, if◌then◌else◌}
use tinycloud_platform.Text.{trim_space}

pub record CreateAppRequest : Type 0 where
  pub name : Str
  pub image : Str
  pub tag : Str
  pub replicas : ℤ
  pub port : ℤ
  pub env : StrMap Str

abbrev pub max_replicas : ℕ
max_replicas = 5

abbrev pub app_port : ℕ
app_port = 8080

abbrev pub placeholder_tag : Str
placeholder_tag = codes "0000000000000000000000000000000000000000"

unfoldable pub normalize_create_app_request : CreateAppRequest → CreateAppRequest
unfolding trim_space
normalize_create_app_request req = record req {
  name = trim_space req.name;
  image = trim_space req.image;
  tag = trim_space req.tag;
  port = pos app_port;
  replicas = if int_eq req.replicas 0 then pos 1 else req.replicas;
}
