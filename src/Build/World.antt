-- ===== src/Build/World.antt =====
-- What the handlers of internal/build/coordinator read of their surroundings, what they change, and
-- what they answer.
use tinycloud_platform.Base.{String, ℕ, Bool, Option, List, [], Str, codes, StrMap}
use tinycloud_platform.Text.{Unicode}
use tinycloud_platform.Manifests.Generate.{Walk}
use tinycloud_platform.Build.Types.{BuildJob, BuildLogLine}
use tinycloud_platform.Build.Time.{Time}
use tinycloud_platform.Build.Dispatch.{Config, Request, Answer}
use tinycloud_platform.Build.Tables.{Store, Faults, DbError}

-- What `CommitFiles` returns: the SHA of the commit, or the text of an error.
pub data Commit : Type 0 where
  committed : Str → Commit
  commit_failed : Str → Commit

pub record Run : Type 0 where
  pub now : Time
  pub new_id : Str
  pub faults : Faults
  -- s.git.PathExists; `none` is an error
  pub path_exists : Str → Option Bool
  pub post : Request → Answer
  -- s.git.CommitFiles, of the message, the files and the author
  pub commit_files : Str → StrMap Str → Str → Commit
  -- err.Error() of a statement's error
  pub error_text : DbError → Str
  -- what `GenerateAppFiles` needs: the quoting of strings that are not ASCII, and the map walks
  pub quote_other : Str → Str
  pub walk : Walk

-- The fields of `Server` that the handlers read.
pub record Server : Type 0 where
  pub token : Str
  pub dispatcher : Option Config
  pub webhook_secret : Str
  pub unicode : Unicode

-- An event for OCI Logging.
pub record Event : Type 0 where
  pub kind : Str
  pub job_id : Str
  pub app : Str
  pub status : Str
  pub stream : Str
  pub message : Str
  pub image : Str
  pub tag : Str
  pub error : Str

abbrev pub no_event : Event
no_event = record {
  kind = [];
  job_id = [];
  app = [];
  status = [];
  stream = [];
  message = [];
  image = [];
  tag = [];
  error = [];
}

-- What the handlers change: the store, the events that they emit, the requests to GitHub, and the
-- commits (message, files, author) to the GitOps repository.
pub record World : Type 0 where
  pub store : Store
  pub events : List Event
  pub sent : List Request
  pub commits : List (Str × StrMap Str × Str)

pub data Body : Type 0 where
  error : Str → Body
  created : Str → Str → Str → Body
  builds : List BuildJob → Body
  job : BuildJob → Body
  lines : List BuildLogLine → Body
  polled : Option BuildJob → Body
  ignored : Str → Body
  queued : List Str → Body
  empty : Body

pub record Response : Type 0 where
  pub status : ℕ
  pub body : Body

abbrev pub reply : ℕ → Body → Response
reply code b = record { status = code; body = b }

abbrev pub refuse : ℕ → String → Response
refuse code text = reply code (error (codes text))
