-- ===== src/Envelope.antt =====
-- The task envelope that Minos dispatches to a worker pod (pkg/envelope/envelope.go) and its
-- structural validation (pkg/envelope/validate.go). Raw JSON stays a text.
use zakros.Base.{String, List, Option, none, some, ◌==◌, string_equality, if◌then◌else◌}
use zakros.Base.Int.{ℤ}

pub record Origin : Type 0 where
  pub surface : String
  pub request_id : String
  pub requester : String
  pub requester_role : String

pub record Brief : Type 0 where
  pub summary : String
  pub detail : String

pub record Execution : Type 0 where
  pub repo_url : String
  pub branch : String
  pub base_branch : String
  pub workspace_size : String

pub record Communication : Type 0 where
  pub thread_surface : String
  pub thread_ref : String
  pub hermes_url : String
  pub argus_ingest_url : String
  pub clio_ingest_url : String

pub record InjectedCredential : Type 0 where
  pub env_var : String
  pub credentials_ref : String

pub record HecateCredential : Type 0 where
  pub env_var : String
  pub ref : String

pub record McpEndpoint : Type 0 where
  pub name : String
  pub url : String
  pub scopes : List String

pub record Capabilities : Type 0 where
  pub injected_credentials : List InjectedCredential
  pub hecate_credentials : List HecateCredential
  pub mcp_endpoints : List McpEndpoint
  pub mcp_auth_token : String

pub record Budget : Type 0 where
  pub max_tokens : ℤ
  pub max_wall_clock_seconds : ℤ
  pub warning_threshold_pct : ℤ
  pub escalation_threshold_pct : ℤ

pub record Envelope : Type 0 where
  pub schema_version : String
  pub id : String
  pub parent_id : Option String
  pub project_id : String
  pub created_at : String
  pub task_type : String
  pub backend : String
  pub origin : Origin
  pub brief : Brief
  pub inputs : String
  pub execution : Execution
  pub communication : Communication
  pub capabilities : Capabilities
  pub context_ref : Option String
  pub budget : Budget
  pub acceptance : String

abbrev pub current_version : String
current_version = "1"

abbrev pub task_type_code : String
task_type_code = "code"

abbrev pub task_type_inference_tuning : String
task_type_inference_tuning = "inference-tuning"

abbrev pub workspace_small : String
workspace_small = "small"

-- What `Validate` may find wrong; every case wraps `ErrInvalid`.
pub data Invalid : Type 0 where
  nil_envelope bad_schema_version no_id no_project_id no_task_type no_backend : Invalid

unfoldable pub validate : Option Envelope → Option Invalid
validate none = some nil_envelope
validate (some e) =
    if e.schema_version == current_version
    then if e.id == ""
      then some no_id
      else if e.project_id == ""
      then some no_project_id
      else if e.task_type == ""
      then some no_task_type
      else if e.backend == ""
      then some no_backend
      else none
    else some bad_schema_version
