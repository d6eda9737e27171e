-- ===== src/Dispatch/Builder.antt =====
-- The pod specification of a task (minos/dispatch/builder.go). The provider's answer to a reference, the
-- JSON encoder and the text of a UUID are parameters; `none` is an error.
pub mod Separation
use zakros.Base.{
  ℕ, String, ◌<>◌, List, [], ◌∷◌, Option, none, some, ◌==◌, string_equality, if◌then◌else◌, Result,
  ok, err,
}
use zakros.Base.Maps.{Map, insert}
use zakros.Base.Text.{first}
use zakros.Envelope.{Envelope, InjectedCredential, HecateCredential}
use zakros.Storage.{Uuid}
use zakros.Dispatch.{PodSpec, Sidecar}

pub data BuildError : Type 0 where
  envelope_required image_required marshal_envelope marshal_hecate : BuildError
  resolve_credential : String → BuildError

pub record BuilderInput : Type 0 where
  pub envelope : Option Envelope
  pub task_id : Uuid
  pub run_id : Uuid
  pub namespace : String
  pub image : String
  pub project_id : String
  pub workspace_size : String
  pub minos_url : String
  pub github_broker_url : String
  pub hecate_url : String
  pub apollo_url : String
  pub argus_sidecar_image : String

-- What the builder calls.
pub record Encoder : Type 0 where
  pub uuid_text : Uuid → String
  pub marshal : Envelope → Option String
  pub marshal_fetches : List HecateCredential → Option String

abbrev envelope_path : String
envelope_path = "/var/run/zakros/envelope.json"

-- if value != "" { m[key] = value }
abbrev set_unless_empty : String → String → Map String String → Map String String
set_unless_empty key value m = if value == "" then m else insert key value m

-- The loop over the injected credentials.
unfoldable resolve_each :
    (String → Option String)
    → List InjectedCredential
    → Map String String
    → Result BuildError (Map String String)
resolve_each resolve [] m = ok m
resolve_each resolve (ic ∷ ics) m = elim (resolve ic.credentials_ref) [
  | none ↦ err (resolve_credential ic.credentials_ref)
  | some text ↦ resolve_each resolve ics (insert ic.env_var text m)
]

-- The environment that is not secret, before the fetch list.
unfoldable base_env : Encoder → BuilderInput → Envelope → Map String String
base_env c input e = set_unless_empty "ZAKROS_APOLLO_URL" input.apollo_url (
    set_unless_empty "ZAKROS_HECATE_URL" input.hecate_url (
      set_unless_empty "ZAKROS_GITHUB_BROKER_URL" input.github_broker_url (
        set_unless_empty "ZAKROS_MINOS_URL" input.minos_url (
          ("ZAKROS_ENVELOPE", envelope_path)
          ∷ ("ZAKROS_TASK_ID", c.uuid_text input.task_id)
          ∷ ("ZAKROS_RUN_ID", c.uuid_text input.run_id)
          ∷ ("ZAKROS_PROJECT_ID", input.project_id)
          ∷ ("ZAKROS_THREAD_URL", e.communication.hermes_url)
          ∷ ("ZAKROS_ARGUS_INGEST_URL", e.communication.argus_ingest_url)
          ∷ ("ZAKROS_CLIO_INGEST", e.communication.clio_ingest_url)
          ∷ []))))

unfoldable plain_env_of : Encoder → BuilderInput → Envelope → Result BuildError (Map String String)
unfolding base_env
plain_env_of c input e = elim e.capabilities.hecate_credentials [
  | [] ↦ ok (base_env c input e)
  | h ∷ hs ↦ elim (c.marshal_fetches (h ∷ hs)) [
    | none ↦ err marshal_hecate
    | some text ↦ ok (insert "ZAKROS_HECATE_FETCHES" text (base_env c input e))
  ]
]

unfoldable ephemeral_for_size : String → String
ephemeral_for_size size =
    if size == "large" then "100Gi" else if size == "medium" then "50Gi" else "20Gi"

abbrev labels_of : Encoder → BuilderInput → Map String String
labels_of c input =
    ("zakros.project/pod-class", "daedalus")
    ∷ ("zakros.project/project-id", input.project_id)
    ∷ ("zakros.project/task-id", c.uuid_text input.task_id)
    ∷ ("zakros.project/run-id", c.uuid_text input.run_id)
    ∷ []

unfoldable pub pod_name_of : Encoder → Uuid → Uuid → String
unfolding first
pod_name_of c task_id run_id =
    "daedalus-" <> first 8 (c.uuid_text task_id) <> "-" <> first 8 (c.uuid_text run_id)

-- The fields that are composed once every part is there.
unfoldable pub spec_of :
    Encoder → BuilderInput → Envelope → String → Map String String → Map String String → PodSpec
unfolding ephemeral_for_size pod_name_of
spec_of c input e json plain secret = record {
  name = pod_name_of c input.task_id input.run_id;
  namespace = if input.namespace == "" then "zakros" else input.namespace;
  labels = labels_of c input;
  image = input.image;
  envelope = json;
  plain_env = plain;
  secret_env = set_unless_empty "MCP_AUTH_TOKEN" e.capabilities.mcp_auth_token secret;
  cpu_request = "500m";
  cpu_limit = "2";
  memory_request = "2Gi";
  memory_limit = "4Gi";
  ephemeral_disk =
      ephemeral_for_size
        (if input.workspace_size == "" then e.execution.workspace_size else input.workspace_size);
  sidecars =
      if input.argus_sidecar_image == ""
      then []
      else record { name = "argus-sidecar"; image = input.argus_sidecar_image } ∷ [];
}

unfoldable pub build_pod_spec :
    Encoder → (String → Option String) → BuilderInput → Result BuildError PodSpec
unfolding resolve_each plain_env_of spec_of
build_pod_spec c resolve input = elim input.envelope [
  | none ↦ err envelope_required
  | some e ↦ if input.image == "" then err image_required else elim (c.marshal e) [
    | none ↦ err marshal_envelope
    | some json ↦ elim (resolve_each resolve e.capabilities.injected_credentials []) [
      | err x ↦ err x
      | ok secret ↦ elim (plain_env_of c input e) [
        | err x ↦ err x
        | ok plain ↦ ok (spec_of c input e json plain secret)
      ]
    ]
  ]
]
