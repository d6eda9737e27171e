-- ===== src/Examples/Access.antt =====
-- The brokers, the heartbeat route and the memory of runs at work.
use zakros.Base.{
  false, string_equality, nat_equality, String, ◌<>◌, List, [], ◌∷◌, Option, none, some, ◌==◌, ◌≡◌,
  ◌⊎◌, refl, ok, if◌then◌else◌, Has,
}
use zakros.Base.Int.{pos}
use zakros.Base.Text.{strip_prefix, trim_space, contains_text, has_prefix}
use zakros.Base.Maps.{lookup, insert}
use zakros.Envelope.{HecateCredential}
use zakros.Storage.{Uuid}
use zakros.Projects.{Project, project_from_config}
use zakros.Auth.{
  as_signed, Claims, Verifier, bearer_from_header, has_audience, has_scope, listed, require,
}
use zakros.Brokers.{authorize}
use zakros.Brokers.Hecate.{
  VaultClient, data_with, refused_with, value, read_kv, scope_prefix, dispatch_fetch,
}
use zakros.Brokers.Apollo.{
  Provider, ProviderResponse, ProviderRegistry, register, provider_for, relayed, dispatch_messages,
}
use zakros.Brokers.Access.{pod_fetches-granted}
use zakros.Minos.Minting.{claims_of, add_scopes, add_audience}
use zakros.Minos.Minting.Scopes.{Lists}
use zakros.Base.Clock.{Time}
use zakros.Base.Newest.{newest_first}
use zakros.Mnemosyne.{RunRecord, RunStore, Formats, new, age}
use zakros.Argus.{World, State, default_config}
use zakros.Argus.Ingest.{
  BeatsOwn, accepted, handle_heartbeat, check_pod, heartbeat_route, heartbeat-own_task,
}
use zakros.Examples.Setup.{environment, zakros_config, unicode}

abbrev vault : VaultClient
vault = record {
  token = "root";
  fetch = λ ref. if ref == "npm" then data_with (some "npm-token") else refused_with 404;
}

abbrev the_project : Project
the_project = project_from_config zakros_config

abbrev minted : Claims
minted = as_signed (claims_of environment 1 "j1" 10 the_project)

abbrev hecate : Verifier
hecate = record { broker = "hecate"; verify = λ raw. some minted }

npm_fetched : (dispatch_fetch hecate vault "npm" "Bearer signed").1 ≡ value "npm-token"
unfolding dispatch_fetch authorize read_kv bearer_from_header strip_prefix trim_space contains_text
    has_prefix has_audience has_scope listed claims_of add_scopes add_audience lookup insert
    project_from_config
npm_fetched = refl

pod_fetches-granted_example :
    ((hc : HecateCredential) × Has hc the_project.capabilities.hecate_credentials
      × (hc.ref ≡ "npm"))
    ⊎ Lists "hecate" (scope_prefix <> "npm") the_project.capabilities.mcp_endpoints
pod_fetches-granted_example =
    pod_fetches-granted environment 1 "j1" 10 the_project hecate vault "npm" "Bearer signed"
      "npm-token" refl refl npm_fetched

abbrev reply_of_opus : ProviderResponse
reply_of_opus = record { status = 200; body = "hi"; tokens_in = 3; tokens_out = 1 }

abbrev anthropic : Provider
anthropic = record { name = "anthropic"; models = "opus" ∷ []; forward = λ body. ok reply_of_opus }

abbrev idx : ProviderRegistry
idx = register unicode anthropic anthropic.models []

abbrev model_of : String → Option String
model_of body = some "opus"

abbrev iris : Claims
iris = record minted {
  subject = "iris";
  audience = "apollo" ∷ [];
  mcp_scopes = ("apollo", "apollo.anthropic.opus" ∷ []) ∷ [];
}

abbrev apollo : Verifier
apollo = record { broker = "apollo"; verify = λ raw. some iris }

opus_answered :
    (dispatch_messages unicode model_of apollo idx (some "{}") "Bearer iris").1
    ≡ relayed reply_of_opus
unfolding dispatch_messages authorize register provider_for bearer_from_header strip_prefix
    trim_space has_audience has_scope listed lookup insert
opus_answered = refl

abbrev beating : State
beating = record {
  task_id = 1;
  run_id = 2;
  pod_name = "p1";
  namespace = "zakros";
  thread_surface = "discord";
  thread_ref = "t1";
  started_at = 10;
  last_heartbeat = 10;
  max_wall_clock = pos 0;
  warning_at = pos 0;
  escalation_at = pos 0;
  warned = false;
  escalated = false;
  terminated = false;
}

abbrev watch : World (List String)
watch = record {
  cfg = default_config;
  hermes = false;
  persister = none;
  pods = (1, beating) ∷ [];
  store = record { tasks = [] };
  cluster = "p1" ∷ [];
  events = [];
}

abbrev argus : Verifier
argus = record { broker = "argus"; verify = λ raw. some minted }

abbrev task_named : String → Option Uuid
task_named s = if s == "11111111-a" then some 1 else none

heartbeat-own_task_example :
    BeatsOwn argus "Bearer signed" 50 50 none task_named
      (some "11111111-a")
      60
      watch
      (heartbeat_route argus "Bearer signed" 50 50 none task_named (some "11111111-a") 60 watch).1.0
heartbeat-own_task_example =
    heartbeat-own_task argus "Bearer signed" 50 50 none task_named (some "11111111-a") 60 watch

-- The pod's heartbeat for its own task is taken.
beat_taken :
    (heartbeat_route argus "Bearer signed" 50 50 none task_named (some "11111111-a") 60 watch).1.1
    ≡ accepted
unfolding heartbeat_route handle_heartbeat check_pod require bearer_from_header strip_prefix
    trim_space has_audience has_scope listed claims_of add_scopes add_audience lookup insert
    project_from_config
beat_taken = refl

abbrev run_of : Uuid → Time → RunRecord
run_of id at = record {
  id = id;
  task_id = 1;
  run_id = 2;
  project_id = "zakros";
  task_type = "code";
  outcome = "completed";
  summary = "done";
  body = "{}";
  created_at = at;
}

abbrev memory : RunStore
memory = record new {
  records = run_of 1 10 ∷ run_of 2 30 ∷ record (run_of 3 20) { project_id = "other" } ∷ [];
}

abbrev formats : Formats
formats = record { number = λ n. "n"; uuid_text = λ id. "11111111-a"; rfc3339 = λ t. "now" }

newest_recalled : newest_first age (run_of 1 10 ∷ run_of 2 30 ∷ []) ≡ run_of 2 30 ∷ run_of 1 10 ∷ []
unfolding newest_first
newest_recalled = refl
