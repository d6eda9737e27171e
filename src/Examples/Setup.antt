-- ===== src/Examples/Setup.antt =====
-- A deployment: its project, its configuration, a provider, a signer and a cluster.
use zakros.Base.{
  String, List, [], ◌∷◌, none, some, true, string_equality, nat_equality, ◌==◌, not, keep, exists,
  if◌then◌else◌, ok, err,
}
use zakros.Base.Int.{pos}
use zakros.Base.Text.{Casing}
use zakros.Envelope.{Budget, Communication}
use zakros.Storage.Memstore.{Store}
use zakros.Dispatch.{Dispatcher, pod_not_found, Phase.running as pod_running}
use zakros.Dispatch.Builder.{Encoder}
use zakros.Projects.{ProjectConfig, project_from_config}
use zakros.Minos.{Config, Environment, Server}

abbrev pub budget : Budget
budget = record {
  max_tokens = pos 0;
  max_wall_clock_seconds = pos 600;
  warning_threshold_pct = pos 75;
  escalation_threshold_pct = pos 95;
}

abbrev channel : Communication
channel = record {
  thread_surface = "discord";
  thread_ref = "";
  hermes_url = "http://hermes";
  argus_ingest_url = "http://argus";
  clio_ingest_url = "";
}

abbrev pub zakros_config : ProjectConfig
zakros_config = record {
  id = "zakros";
  backend = "claude-code";
  plugin_image = "plugin:1";
  agent_mention_handle = "zakros-bot";
  default_workspace_size = "medium";
  default_base_branch = "main";
  default_repo_url = "";
  argus_sidecar_image = "argus:1";
  default_budget = budget;
  communication = channel;
  thread_parent = "general";
  capabilities = record {
    injected_credentials = record { env_var = "GITHUB_TOKEN"; credentials_ref = "github" } ∷ [];
    hecate_credentials = record { env_var = "NPM_TOKEN"; ref = "npm" } ∷ [];
    mcp_endpoints =
        record { name = "github"; url = "http://broker"; scopes = "pr.create" ∷ [] } ∷ [];
  };
}

abbrev pub config : Config
config = record {
  project = zakros_config;
  github_webhook_secret_ref = "hook";
  slack_webhook_secret_ref = "hook";
  admin_token_ref = "admin";
  minos_pod_url = "http://minos";
  github_broker_pod_url = "http://broker";
  hecate_pod_url = "http://hecate";
  apollo_pod_url = "";
}

-- A cluster is the list of its live pods.
abbrev pub cluster : Dispatcher (List String)
cluster = record {
  spawn_pod = λ spec pods. (spec.name ∷ pods, none);
  delete_pod = λ ns name pods.
      if exists (λ p. p == name) pods
      then (keep (λ p. not (p == name)) pods, none)
      else (pods, some pod_not_found);
  pod_phase =
      λ ns name pods. if exists (λ p. p == name) pods then ok pod_running else err pod_not_found;
}

abbrev pub names : Encoder
names = record {
  uuid_text = λ id. if id == 1 then "11111111-a" else "22222222-b";
  marshal = λ e. some "{}";
  marshal_fetches = λ hs. some "[]";
}

abbrev pub environment : Environment (List String)
environment = record {
  dispatcher = cluster;
  resolve = λ ref. if ref == "hook" then some "s3cret" else some "token";
  sign = λ c. some "signed";
  create_thread = λ surface req. ok "t1";
  mnemosyne = none;
  encoder = names;
  format_time = λ t. "now";
  format_stamp = λ t. "stamp";
}

abbrev pub unicode : Casing
unicode = record { to_lower = λ s. s; equal_fold = λ s t. s == t }

abbrev pub server_of : {Cluster : Type 0} → Store → Cluster → Server Cluster
server_of store pods = record {
  cfg = config;
  namespace = "zakros";
  identities = record { identities = []; pairings = [] };
  projects = ("zakros", project_from_config zakros_config) ∷ [];
  replays = some (record { entries = []; window = pos 100 });
  hermes = true;
  store = store;
  cluster = pods;
  events = [];
}
