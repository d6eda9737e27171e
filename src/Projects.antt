-- ===== src/Projects.antt =====
-- The project registry: its value type (pkg/project/project.go), its in-memory store
-- (minos/project/memstore/memstore.go) and the project that the configuration declares
-- (minos/core/config.go and bootstrap.go).
use zakros.Base.{
  String, Option, none, some, Bool, false, ◌==◌, string_equality, if◌then◌else◌, Result, ok, err,
}
use zakros.Base.Int.{ℤ, pos}
use zakros.Base.Maps.{Map, lookup, insert}
use zakros.Envelope.{Budget, Communication, InjectedCredential, HecateCredential, McpEndpoint}
use zakros.Base.{List}

-- The capability defaults of a project; `CapabilitiesDefaults` of the configuration has the same fields.
pub record ProjectCapabilities : Type 0 where
  pub injected_credentials : List InjectedCredential
  pub hecate_credentials : List HecateCredential
  pub mcp_endpoints : List McpEndpoint

pub record Project : Type 0 where
  pub id : String
  pub name : String
  pub backend : String
  pub plugin_image : String
  pub argus_sidecar_image : String
  pub agent_mention_handle : String
  pub default_workspace_size : String
  pub default_base_branch : String
  pub default_repo_url : String
  branch_protection_required : Bool
  mnemosyne_retention_days : ℤ
  pub default_budget : Budget
  pub communication : Communication
  pub thread_parent : String
  pub capabilities : ProjectCapabilities

pub record ProjectConfig : Type 0 where
  pub id : String
  pub backend : String
  pub plugin_image : String
  pub agent_mention_handle : String
  pub default_workspace_size : String
  pub default_base_branch : String
  pub default_repo_url : String
  pub argus_sidecar_image : String
  pub default_budget : Budget
  pub communication : Communication
  pub thread_parent : String
  pub capabilities : ProjectCapabilities

pub data Error : Type 0 where
  not_found already_exists : Error

abbrev pub Store : Type 0
Store = Map String Project

unfoldable pub get : String → Store → Result Error Project
get id s = elim (lookup id s) [ none ↦ err not_found | some p ↦ ok p ]

unfoldable insert_project : Project → Store → Store × Option Error
insert_project p s = elim (lookup p.id s) [
  | some _ ↦ (s, some already_exists)
  | none ↦ (insert p.id p s, none)
]

unfoldable upsert : Project → Store → Store
upsert p s = insert p.id p s

unfoldable pub project_from_config : ProjectConfig → Project
project_from_config cfg = record {
  id = cfg.id;
  name = cfg.id;
  backend = cfg.backend;
  plugin_image = cfg.plugin_image;
  argus_sidecar_image = cfg.argus_sidecar_image;
  agent_mention_handle = cfg.agent_mention_handle;
  default_workspace_size = cfg.default_workspace_size;
  default_base_branch = cfg.default_base_branch;
  default_repo_url = cfg.default_repo_url;
  branch_protection_required = false;
  mnemosyne_retention_days = pos 0;
  default_budget = cfg.default_budget;
  communication = cfg.communication;
  thread_parent = cfg.thread_parent;
  capabilities = cfg.capabilities;
}

-- `none` is the error that the project has no identifier.
unfoldable bootstrap_project : ProjectConfig → Store → Option Store
unfolding upsert project_from_config
bootstrap_project cfg s = if cfg.id == "" then none else some (upsert (project_from_config cfg) s)
