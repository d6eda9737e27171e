-- ===== src/Minos/Commissioning.antt =====
-- The commission of a task (minos/core/commission.go, Commission): its envelope, its record in the
-- store, and its dispatch.
pub mod Contents
pub mod Envelopes
pub mod Outcome
pub mod Identities
use zakros.Base.{
  String, ◌<>◌, List, [], ◌∷◌, Option, none, some, Bool, not, ◌&&◌, ◌||◌, ◌==◌, string_equality,
  if◌then◌else◌, Result, ok, err,
}
use zakros.Base.Int.{pos}
use zakros.Base.Text.{first}
use zakros.Envelope.{
  Origin, Brief, Execution, Communication, Capabilities, Budget, Envelope, validate,
  current_version, task_type_code, task_type_inference_tuning, workspace_small,
}
use zakros.Storage.{Uuid, Task, queued}
use zakros.Storage.Memstore.{insert_task}
use zakros.Hermes.Broker.{no_plugin}
use zakros.Projects.{Project, get}
use zakros.Minos.{
  Server, Environment, Failure, task_type_required, summary_required, repo_url_required,
  branch_required, unsupported_task_type, unknown_project, no_thread, invalid_envelope,
  not_inserted, emit, hermes_no_plugin, get_context_failed,
}
use zakros.Minos.Minting.{compose_capabilities}
use zakros.Minos.Dispatching.{Draws, dispatch}

pub record ExecutionRequest : Type 0 where
  pub repo_url : String
  pub branch : String
  pub base_branch : String
  pub workspace_size : String

pub record CommissionRequest : Type 0 where
  pub project_id : String
  pub task_type : String
  pub brief : Brief
  pub inputs : String
  pub acceptance : String
  pub execution : ExecutionRequest
  pub budget : Option Budget
  pub parent : Option Uuid
  pub origin : Origin

unfoldable pub first_non_empty : List String → String
first_non_empty [] = ""
first_non_empty (v ∷ vs) = let rest = first_non_empty vs in if v == "" then rest else v

unfoldable pub first_non_empty_workspace : List String → String
first_non_empty_workspace [] = workspace_small
first_non_empty_workspace (v ∷ vs) =
    let rest = first_non_empty_workspace vs in if v == "" then rest else v

-- The checks at the head of Commission.
unfoldable pub check_request : CommissionRequest → Option Failure
check_request req =
    if req.task_type == ""
    then some task_type_required
    else if req.brief.summary == ""
    then some summary_required
    else if req.execution.repo_url == ""
    then some repo_url_required
    else if req.execution.branch == ""
    then some branch_required
    else if req.task_type == task_type_code || req.task_type == task_type_inference_tuning
    then none
    else some (unsupported_task_type req.task_type)

unfoldable pub execution_of : CommissionRequest → Project → Execution
unfolding first_non_empty first_non_empty_workspace
execution_of req proj = record {
  repo_url = req.execution.repo_url;
  branch = req.execution.branch;
  base_branch = first_non_empty (req.execution.base_branch ∷ proj.default_base_branch ∷ []);
  workspace_size =
      first_non_empty_workspace (req.execution.workspace_size ∷ proj.default_workspace_size ∷ []);
}

abbrev json_or_empty : String → String
json_or_empty raw = if raw == "" then "{}" else raw

unfoldable pub task_of : Draws → CommissionRequest → Project → Envelope → Task
task_of d req proj e = record {
  id = d.task_id;
  parent_id = req.parent;
  project_id = proj.id;
  task_type = req.task_type;
  backend = proj.backend;
  state = queued;
  priority = pos 0;
  envelope = some e;
  run_id = none;
  pod_name = none;
  pr_url = none;
  created_at = d.created_at;
  started_at = none;
  finished_at = none;
  state_changed_at = 0;
  reminded_at = none;
}

-- A step that acts on the server and may fail.
abbrev pub Action : Type 0 → Type 0 → Type 0
Action Cluster A = Server Cluster → Server Cluster × Result Failure A

infixl 5 ◌>>=◌
abbrev pub ◌>>=◌ :
    {Cluster A B : Type 0} → Action Cluster A → (A → Action Cluster B) → Action Cluster B
◌>>=◌ m f s = let (s', r) = m s in elim r [ ok a ↦ f a s' | err e ↦ (s', err e) ]

module _ {Cluster : Type 0} where
  abbrev pub lift : {A : Type 0} → Result Failure A → Action Cluster A
  lift r s = (s, r)

  abbrev pub fail_with : Option Failure → Action Cluster (Unit {0})
  fail_with o s = (s, elim o [ none ↦ ok tt | some e ↦ err e ])

  unfoldable pub find_project : String → Action Cluster Project
  find_project id s =
      let pid = if id == "" then s.cfg.project.id else id in
      elim (get pid s.projects) [ err e ↦ (s, err (unknown_project pid)) | ok p ↦ (s, ok p) ]

  -- The communication block, with the thread that is created where a surface has a plugin.
  unfoldable pub open_thread :
      Environment Cluster → Uuid → String → Project → Action Cluster Communication
  open_thread env task_id summary proj s =
      let comm = proj.communication in
      if not s.hermes || comm.thread_surface == ""
      then (s, ok comm)
      else elim (env.create_thread comm.thread_surface (record {
        parent = proj.thread_parent;
        title = "task-" <> first 8 (env.encoder.uuid_text task_id);
        opener = "Task commissioned: " <> summary;
      })) [
        | ok ref ↦ (s, ok (record comm { thread_ref = ref }))
        | err no_plugin ↦ (emit (hermes_no_plugin comm.thread_surface task_id) s, ok comm)
        | err e ↦ (s, err (no_thread e))
      ]

  -- The reference of the prior-run context; an error is only reported.
  unfoldable pub prior_context :
      Environment Cluster → Project → String → Action Cluster (Option String)
  prior_context env proj task_type s = elim env.mnemosyne [
    | none ↦ (s, ok none)
    | some get_context ↦ elim (get_context proj.id task_type) [
      | ok ref ↦ (s, ok ref)
      | err why ↦ (emit (get_context_failed proj.id task_type why) s, ok none)
    ]
  ]

  unfoldable pub envelope_of :
      Environment Cluster
      → Draws
      → CommissionRequest
      → Project
      → Communication
      → Capabilities
      → Option String
      → Envelope
  unfolding execution_of
  envelope_of env d req proj comm caps context = record {
    schema_version = current_version;
    id = env.encoder.uuid_text d.task_id;
    parent_id = elim req.parent [ none ↦ none | some p ↦ some (env.encoder.uuid_text p) ];
    project_id = proj.id;
    created_at = env.format_time d.composed_at;
    task_type = req.task_type;
    backend = proj.backend;
    origin = req.origin;
    brief = req.brief;
    inputs = json_or_empty req.inputs;
    execution = execution_of req proj;
    communication = comm;
    capabilities = caps;
    context_ref = context;
    budget = elim req.budget [ none ↦ proj.default_budget | some b ↦ b ];
    acceptance = json_or_empty req.acceptance;
  }

  unfoldable pub insert_commissioned : Draws → Task → Action Cluster (Unit {0})
  insert_commissioned d t s =
      let (m, e) = insert_task d.inserted_at (some t) s.store in
      (record s { store = m }, elim e [ none ↦ ok tt | some x ↦ err (not_inserted x) ])

  -- All that comes before the record in the store: the task with its envelope.
  unfoldable pub compose : Environment Cluster → Draws → CommissionRequest → Action Cluster Task
  unfolding find_project open_thread prior_context envelope_of task_of
  compose env d req = do
    _ ← fail_with (check_request req)
    proj ← find_project req.project_id
    comm ← open_thread env d.task_id req.brief.summary proj
    caps ← lift (compose_capabilities env d.task_id d.jti d.minted_at proj)
    context ← prior_context env proj req.task_type
    let e = envelope_of env d req proj comm caps context
    _ ← fail_with (elim (validate (some e)) [ none ↦ none | some x ↦ some (invalid_envelope x) ])
    lift (ok (task_of d req proj e))

  unfoldable pub commission : Environment Cluster → Draws → CommissionRequest → Action Cluster Task
  unfolding insert_commissioned
  commission env d req = do t ← compose env d req; _ ← insert_commissioned d t; dispatch env d t
