-- ===== src/Minos/Commissioning/Contents.antt =====
-- What the envelope and the record of a commissioned task hold (minos/core/commission.go, Commission).
use zakros.Base.{
  String, Option, none, some, ◌≡◌, refl, arith, ok, nat_equality, string_equality, ◌==◌,
  if◌then◌else◌, same_text_iff,
}
use zakros.Envelope.{Envelope, Communication, Capabilities, validate, workspace_small}
use zakros.Storage.{Task, queued}
use zakros.Projects.{Project, get}
use zakros.Minos.{Server, Environment}
use zakros.Minos.Minting.{compose_capabilities}
use zakros.Minos.Dispatching.{Draws}
use zakros.Minos.Commissioning.{
  CommissionRequest, envelope_of, task_of, check_request, execution_of, first_non_empty,
  first_non_empty_workspace,
}

-- The project's communication block, but for the thread.
abbrev pub IsBlockOf : Project → Communication → Type 0
IsBlockOf p c = c ≡ record p.communication { thread_ref = c.thread_ref }

-- The project that the server finds for a request.
abbrev pub IsFound : {Cluster : Type 0} → Server Cluster → String → Project → Type 0
IsFound s id p = get (if id == "" then s.cfg.project.id else id) s.projects ≡ ok p

-- The envelope of a request: what the request says of the work, the project's defaults where it says
-- nothing, the project's communication block and identity, and the capabilities that are minted for it.
pub record IsEnclosed {Cluster : Type 0} (env : Environment Cluster) (d : Draws)
    (req : CommissionRequest) (p : Project) (e : Envelope) : Type 0 where
  pub valid : validate (some e) ≡ none
  pub id : e.id ≡ env.encoder.uuid_text d.task_id
  pub parent_id :
      e.parent_id ≡ elim req.parent [ none ↦ none | some t ↦ some (env.encoder.uuid_text t) ]
  pub project_id : e.project_id ≡ p.id
  pub backend : e.backend ≡ p.backend
  pub created : e.created_at ≡ env.format_time d.composed_at
  pub task_type : e.task_type ≡ req.task_type
  pub origin : e.origin ≡ req.origin
  pub brief : e.brief ≡ req.brief
  pub inputs : e.inputs ≡ (if req.inputs == "" then "{}" else req.inputs)
  pub acceptance : e.acceptance ≡ (if req.acceptance == "" then "{}" else req.acceptance)
  pub repo_url : e.execution.repo_url ≡ req.execution.repo_url
  pub branch : e.execution.branch ≡ req.execution.branch
  pub base_branch : e.execution.base_branch ≡ (
      if req.execution.base_branch == "" then p.default_base_branch else req.execution.base_branch)
  pub workspace_size : e.execution.workspace_size ≡ (
      if req.execution.workspace_size == ""
      then if p.default_workspace_size == "" then workspace_small else p.default_workspace_size
      else req.execution.workspace_size)
  pub communication : IsBlockOf p e.communication
  pub capabilities : compose_capabilities env d.task_id d.jti d.minted_at p ≡ ok e.capabilities
  pub budget : e.budget ≡ elim req.budget [ none ↦ p.default_budget | some b ↦ b ]

-- The task that is composed for a request: queued under its fresh identifier, for the project that the
-- request names, with the envelope of the request.
pub record IsComposed {Cluster : Type 0} (env : Environment Cluster) (d : Draws)
    (req : CommissionRequest) (s : Server Cluster) (t : Task) : Type 0 where
  pub checked : check_request req ≡ none
  pub id : t.id ≡ d.task_id
  pub state : t.state ≡ queued
  pub created : t.created_at ≡ d.created_at
  pub run : t.run_id ≡ none
  pub pr : t.pr_url ≡ none
  pub parent : t.parent_id ≡ req.parent
  pub task_type : t.task_type ≡ req.task_type
  pub enclosed :
      (p : Project) × (e : Envelope) × IsFound s req.project_id p
      × (t.project_id ≡ p.id)
      × (t.backend ≡ p.backend)
      × (t.envelope ≡ some e)
      × IsEnclosed env d req p e

module _ {Cluster : Type 0} where
  pub envelope_of-IsEnclosed :
      (env : Environment Cluster) (d : Draws) (req : CommissionRequest) (proj : Project)
      (comm : Communication) (caps : Capabilities) (context : Option String)
      → IsBlockOf proj comm
      → compose_capabilities env d.task_id d.jti d.minted_at proj ≡ ok caps
      → validate (some (envelope_of env d req proj comm caps context)) ≡ none
      → IsEnclosed env d req proj (envelope_of env d req proj comm caps context)
  unfolding envelope_of execution_of first_non_empty first_non_empty_workspace
  envelope_of-IsEnclosed env d req proj comm caps context block minted valid = record {
    valid = valid;
    id = refl;
    parent_id = ground arith;
    project_id = refl;
    backend = refl;
    created = refl;
    task_type = refl;
    origin = refl;
    brief = refl;
    inputs = refl;
    acceptance = refl;
    repo_url = refl;
    branch = refl;
    base_branch = ground (arith, same_text_iff proj.default_base_branch "");
    workspace_size = ground arith;
    communication = block;
    capabilities = minted;
    budget = refl;
  }

  pub task_of-IsComposed :
      (env : Environment Cluster) (d : Draws) (req : CommissionRequest) (s : Server Cluster)
      (proj : Project) (e : Envelope)
      → check_request req ≡ none
      → IsFound s req.project_id proj
      → IsEnclosed env d req proj e
      → IsComposed env d req s (task_of d req proj e)
  unfolding task_of
  task_of-IsComposed env d req s proj e passed found enclosed = record {
    checked = passed;
    id = refl;
    state = refl;
    created = refl;
    run = refl;
    pr = refl;
    parent = refl;
    task_type = refl;
    enclosed = (proj, e, found, refl, refl, refl, enclosed);
  }
