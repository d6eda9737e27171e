-- ===== src/Minos/Memory.antt =====
-- The routes of the run records (minos/core/api.go, handleReportMemory and collectKnownSecrets;
-- minos/core/iris_memory.go). The store of Mnemosyne is the in-memory one, `none` if it is not
-- configured. What the JSON and UUID parsers return is an argument, `none` for an error.
pub mod Secrets
use zakros.Base.{
  ℕ, string_equality, String, List, [], ◌∷◌, ◌++◌, Option, none, some, ◌||◌, ◌==◌, if◌then◌else◌,
  ok, err,
}
use zakros.Base.Clock.{Time}
use zakros.Storage.{Uuid, Task, not_found, conflict}
use zakros.Storage.Memstore.{get_task}
use zakros.Envelope.{InjectedCredential}
use zakros.Mnemosyne.{RunOutcome, RunRecord, RunStore, Formats, store_run, get_context}
use zakros.Mnemosyne.Sanitizer.{sanitize}
use zakros.Minos.{Environment, Server, emit, run_stored, memory_looked_up}
use zakros.Minos.Webhooks.{Reply, status, failure}

pub record ReportMemoryRequest : Type 0 where
  pub outcome : String
  pub summary : String
  pub body : String

pub record MemoryLookupRequest : Type 0 where
  pub project_id : String
  pub task_type : String

-- The answer to a lookup, the zero value if there is no context.
pub data LookupReply : Type 0 where
  found : String → String → ℕ → LookupReply
  lookup_failure : ℕ → LookupReply

unfoldable known_outcome : String → RunOutcome
known_outcome o = if o == "completed" || o == "failed" || o == "terminated" then o else "completed"

module _ {Cluster : Type 0} where
  unfoldable pub resolved : Environment Cluster → List InjectedCredential → List String
  resolved env [] = []
  resolved env (ic ∷ ics) =
      let rest = resolved env ics in
      if ic.credentials_ref == "" then rest else elim (env.resolve ic.credentials_ref) [
        | none ↦ rest
        | some v ↦ if v == "" then rest else v ∷ rest
      ]

  unfoldable pub collect_known_secrets : Environment Cluster → Task → List String
  unfolding resolved
  collect_known_secrets env t = elim t.envelope [
    | none ↦ []
    | some e ↦
        let tok = e.capabilities.mcp_auth_token in
        resolved env e.capabilities.injected_credentials ++ (if tok == "" then [] else tok ∷ [])
  ]

  -- The record before it is stored, which gives it its identifier and its time.
  unfoldable pub run_record : Environment Cluster → Uuid → Task → ReportMemoryRequest → RunRecord
  unfolding known_outcome sanitize collect_known_secrets
  run_record env id t body = record {
    id = 0;
    task_id = id;
    run_id = elim t.run_id [ none ↦ 0 | some run ↦ run ];
    project_id = t.project_id;
    task_type = t.task_type;
    outcome = known_outcome body.outcome;
    summary = body.summary;
    body = sanitize body.body (collect_known_secrets env t);
    created_at = 0;
  }

  -- `fresh` is the identifier that StoreRun draws, `wall` the reading of its clock.
  unfoldable pub handle_report_memory :
      Environment Cluster
      → Option Uuid
      → Option ReportMemoryRequest
      → Uuid
      → Time
      → Server Cluster
      → Option RunStore
      → Option RunStore × (Server Cluster × Reply)
  unfolding run_record store_run
  handle_report_memory env parsed body fresh wall s none = (none, (s, failure 503))
  handle_report_memory env none body fresh wall s (some runs) = (some runs, (s, failure 400))
  handle_report_memory env (some id) none fresh wall s (some runs) = (some runs, (s, failure 400))
  handle_report_memory env (some id) (some body) fresh wall s (some runs) =
      elim (get_task id s.store) [
        | err not_found ↦ (some runs, (s, failure 404))
        | err conflict ↦ (some runs, (s, failure 500))
        | ok t ↦
            let (runs', failed) = store_run fresh wall (some (run_record env id t body)) runs in
            if failed
            then (some runs', (s, failure 500))
            else (some runs', (emit (run_stored id (known_outcome body.outcome)) s, status "ok"))
      ]

  unfoldable handle_memory_lookup :
      Formats
      → Option MemoryLookupRequest
      → Server Cluster
      → Option RunStore
      → Server Cluster × LookupReply
  unfolding get_context
  handle_memory_lookup f body s none = (s, lookup_failure 503)
  handle_memory_lookup f none s (some runs) = (s, lookup_failure 400)
  handle_memory_lookup f (some body) s (some runs) =
      if body.project_id == "" || body.task_type == "" then (s, lookup_failure 400) else (
        emit (memory_looked_up body.project_id body.task_type) s,
        elim (get_context f body.project_id body.task_type runs) [
          | none ↦ found "" "" 0
          | some c ↦ found c.ref c.body c.prior_runs
        ],
      )
