-- ===== src/Minos/Dispatching.antt =====
-- The spawn of a pod for a stored task (minos/core/commission.go, dispatch).
pub mod Outcomes
use zakros.Base.{String, Option, none, some, Result, ok, err}
use zakros.Base.Clock.{Time}
use zakros.Storage.{Uuid, Task, running, failed}
use zakros.Storage.Memstore.{transition_task, set_task_run}
use zakros.Dispatch.{PodSpec}
use zakros.Dispatch.Builder.{BuilderInput, build_pod_spec}
use zakros.Minos.{
  Server, Environment, Failure, not_built, not_spawned, not_recorded, not_moved, emit, build_failed,
  spawn_failed, setrun_failed, run_transition_failed, spawned,
}

-- What one commission or respawn draws: fresh identifiers, and readings of the server's clock, in
-- the order in which they are taken, with `inserted_at` and `moved_at` from the store's clock.
pub record Draws : Type 0 where
  pub task_id : Uuid
  pub run_id : Uuid
  pub jti : String
  pub minted_at : Time
  pub composed_at : Time
  pub created_at : Time
  pub inserted_at : Time
  pub moved_at : Time
  pub started_at : Time

abbrev workspace_of : Task → String
workspace_of t = elim t.envelope [ none ↦ "" | some e ↦ e.execution.workspace_size ]

module _ {Cluster : Type 0} where
  abbrev pub builder_input : Draws → Task → Server Cluster → BuilderInput
  builder_input d t s = record {
    envelope = t.envelope;
    task_id = t.id;
    run_id = d.run_id;
    namespace = s.namespace;
    image = s.cfg.project.plugin_image;
    project_id = s.cfg.project.id;
    workspace_size = workspace_of t;
    minos_url = s.cfg.minos_pod_url;
    github_broker_url = s.cfg.github_broker_pod_url;
    hecate_url = s.cfg.hecate_pod_url;
    apollo_url = s.cfg.apollo_pod_url;
    argus_sidecar_image = s.cfg.project.argus_sidecar_image;
  }

  -- The error of this transition is dropped.
  abbrev fail_task : Draws → Task → Server Cluster → Server Cluster
  fail_task d t s = record s { store = (transition_task t.id failed d.moved_at s.store).0 }

  -- SetTaskRun and what follows it. The returned task is the caller's copy.
  unfoldable pub record_run :
      Draws → Task → String → Server Cluster → Server Cluster × Result Failure Task
  record_run d t pod s =
      let (m, e) = set_task_run t.id d.run_id pod s.store in
      elim e [
        | some x ↦ (emit (setrun_failed t.id pod x) (record s { store = m }), err (not_recorded x))
        | none ↦
            let (m', e') = transition_task t.id running d.moved_at m in
            elim e' [
              | some x ↦ (
                emit (run_transition_failed t.id pod x) (record s { store = m' }),
                err (not_moved x),
              )
              | none ↦ (
                emit (spawned t.id d.run_id pod) (record s { store = m' }),
                ok (record t {
                  state = running;
                  run_id = some d.run_id;
                  pod_name = some pod;
                  started_at = some d.started_at;
                }),
              )
            ]
      ]

  unfoldable pub spawn :
      Environment Cluster
      → Draws
      → Task
      → PodSpec
      → Server Cluster
      → Server Cluster × Result Failure Task
  unfolding record_run
  spawn env d t spec s =
      let (c, e) = env.dispatcher.spawn_pod spec s.cluster in
      elim e [
        | some x ↦ (
          emit (spawn_failed t.id spec.name x) (fail_task d t (record s { cluster = c })),
          err (not_spawned x),
        )
        | none ↦ record_run d t spec.name (record s { cluster = c })
      ]

  unfoldable pub dispatch :
      Environment Cluster → Draws → Task → Server Cluster → Server Cluster × Result Failure Task
  unfolding spawn
  dispatch env d t s = elim (build_pod_spec env.encoder env.resolve (builder_input d t s)) [
    | err x ↦ (emit (build_failed t.id x) (fail_task d t s), err (not_built x))
    | ok spec ↦ spawn env d t spec s
  ]
