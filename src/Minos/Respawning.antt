-- ===== src/Minos/Respawning.antt =====
-- The respawn of a task that awaits a review (minos/core/commission.go, Respawn).
pub mod Fresh
use zakros.Base.{String, Option, none, some, Result, ok, err, not, if◌then◌else◌, nat_equality}
use zakros.Base.Maps.{insert}
use zakros.Envelope.{Envelope, Capabilities}
use zakros.Storage.{Uuid, Task, awaiting_review, same_state}
use zakros.Storage.Memstore.{Store, get_task}
use zakros.Projects.{Project, get}
use zakros.Minos.{
  Server, Environment, Failure, no_task, not_awaiting_review, no_envelope, unknown_project, emit,
  respawned,
}
use zakros.Minos.Minting.{compose_capabilities}
use zakros.Minos.Dispatching.{Draws, dispatch}

-- A Mnemosyne error, like the lack of a context, leaves the old reference.
unfoldable pub refresh_context :
    Option (String → String → Result String (Option String)) → Task → Envelope → Envelope
refresh_context none t e = e
refresh_context (some get_context) t e = elim (get_context t.project_id t.task_type) [
  | ok (some ref) ↦ record e { context_ref = some ref }
  | ok none ↦ e
  | err why ↦ e
]

-- GetTask copies the task and not its envelope, so that writes to the envelope reach the stored task.
abbrev pub share : Task → Store → Store
share t m = record m { tasks = insert t.id t m.tasks }

module _ {Cluster : Type 0} where
  unfoldable pub redispatch :
      Environment Cluster → Draws → Task → Server Cluster → Server Cluster × Result Failure Task
  redispatch env d t s =
      let (v, r) = dispatch env d t s in
      elim r [ err e ↦ (v, err e) | ok u ↦ (emit (respawned t.id) v, ok u) ]

  -- The task with the envelope of its next run.
  unfoldable pub refresh : Environment Cluster → Draws → Uuid → Server Cluster → Result Failure Task
  unfolding refresh_context
  refresh env d id s = elim (get_task id s.store) [
    | err e ↦ err (no_task e)
    | ok t ↦
        if not (same_state t.state awaiting_review)
        then err (not_awaiting_review t.state)
        else elim t.envelope [
          | none ↦ err no_envelope
          | some e ↦ elim (get t.project_id s.projects) [
            | err x ↦ err (unknown_project t.project_id)
            | ok proj ↦ elim (compose_capabilities env id d.jti d.minted_at proj) [
              | err x ↦ err x
              | ok caps ↦ ok (record t {
                envelope =
                    some (refresh_context env.mnemosyne t (record e { capabilities = caps }));
              })
            ]
          ]
        ]
  ]

  unfoldable pub respawn :
      Environment Cluster → Draws → Uuid → Server Cluster → Server Cluster × Result Failure Task
  unfolding redispatch refresh
  respawn env d id s = elim (refresh env d id s) [
    | err e ↦ (s, err e)
    | ok t ↦ redispatch env d t (record s { store = share t s.store })
  ]
