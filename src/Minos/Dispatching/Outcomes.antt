-- ===== src/Minos/Dispatching/Outcomes.antt =====
-- How a dispatch ends for a stored task (minos/core/commission.go, dispatch).
use zakros.Base.{
  nat_equality, eqb_iff, String, none, some, true, ◌≡◌, ◌⊎◌, inl, inr, refl, sym, ◌∙◌, ap, subst,
  arith, Option-cases, Result-cases, ok-eq, Result, ok, err,
}
use zakros.Base.Maps.{lookup, insert, lookup-insert}
use zakros.Storage.{Uuid, Task, State, queued, awaiting_review, running, failed}
use zakros.Storage.Memstore.{Store, transition_task, set_task_run, advance, valid_transition}
use zakros.Storage.Memstore.Transition.{moved, transition_task-moved, Changed}
use zakros.Dispatch.{PodSpec}
use zakros.Dispatch.Builder.{build_pod_spec, pod_name_of}
use zakros.Dispatch.Builder.Separation.{build_pod_spec-name}
use zakros.Minos.{Server, Environment, Failure}
use zakros.Minos.Dispatching.{Draws, builder_input, record_run, spawn, dispatch}

-- The states that a dispatch is called in.
abbrev pub IsWaiting : State → Type 0
IsWaiting st = (st ≡ queued) ⊎ (st ≡ awaiting_review)

abbrev pub with_run : Uuid → String → Task → Task
with_run run_id pod t = record t { run_id = some run_id; pod_name = some pod }

-- The task once its pod is up.
abbrev pub launched : Draws → String → Task → Task
launched d pod t = advance running d.moved_at (with_run d.run_id pod t)

-- What is returned to the caller, on success, of its own copy of the task.
abbrev pub returned : Draws → String → Task → Task
returned d pod t = record t {
  state = running;
  run_id = some d.run_id;
  pod_name = some pod;
  started_at = some d.started_at;
}

waiting-running : (st : State) → IsWaiting st → valid_transition st running ≡ true
unfolding valid_transition
waiting-running st (inl e) = subst (λ x. valid_transition x running ≡ true) (sym e) refl
waiting-running st (inr e) = subst (λ x. valid_transition x running ≡ true) (sym e) refl

waiting-failed : (st : State) → IsWaiting st → valid_transition st failed ≡ true
unfolding valid_transition
waiting-failed st (inl e) = subst (λ x. valid_transition x failed ≡ true) (sym e) refl
waiting-failed st (inr e) = subst (λ x. valid_transition x failed ≡ true) (sym e) refl

set_task_run-stored :
    (id run_id : Uuid) (pod : String) (m : Store) (u : Task)
    → lookup id m.tasks ≡ some u
    → set_task_run id run_id pod m
      ≡ (record m { tasks = insert id (with_run run_id pod u) m.tasks }, none)
unfolding set_task_run
set_task_run-stored id run_id pod m u e = rw (e, set_task_run) refl

-- SetTaskRun and the transition go through, one after the other.
abbrev settled : Uuid → Draws → String → Task → Store → Store
settled id d pod u m =
    moved id running d.moved_at (with_run d.run_id pod u)
      (record m { tasks = insert id (with_run d.run_id pod u) m.tasks })

settled-Changed :
    (id : Uuid) (d : Draws) (pod : String) (u : Task) (m : Store)
    → Changed id (launched d pod u) m (settled id d pod u m)
settled-Changed id d pod u m j = ground (
  arith,
  lookup-insert id j (launched d pod u) (insert id (with_run d.run_id pod u) m.tasks),
  lookup-insert id j (with_run d.run_id pod u) m.tasks,
)

moved-Changed :
    (id : Uuid) (to : State) (d : Draws) (u : Task) (m : Store)
    → lookup id m.tasks ≡ some u
    → valid_transition u.state to ≡ true
    → Changed id (advance to d.moved_at u) m (transition_task id to d.moved_at m).0
moved-Changed id to d u m e valid j =
    ap (λ r. lookup j r.0.tasks) (transition_task-moved id to d.moved_at m u e valid)
    ∙ lookup-insert id j (advance to d.moved_at u) m.tasks

module _ {Cluster : Type 0} where
  record_run-done :
      (d : Draws) (t u : Task) (pod : String) (s : Server Cluster)
      → lookup t.id s.store.tasks ≡ some u
      → IsWaiting u.state
      → ((record_run d t pod s).0.store ≡ settled t.id d pod u s.store)
        × ((record_run d t pod s).1 ≡ ok (returned d pod t))
  unfolding record_run
  record_run-done d t u pod s e w =
      let m : Store = record s.store {
        tasks = insert t.id (with_run d.run_id pod u) s.store.tasks;
      } in
      let here : lookup t.id m.tasks ≡ some (with_run d.run_id pod u) = ground (
        arith,
        eqb_iff t.id t.id,
        lookup-insert t.id t.id (with_run d.run_id pod u) s.store.tasks,
      ) in
      let through =
        transition_task-moved t.id running d.moved_at m (with_run d.run_id pod u) here
          (waiting-running u.state w) in
      ground (arith, through, set_task_run-stored t.id d.run_id pod s.store u e)

  -- What a dispatch of the stored task `u` leaves, by its result: the task runs in its pod, or has failed.
  abbrev pub Ends :
      Environment Cluster
      → Draws
      → Task
      → Task
      → Store
      → Server Cluster × Result Failure Task
      → Type 0
  Ends env d t u m (v, ok w) =
      let pod = pod_name_of env.encoder t.id d.run_id in
      Changed t.id (launched d pod u) m v.store × (w ≡ returned d pod t)
  Ends env d t u m (v, err e) = Changed t.id (advance failed d.moved_at u) m v.store

  ended :
      (env : Environment Cluster) (d : Draws) (t u : Task) (pod : String) (m : Store)
      (p : Server Cluster × Result Failure Task)
      → pod ≡ pod_name_of env.encoder t.id d.run_id
      → p.0.store ≡ settled t.id d pod u m
      → p.1 ≡ ok (returned d pod t)
      → Ends env d t u m p
  ended env d t u pod m (v, err x) same e r = cc
  ended env d t u pod m (v, ok w) same e r =
      rw (← same) (λ j. ap (λ n. lookup j n.tasks) e ∙ settled-Changed t.id d pod u m j, ok-eq r)

  spawn-Ends :
      (env : Environment Cluster) (d : Draws) (t u : Task) (spec : PodSpec) (s : Server Cluster)
      → spec.name ≡ pod_name_of env.encoder t.id d.run_id
      → lookup t.id s.store.tasks ≡ some u
      → IsWaiting u.state
      → Ends env d t u s.store (spawn env d t spec s)
  unfolding spawn
  spawn-Ends env d t u spec s same e w =
      let (c, r) = env.dispatcher.spawn_pod spec s.cluster in
      elim (Option-cases r) [
        | inr (x, down) ↦
            rw (spawn, down) (moved-Changed t.id failed d u s.store e (waiting-failed u.state w))
        | inl up ↦
            let (store, result) = record_run-done d t u spec.name (record s { cluster = c }) e w in
            rw (spawn, up)
              (ended env d t u spec.name s.store
                (record_run d t spec.name (record s { cluster = c })) same store result)
      ]

  -- `dispatch` on a stored task that is queued or awaits a review either leaves the task running in
  -- the pod whose name it returns, or leaves it failed; no other task is touched.
  pub dispatch-Ends :
      (env : Environment Cluster) (d : Draws) (t u : Task) (s : Server Cluster)
      → lookup t.id s.store.tasks ≡ some u
      → IsWaiting u.state
      → Ends env d t u s.store (dispatch env d t s)
  unfolding dispatch
  dispatch-Ends env d t u s e w =
      elim (Result-cases (build_pod_spec env.encoder env.resolve (builder_input d t s))) [
        | inr (x, bad) ↦
            rw (dispatch, bad) (moved-Changed t.id failed d u s.store e (waiting-failed u.state w))
        | inl (spec, good) ↦
            rw (dispatch, good)
              (spawn-Ends env d t u spec s
                (build_pod_spec-name env.encoder env.resolve (builder_input d t s) spec good) e w)
      ]
