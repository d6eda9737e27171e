-- ===== src/Minos/Commissioning/Outcome.antt =====
-- How a commission ends (minos/core/commission.go, Commission and dispatch).
use zakros.Base.{
  ◌==◌, nat_equality, eqb_iff, none, some, ◌≡◌, ◌⊎◌, inl, inr, refl, sym, ◌∙◌, ap, subst, arith,
  Result, ok, err, if◌then◌else◌,
}
use zakros.Base.Maps.{lookup, insert, lookup-insert}
use zakros.Storage.{Task, same_state, other, queued, running, failed}
use zakros.Storage.Memstore.{Store, insert_task, with_defaults, advance}
use zakros.Storage.Memstore.Transition.{Changed, advance-Stamped}
use zakros.Dispatch.Builder.{pod_name_of}
use zakros.Minos.{Server, Environment, Failure}
use zakros.Minos.Dispatching.{Draws, dispatch}
use zakros.Minos.Dispatching.Outcomes.{launched, returned, with_run, Ends, dispatch-Ends}
use zakros.Minos.Commissioning.{
  CommissionRequest, Action, ◌>>=◌, compose, insert_commissioned, commission,
}
use zakros.Minos.Commissioning.Contents.{IsComposed}
use zakros.Minos.Commissioning.Envelopes.{Keeps, compose-Keeps}

-- What a commission leaves, by its result.
abbrev pub Ended :
    {Cluster : Type 0}
    → Environment Cluster
    → Draws
    → CommissionRequest
    → Server Cluster
    → Server Cluster × Result Failure Task
    → Type 0
Ended env d req s (v, ok w) =
    (t u : Task) × IsComposed env d req s t
    × Changed d.task_id u s.store v.store
    × (u.state ≡ running)
    × (u.envelope ≡ t.envelope)
    × (u.run_id ≡ some d.run_id)
    × (u.pod_name ≡ some (pod_name_of env.encoder d.task_id d.run_id))
    × (w ≡ returned d (pod_name_of env.encoder d.task_id d.run_id) t)
Ended env d req s (v, err e) =
    (v.store ≡ s.store) ⊎ ((u : Task) × Changed d.task_id u s.store v.store × (u.state ≡ failed))

module _ {Cluster : Type 0} where
  -- The record of a task that is not in the store yet.
  insert_commissioned-fresh :
      (d : Draws) (t : Task) (s : Server Cluster)
      → lookup t.id s.store.tasks ≡ none
      → insert_commissioned d t s ≡ (
        record s {
          store = record s.store {
            tasks = insert t.id (with_defaults d.inserted_at t) s.store.tasks;
          };
        },
        ok tt,
      )
  unfolding insert_commissioned insert_task
  insert_commissioned-fresh d t s e = rw (e, insert_task) refl

  -- A commission under an identifier that is not in use either leaves the store as it was, or leaves the new
  -- task failed, and returns an error then; or it succeeds, and leaves the new task running in the pod
  -- that it returns, for the project that the request names or that the server defaults to. The task's
  -- envelope passes validation; its brief, origin, task type, repository and branch are the request's; its
  -- inputs, acceptance, base branch, workspace size and budget are the request's where this gives them,
  -- and the defaults otherwise; its capabilities are minted from the project. No other task is touched.
  pub commission-Ended :
      (env : Environment Cluster) (d : Draws) (req : CommissionRequest) (s : Server Cluster)
      → lookup d.task_id s.store.tasks ≡ none
      → Ended env d req s (commission env d req s)
  unfolding commission
  commission-Ended env d req s fresh = composed (compose env d req s) (compose-Keeps env d req s)
    where
      after : Task → Action Cluster Task
      after t = insert_commissioned d t >>= λ _. dispatch env d t

      inserted : Task → Server Cluster → Server Cluster
      inserted t v = record v {
        store = record v.store {
          tasks = insert t.id (with_defaults d.inserted_at t) v.store.tasks;
        };
      }

      -- The record of `u` over the inserted one, told over the store before.
      settled :
          (t u : Task) (m n k : Store)
          → IsComposed env d req s t
          → m ≡ s.store
          → n.tasks ≡ insert t.id (with_defaults d.inserted_at t) m.tasks
          → Changed t.id u n k
          → Changed d.task_id u s.store k
      settled t u m n k c e i h j =
          subst (λ x. lookup j k.tasks ≡ (if x == j then some u else lookup j s.store.tasks)) c.id
            (ground (
              arith,
              h j,
              ap (λ y. lookup j y) i,
              ap (λ y. lookup j y.tasks) e,
              lookup-insert t.id j (with_defaults d.inserted_at t) m.tasks,
            ))

      dispatched :
          (t : Task) (v : Server Cluster) (r : Server Cluster × Result Failure Task)
          → IsComposed env d req s t
          → v.store ≡ s.store
          → Ends env d t (with_defaults d.inserted_at t) (inserted t v).store r
          → Ended env d req s r
      dispatched t v (v', err x) c e h = inr (
        advance failed d.moved_at (with_defaults d.inserted_at t),
        settled t _ v.store (inserted t v).store v'.store c e refl h,
        (advance-Stamped failed d.moved_at (with_defaults d.inserted_at t)).state,
      )
      dispatched t v (v', ok w) c e (h, same) =
          let pod = pod_name_of env.encoder t.id d.run_id in
          let stamped =
            advance-Stamped running d.moved_at
              (with_run d.run_id pod (with_defaults d.inserted_at t)) in
          let name : pod ≡ pod_name_of env.encoder d.task_id d.run_id =
            ap (λ i. pod_name_of env.encoder i d.run_id) c.id in
          (
            t,
            launched d pod (with_defaults d.inserted_at t),
            c,
            settled t _ v.store (inserted t v).store v'.store c e refl h,
            stamped.state,
            stamped.envelope,
            stamped.run_id,
            stamped.pod_name ∙ ap some name,
            same ∙ ap (λ p. returned d p t) name,
          )

      composed :
          (r : Server Cluster × Result Failure Task)
          → Keeps (IsComposed env d req s) s r
          → Ended env d req s (elim r.1 [ ok t ↦ after t r.0 | err e ↦ (r.0, err e) ])
      composed (v, err e) k = inl k
      composed (v, ok t) (k, c) =
          let free : lookup t.id v.store.tasks ≡ none = rw c.id (rw k fresh) in
          let here : lookup t.id (inserted t v).store.tasks ≡ some (with_defaults d.inserted_at t) =
            ground (
              arith,
              eqb_iff t.id t.id,
              lookup-insert t.id t.id (with_defaults d.inserted_at t) v.store.tasks,
            ) in
          subst
            (λ q.
              Ended env d req s (elim q.1 [ ok _ ↦ dispatch env d t q.0 | err x ↦ (q.0, err x) ]))
            (sym (insert_commissioned-fresh d t v free))
            (dispatched t v (dispatch env d t (inserted t v)) c k (
              dispatch-Ends env d t (with_defaults d.inserted_at t) (inserted t v) here (
                inl (
                  subst (λ st. (if same_state st (other "") then queued else st) ≡ queued)
                    (sym c.state) refl))))
