-- ===== src/Minos/Recovery/Restart.antt =====
-- What reconciliation does to every stored task (minos/core/reconcile.go, Reconcile).
use zakros.Base.{
  nat_equality, string_equality, ◌==◌, String, [], ◌∷◌, Option, none, some, ◌≡◌, refl, sym, ◌∙◌, ap,
  inl, inr, arith, if◌then◌else◌, Bool-cases, Result, ok, err,
}
use zakros.Base.Maps.{lookup}
use zakros.Base.Clock.{Time}
use zakros.Storage.{Uuid, Task, State, running, awaiting_review, failed, same_state}
use zakros.Storage.Memstore.{admits}
use zakros.Storage.Memstore.Links.{IsLinked}
use zakros.Storage.Memstore.Loops.{
  turned, tried, tried_again, turned-same, transition_task-turned, for_each-list_tasks,
}
use zakros.Dispatch.{
  Dispatcher, DispatchError, pod_not_found, unreachable, Phase, unknown, pending, succeeded,
  Phase.running as pod_running, Phase.failed as failed_phase, unlisted,
}
use zakros.Minos.{Server, Cause, no_pod_name}
use zakros.Minos.Recovery.{
  transition_reconciled, follow, reconcile_pod, reconcile_running, reconcile,
}

-- The state to which a phase moves a running task, if any.
abbrev target_of : Result DispatchError Phase → Option State
target_of (err pod_not_found) = some failed
target_of (err unreachable) = none
target_of (ok unknown) = some failed
target_of (ok pending) = none
target_of (ok pod_running) = none
target_of (ok (unlisted x)) = none
target_of (ok succeeded) = some awaiting_review
target_of (ok failed_phase) = some failed

module _ {Cluster : Type 0} (d : Dispatcher Cluster) (namespace : String) (cluster : Cluster) where
  -- The state to which a task's pod moves it, if any.
  unfoldable pub destination : Option String → Option State
  destination none = some failed
  destination (some pod) =
      if pod == "" then some failed else target_of (d.pod_phase namespace pod cluster)

-- The attempt to move, if there is a destination.
abbrev pub driven : Time → Option State → Task → Task
driven wall none x = x
driven wall (some to) x = tried to wall x

driven_again :
    (wall : Time) (o : Option State) (x : Task) → driven wall o (driven wall o x) ≡ driven wall o x
driven_again wall none x = refl
driven_again wall (some to) x = tried_again to wall x

-- The server acts on the same pods throughout.
record Same {Cluster : Type 0} (s v : Server Cluster) : Type 0 where
  namespace : v.namespace ≡ s.namespace
  cluster : v.cluster ≡ s.cluster

module _ {Cluster : Type 0} where
  destination-Same :
      (d : Dispatcher Cluster) (s v : Server Cluster)
      → Same s v
      → (o : Option String)
      → destination d v.namespace v.cluster o ≡ destination d s.namespace s.cluster o
  destination-Same d s v h o = cc (h.namespace, h.cluster)

  transition_reconciled-Same :
      (wall : Time) (u : Task) (to : State) (why : Cause) (r s : Server Cluster)
      → Same r s
      → Same r (transition_reconciled wall u to why s)
  unfolding transition_reconciled
  transition_reconciled-Same wall u to why r s h = record {
    namespace = ground (arith, h.namespace);
    cluster = ground (arith, h.cluster);
  }

  follow-Same :
      (wall : Time) (u : Task) (pod : String) (p : Result DispatchError Phase)
      (r s : Server Cluster)
      → Same r s
      → Same r (follow wall u pod p s)
  unfolding follow
  follow-Same wall u pod (err pod_not_found) r s h =
      transition_reconciled-Same wall u failed _ r s h
  follow-Same wall u pod (err unreachable) r s h = record {
    namespace = h.namespace;
    cluster = h.cluster;
  }
  follow-Same wall u pod (ok unknown) r s h = transition_reconciled-Same wall u failed _ r s h
  follow-Same wall u pod (ok pending) r s h = record {
    namespace = h.namespace;
    cluster = h.cluster;
  }
  follow-Same wall u pod (ok pod_running) r s h = record {
    namespace = h.namespace;
    cluster = h.cluster;
  }
  follow-Same wall u pod (ok (unlisted x)) r s h = record {
    namespace = h.namespace;
    cluster = h.cluster;
  }
  follow-Same wall u pod (ok succeeded) r s h =
      transition_reconciled-Same wall u awaiting_review _ r s h
  follow-Same wall u pod (ok failed_phase) r s h = transition_reconciled-Same wall u failed _ r s h

  transition_reconciled-turned :
      (wall : Time) (u : Task) (to : State) (why : Cause) (s : Server Cluster) (j : Uuid)
      → lookup j (transition_reconciled wall u to why s).store.tasks
        ≡ turned (tried to wall) u j (lookup j s.store.tasks)
  unfolding transition_reconciled
  transition_reconciled-turned wall u to why s j =
      ground (arith, transition_task-turned u to wall s.store j)

  follow-turned :
      (wall : Time) (u : Task) (pod : String) (p : Result DispatchError Phase) (s : Server Cluster)
      (j : Uuid)
      → lookup j (follow wall u pod p s).store.tasks
        ≡ turned (driven wall (target_of p)) u j (lookup j s.store.tasks)
  unfolding follow
  follow-turned wall u pod (err pod_not_found) s j =
      transition_reconciled-turned wall u failed _ s j
  follow-turned wall u pod (err unreachable) s j = sym (turned-same u j (lookup j s.store.tasks))
  follow-turned wall u pod (ok unknown) s j = transition_reconciled-turned wall u failed _ s j
  follow-turned wall u pod (ok pending) s j = sym (turned-same u j (lookup j s.store.tasks))
  follow-turned wall u pod (ok pod_running) s j = sym (turned-same u j (lookup j s.store.tasks))
  follow-turned wall u pod (ok (unlisted x)) s j = sym (turned-same u j (lookup j s.store.tasks))
  follow-turned wall u pod (ok succeeded) s j =
      transition_reconciled-turned wall u awaiting_review _ s j
  follow-turned wall u pod (ok failed_phase) s j = transition_reconciled-turned wall u failed _ s j

  module _ (d : Dispatcher Cluster) where
    reconcile_pod-turned :
        (wall : Time) (u : Task) (o : Option String) (s : Server Cluster) (j : Uuid)
        → lookup j (reconcile_pod d wall u o s).store.tasks
          ≡ turned
              (driven wall (destination d s.namespace s.cluster o))
              u
              j
              (lookup j s.store.tasks)
    unfolding reconcile_pod destination
    reconcile_pod-turned wall u none s j =
        transition_reconciled-turned wall u failed no_pod_name s j
    reconcile_pod-turned wall u (some pod) s j = elim (Bool-cases (pod == "")) [
      | inl bare ↦ rw bare (transition_reconciled-turned wall u failed no_pod_name s j)
      | inr named ↦ rw named (follow-turned wall u pod (d.pod_phase s.namespace pod s.cluster) s j)
    ]

    reconcile_pod-Same :
        (wall : Time) (u : Task) (o : Option String) (r s : Server Cluster)
        → Same r s
        → Same r (reconcile_pod d wall u o s)
    unfolding reconcile_pod
    reconcile_pod-Same wall u none r s h =
        transition_reconciled-Same wall u failed no_pod_name r s h
    reconcile_pod-Same wall u (some pod) r s h = elim (Bool-cases (pod == "")) [
      | inl bare ↦ rw bare (transition_reconciled-Same wall u failed no_pod_name r s h)
      | inr named ↦ rw named (follow-Same wall u pod (d.pod_phase s.namespace pod s.cluster) r s h)
    ]

    -- Reconciliation moves every running task as its pod demands: to failed if it names no pod, or its
    -- pod is missing, failed or of the empty phase; to awaiting review if its pod has succeeded; and
    -- nowhere if the pod is pending, running or of any phase that the program does not name, or if the
    -- dispatcher fails. It leaves all other tasks alone. It is said of stores that the writes can reach.
    pub reconcile-lookup :
        (wall : Time) (s : Server Cluster) (id : Uuid) (t : Task)
        → IsLinked s.store
        → lookup id s.store.tasks ≡ some t
        → lookup id (reconcile d wall s).store.tasks
          ≡ some (
              if same_state t.state running
              then driven wall (destination d s.namespace s.cluster t.pod_name) t
              else t)
    unfolding reconcile reconcile_running admits
    reconcile-lookup wall s id t l e =
        for_each-list_tasks (λ (v : Server Cluster). v.store) (reconcile_running d wall)
          (λ u. driven wall (destination d s.namespace s.cluster u.pod_name)) (Same s)
          (λ u v g. reconcile_pod-Same wall u u.pod_name s v g)
          (λ u v j g.
            reconcile_pod-turned wall u u.pod_name v j
            ∙ ap (λ o. turned (driven wall o) u j (lookup j v.store.tasks))
                (destination-Same d s v g u.pod_name))
          id t (driven_again wall (destination d s.namespace s.cluster t.pod_name) t) (running ∷ [])
          s (record { namespace = refl; cluster = refl }) l e
        ∙ ap some (ground arith)
