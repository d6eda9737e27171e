-- ===== src/Minos/Recovery.antt =====
-- Reconciliation of running tasks with the pods at start-up (minos/core/reconcile.go). `wall` is the
-- reading of the store's clock.

pub mod Restart
use zakros.Base.{
  String, List, [], ◌∷◌, Option, none, some, Bool, ◌==◌, string_equality, for_each, if◌then◌else◌,
  Result, ok, err,
}
use zakros.Base.Int.{pos}
use zakros.Base.Clock.{Time}
use zakros.Storage.{Uuid, Error, not_found, conflict, State, Task, running, awaiting_review, failed}
use zakros.Storage.Memstore.{list_tasks, transition_task}
use zakros.Dispatch.{
  Dispatcher, DispatchError, pod_not_found, unreachable, Phase, unknown, pending, succeeded,
  Phase.running as pod_running, Phase.failed as failed_phase, unlisted,
}
use zakros.Minos.{
  Server, Cause, emit, no_pod_name, pod_missing, pod_succeeded, pod_failed, phase_unknown, adopted,
  pod_phase_error, transitioned, transition_failed,
}

module _ {Cluster : Type 0} where
  -- transitionReconciled: a conflict counts as a transition.
  unfoldable pub transition_reconciled :
      Time → Task → State → Cause → Server Cluster → Server Cluster
  transition_reconciled wall t to why s =
      let (m, e) = transition_task t.id to wall s.store in
      let v = record s { store = m } in
      elim e [
        | some not_found ↦ emit (transition_failed t.id to why) v
        | _ ↦ emit (transitioned t.id to why) v
      ]

  -- The switch on the pod's phase.
  unfoldable pub follow :
      Time → Task → String → Result DispatchError Phase → Server Cluster → Server Cluster
  unfolding transition_reconciled
  follow wall t pod (err pod_not_found) s = transition_reconciled wall t failed pod_missing s
  follow wall t pod (err unreachable) s = emit (pod_phase_error t.id pod unreachable) s
  follow wall t pod (ok succeeded) s = transition_reconciled wall t awaiting_review pod_succeeded s
  follow wall t pod (ok failed_phase) s = transition_reconciled wall t failed pod_failed s
  follow wall t pod (ok unknown) s = transition_reconciled wall t failed phase_unknown s
  follow wall t pod (ok pending) s = emit (adopted t.id pod pending) s
  follow wall t pod (ok pod_running) s = emit (adopted t.id pod pod_running) s
  follow wall t pod (ok (unlisted x)) s = emit (adopted t.id pod (unlisted x)) s

  module _ (d : Dispatcher Cluster) where
    -- The case of a pod name that is nil or empty, and the other.
    unfoldable pub reconcile_pod : Time → Task → Option String → Server Cluster → Server Cluster
    unfolding follow transition_reconciled
    reconcile_pod wall t none s = transition_reconciled wall t failed no_pod_name s
    reconcile_pod wall t (some pod) s =
        if pod == ""
        then transition_reconciled wall t failed no_pod_name s
        else follow wall t pod (d.pod_phase s.namespace pod s.cluster) s

    unfoldable pub reconcile_running : Time → Task → Server Cluster → Server Cluster
    unfolding reconcile_pod
    reconcile_running wall t s = reconcile_pod wall t t.pod_name s

    -- The in-memory store does not fail.
    unfoldable pub reconcile : Time → Server Cluster → Server Cluster
    unfolding reconcile_running
    reconcile wall s =
        for_each (reconcile_running wall) (list_tasks (running ∷ []) (pos 0) s.store) s
