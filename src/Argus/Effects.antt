-- ===== src/Argus/Effects.antt =====
-- What each action of Argus does to the tracked pods and to the stored tasks (minos/argus/argus.go).
use zakros.Base.{
  nat_equality, none, some, Bool, true, false, ◌==◌, if◌then◌else◌, ◌≡◌, ◌⊎◌, inl, inr, arith,
  eqb_iff, Option-cases,
}
use zakros.Base.Maps.{lookup, lookup-insert, lookup-remove}
use zakros.Base.Clock.{Time}
use zakros.Storage.{
  Uuid, State.running as task_running, State.awaiting_review as task_awaiting_review,
  State.failed as task_failed, State as TaskState, same_state,
}
use zakros.Storage.Memstore.{Store, transition_task, valid_transition, advance, stamp}
use zakros.Dispatch.{Dispatcher}
use zakros.Argus.{State, World, Reason}
use zakros.Argus.Tracking.{update, untrack_task}
use zakros.Argus.Rules.{post_thread, transition, delete_pod}

-- The stored task of this identifier is running.
unfoldable pub is_running : Uuid → Store → Bool
is_running id s = elim (lookup id s.tasks) [
  | none ↦ false
  | some t ↦ same_state t.state task_running
]

-- The states to which Argus moves a task.
abbrev pub Stops : TaskState → Type 0
Stops to = (same_state to task_failed ≡ true) ⊎ (same_state to task_awaiting_review ≡ true)

transition_task-is_running :
    (id j : Uuid) (to : TaskState) (now : Time) (s : Store)
    → Stops to
    → is_running j (transition_task id to now s).0 ≡ (if id == j then false else is_running j s)
unfolding transition_task is_running valid_transition advance stamp
transition_task-is_running id j to now s h = elim (Option-cases (lookup id s.tasks)) [
  | inl e ↦ ground (arith, eqb_iff id j)
  | inr (t, e) ↦ ground (arith, lookup-insert id j (advance to now t) s.tasks)
]

module _ {Cluster : Type 0} where
  pub update-pods :
      (f : State → State) (id j : Uuid) (w : World Cluster)
      → lookup j (update f id w).pods
        ≡ elim (lookup j w.pods) [ none ↦ none | some st ↦ some (if id == j then f st else st) ]
  update-pods f id j w = elim (Option-cases (lookup id w.pods)) [
    | inl e ↦ ground (arith, eqb_iff id j)
    | inr (st, e) ↦ ground (arith, lookup-insert id j (f st) w.pods)
  ]

  pub transition-pods :
      (id : Uuid) (to : TaskState) (wall : Time) (w : World Cluster)
      → (transition id to wall w).pods ≡ w.pods
  unfolding transition
  transition-pods id to wall w = ground arith

  transition-store :
      (id : Uuid) (to : TaskState) (wall : Time) (w : World Cluster)
      → (transition id to wall w).store ≡ (transition_task id to wall w.store).0
  unfolding transition
  transition-store id to wall w = ground arith

  pub transition-cfg :
      (id : Uuid) (to : TaskState) (wall : Time) (w : World Cluster)
      → (transition id to wall w).cfg ≡ w.cfg
  unfolding transition
  transition-cfg id to wall w = ground arith

  pub transition-is_running :
      (id j : Uuid) (to : TaskState) (wall : Time) (w : World Cluster)
      → Stops to
      → is_running j (transition id to wall w).store
        ≡ (if id == j then false else is_running j w.store)
  transition-is_running id j to wall w h =
      rw (transition-store id to wall w) (transition_task-is_running id j to wall w.store h)

  update-cfg : (f : State → State) (id : Uuid) (w : World Cluster) → (update f id w).cfg ≡ w.cfg
  update-cfg f id w = ground arith

  pub update-store :
      (f : State → State) (id : Uuid) (w : World Cluster) → (update f id w).store ≡ w.store
  update-store f id w = ground arith

  pub post_thread-pods :
      (st : State) (why : Reason) (w : World Cluster) → (post_thread st why w).pods ≡ w.pods
  post_thread-pods st why w = ground arith

  pub post_thread-store :
      (st : State) (why : Reason) (w : World Cluster) → (post_thread st why w).store ≡ w.store
  post_thread-store st why w = ground arith

  pub update-cluster :
      (f : State → State) (id : Uuid) (w : World Cluster) → (update f id w).cluster ≡ w.cluster
  update-cluster f id w = ground arith

  pub post_thread-cluster :
      (st : State) (why : Reason) (w : World Cluster) → (post_thread st why w).cluster ≡ w.cluster
  post_thread-cluster st why w = ground arith

  pub transition-cluster :
      (id : Uuid) (to : TaskState) (wall : Time) (w : World Cluster)
      → (transition id to wall w).cluster ≡ w.cluster
  unfolding transition
  transition-cluster id to wall w = ground arith

  -- Once an entry is dropped, it does not matter how it was marked.
  pub untrack-update-pods :
      (f : State → State) (id j : Uuid) (v w : World Cluster)
      → v.pods ≡ (update f id w).pods
      → lookup j (untrack_task id v).pods ≡ (if id == j then none else lookup j w.pods)
  unfolding untrack_task
  untrack-update-pods f id j v w h =
      rw (h, lookup-remove id j (update f id w).pods, update-pods f id j w) (ground arith)

  module _ (d : Dispatcher Cluster) where
    pub delete_pod-cluster :
        (st : State) (w : World Cluster)
        → (delete_pod d st w).cluster ≡ (d.delete_pod st.namespace st.pod_name w.cluster).0
    unfolding delete_pod
    delete_pod-cluster st w = ground arith

    pub delete_pod-pods : (st : State) (w : World Cluster) → (delete_pod d st w).pods ≡ w.pods
    unfolding delete_pod
    delete_pod-pods st w = ground arith

    pub delete_pod-store : (st : State) (w : World Cluster) → (delete_pod d st w).store ≡ w.store
    unfolding delete_pod
    delete_pod-store st w = ground arith

    pub delete_pod-cfg : (st : State) (w : World Cluster) → (delete_pod d st w).cfg ≡ w.cfg
    unfolding delete_pod
    delete_pod-cfg st w = ground arith
