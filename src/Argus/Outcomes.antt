-- ===== src/Argus/Outcomes.antt =====
-- What one step of a pass of the rules engine does (minos/argus/argus.go, the body of evaluate).
use zakros.Base.{
  nat_equality, none, some, Bool, true, false, ◌||◌, ◌&&◌, ◌==◌, if◌then◌else◌, ◌≡◌, refl, ◌∙◌, ap,
  inl, inr, arith, Result, ok, err, Bool-cases,
}
use zakros.Base.Int.{pos, ltb_ℤ, leb_ℤ}
use zakros.Base.Maps.{lookup}
use zakros.Base.Clock.{Time, time_sub}
use zakros.Storage.{
  Uuid, State as TaskState, State.awaiting_review as task_awaiting_review,
  State.failed as task_failed,
}
use zakros.Dispatch.{
  Dispatcher, DispatchError, Phase, unknown, pending, Phase.running as pod_running, succeeded,
  failed, unlisted,
}
use zakros.Argus.{
  Event, warning, escalation, Config, termination, hibernated, pod_failed, State, World, Reason,
}
use zakros.Argus.Tracking.{emit, untrack_task}
use zakros.Argus.Rules.{
  mark_warned, mark_escalated, mark_terminated, post_thread, Verdict, stop, escalate_now, warn_now,
  leave, judge, transition, delete_pod, hibernate, mark_failed, terminate, warn, escalate,
  carry_out, act_on, evaluate_one,
}
use zakros.Argus.Effects.{
  Stops, post_thread-pods, post_thread-store, untrack-update-pods, transition-is_running,
  transition-cfg, delete_pod-cfg, is_running, update-pods, update-store, transition-pods,
  delete_pod-pods, delete_pod-store, update-cluster, post_thread-cluster, transition-cluster,
  delete_pod-cluster,
}

-- Over the cap, or silent for longer than the threshold, where these are set.
abbrev pub is_overdue : Config → Time → State → Bool
is_overdue cfg now st =
    ltb_ℤ (pos 0) st.max_wall_clock && leb_ℤ st.max_wall_clock (time_sub now st.started_at)
    || ltb_ℤ (pos 0) cfg.stall_threshold
      && leb_ℤ cfg.stall_threshold (time_sub now st.last_heartbeat)

-- The verdict ends the pod.
abbrev pub is_stop : Verdict → Bool
is_stop (stop why) = true
is_stop _ = false

pub judge-is_stop :
    (cfg : Config) (now : Time) (st : State) → is_stop (judge cfg now st) ≡ is_overdue cfg now st
unfolding judge
judge-is_stop cfg now st =
    elim (Bool-cases
      (ltb_ℤ (pos 0) st.max_wall_clock && leb_ℤ st.max_wall_clock (time_sub now st.started_at))) [
        | inl e ↦ rw e refl
        | inr e ↦ rw e (ground arith)
      ]

-- Nothing but an entry's warning flags changes.
abbrev IsFlagging : (State → State) → Type 0
IsFlagging f = (st : State) → (b c : Bool) × (f st ≡ record st { warned = b; escalated = c })

module _ {Cluster : Type 0} where
  -- The pod is no longer tracked and its task not running, and its pod is deleted; nothing else is touched.
  pub record Finishes (d : Dispatcher Cluster) (st : State) (w v : World Cluster) : Type 0 where
    pub pods : (j : Uuid) → lookup j v.pods ≡ (if st.task_id == j then none else lookup j w.pods)
    pub tasks :
        (j : Uuid)
        → is_running j v.store ≡ (if st.task_id == j then false else is_running j w.store)
    pub cfg : v.cfg ≡ w.cfg
    pub cluster : v.cluster ≡ (d.delete_pod st.namespace st.pod_name w.cluster).0

  -- What the rules do when nothing ends the pod.
  pub record Spares (st : State) (w v : World Cluster) : Type 0 where
    flag : State → State
    pub is_flagging : IsFlagging flag
    pub pods :
        (j : Uuid)
        → lookup j v.pods ≡ elim (lookup j w.pods) [
          | none ↦ none
          | some s ↦ some (if st.task_id == j then flag s else s)
        ]
    pub store : v.store ≡ w.store
    pub cfg : v.cfg ≡ w.cfg
    pub cluster : v.cluster ≡ w.cluster

  pub warn-Spares : (st : State) (why : Reason) (w : World Cluster) → Spares st w (warn st why w)
  unfolding warn
  warn-Spares st why w = record {
    flag = λ s. record s { warned = true };
    is_flagging = λ s. (true, s.escalated, refl);
    pods = λ j.
        ap (lookup j)
          (post_thread-pods st why (emit (warning st.task_id why) (mark_warned st.task_id w)))
        ∙ update-pods (λ s. record s { warned = true }) st.task_id j w;
    store =
        post_thread-store st why (emit (warning st.task_id why) (mark_warned st.task_id w))
        ∙ update-store (λ s. record s { warned = true }) st.task_id w;
    cfg = ground arith;
    cluster =
        post_thread-cluster st why (emit (warning st.task_id why) (mark_warned st.task_id w))
        ∙ update-cluster (λ s. record s { warned = true }) st.task_id w;
  }

  pub escalate-Spares :
      (st : State) (why : Reason) (w : World Cluster) → Spares st w (escalate st why w)
  unfolding escalate
  escalate-Spares st why w = record {
    flag = λ s. record s { escalated = true };
    is_flagging = λ s. (s.warned, true, refl);
    pods = λ j.
        ap (lookup j)
          (post_thread-pods st why (emit (escalation st.task_id why) (mark_escalated st.task_id w)))
        ∙ update-pods (λ s. record s { escalated = true }) st.task_id j w;
    store =
        post_thread-store st why (emit (escalation st.task_id why) (mark_escalated st.task_id w))
        ∙ update-store (λ s. record s { escalated = true }) st.task_id w;
    cfg = ground arith;
    cluster =
        post_thread-cluster st why (emit (escalation st.task_id why) (mark_escalated st.task_id w))
        ∙ update-cluster (λ s. record s { escalated = true }) st.task_id w;
  }

  pub data Outcome (d : Dispatcher Cluster) (st : State) (w v : World Cluster) : Type 0 where
    finished : Finishes d st w v → Outcome d st w v
    spared : Spares st w v → Outcome d st w v

  pub stays : (st : State) (w : World Cluster) → Spares st w w
  stays st w = record {
    flag = λ s. s;
    is_flagging = λ s. (s.warned, s.escalated, refl);
    pods = λ j. ground arith;
    store = refl;
    cfg = refl;
    cluster = refl;
  }

  module _ (d : Dispatcher Cluster) where
    pub terminate-Finishes :
        (st : State) (why : Reason) (wall : Time) (w : World Cluster)
        → Finishes d st w (terminate d st why wall w)
    unfolding terminate untrack_task
    terminate-Finishes st why wall w =
        let marked = mark_terminated st.task_id w in
        let told = emit (termination st.task_id why) marked in
        let posted = post_thread st why told in
        let freed = delete_pod d st posted in
        record {
          pods = λ j.
              untrack-update-pods (λ s. record s { terminated = true }) st.task_id j
                (transition st.task_id task_failed wall freed) w
                (transition-pods st.task_id task_failed wall freed
                  ∙ delete_pod-pods d st posted
                  ∙ post_thread-pods st why told);
          tasks = λ j.
              transition-is_running st.task_id j task_failed wall freed (inl refl)
              ∙ ap (λ s. if st.task_id == j then false else is_running j s)
                  (delete_pod-store d st posted
                    ∙ post_thread-store st why told
                    ∙ update-store (λ s. record s { terminated = true }) st.task_id w);
          cfg =
              transition-cfg st.task_id task_failed wall freed
              ∙ delete_pod-cfg d st posted
              ∙ ground arith;
          cluster =
              transition-cluster st.task_id task_failed wall freed
              ∙ delete_pod-cluster d st posted
              ∙ ap (λ c. (d.delete_pod st.namespace st.pod_name c).0)
                  (post_thread-cluster st why told
                    ∙ update-cluster (λ s. record s { terminated = true }) st.task_id w);
        }

    clean-Finishes :
        (ev : Event) (to : TaskState) (st : State) (wall : Time) (w : World Cluster)
        → Stops to
        → Finishes d st w (
            untrack_task st.task_id (
              delete_pod d st
                (transition st.task_id to wall (emit ev (mark_terminated st.task_id w)))))
    unfolding untrack_task
    clean-Finishes ev to st wall w h =
        let told = emit ev (mark_terminated st.task_id w) in
        let moved = transition st.task_id to wall told in
        record {
          pods = λ j.
              untrack-update-pods (λ s. record s { terminated = true }) st.task_id j
                (delete_pod d st moved) w
                (delete_pod-pods d st moved ∙ transition-pods st.task_id to wall told);
          tasks = λ j.
              ap (is_running j) (delete_pod-store d st moved)
              ∙ transition-is_running st.task_id j to wall told h
              ∙ ap (λ s. if st.task_id == j then false else is_running j s)
                  (update-store (λ s. record s { terminated = true }) st.task_id w);
          cfg = delete_pod-cfg d st moved ∙ transition-cfg st.task_id to wall told ∙ ground arith;
          cluster =
              delete_pod-cluster d st moved
              ∙ ap (λ c. (d.delete_pod st.namespace st.pod_name c).0)
                  (transition-cluster st.task_id to wall told
                    ∙ update-cluster (λ s. record s { terminated = true }) st.task_id w);
        }

    pub hibernate-Finishes :
        (st : State) (wall : Time) (w : World Cluster) → Finishes d st w (hibernate d st wall w)
    unfolding hibernate
    hibernate-Finishes st wall w =
        clean-Finishes (hibernated st.task_id) task_awaiting_review st wall w (inr refl)

    pub mark_failed-Finishes :
        (st : State) (wall : Time) (w : World Cluster) → Finishes d st w (mark_failed d st wall w)
    unfolding mark_failed
    mark_failed-Finishes st wall w =
        clean-Finishes (pod_failed st.task_id) task_failed st wall w (inl refl)

    carry_out-Outcome :
        (wall : Time) (st : State) (w : World Cluster) (v : Verdict)
        → Outcome d st w (carry_out d wall st w v)
    unfolding carry_out
    carry_out-Outcome wall st w (stop why) = finished (terminate-Finishes st why wall w)
    carry_out-Outcome wall st w (escalate_now why) = spared (escalate-Spares st why w)
    carry_out-Outcome wall st w (warn_now why) = spared (warn-Spares st why w)
    carry_out-Outcome wall st w leave = spared (stays st w)

    act_on-Outcome :
        (now wall : Time) (st : State) (w : World Cluster) (p : Result DispatchError Phase)
        → Outcome d st w (act_on d now wall st w p)
    unfolding act_on
    act_on-Outcome now wall st w (ok succeeded) = finished (hibernate-Finishes st wall w)
    act_on-Outcome now wall st w (ok failed) = finished (mark_failed-Finishes st wall w)
    act_on-Outcome now wall st w (ok unknown) = carry_out-Outcome wall st w (judge w.cfg now st)
    act_on-Outcome now wall st w (ok pending) = carry_out-Outcome wall st w (judge w.cfg now st)
    act_on-Outcome now wall st w (ok pod_running) = carry_out-Outcome wall st w (judge w.cfg now st)
    act_on-Outcome now wall st w (ok (unlisted x)) =
        carry_out-Outcome wall st w (judge w.cfg now st)
    act_on-Outcome now wall st w (err e) = carry_out-Outcome wall st w (judge w.cfg now st)

    pub evaluate_one-Outcome :
        (now wall : Time) (st : State) (w : World Cluster)
        → Outcome d st w (evaluate_one d now wall st w)
    unfolding evaluate_one
    evaluate_one-Outcome now wall st w = go st.terminated
      where
        go :
            (b : Bool)
            → Outcome d st w (
                if b
                then w
                else act_on d now wall st w (d.pod_phase st.namespace st.pod_name w.cluster))
        go true = spared (stays st w)
        go false = act_on-Outcome now wall st w (d.pod_phase st.namespace st.pod_name w.cluster)
