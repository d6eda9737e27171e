-- ===== src/Argus/Rules.antt =====
-- The rules engine (minos/argus/argus.go, evaluate to percentOf). `now` is the reading of Argus'
-- clock at the start of a pass, `wall` that of the store's clock.
use zakros.Base.{
  nat_equality, List, [], ◌∷◌, some, true, not, ◌&&◌, ◌||◌, ◌==◌, string_equality, if◌then◌else◌,
  Result, ok,
}
use zakros.Base.Int.{ℤ, pos, ltb_ℤ, leb_ℤ, mul64, quot64}
use zakros.Base.Maps.{values}
use zakros.Base.Clock.{Time, Duration, time_sub}
use zakros.Storage.{
  Uuid, not_found, State.awaiting_review as task_awaiting_review, State.failed as task_failed,
  State as TaskState,
}
use zakros.Storage.Memstore.{transition_task}
use zakros.Dispatch.{Dispatcher, DispatchError, unreachable, Phase, succeeded, failed}
use zakros.Argus.{
  Config, State, World, Reason, cap_exceeded, no_heartbeat, budget_used, hibernated, pod_failed,
  warning, escalation, termination, transition_failed, delete_failed, posted,
}
use zakros.Argus.Tracking.{emit, update, untrack_task, discover}

abbrev pub percent_of : Duration → Duration → ℤ
percent_of elapsed total =
    if leb_ℤ total (pos 0) && leb_ℤ (pos 0) total
    then pos 0
    else quot64 (mul64 elapsed (pos 100)) total

-- The switch of evaluate, as a decision.
pub data Verdict : Type 0 where
  stop escalate_now warn_now : Reason → Verdict
  leave : Verdict

unfoldable pub judge : Config → Time → State → Verdict
unfolding mul64 quot64
judge cfg now st =
    let wall = time_sub now st.started_at in
    let silence = time_sub now st.last_heartbeat in
    let used = budget_used (percent_of wall st.max_wall_clock) wall st.max_wall_clock in
    let capped = ltb_ℤ (pos 0) st.max_wall_clock in
    if capped && leb_ℤ st.max_wall_clock wall
    then stop (cap_exceeded wall st.max_wall_clock)
    else if ltb_ℤ (pos 0) cfg.stall_threshold && leb_ℤ cfg.stall_threshold silence
    then stop (no_heartbeat silence cfg.stall_threshold)
    else if capped
        && not st.escalated
        && ltb_ℤ (pos 0) st.escalation_at
        && leb_ℤ st.escalation_at wall
    then escalate_now used
    else if capped && not st.warned && ltb_ℤ (pos 0) st.warning_at && leb_ℤ st.warning_at wall
    then warn_now used
    else leave

module _ {Cluster : Type 0} where
  abbrev pub mark_warned : Uuid → World Cluster → World Cluster
  mark_warned = update (λ st. record st { warned = true })

  abbrev pub mark_escalated : Uuid → World Cluster → World Cluster
  mark_escalated = update (λ st. record st { escalated = true })

  abbrev pub mark_terminated : Uuid → World Cluster → World Cluster
  mark_terminated = update (λ st. record st { terminated = true })

  -- The message is skipped without a broker or a thread; its error is dropped.
  abbrev pub post_thread : State → Reason → World Cluster → World Cluster
  post_thread st why w =
      if not w.hermes || st.thread_surface == "" || st.thread_ref == ""
      then w
      else emit (posted st.thread_surface st.thread_ref why) w

  unfoldable pub warn : State → Reason → World Cluster → World Cluster
  warn st why w = post_thread st why (emit (warning st.task_id why) (mark_warned st.task_id w))

  unfoldable pub escalate : State → Reason → World Cluster → World Cluster
  escalate st why w =
      post_thread st why (emit (escalation st.task_id why) (mark_escalated st.task_id w))

  -- store.TransitionTask, with a conflict tolerated and another error audited.
  unfoldable pub transition : Uuid → TaskState → Time → World Cluster → World Cluster
  transition id to wall w =
      let (s, e) = transition_task id to wall w.store in
      elim e [
        | some not_found ↦ emit (transition_failed id not_found) (record w { store = s })
        | _ ↦ record w { store = s }
      ]

  module _ (d : Dispatcher Cluster) where
    -- dispatcher.DeletePod, with a missing pod tolerated and another error audited.
    unfoldable pub delete_pod : State → World Cluster → World Cluster
    delete_pod st w =
        let (c, e) = d.delete_pod st.namespace st.pod_name w.cluster in
        elim e [
          | some unreachable ↦
              emit (delete_failed st.task_id unreachable) (record w { cluster = c })
          | _ ↦ record w { cluster = c }
        ]

    unfoldable pub hibernate : State → Time → World Cluster → World Cluster
    hibernate st wall w =
        let marked = emit (hibernated st.task_id) (mark_terminated st.task_id w) in
        untrack_task st.task_id
          (delete_pod st (transition st.task_id task_awaiting_review wall marked))

    unfoldable pub mark_failed : State → Time → World Cluster → World Cluster
    mark_failed st wall w =
        let marked = emit (pod_failed st.task_id) (mark_terminated st.task_id w) in
        untrack_task st.task_id (delete_pod st (transition st.task_id task_failed wall marked))

    unfoldable pub terminate : State → Reason → Time → World Cluster → World Cluster
    terminate st why wall w =
        let marked = emit (termination st.task_id why) (mark_terminated st.task_id w) in
        untrack_task st.task_id
          (transition st.task_id task_failed wall (delete_pod st (post_thread st why marked)))

    unfoldable pub carry_out : Time → State → World Cluster → Verdict → World Cluster
    carry_out wall st w (stop why) = terminate st why wall w
    carry_out wall st w (escalate_now why) = escalate st why w
    carry_out wall st w (warn_now why) = warn st why w
    carry_out wall st w leave = w

    -- The switch on the phase; the budget and stall rules where it does not settle the matter.
    unfoldable pub act_on :
        Time → Time → State → World Cluster → Result DispatchError Phase → World Cluster
    act_on now wall st w (ok succeeded) = hibernate st wall w
    act_on now wall st w (ok failed) = mark_failed st wall w
    act_on now wall st w _ = carry_out wall st w (judge w.cfg now st)

    -- The body of the loop of evaluate.
    unfoldable pub evaluate_one : Time → Time → State → World Cluster → World Cluster
    evaluate_one now wall st w =
        if st.terminated
        then w
        else act_on now wall st w (d.pod_phase st.namespace st.pod_name w.cluster)

    unfoldable pub evaluate_each : Time → Time → List State → World Cluster → World Cluster
    evaluate_each now wall [] w = w
    evaluate_each now wall (st ∷ sts) w = evaluate_each now wall sts (evaluate_one now wall st w)

    -- The pass goes over the pods tracked at its start. No step of it changes another pod's entry, so
    -- an entry read in its turn is as it was at the start.
    unfoldable pub evaluate : Time → Time → World Cluster → World Cluster
    evaluate now wall w = evaluate_each now wall (values w.pods) w

    -- One tick of runLoop.
    unfoldable pub tick : Time → Time → World Cluster → World Cluster
    tick now wall w = evaluate now wall (discover now w)
