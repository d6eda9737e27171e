-- ===== src/Argus/Deadlines.antt =====
-- Enforcement of the wall-clock cap and of the stall threshold (minos/argus/argus.go, evaluate).
use zakros.Base.{
  nat_equality, List, [], ◌∷◌, none, some, Bool, true, false, ◌==◌, if◌then◌else◌, ◌≡◌, sym, ◌∙◌,
  subst, ap, inl, inr, arith, Result, ok, err, Bool-cases,
}
use zakros.Base.Maps.{Map, values, lookup, lookup-here}
use zakros.Base.Clock.{Time}
use zakros.Storage.{Uuid}
use zakros.Dispatch.{
  Dispatcher, DispatchError, Phase, unknown, pending, Phase.running as pod_running, succeeded,
  failed, unlisted,
}
use zakros.Argus.{State, World}
use zakros.Argus.Rules.{
  Verdict, stop, escalate_now, warn_now, leave, judge, carry_out, act_on, evaluate_one,
  evaluate_each, evaluate,
}
use zakros.Argus.Effects.{is_running}
use zakros.Argus.Deletions.{
  IsDeleted, Deletes-IsDeleted, IsDeleted-later, evaluate_one-Deletes, evaluate_each-Deletes,
}
use zakros.Argus.Outcomes.{
  is_overdue, is_stop, judge-is_stop, Finishes, finished, spared, hibernate-Finishes,
  mark_failed-Finishes, terminate-Finishes, evaluate_one-Outcome,
}

module _ {Cluster : Type 0} where
  -- The task is not tracked and not running.
  abbrev IsSettled : Uuid → World Cluster → Type 0
  IsSettled id w = (lookup id w.pods ≡ none) × (is_running id w.store ≡ false)

  -- The task is settled, and its pod deleted.
  abbrev pub IsStopped : Dispatcher Cluster → State → World Cluster → World Cluster → Type 0
  IsStopped d st w v = IsSettled st.task_id v × IsDeleted d st w.cluster v.cluster

  Finishes-IsSettled :
      (d : Dispatcher Cluster) (st : State) (w v : World Cluster)
      → Finishes d st w v
      → IsSettled st.task_id v
  Finishes-IsSettled d st w v f =
      (f.pods st.task_id ∙ ground arith, f.tasks st.task_id ∙ ground arith)

  module _ (d : Dispatcher Cluster) (now wall : Time) where
    evaluate_one-IsSettled :
        (st : State) (id : Uuid) (w : World Cluster)
        → IsSettled id w
        → IsSettled id (evaluate_one d now wall st w)
    evaluate_one-IsSettled st id w h = elim (evaluate_one-Outcome d now wall st w) [
      | finished f ↦ (f.pods id ∙ ground arith, f.tasks id ∙ ground arith)
      | spared p ↦ (p.pods id ∙ ground arith, ap (is_running id) p.store ∙ h.1)
    ]

    evaluate_each-IsSettled :
        (sts : List State) (id : Uuid) (w : World Cluster)
        → IsSettled id w
        → IsSettled id (evaluate_each d now wall sts w)
    unfolding evaluate_each
    evaluate_each-IsSettled [] id w h = h
    evaluate_each-IsSettled (st ∷ sts) id w h =
        evaluate_each-IsSettled sts id (evaluate_one d now wall st w)
          (evaluate_one-IsSettled st id w h)

    pub evaluate_one-cfg :
        (st : State) (w : World Cluster) → (evaluate_one d now wall st w).cfg ≡ w.cfg
    evaluate_one-cfg st w = elim (evaluate_one-Outcome d now wall st w) [
      | finished f ↦ f.cfg
      | spared p ↦ p.cfg
    ]

    carry_out-Finishes :
        (st : State) (w : World Cluster) (v : Verdict)
        → is_stop v ≡ true
        → Finishes d st w (carry_out d wall st w v)
    unfolding carry_out
    carry_out-Finishes st w (stop why) h = terminate-Finishes d st why wall w
    carry_out-Finishes st w (escalate_now why) h = ground arith
    carry_out-Finishes st w (warn_now why) h = ground arith
    carry_out-Finishes st w leave h = ground arith

    act_on-Finishes :
        (st : State) (w : World Cluster) (p : Result DispatchError Phase)
        → is_overdue w.cfg now st ≡ true
        → Finishes d st w (act_on d now wall st w p)
    unfolding act_on
    act_on-Finishes st w (ok succeeded) h = hibernate-Finishes d st wall w
    act_on-Finishes st w (ok failed) h = mark_failed-Finishes d st wall w
    act_on-Finishes st w (ok unknown) h =
        carry_out-Finishes st w (judge w.cfg now st) (judge-is_stop w.cfg now st ∙ h)
    act_on-Finishes st w (ok pending) h =
        carry_out-Finishes st w (judge w.cfg now st) (judge-is_stop w.cfg now st ∙ h)
    act_on-Finishes st w (ok pod_running) h =
        carry_out-Finishes st w (judge w.cfg now st) (judge-is_stop w.cfg now st ∙ h)
    act_on-Finishes st w (ok (unlisted x)) h =
        carry_out-Finishes st w (judge w.cfg now st) (judge-is_stop w.cfg now st ∙ h)
    act_on-Finishes st w (err e) h =
        carry_out-Finishes st w (judge w.cfg now st) (judge-is_stop w.cfg now st ∙ h)

    evaluate_one-Finishes :
        (st : State) (w : World Cluster)
        → st.terminated ≡ false
        → is_overdue w.cfg now st ≡ true
        → Finishes d st w (evaluate_one d now wall st w)
    unfolding evaluate_one
    evaluate_one-Finishes st w live h = go st.terminated live
      where
        go :
            (b : Bool)
            → b ≡ false
            → Finishes d st w (
                if b
                then w
                else act_on d now wall st w (d.pod_phase st.namespace st.pod_name w.cluster))
        go true e = ground arith
        go false e = act_on-Finishes st w (d.pod_phase st.namespace st.pod_name w.cluster) h

    evaluate_first-stops :
        (st : State) (sts : List State) (w : World Cluster)
        → st.terminated ≡ false
        → is_overdue w.cfg now st ≡ true
        → IsStopped d st w (evaluate_each d now wall (st ∷ sts) w)
    unfolding evaluate_each
    evaluate_first-stops st sts w live h =
        let v = evaluate_one d now wall st w in
        let f = evaluate_one-Finishes st w live h in
        (
          evaluate_each-IsSettled sts st.task_id v (Finishes-IsSettled d st w v f),
          Deletes-IsDeleted d st sts w.cluster v.cluster (evaluate_each d now wall sts v).cluster
              f.cluster (evaluate_each-Deletes d now wall sts v),
        )

    evaluate_each-stops :
        (id : Uuid) (st : State) (m : Map Uuid State) (w : World Cluster)
        → lookup id m ≡ some st
        → st.terminated ≡ false
        → is_overdue w.cfg now st ≡ true
        → IsStopped d st w (evaluate_each d now wall (values m) w)
    unfolding evaluate_each lookup
    evaluate_each-stops id st [] w e live h = ground arith
    evaluate_each-stops id st ((k, u) ∷ m) w e live h = elim (Bool-cases (k == id)) [
      | inl here ↦
          subst (λ u. IsStopped d st w (evaluate_each d now wall (u ∷ values m) w))
            (sym (lookup-here id k u st m here e)) (evaluate_first-stops st (values m) w live h)
      | inr there ↦
          let v = evaluate_one d now wall u w in
          let rest =
            evaluate_each-stops id st m v (ground arith) live
              (ap (λ c. is_overdue c now st) (evaluate_one-cfg u w) ∙ h) in
          (
            rest.0,
            IsDeleted-later d st (u ∷ []) w.cluster v.cluster
                (evaluate_each d now wall (values m) v).cluster
                (evaluate_one-Deletes d now wall u w) rest.1,
          )
    ]

    -- A pass stops every overdue pod, whatever the dispatcher answers, errors included: of a tracked pod that
    -- is over its wall-clock cap, or silent for the stall threshold, and not marked as terminated already,
    -- the entry is gone after the pass and the task is not running, and the pass has called for the deletion
    -- of the pod. Of the cluster it is said that the pass leaves it as the deletions of a list of pods do,
    -- of which that pod is one; a deletion may fail.
    pub evaluate-stops :
        (id : Uuid) (st : State) (w : World Cluster)
        → lookup id w.pods ≡ some st
        → st.terminated ≡ false
        → is_overdue w.cfg now st ≡ true
        → IsStopped d st w (evaluate d now wall w)
    unfolding evaluate
    evaluate-stops id st w e live h = evaluate_each-stops id st w.pods w e live h
