-- ===== src/Argus/Mirror.antt =====
-- The persisted copies of the tracked pods (minos/argus/argus.go, persistOne to rehydrate).
use zakros.Base.{
  nat_equality, ◌==◌, eqb_iff, List, [], ◌∷◌, Option, none, some, Bool, true, false, ◌≡◌, refl, sym,
  ◌∙◌, ap, subst, inl, inr, arith, for_each, if◌then◌else◌, Bool-cases, some-eq, Result, ok, err,
  String,
}
use zakros.Base.Maps.{
  Map, IsMap, lookup, insert, remove, lookup-insert, lookup-remove, insert-IsMap, remove-IsMap,
}
use zakros.Base.Clock.{Time}
use zakros.Storage.{
  Uuid, Task, State as TaskState, State.failed as task_failed,
  State.awaiting_review as task_awaiting_review,
}
use zakros.Dispatch.{
  Dispatcher, DispatchError, Phase, unknown, pending, Phase.running as pod_running, succeeded,
  failed, unlisted,
}
use zakros.Argus.{
  Config, State, MemPersister, World, Event, Reason, hibernated, pod_failed, termination, warning,
  escalation, discovered,
}
use zakros.Argus.Tracking.{
  state_of, fresh_state, start_of, put, update, emit, track_task, untrack_task, track_new,
  discover_one, save, delete,
}
use zakros.Argus.Rules.{
  Verdict, stop, escalate_now, warn_now, leave, judge, transition, delete_pod, post_thread,
  mark_warned, mark_escalated, mark_terminated, hibernate, mark_failed, terminate, warn, escalate,
  carry_out, act_on, evaluate_one, evaluate_each,
}

-- There is a persister, which has a copy of every tracked state and nothing else.
abbrev pub CopyOf : Option MemPersister → Map Uuid State → Type 0
CopyOf none pods = ⊥
CopyOf (some p) pods = IsMap p.states × ((id : Uuid) → lookup id p.states ≡ lookup id pods)

save-CopyOf :
    (id : Uuid) (st : State) (o : Option MemPersister) (pods : Map Uuid State)
    → CopyOf o pods
    → CopyOf (elim o [ none ↦ none | some p ↦ some (save id st p) ]) (insert id st pods)
unfolding save
save-CopyOf id st none pods h = absurd h
save-CopyOf id st (some p) pods h = (
  insert-IsMap id st p.states h.0,
  λ j. ground (arith, lookup-insert id j st p.states, lookup-insert id j st pods, h.1 j),
)

delete-CopyOf :
    (id : Uuid) (o : Option MemPersister) (pods : Map Uuid State)
    → CopyOf o pods
    → CopyOf (elim o [ none ↦ none | some p ↦ some (delete id p) ]) (remove id pods)
unfolding delete
delete-CopyOf id none pods h = absurd h
delete-CopyOf id (some p) pods h = (
  remove-IsMap id p.states h.0,
  λ j. ground (arith, lookup-remove id j p.states, lookup-remove id j pods, h.1 j),
)

fresh_state-task_id :
    (cfg : Config) (namespace : String) (started now : Time) (t : Task) (st : State)
    → fresh_state cfg namespace started now t ≡ some st
    → st.task_id ≡ t.id
unfolding fresh_state state_of
fresh_state-task_id cfg namespace started now t st e = ground arith

module _ {Cluster : Type 0} where
  pub record IsMirrored (w : World Cluster) : Type 0 where
    pub keyed : (id : Uuid) (st : State) → lookup id w.pods ≡ some st → st.task_id ≡ id
    pub copied : CopyOf w.persister w.pods

  -- What leaves the pods and the persister alone.
  abbrev pub IsQuiet : World Cluster → World Cluster → Type 0
  IsQuiet w v = (v.pods ≡ w.pods) × (v.persister ≡ w.persister)

  pub IsQuiet-IsMirrored : (w v : World Cluster) → IsQuiet w v → IsMirrored w → IsMirrored v
  IsQuiet-IsMirrored w v q h = record {
    keyed = λ id st e. h.keyed id st (ap (lookup id) (sym q.0) ∙ e);
    copied = subst (λ o. CopyOf o v.pods) (sym q.1) (subst (CopyOf w.persister) (sym q.0) h.copied);
  }

  put-IsMirrored :
      (id : Uuid) (st : State) (w : World Cluster)
      → st.task_id ≡ id
      → IsMirrored w
      → IsMirrored (put id st w)
  put-IsMirrored id st w k h = record {
    keyed = λ j s e. elim (Bool-cases (id == j)) [
      | inl at_id ↦
          let both : some s ≡ some st = ground (arith, lookup-insert id j st w.pods, e, at_id) in
          let same : s ≡ st = some-eq both in
          ap (λ (x : State). x.task_id) same ∙ k ∙ (eqb_iff id j).0 at_id
      | inr elsewhere ↦ h.keyed j s (ground (arith, lookup-insert id j st w.pods, e))
    ];
    copied =
        subst
          (λ i.
            CopyOf (elim w.persister [ none ↦ none | some p ↦ some (save i st p) ])
              (insert id st w.pods))
          (sym k) (save-CopyOf id st w.persister w.pods h.copied);
  }

  pub untrack-IsMirrored :
      (id : Uuid) (w : World Cluster) → IsMirrored w → IsMirrored (untrack_task id w)
  unfolding untrack_task
  untrack-IsMirrored id w h = record {
    keyed = λ j s e. h.keyed j s (ground (arith, lookup-remove id j w.pods, e));
    copied = delete-CopyOf id w.persister w.pods h.copied;
  }

  pub update-IsMirrored :
      (f : State → State) (id : Uuid) (w : World Cluster)
      → ((st : State) → (f st).task_id ≡ st.task_id)
      → IsMirrored w
      → IsMirrored (update f id w)
  update-IsMirrored f id w k h = go (lookup id w.pods) refl
    where
      go :
          (o : Option State)
          → lookup id w.pods ≡ o
          → IsMirrored (elim o [ none ↦ w | some st ↦ put id (f st) w ])
      go none e = h
      go (some st) e = put-IsMirrored id (f st) w (k st ∙ h.keyed id st e) h

  pub track_task-IsMirrored :
      (t : Option Task) (namespace : String) (now : Time) (w : World Cluster)
      → IsMirrored w
      → IsMirrored (track_task t namespace now w)
  unfolding track_task
  track_task-IsMirrored none namespace now w h = h
  track_task-IsMirrored (some t) namespace now w h = go (fresh_state w.cfg namespace now now t) refl
    where
      go :
          (o : Option State)
          → fresh_state w.cfg namespace now now t ≡ o
          → IsMirrored (elim o [ none ↦ w | some st ↦ put t.id st w ])
      go none e = h
      go (some st) e =
          put-IsMirrored t.id st w (fresh_state-task_id w.cfg namespace now now t st e) h

  track_new-IsMirrored :
      (old o : Option State) (t : Task) (w : World Cluster)
      → ((st : State) → o ≡ some st → st.task_id ≡ t.id)
      → IsMirrored w
      → IsMirrored (track_new old o t w)
  unfolding track_new
  track_new-IsMirrored (some old) o t w k h = h
  track_new-IsMirrored none none t w k h = h
  track_new-IsMirrored none (some st) t w k h =
      IsQuiet-IsMirrored (put t.id st w) (emit (discovered t.id st.pod_name) (put t.id st w))
        (refl, refl) (put-IsMirrored t.id st w (k st refl) h)

  pub for_each-IsMirrored :
      (now : Time) (ts : List Task) (w : World Cluster)
      → IsMirrored w
      → IsMirrored (for_each (discover_one now) ts w)
  unfolding discover_one
  for_each-IsMirrored now [] w h = h
  for_each-IsMirrored now (t ∷ ts) w h = for_each-IsMirrored now ts (discover_one now t w) (
      track_new-IsMirrored (lookup t.id w.pods) (fresh_state w.cfg "zakros" (start_of t) now t) t w
        (fresh_state-task_id w.cfg "zakros" (start_of t) now t) h)

  post_thread-IsQuiet :
      (st : State) (why : Reason) (w : World Cluster) → IsQuiet w (post_thread st why w)
  post_thread-IsQuiet st why w = (ground arith, ground arith)

  transition-IsQuiet :
      (id : Uuid) (to : TaskState) (wall : Time) (w : World Cluster)
      → IsQuiet w (transition id to wall w)
  unfolding transition
  transition-IsQuiet id to wall w = (ground arith, ground arith)

  told-IsMirrored :
      (ev : Event) (st : State) (why : Reason) (w : World Cluster)
      → IsMirrored w
      → IsMirrored (post_thread st why (emit ev w))
  told-IsMirrored ev st why w h =
      IsQuiet-IsMirrored (emit ev w) (post_thread st why (emit ev w))
        (post_thread-IsQuiet st why (emit ev w)) (IsQuiet-IsMirrored w (emit ev w) (refl, refl) h)

  module _ (d : Dispatcher Cluster) where
    delete_pod-IsQuiet : (st : State) (w : World Cluster) → IsQuiet w (delete_pod d st w)
    unfolding delete_pod
    delete_pod-IsQuiet st w = (ground arith, ground arith)

    terminate-IsMirrored :
        (st : State) (why : Reason) (wall : Time) (w : World Cluster)
        → IsMirrored w
        → IsMirrored (terminate d st why wall w)
    unfolding terminate
    terminate-IsMirrored st why wall w h =
        let marked = mark_terminated st.task_id w in
        let posted = post_thread st why (emit (termination st.task_id why) marked) in
        let freed = delete_pod d st posted in
        untrack-IsMirrored st.task_id (transition st.task_id task_failed wall freed) (
          IsQuiet-IsMirrored freed _ (transition-IsQuiet st.task_id task_failed wall freed) (
            IsQuiet-IsMirrored posted _ (delete_pod-IsQuiet st posted) (
              told-IsMirrored (termination st.task_id why) st why marked (
                update-IsMirrored (λ s. record s { terminated = true }) st.task_id w (λ s. refl)
                  h))))

    clean-IsMirrored :
        (ev : Event) (to : TaskState) (st : State) (wall : Time) (w : World Cluster)
        → IsMirrored w
        → IsMirrored (
            untrack_task st.task_id (
              delete_pod d st
                (transition st.task_id to wall (emit ev (mark_terminated st.task_id w)))))
    clean-IsMirrored ev to st wall w h =
        let told = emit ev (mark_terminated st.task_id w) in
        let moved = transition st.task_id to wall told in
        untrack-IsMirrored st.task_id (delete_pod d st moved) (
          IsQuiet-IsMirrored moved _ (delete_pod-IsQuiet st moved) (
            IsQuiet-IsMirrored told _ (transition-IsQuiet st.task_id to wall told) (
              IsQuiet-IsMirrored (mark_terminated st.task_id w) told (refl, refl)
                (update-IsMirrored (λ s. record s { terminated = true }) st.task_id w (λ s. refl)
                  h))))

    carry_out-IsMirrored :
        (wall : Time) (st : State) (w : World Cluster) (v : Verdict)
        → IsMirrored w
        → IsMirrored (carry_out d wall st w v)
    unfolding carry_out warn escalate
    carry_out-IsMirrored wall st w (stop why) h = terminate-IsMirrored st why wall w h
    carry_out-IsMirrored wall st w (escalate_now why) h =
        told-IsMirrored (escalation st.task_id why) st why (mark_escalated st.task_id w)
          (update-IsMirrored (λ s. record s { escalated = true }) st.task_id w (λ s. refl) h)
    carry_out-IsMirrored wall st w (warn_now why) h =
        told-IsMirrored (warning st.task_id why) st why (mark_warned st.task_id w)
          (update-IsMirrored (λ s. record s { warned = true }) st.task_id w (λ s. refl) h)
    carry_out-IsMirrored wall st w leave h = h

    act_on-IsMirrored :
        (now wall : Time) (st : State) (w : World Cluster) (p : Result DispatchError Phase)
        → IsMirrored w
        → IsMirrored (act_on d now wall st w p)
    unfolding act_on hibernate mark_failed
    act_on-IsMirrored now wall st w (ok succeeded) h =
        clean-IsMirrored (hibernated st.task_id) task_awaiting_review st wall w h
    act_on-IsMirrored now wall st w (ok failed) h =
        clean-IsMirrored (pod_failed st.task_id) task_failed st wall w h
    act_on-IsMirrored now wall st w (ok unknown) h =
        carry_out-IsMirrored wall st w (judge w.cfg now st) h
    act_on-IsMirrored now wall st w (ok pending) h =
        carry_out-IsMirrored wall st w (judge w.cfg now st) h
    act_on-IsMirrored now wall st w (ok pod_running) h =
        carry_out-IsMirrored wall st w (judge w.cfg now st) h
    act_on-IsMirrored now wall st w (ok (unlisted x)) h =
        carry_out-IsMirrored wall st w (judge w.cfg now st) h
    act_on-IsMirrored now wall st w (err e) h =
        carry_out-IsMirrored wall st w (judge w.cfg now st) h

    pub evaluate_each-IsMirrored :
        (now wall : Time) (sts : List State) (w : World Cluster)
        → IsMirrored w
        → IsMirrored (evaluate_each d now wall sts w)
    unfolding evaluate_each evaluate_one
    evaluate_each-IsMirrored now wall [] w h = h
    evaluate_each-IsMirrored now wall (st ∷ sts) w h =
        evaluate_each-IsMirrored now wall sts (evaluate_one d now wall st w) (go st.terminated)
      where
        go :
            (b : Bool)
            → IsMirrored (
                if b
                then w
                else act_on d now wall st w (d.pod_phase st.namespace st.pod_name w.cluster))
        go true = h
        go false =
            act_on-IsMirrored now wall st w (d.pod_phase st.namespace st.pod_name w.cluster) h
