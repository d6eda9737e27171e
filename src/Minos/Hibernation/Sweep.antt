-- ===== src/Minos/Hibernation/Sweep.antt =====
-- What a sweep does to every stored task (minos/core/hibernate.go, SweepHibernation).
use zakros.Base.{
  nat_equality, [], ◌∷◌, some, true, false, not, ◌&&◌, ◌≡◌, refl, sym, ◌∙◌, ap, inl, inr, arith,
  is_some, if◌then◌else◌, Bool-cases,
}
use zakros.Base.Int.{pos, ltb_ℤ, leb_ℤ}
use zakros.Base.Maps.{lookup}
use zakros.Base.Clock.{Time, Duration, time_sub}
use zakros.Storage.{Uuid, Task, awaiting_review, failed, same_state}
use zakros.Storage.Memstore.{admits, transition_task, mark_task_reminded}
use zakros.Storage.Memstore.Links.{IsLinked}
use zakros.Storage.Memstore.Loops.{
  turned, tried, turned-same, turned-ext, tried_again, transition_task-turned,
  mark_task_reminded-turned, for_each-list_tasks,
}
use zakros.Minos.{
  Server, emit, abandoned, reminded, task_abandoned, reminder, post_thread, post_thread-store,
}
use zakros.Minos.Hibernation.{
  Thresholds, is_unset, abandon_hibernated, remind_hibernated, sweep_one, sweep_hibernation,
}

-- What the turn of `t` does to the stored task `x`.
unfoldable pub sweep_act : Thresholds → Time → Time → Task → Task → Task
sweep_act h now wall t x =
    let dur = time_sub now t.state_changed_at in
    if ltb_ℤ (pos 0) h.abandon_after && leb_ℤ h.abandon_after dur
    then tried failed wall x
    else if ltb_ℤ (pos 0) h.reminder_after
        && leb_ℤ h.reminder_after dur
        && not (is_some t.reminded_at)
    then record x { reminded_at = some wall }
    else x

sweep_act-stale :
    (h : Thresholds) (now wall : Time) (t x : Task)
    → (ltb_ℤ (pos 0) h.abandon_after && leb_ℤ h.abandon_after (time_sub now t.state_changed_at))
      ≡ true
    → sweep_act h now wall t x ≡ tried failed wall x
unfolding sweep_act
sweep_act-stale h now wall t x stale = rw stale refl

sweep_act-due :
    (h : Thresholds) (now wall : Time) (t x : Task)
    → (ltb_ℤ (pos 0) h.abandon_after && leb_ℤ h.abandon_after (time_sub now t.state_changed_at))
      ≡ false
    → sweep_act h now wall t x ≡ (
        if ltb_ℤ (pos 0) h.reminder_after
          && leb_ℤ h.reminder_after (time_sub now t.state_changed_at)
          && not (is_some t.reminded_at)
        then record x { reminded_at = some wall }
        else x)
unfolding sweep_act
sweep_act-due h now wall t x fresh = rw fresh refl

sweep_act-again :
    (h : Thresholds) (now wall : Time) (t : Task)
    → sweep_act h now wall t (sweep_act h now wall t t) ≡ sweep_act h now wall t t
sweep_act-again h now wall t =
    elim (Bool-cases
      (ltb_ℤ (pos 0) h.abandon_after && leb_ℤ h.abandon_after (time_sub now t.state_changed_at))) [
        | inl stale ↦
            sweep_act-stale h now wall t (sweep_act h now wall t t) stale
            ∙ ap (tried failed wall) (sweep_act-stale h now wall t t stale)
            ∙ tried_again failed wall t
            ∙ sym (sweep_act-stale h now wall t t stale)
        | inr fresh ↦ ground (
          arith,
          sweep_act-due h now wall t (sweep_act h now wall t t) fresh,
          sweep_act-due h now wall t t fresh,
        )
      ]

sweep_act-unset :
    (h : Thresholds) (now wall : Time) (t : Task)
    → (is_unset h.reminder_after && is_unset h.abandon_after) ≡ true
    → sweep_act h now wall t t ≡ t
unfolding sweep_act
sweep_act-unset h now wall t unset = ground arith

module _ {Cluster : Type 0} where
  abandon-store :
      (wall : Time) (u : Task) (dur : Duration) (s : Server Cluster)
      → (abandon_hibernated wall u dur s).store ≡ (transition_task u.id failed wall s.store).0
  unfolding abandon_hibernated
  abandon-store wall u dur s = ground (
    arith,
    post_thread-store u (task_abandoned dur) (
        emit (abandoned u.id dur)
          (record s { store = (transition_task u.id failed wall s.store).0 })),
  )

  remind-store :
      (wall : Time) (u : Task) (dur : Duration) (s : Server Cluster)
      → (remind_hibernated wall u dur s).store ≡ (mark_task_reminded u.id wall s.store).0
  unfolding remind_hibernated
  remind-store wall u dur s =
      let told = post_thread u (reminder dur) (emit (reminded u.id dur) s) in
      ground arith
      ∙ ap (λ m. (mark_task_reminded u.id wall m).0)
          (post_thread-store u (reminder dur) (emit (reminded u.id dur) s))

  sweep_one-turned :
      (h : Thresholds) (now wall : Time) (u : Task) (s : Server Cluster) (j : Uuid)
      → lookup j (sweep_one h now wall u s).store.tasks
        ≡ turned (sweep_act h now wall u) u j (lookup j s.store.tasks)
  unfolding sweep_one
  sweep_one-turned h now wall u s j =
      let dur = time_sub now u.state_changed_at in
      let here = lookup j s.store.tasks in
      elim (Bool-cases (ltb_ℤ (pos 0) h.abandon_after && leb_ℤ h.abandon_after dur)) [
        | inl stale ↦
            rw stale (
              ap (λ m. lookup j m.tasks) (abandon-store wall u dur s)
              ∙ transition_task-turned u failed wall s.store j)
            ∙ turned-ext (λ x. tried failed wall x) (sweep_act h now wall u) u j here
                (λ x. sym (sweep_act-stale h now wall u x stale))
        | inr fresh ↦
            elim (Bool-cases (
              ltb_ℤ (pos 0) h.reminder_after
              && leb_ℤ h.reminder_after dur
              && not (is_some u.reminded_at))) [
                | inl due ↦
                    rw (fresh, due)
                      (ap (λ m. lookup j m.tasks) (remind-store wall u dur s)
                        ∙ mark_task_reminded-turned u wall s.store j)
                    ∙ turned-ext (λ x. record x { reminded_at = some wall })
                        (sweep_act h now wall u) u j here
                        (λ x. ground (arith, sweep_act-due h now wall u x fresh))
                | inr early ↦
                    rw (fresh, early) (sym (turned-same u j here))
                    ∙ turned-ext (λ x. x) (sweep_act h now wall u) u j here
                        (λ x. ground (arith, sweep_act-due h now wall u x fresh))
              ]
      ]

  -- A sweep moves every hibernated task past the abandonment threshold to failed, marks every other
  -- one past the reminder threshold that was not reminded yet, and leaves all other tasks as they are;
  -- it fails only if a threshold does not parse.
  pub sweep_hibernation-lookup :
      (h : Thresholds) (now wall : Time) (s : Server Cluster) (id : Uuid) (t : Task)
      → IsLinked s.store
      → lookup id s.store.tasks ≡ some t
      → (lookup id (sweep_hibernation (some h) now wall s).0.store.tasks
          ≡ some (if same_state t.state awaiting_review then sweep_act h now wall t t else t))
        × ((sweep_hibernation (some h) now wall s).1 ≡ false)
  unfolding sweep_hibernation admits
  sweep_hibernation-lookup h now wall s id t l e =
      elim (Bool-cases (is_unset h.reminder_after && is_unset h.abandon_after)) [
        | inl unset ↦
            rw unset (e ∙ ap some (ground (arith, sweep_act-unset h now wall t unset)), refl)
        | inr set ↦ rw set (
          for_each-list_tasks (λ (v : Server Cluster). v.store) (sweep_one h now wall)
                (sweep_act h now wall) (λ v. Unit) (λ u v g. tt)
                (λ u v j g. sweep_one-turned h now wall u v j) id t (sweep_act-again h now wall t)
                (awaiting_review ∷ []) s tt l e
              ∙ ap some (ground arith),
          refl,
        )
      ]
