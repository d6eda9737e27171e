-- ===== src/Minos/Hibernation.antt =====
-- The sweeper of hibernated tasks (minos/core/hibernate.go). `now` is the reading of the server's
-- clock at the start of a sweep, `wall` that of the store's clock.
pub mod Sweep
use zakros.Base.{
  List, [], ◌∷◌, Option, none, some, Bool, true, false, not, ◌&&◌, is_some, for_each, if◌then◌else◌,
}
use zakros.Base.Int.{pos, ltb_ℤ, leb_ℤ}
use zakros.Base.Clock.{Time, Duration, time_sub}
use zakros.Storage.{Uuid, Error, not_found, conflict, Task, awaiting_review, failed}
use zakros.Storage.Memstore.{list_tasks, transition_task, mark_task_reminded}
use zakros.Minos.{
  Server, emit, post_thread, task_abandoned, reminder, abandoned, reminded,
  abandon_transition_failed, mark_reminded_failed,
}

-- HibernationConfig.Durations, as far as the sweep reads it.
pub record Thresholds : Type 0 where
  pub reminder_after : Duration
  pub abandon_after : Duration

abbrev pub is_unset : Duration → Bool
is_unset d = leb_ℤ d (pos 0) && leb_ℤ (pos 0) d

module _ {Cluster : Type 0} where
  unfoldable pub abandon_hibernated : Time → Task → Duration → Server Cluster → Server Cluster
  unfolding post_thread
  abandon_hibernated wall t dur s =
      let (m, e) = transition_task t.id failed wall s.store in
      let v = record s { store = m } in
      elim e [
        | some not_found ↦ emit (abandon_transition_failed t.id not_found) v
        | _ ↦ post_thread t (task_abandoned dur) (emit (abandoned t.id dur) v)
      ]

  unfoldable pub remind_hibernated : Time → Task → Duration → Server Cluster → Server Cluster
  unfolding post_thread
  remind_hibernated wall t dur s =
      let told = post_thread t (reminder dur) (emit (reminded t.id dur) s) in
      let (m, e) = mark_task_reminded t.id wall told.store in
      let v = record told { store = m } in
      elim e [ some x ↦ emit (mark_reminded_failed t.id x) v | none ↦ v ]

  -- The body of the loop.
  unfoldable pub sweep_one : Thresholds → Time → Time → Task → Server Cluster → Server Cluster
  unfolding abandon_hibernated remind_hibernated
  sweep_one h now wall t s =
      let dur = time_sub now t.state_changed_at in
      if ltb_ℤ (pos 0) h.abandon_after && leb_ℤ h.abandon_after dur
      then abandon_hibernated wall t dur s
      else if ltb_ℤ (pos 0) h.reminder_after
          && leb_ℤ h.reminder_after dur
          && not (is_some t.reminded_at)
      then remind_hibernated wall t dur s
      else s

  -- `h` is `none` if a duration does not parse; then the sweep returns an error (true).
  unfoldable pub sweep_hibernation :
      Option Thresholds → Time → Time → Server Cluster → Server Cluster × Bool
  unfolding sweep_one
  sweep_hibernation none now wall s = (s, true)
  sweep_hibernation (some h) now wall s =
      if is_unset h.reminder_after && is_unset h.abandon_after then (s, false) else (
        for_each (sweep_one h now wall) (list_tasks (awaiting_review ∷ []) (pos 0) s.store) s,
        false,
      )
