-- ===== src/Minos/Webhooks/Finalizing.antt =====
-- What the end of a pull request does to its task (minos/core/api.go, handlePullRequestEvent).
use zakros.Base.{
  nat_equality, string_equality, ◌==◌, eqb_iff, String, Option, some, Bool, true, false, ◌||◌, ◌≡◌,
  ◌⊎◌, inl, inr, refl, sym, ◌∙◌, ap, subst, arith, if◌then◌else◌, ok,
}
use zakros.Base.Maps.{lookup, lookup-insert}
use zakros.Base.Clock.{Time}
use zakros.Storage.{Uuid, Task, State, running, awaiting_review, completed, failed, same_state}
use zakros.Storage.Memstore.{
  Store, find_task_by_pr_url, valid_transition, advance, transitions, step,
}
use zakros.Storage.Memstore.Transition.{advance-Stamped, moved, transition_task-moved}
use zakros.Storage.Memstore.Links.{IsLinked, step-IsLinked}
use zakros.Storage.Memstore.Urls.{find_task_by_pr_url-exact}
use zakros.Minos.{Server}
use zakros.Minos.Webhooks.{
  PullRequestEvent, status, post_summary, finalize, handle_closed, handle_pull_request_event,
}

-- A task with a pod or in review.
abbrev pub IsLive : State → Type 0
IsLive st = (st ≡ running) ⊎ (st ≡ awaiting_review)

abbrev pub target : Bool → State
target merged = if merged then completed else failed

target-valid : (merged : Bool) (st : State) → IsLive st → valid_transition st (target merged) ≡ true
unfolding valid_transition
target-valid true st (inl e) = subst (λ x. valid_transition x completed ≡ true) (sym e) refl
target-valid true st (inr e) = subst (λ x. valid_transition x completed ≡ true) (sym e) refl
target-valid false st (inl e) = subst (λ x. valid_transition x failed ≡ true) (sym e) refl
target-valid false st (inr e) = subst (λ x. valid_transition x failed ≡ true) (sym e) refl

live-not_terminal :
    (st : State) → IsLive st → (same_state st completed || same_state st failed) ≡ false
live-not_terminal st (inl e) =
    subst (λ x. (same_state x completed || same_state x failed) ≡ false) (sym e) refl
live-not_terminal st (inr e) =
    subst (λ x. (same_state x completed || same_state x failed) ≡ false) (sym e) refl

target-terminal :
    (st : State) (merged : Bool)
    → st ≡ target merged
    → (same_state st completed || same_state st failed) ≡ true
target-terminal st true e =
    subst (λ x. (same_state x completed || same_state x failed) ≡ true) (sym e) refl
target-terminal st false e =
    subst (λ x. (same_state x completed || same_state x failed) ≡ true) (sym e) refl

moved-IsLinked :
    (id : Uuid) (to : State) (wall : Time) (s : Store) (t : Task)
    → lookup id s.tasks ≡ some t
    → valid_transition t.state to ≡ true
    → IsLinked s
    → IsLinked (moved id to wall t s)
unfolding step
moved-IsLinked id to wall s t e valid h =
    subst IsLinked (ap (λ r. r.0) (transition_task-moved id to wall s t e valid))
      (step-IsLinked (transitions id to wall) s tt h)

find-moved :
    (t : Task) (url : String) (merged : Bool) (wall : Time) (s : Store)
    → IsLinked s
    → lookup t.id s.tasks ≡ some t
    → t.pr_url ≡ some url
    → IsLive t.state
    → find_task_by_pr_url url (moved t.id (target merged) wall t s)
      ≡ ok (advance (target merged) wall t)
find-moved t url merged wall s h e held live =
    let u = advance (target merged) wall t in
    let stamped = advance-Stamped (target merged) wall t in
    (find_task_by_pr_url-exact url (moved t.id (target merged) wall t s) u
        (moved-IsLinked t.id (target merged) wall s t e (target-valid merged t.state live) h)).1
      (
        subst (λ i. lookup i (moved t.id (target merged) wall t s).tasks ≡ some u) (sym stamped.id)
            (lookup-insert t.id t.id u s.tasks ∙ rw ((eqb_iff t.id t.id).1 refl) refl),
        stamped.pr_url ∙ held,
      )

-- The event that closes a pull request.
abbrev pub closing : String → Bool → PullRequestEvent
closing url merged = record { action = "closed"; html_url = url; merged = merged }

module _ {Cluster : Type 0} where
  post_summary-store :
      (t : Task) (merged : Bool) (url : String) (refusal : Option String) (s : Server Cluster)
      → (post_summary t merged url refusal s).store ≡ s.store
  unfolding post_summary
  post_summary-store t merged url refusal s = ground arith

  finalize-done :
      (t : Task) (merged : Bool) (url : String) (wall : Time) (refusal : Option String)
      (s : Server Cluster)
      → lookup t.id s.store.tasks ≡ some t
      → IsLive t.state
      → ((finalize t merged url wall refusal s).0.store ≡ moved t.id (target merged) wall t s.store)
        × ((finalize t merged url wall refusal s).1
            ≡ status (if merged then "completed" else "failed"))
  unfolding finalize
  finalize-done t merged url wall refusal s e live =
      let through =
        transition_task-moved t.id (target merged) wall s.store t e
          (target-valid merged t.state live) in
      rw (finalize, through)
        (post_summary-store t merged url refusal _ ∙ ap (λ r. r.0) through, refl)

  handle-found :
      (t : Task) (merged : Bool) (url : String) (wall : Time) (refusal : Option String)
      (s : Server Cluster)
      → find_task_by_pr_url url s.store ≡ ok t
      → handle_pull_request_event (some (closing url merged)) wall refusal s
        ≡ handle_closed (ok t) merged url wall refusal s
  unfolding handle_pull_request_event
  handle-found t merged url wall refusal s e = ap (λ r. handle_closed r merged url wall refusal s) e

  handle_closed-live :
      (t : Task) (merged : Bool) (url : String) (wall : Time) (refusal : Option String)
      (s : Server Cluster)
      → IsLive t.state
      → handle_closed (ok t) merged url wall refusal s ≡ finalize t merged url wall refusal s
  unfolding handle_closed
  handle_closed-live t merged url wall refusal s live = rw (live-not_terminal t.state live) refl

  handle_closed-terminal :
      (t : Task) (goal merged : Bool) (url : String) (wall : Time) (refusal : Option String)
      (s : Server Cluster)
      → t.state ≡ target goal
      → handle_closed (ok t) merged url wall refusal s ≡ (s, status "already-terminal")
  unfolding handle_closed
  handle_closed-terminal t goal merged url wall refusal s e =
      rw (target-terminal t.state goal e) refl

  -- In a store that the writes can reach, when the pull request of a task that runs or is in review is
  -- closed, that task, and no other, is stamped as completed if the pull request was merged and as failed
  -- otherwise, the answer names the new state, and any further closing event for the pull request, at
  -- any time and merged or not, changes nothing and is answered as already terminal.
  pub handle_pull_request_event-finalizes :
      (t : Task) (url : String) (merged again : Bool) (wall later : Time)
      (refusal refusal' : Option String) (s : Server Cluster)
      → IsLinked s.store
      → lookup t.id s.store.tasks ≡ some t
      → t.pr_url ≡ some url
      → IsLive t.state
      → let r = handle_pull_request_event (some (closing url merged)) wall refusal s in
        (r.1 ≡ status (if merged then "completed" else "failed"))
        × ((j : Uuid)
            → lookup j r.0.store.tasks ≡ (
                if t.id == j
                then some (advance (target merged) wall t)
                else lookup j s.store.tasks))
        × (handle_pull_request_event (some (closing url again)) later refusal' r.0
            ≡ (r.0, status "already-terminal"))
  handle_pull_request_event-finalizes t url merged again wall later refusal refusal' s h e held
        live =
      let first = handle_pull_request_event (some (closing url merged)) wall refusal s in
      let first_is =
        handle-found t merged url wall refusal s
          ((find_task_by_pr_url-exact url s.store t h).1 (e, held))
        ∙ handle_closed-live t merged url wall refusal s live in
      let (stored, answer) = finalize-done t merged url wall refusal s e live in
      let store_is : first.0.store ≡ moved t.id (target merged) wall t s.store =
        ap (λ r. r.0.store) first_is ∙ stored in
      (
        ap (λ r. r.1) first_is ∙ answer,
        λ j.
            ap (λ m. lookup j m.tasks) store_is
            ∙ lookup-insert t.id j (advance (target merged) wall t) s.store.tasks,
        handle-found (advance (target merged) wall t) again url later refusal' first.0 (
              ap (find_task_by_pr_url url) store_is
              ∙ find-moved t url merged wall s.store h e held live)
            ∙ handle_closed-terminal (advance (target merged) wall t) merged again url later
                refusal' first.0 (advance-Stamped (target merged) wall t).state,
      )
