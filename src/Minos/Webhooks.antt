-- ===== src/Minos/Webhooks.antt =====
-- Pull requests: the report of a pod and the webhook of GitHub (minos/core/api.go, handleReportPR,
-- handlePullRequestEvent and postSummary). What the JSON and UUID parsers return is an argument, `none`
-- for an error. `wall` is the reading of the store's clock.
pub mod Finalizing
pub mod Reporting
use zakros.Base.{
  ℕ, String, Option, none, some, Bool, true, false, not, ◌||◌, ◌==◌, string_equality, if◌then◌else◌,
  Result, ok, err,
}
use zakros.Base.Clock.{Time}
use zakros.Storage.{Uuid, Error, not_found, conflict, State, Task, completed, failed, same_state}
use zakros.Storage.Memstore.{set_task_pr, find_task_by_pr_url, transition_task}
use zakros.Minos.{
  Server, emit, task_completed, task_closed, posted, pr_reported, pr_merged, pr_closed, pr_ignored,
  pr_no_task, post_summary_failed,
}

-- An answer: 200 with a status or a challenge, or an error with its HTTP status.
pub data Reply : Type 0 where
  status challenge : String → Reply
  failure : ℕ → Reply

pub record PullRequestEvent : Type 0 where
  pub action : String
  pub html_url : String
  pub merged : Bool

module _ {Cluster : Type 0} where
  unfoldable pub handle_report_pr :
      Option Uuid → Option String → Server Cluster → Server Cluster × Reply
  handle_report_pr none body s = (s, failure 400)
  handle_report_pr (some id) none s = (s, failure 400)
  handle_report_pr (some id) (some url) s =
      if url == ""
      then (s, failure 400)
      else (let (m, e) = set_task_pr id url s.store in
          elim e [
            | none ↦ (emit (pr_reported id url) (record s { store = m }), status "ok")
            | some not_found ↦ (record s { store = m }, failure 404)
            | some conflict ↦ (record s { store = m }, failure 409)
          ])

  -- `refusal` is the error of PostToThread, if there is one.
  unfoldable pub post_summary :
      Task → Bool → String → Option String → Server Cluster → Server Cluster
  post_summary t merged url refusal s = elim t.envelope [
    | none ↦ s
    | some e ↦ if not s.hermes || e.communication.thread_ref == "" then s else elim refusal [
      | some why ↦ emit (post_summary_failed t.id why) s
      | none ↦
          emit
            (posted e.communication.thread_surface e.communication.thread_ref
              (if merged then task_completed url else task_closed url))
            s
    ]
  ]

  -- The transition to completed or failed, and the answer.
  unfoldable pub finalize :
      Task → Bool → String → Time → Option String → Server Cluster → Server Cluster × Reply
  unfolding post_summary
  finalize t merged url wall refusal s =
      let (m, e) = transition_task t.id (if merged then completed else failed) wall s.store in
      let v = record s { store = m } in
      elim e [
        | some x ↦ (v, failure 500)
        | none ↦ (
          post_summary t merged url refusal
              (emit (if merged then pr_merged t.id url else pr_closed t.id url) v),
          status (if merged then "completed" else "failed"),
        )
      ]

  unfoldable pub handle_closed :
      Result Error Task
      → Bool
      → String
      → Time
      → Option String
      → Server Cluster
      → Server Cluster × Reply
  unfolding finalize
  handle_closed (err not_found) merged url wall refusal s =
      (emit (pr_no_task url) s, status "no-matching-task")
  handle_closed (err conflict) merged url wall refusal s = (s, failure 500)
  handle_closed (ok t) merged url wall refusal s =
      if same_state t.state completed || same_state t.state failed
      then (s, status "already-terminal")
      else finalize t merged url wall refusal s

  unfoldable pub handle_pull_request_event :
      Option PullRequestEvent → Time → Option String → Server Cluster → Server Cluster × Reply
  unfolding handle_closed finalize
  handle_pull_request_event none wall refusal s = (s, failure 400)
  handle_pull_request_event (some ev) wall refusal s =
      if ev.action == "closed"
      then handle_closed (find_task_by_pr_url ev.html_url s.store) ev.merged ev.html_url wall
          refusal s
      else (emit (pr_ignored ev.action ev.html_url) s, status "ignored")
