-- ===== src/Minos/Deliveries.antt =====
-- The webhook of GitHub from its signature to its effect (minos/core/api.go, handleGithubWebhook,
-- handlePullRequestReviewEvent and handleIssueCommentEvent). What the JSON decoder makes of a body is an
-- argument, `none` for an error.
pub mod Once
use zakros.Base.{
  ℕ, String, ◌<>◌, List, Option, none, some, Bool, not, ◌&&◌, ◌||◌, ◌==◌, string_equality,
  if◌then◌else◌, Result, ok, err,
}
use zakros.Base.Clock.{Time}
use zakros.Base.Text.{Casing, trim_space, contains_text}
use zakros.Storage.{Uuid, Error, not_found, conflict, Task, awaiting_review, same_state, state_text}
use zakros.Storage.Memstore.{find_task_by_pr_url}
use zakros.Cerberus.{
  Event as Delivered, Delivery, Failure as Unverified, not_configured, unreadable_body,
  timestamp_skew, invalid_signature, replayed, missing_header, verify,
}
use zakros.Minos.{
  Server, Environment, Event, emit, review_ignored, review_no_task, review_wrong_state,
  respawn_failed, mention_no_task, mention_wrong_state, mention_respawn_failed, mention_respawn,
  unhandled_event, Failure,
}
use zakros.Minos.Dispatching.{Draws}
use zakros.Minos.Respawning.{respawn}
use zakros.Minos.Webhooks.{Reply, status, failure, PullRequestEvent, handle_pull_request_event}

pub record ReviewEvent : Type 0 where
  pub action : String
  pub state : String
  pub html_url : String

-- `pull_request` is the URL of a comment on a pull request, `none` on a plain issue.
pub record CommentEvent : Type 0 where
  pub action : String
  pub pull_request : Option String
  pub body : String
  pub login : String

-- The decoders of the three payloads.
pub record Decoders : Type 0 where
  pub pull_request : String → Option PullRequestEvent
  pub review : String → Option ReviewEvent
  pub comment : String → Option CommentEvent

unfoldable pub answer_unverified : Unverified → Reply
answer_unverified not_configured = failure 500
answer_unverified unreadable_body = failure 500
answer_unverified timestamp_skew = failure 500
answer_unverified invalid_signature = failure 401
answer_unverified replayed = status "duplicate"
answer_unverified (missing_header name) = failure 400

module _ {Cluster : Type 0} where
  -- What follows the lookup of the task: the answer of a lookup that fails, the check of the state, and
  -- the respawn. The reports of the two events are arguments.
  unfoldable pub respawn_found :
      Environment Cluster
      → Draws
      → Event
      → (Uuid → Task → Event)
      → (Uuid → Failure → Event)
      → Option (Uuid → Event)
      → Result Error Task
      → Server Cluster
      → Server Cluster × Reply
  respawn_found env d missing wrong refused notice (err not_found) s =
      (emit missing s, status "no-matching-task")
  respawn_found env d missing wrong refused notice (err conflict) s = (s, failure 500)
  respawn_found env d missing wrong refused notice (ok t) s =
      if not (same_state t.state awaiting_review)
      then (emit (wrong t.id t) s, status (state_text t.state))
      else (let (v, r) = respawn env d t.id s in
          elim r [
            | err e ↦ (emit (refused t.id e) v, failure 500)
            | ok u ↦
                (elim notice [ none ↦ v | some report ↦ emit (report t.id) v ], status "respawned")
          ])

  unfoldable pub handle_pull_request_review_event :
      Environment Cluster → Draws → Option ReviewEvent → Server Cluster → Server Cluster × Reply
  unfolding respawn_found
  handle_pull_request_review_event env d none s = (s, failure 400)
  handle_pull_request_review_event env d (some ev) s =
      if not (ev.action == "submitted") || not (ev.state == "changes_requested")
      then (emit (review_ignored ev.action ev.state ev.html_url) s, status "ignored")
      else respawn_found env d (review_no_task ev.html_url) (λ id t. review_wrong_state id t.state)
          respawn_failed none (find_task_by_pr_url ev.html_url s.store) s

  unfoldable pub handle_mention :
      Environment Cluster
      → Casing
      → Draws
      → String
      → CommentEvent
      → String
      → Server Cluster
      → Server Cluster × Reply
  unfolding respawn_found contains_text
  handle_mention env casing d handle ev url s =
      if casing.equal_fold ev.login handle
      then (s, status "self-authored")
      else if not (contains_text (casing.to_lower ("@" <> handle)) (casing.to_lower ev.body))
      then (s, status "no-mention")
      else respawn_found env d (mention_no_task url) (λ id t. mention_wrong_state id t.state)
          mention_respawn_failed (some (λ id. mention_respawn id ev.login))
          (find_task_by_pr_url url s.store) s

  unfoldable pub handle_issue_comment_event :
      Environment Cluster
      → Casing
      → Draws
      → Option CommentEvent
      → Server Cluster
      → Server Cluster × Reply
  unfolding handle_mention trim_space
  handle_issue_comment_event env casing d body s =
      let handle = trim_space s.cfg.project.agent_mention_handle in
      if handle == "" then (s, status "mention-disabled") else elim body [
        | none ↦ (s, failure 400)
        | some ev ↦
            if not (ev.action == "created") then (s, status "ignored") else elim ev.pull_request [
              | none ↦ (s, status "ignored")
              | some url ↦ handle_mention env casing d handle ev url s
            ]
      ]

  -- The event by its type. `refusal` is the error of posting the summary, if there is one.
  unfoldable pub handle_event :
      Environment Cluster
      → Casing
      → Decoders
      → Draws
      → Option String
      → Delivered
      → Server Cluster
      → Server Cluster × Reply
  unfolding handle_pull_request_review_event handle_issue_comment_event
  handle_event env casing c d refusal ev s =
      if ev.type == "pull_request"
      then handle_pull_request_event (c.pull_request ev.body) d.moved_at refusal s
      else if ev.type == "pull_request_review"
      then handle_pull_request_review_event env d (c.review ev.body) s
      else if ev.type == "issue_comment"
      then handle_issue_comment_event env casing d (c.comment ev.body) s
      else (emit (unhandled_event ev.type ev.delivery_id) s, status "unhandled")

  -- A secret that cannot be resolved is answered by 500. `now` is the verifier's clock.
  unfoldable pub handle_github_webhook :
      (String → String → List ℕ)
      → Environment Cluster
      → Casing
      → Decoders
      → Draws
      → Option String
      → Delivery
      → Time
      → Server Cluster
      → Server Cluster × Reply
  unfolding handle_event
  handle_github_webhook mac env casing c d refusal r now s =
      elim (env.resolve s.cfg.github_webhook_secret_ref) [
        | none ↦ (s, failure 500)
        | some secret ↦
            let (replays, result) =
              verify mac (record { secret = secret; store = s.replays }) r now in
            let v = record s { replays = replays } in
            elim result [
              | err e ↦ (v, answer_unverified e)
              | ok ev ↦ handle_event env casing c d refusal ev v
            ]
      ]
