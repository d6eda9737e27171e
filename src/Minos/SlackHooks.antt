-- ===== src/Minos/SlackHooks.antt =====
-- The webhook of Slack (minos/core/slack_webhook.go, handleSlackWebhook).
use zakros.Base.{ℕ, string_equality, String, List, Option, none, some, ◌==◌, if◌then◌else◌, ok, err}
use zakros.Base.Clock.{Time}
use zakros.Cerberus.{
  Event as Delivered, Failure, not_configured, unreadable_body, timestamp_skew, invalid_signature,
  replayed, missing_header,
}
use zakros.Cerberus.Slack.{SlackRequest, new_verifier, verify_slack}
use zakros.Minos.{Server, Environment, emit, slack_received, slack_url_verification_echoed}
use zakros.Minos.Webhooks.{Reply, status, challenge, failure}

unfoldable answer_slack_unverified : Failure → Reply
answer_slack_unverified invalid_signature = failure 401
answer_slack_unverified (missing_header name) = failure 400
answer_slack_unverified timestamp_skew = failure 400
answer_slack_unverified replayed = status "duplicate"
answer_slack_unverified not_configured = failure 500
answer_slack_unverified unreadable_body = failure 500

module _ {Cluster : Type 0} where
  -- `probe` reads the field `challenge` of a JSON body, `none` if the body cannot be decoded.
  unfoldable handle_slack_event :
      (String → Option String) → Delivered → Server Cluster → Server Cluster × Reply
  handle_slack_event probe ev s =
      if ev.type == "url_verification"
      then elim (probe ev.body) [
        | none ↦ (s, failure 400)
        | some c ↦
            if c == ""
            then (s, failure 400)
            else (emit (slack_url_verification_echoed ev.delivery_id) s, challenge c)
      ]
      else (emit (slack_received ev.type ev.delivery_id) s, status "ok")

  -- The fields `type` and `challenge` of a body are read by `type_of` and `challenge_of`.
  unfoldable handle_slack_webhook :
      (String → String → List ℕ)
      → (String → String)
      → (String → Option String)
      → (String → Option String)
      → Environment Cluster
      → SlackRequest
      → Time
      → Server Cluster
      → Server Cluster × Reply
  unfolding handle_slack_event answer_slack_unverified
  handle_slack_webhook mac digest type_of challenge_of env r now s =
      if s.cfg.slack_webhook_secret_ref == ""
      then (s, failure 503)
      else elim (env.resolve s.cfg.slack_webhook_secret_ref) [
        | none ↦ (s, failure 500)
        | some secret ↦
            let (replays, result) =
              verify_slack mac digest type_of (new_verifier secret s.replays) r now in
            let v = record s { replays = replays } in
            elim result [
              | err e ↦ (v, answer_slack_unverified e)
              | ok ev ↦ handle_slack_event challenge_of ev v
            ]
      ]
