-- ===== src/Cerberus/Slack.antt =====
-- The verification of Slack webhooks (cerberus/verification/slack/slack.go). Parameters: the keyed hash
-- `mac secret body`, the text `digest body` of the first eight bytes of the body's hash, and `probe`, which
-- reads the field `type` of a JSON body.
pub mod Once
use zakros.Base.{
  ℕ, ◌+◌, ◌-◌, ◌*◌, string_equality, String, ◌<>◌, List, [], ◌∷◌, Option, none, some, Bool, true,
  false, not, ◌&&◌, ◌||◌, ◌==◌, if◌then◌else◌, Result, ok, err,
}
use zakros.Base.Int.{ℤ, pos, ltb_ℤ, neg64}
use zakros.Base.Clock.{Time, Duration, second, since, unix}
use zakros.Base.Text.{strip_prefix, parse_int}
use zakros.Replay.Deliveries.{MemStore}
use zakros.Cerberus.{
  Failure, not_configured, unreadable_body, invalid_signature, timestamp_skew, missing_header,
  Event, decode_hex, same_bytes, check_delivery,
}

abbrev default_replay_window : Duration
default_replay_window = pos (5 * 60 * second)

pub record SlackVerifier : Type 0 where
  pub secret : String
  pub store : Option MemStore
  pub replay_window : Duration

abbrev pub new_verifier : String → Option MemStore → SlackVerifier
new_verifier secret store = record {
  secret = secret;
  store = store;
  replay_window = default_replay_window;
}

-- A request: its headers, "" where one is missing, and its body, `none` if it cannot be read.
pub record SlackRequest : Type 0 where
  pub signature : String
  pub timestamp : String
  pub body : Option String

-- The request is too far in the past or in the future.
unfoldable pub is_skewed : Duration → Time → ℤ → Bool
unfolding since
is_skewed window now sec = let d = since now (unix sec) in ltb_ℤ window d || ltb_ℤ d (neg64 window)

module _ (mac : String → String → List ℕ) where
  -- verifySignature; each of its errors is ErrInvalidSignature.
  unfoldable pub verify_signature : String → String → String → String → Bool
  verify_signature secret ts body header = elim (strip_prefix "v0=" header) [
    | none ↦ false
    | some digits ↦ elim (decode_hex digits) [
      | none ↦ false
      | some expected ↦ same_bytes expected (mac secret ("v0:" <> ts <> ":" <> body))
    ]
  ]

module _ (digest : String → String) (probe : String → Option String) where
  abbrev pub slack_event : String → String → Event
  slack_event ts body = record {
    source = "slack";
    type = elim (probe body) [ none ↦ "unknown" | some t ↦ if t == "" then "unknown" else t ];
    delivery_id = ts <> ":" <> digest body;
    body = body;
  }

module _ (mac : String → String → List ℕ) (digest : String → String)
    (probe : String → Option String) where
  -- From the body on.
  unfoldable pub verify_body :
      SlackVerifier → SlackRequest → Time → Option MemStore × Result Failure Event
  unfolding verify_signature check_delivery
  verify_body v r now = elim r.body [
    | none ↦ (v.store, err unreadable_body)
    | some body ↦
        if verify_signature mac v.secret r.timestamp body r.signature
        then check_delivery (slack_event digest probe r.timestamp body) now v.store
        else (v.store, err invalid_signature)
  ]

  -- What is left of the replay store, and the result.
  unfoldable pub verify_slack :
      SlackVerifier → SlackRequest → Time → Option MemStore × Result Failure Event
  unfolding is_skewed verify_body
  verify_slack v r now =
      if v.secret == ""
      then (v.store, err not_configured)
      else if r.signature == ""
      then (v.store, err (missing_header "X-Slack-Signature"))
      else if r.timestamp == ""
      then (v.store, err (missing_header "X-Slack-Request-Timestamp"))
      else elim (parse_int r.timestamp) [
        | none ↦ (v.store, err (missing_header "X-Slack-Request-Timestamp not an integer"))
        | some sec ↦
            if is_skewed v.replay_window now sec
            then (v.store, err timestamp_skew)
            else verify_body v r now
      ]

  -- The verifier after a sequence of requests.
  unfoldable pub verify_slack_all : List (SlackRequest × Time) → SlackVerifier → SlackVerifier
  verify_slack_all [] v = v
  verify_slack_all ((r, now) ∷ rs) v =
      verify_slack_all rs (record v { store = (verify_slack v r now).0 })
