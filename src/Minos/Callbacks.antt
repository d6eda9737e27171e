-- ===== src/Minos/Callbacks.antt =====
-- The gate of the routes that pods call (minos/core/api.go, requirePodAuth): the bearer middleware, and
-- the check that the token is of the task in the path. The handler behind it is an argument.
pub mod OwnTask
use zakros.Base.{ℕ, String, Option, none, some, ◌==◌, string_equality, if◌then◌else◌}
use zakros.Base.Clock.{Time}
use zakros.Base.Text.{strip_prefix}
use zakros.Replay.Tokens.{MemReplayStore}
use zakros.Auth.{AuditEvent, denied, allowed, status_of, Claims, Verifier, require}
use zakros.Minos.{Server}
use zakros.Minos.Webhooks.{Reply, failure}

-- The status with which `refuse` answers; an allowed call is answered by its handler.
unfoldable pub denial_status : AuditEvent → ℕ
denial_status (denied why scope) = status_of why
denial_status (allowed scope c) = 200

-- A route that is mounted behind the gate.
abbrev pub Handler : Type 0 → Type 0
Handler Cluster = Server Cluster → Server Cluster × Reply

module _ {Cluster : Type 0} where
  unfoldable pub check_subject : Claims → String → Handler Cluster → Handler Cluster
  check_subject c path next s = elim (strip_prefix "task:" c.subject) [
    | none ↦ (s, failure 401)
    | some id ↦ if id == path then next s else (s, failure 403)
  ]

  -- `path` is the identifier in the path. The answer, and what is left of the replay store.
  unfoldable pub require_pod_auth :
      Verifier
      → String
      → String
      → Time
      → Time
      → Option MemReplayStore
      → Handler Cluster
      → Server Cluster
      → Option MemReplayStore × (Server Cluster × Reply)
  require_pod_auth v header path now wall replays next s =
      let o = require v "task.lifecycle" header now wall replays in
      (
        o.replays,
        elim o.served [
          | none ↦ (s, failure (denial_status o.event))
          | some c ↦ check_subject c path next s
        ],
      )
