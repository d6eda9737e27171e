-- ===== src/Auth.antt =====
-- JWT claims (pkg/jwt/jwt.go), the times that a signed token keeps (pkg/jwt/bearer.go), and the verification middleware of the brokers
-- (pkg/brokerauth/brokerauth.go). The signature check is a parameter.
pub mod Admission
pub mod Reuse
use zakros.Base.{
  ℕ, ◌*◌, ◌/◌, string_equality, String, List, [], ◌∷◌, Option, none, some, Bool, true, false, not,
  ◌&&◌, ◌||◌, if◌then◌else◌, ◌==◌, Result, ok, err,
}
use zakros.Base.Maps.{Map, lookup}
use zakros.Base.Clock.{Time, before, second}
use zakros.Base.Text.{strip_prefix, trim_space}
use zakros.Replay.Tokens.{MemReplayStore, seen}

pub record Claims : Type 0 where
  pub subject : String
  pub issuer : String
  pub audience : List String
  pub issued_at : Time
  pub expires : Time
  pub jti : String
  pub mcp_scopes : Map String (List String)

-- t.Unix() seconds as an instant.
abbrev pub whole_seconds : Time → Time
whole_seconds t = t / second * second

-- The claims that the verification of a signed token returns: Sign writes both instants in whole seconds.
abbrev pub as_signed : Claims → Claims
as_signed c = record c { issued_at = whole_seconds c.issued_at; expires = whole_seconds c.expires }

-- The search loops.
unfoldable pub listed : String → List String → Bool
listed s [] = false
listed s (t ∷ ts) = t == s || listed s ts

-- A missing key reads as no scopes.
abbrev pub scopes_of : String → Map String (List String) → List String
scopes_of broker m = elim (lookup broker m) [ none ↦ [] | some ops ↦ ops ]

unfoldable pub has_scope : String → String → Option Claims → Bool
has_scope broker op none = false
has_scope broker op (some c) = listed op (scopes_of broker c.mcp_scopes)

unfoldable pub has_audience : String → Option Claims → Bool
has_audience broker none = false
has_audience broker (some c) = listed broker c.audience

-- bearerFromHeader
unfoldable pub bearer_from_header : String → String
bearer_from_header h = elim (strip_prefix "Bearer " h) [ none ↦ "" | some rest ↦ trim_space rest ]

-- Why a call is refused, with its audit outcome and its HTTP status.
pub data Refusal : Type 0 where
  malformed_bearer invalid_signature audience_mismatch expired scope_denied replay : Refusal

unfoldable pub status_of : Refusal → ℕ
status_of malformed_bearer = 401
status_of invalid_signature = 401
status_of audience_mismatch = 403
status_of expired = 401
status_of scope_denied = 403
status_of replay = 401

-- One event for each call: its outcome, and the subject and identifier of an allowed token.
pub data AuditEvent : Type 0 where
  denied : Refusal → String → AuditEvent
  allowed : String → Claims → AuditEvent

pub record Verifier : Type 0 where
  pub broker : String
  -- jwt.Verify under the broker's public key; `none` stands for every error.
  pub verify : String → Option Claims

-- What the middleware leaves: the replay store, its audit event, and the claims under which the
-- handler runs, if it runs.
pub record Outcome : Type 0 where
  pub replays : Option MemReplayStore
  pub event : AuditEvent
  pub served : Option Claims

abbrev refuse : Option MemReplayStore → Refusal → String → Outcome
refuse s why scope = record { replays = s; event = denied why scope; served = none }

abbrev serve : Option MemReplayStore → String → Claims → Outcome
serve s scope c = record { replays = s; event = allowed scope c; served = some c }

-- The replay check, for a token that has an identifier and a broker that tracks them.
abbrev check_replay : String → Time → Claims → Option MemReplayStore → Outcome
check_replay scope wall c none = serve none scope c
check_replay scope wall c (some s) =
    if c.jti == ""
    then serve (some s) scope c
    else (let (s', old) = seen c.jti c.expires wall s in
        if old then refuse (some s') replay scope else serve (some s') scope c)

-- Require. The replay store is a MemReplayStore, or none (nil and NopReplayStore alike). `now` is
-- the verifier's clock, `wall` that of the store.
unfoldable pub require : Verifier → String → String → Time → Time → Option MemReplayStore → Outcome
require v scope header now wall s =
    let raw = bearer_from_header header in
    if raw == "" then refuse s malformed_bearer scope else elim (v.verify raw) [
      | none ↦ refuse s invalid_signature scope
      | some c ↦
          if not (has_audience v.broker (some c))
          then refuse s audience_mismatch scope
          else if before c.expires now
          then refuse s expired scope
          else if not (scope == "") && not (has_scope v.broker scope (some c))
          then refuse s scope_denied scope
          else check_replay scope wall c s
    ]

pub record Request : Type 0 where
  pub scope : String
  pub header : String
  pub now : Time
  pub wall : Time

-- The store after a sequence of calls.
unfoldable pub require_all : Verifier → List Request → Option MemReplayStore → Option MemReplayStore
require_all v [] s = s
require_all v (r ∷ rs) s = require_all v rs (require v r.scope r.header r.now r.wall s).replays
