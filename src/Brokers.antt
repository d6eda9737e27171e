-- ===== src/Brokers.antt =====
-- The brokers that check a scope of their own making for each request (cmd/hecate, cmd/apollo).
pub mod Hecate
pub mod Apollo
pub mod Access
use zakros.Base.{
  string_equality, String, Option, none, some, not, ◌==◌, if◌then◌else◌, Result, ok, err,
}
use zakros.Auth.{
  Claims, Verifier, Refusal, malformed_bearer, invalid_signature, audience_mismatch, scope_denied,
  has_audience, has_scope, bearer_from_header,
}

-- The check of the bearer that both brokers have in line, with the subject that the denial is reported under.
-- Claims that have expired do not verify.
unfoldable pub authorize : Verifier → String → String → Result (Refusal × String) Claims
unfolding bearer_from_header
authorize v scope header =
    let raw = bearer_from_header header in
    if raw == "" then err (malformed_bearer, "") else elim (v.verify raw) [
      | none ↦ err (invalid_signature, "")
      | some c ↦
          if not (has_audience v.broker (some c))
          then err (audience_mismatch, c.subject)
          else if not (has_scope v.broker scope (some c))
          then err (scope_denied, c.subject)
          else ok c
    ]
