-- ===== src/Examples/Tokens.antt =====
-- Replay protection and the bearer middleware at work.
use zakros.Base.{
  string_equality, ℕ, [], ◌∷◌, none, some, false, ◌≡◌, ◌≢◌, ◌↔◌, refl, arith, ◌==◌, same_text_iff,
  if◌then◌else◌,
}
use zakros.Base.Int.{pos}
use zakros.Base.Text.{strip_prefix, trim_space}
use zakros.Base.Maps.{lookup, purge, insert}
use zakros.Replay.Deliveries
use zakros.Replay.Deliveries.{MemStore, Remembered, seen_all, seen-duplicate, seen-exact}
use zakros.Replay.Tokens
use zakros.Replay.Tokens.{MemReplayStore}
use zakros.Auth.{
  Claims, Verifier, Request, has_audience, has_scope, listed, bearer_from_header, require,
  require_all,
}
use zakros.Auth.Admission.{Admits, require-served}
use zakros.Auth.Reuse.{second_use_refused}

abbrev hooks : MemStore
hooks = record { entries = ("d0", 40) ∷ []; window = pos 100 }

hooks_accept : (Deliveries.seen "d1" 50 hooks).1 ≡ false
unfolding Deliveries.seen lookup purge insert
hooks_accept = refl

abbrev pod : Claims
pod = record {
  subject = "task:1";
  issuer = "minos";
  audience = "minos" ∷ "argus" ∷ [];
  issued_at = 0;
  expires = 200;
  jti = "j1";
  mcp_scopes = ("minos", "task.lifecycle" ∷ []) ∷ [];
}

abbrev minos : Verifier
minos = record { broker = "minos"; verify = λ raw. if raw == "good" then some pod else none }

abbrev fresh : MemReplayStore
fresh = record { entries = [] }

require-served_example :
    ((require minos "task.lifecycle" "Bearer good" 50 50 (some fresh)).served ≡ some pod)
    ↔ Admits minos "task.lifecycle" "Bearer good" 50 50 (some fresh) pod
require-served_example = require-served minos "task.lifecycle" "Bearer good" 50 50 (some fresh) pod

abbrev call : ℕ → Request
call t = record { scope = "task.lifecycle"; header = "Bearer good"; now = t; wall = t }

call_served : (require minos "task.lifecycle" "Bearer good" 50 50 (some fresh)).served ≡ some pod
unfolding require bearer_from_header strip_prefix trim_space has_audience has_scope listed lookup
    Tokens.seen purge insert
call_served = refl

pod_named : pod.jti ≢ ""
pod_named = ground (arith, same_text_iff "j1" "")

second_use_refused_example :
    (require minos "task.lifecycle" "Bearer good" 150 150 (
      require_all minos
        (call 60 ∷ [])
        (require minos "task.lifecycle" "Bearer good" 50 50 (some fresh)).replays)).served
    ≢ some pod
second_use_refused_example =
    second_use_refused minos (call 50) (call 150) (call 60 ∷ []) fresh pod tt pod_named call_served
      (omega arith, tt) (omega arith) pod refl
