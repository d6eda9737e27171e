-- ===== src/Examples/Start.antt =====
-- The seed of the identities, Slack webhooks and narration at work.
use zakros.Base.{
  ◌+◌, ◌*◌, string_equality, nat_equality, String, List, [], ◌∷◌, map, Option, none, some, ◌==◌,
  ◌≡◌, ◌≢◌, ◌⊎◌, inr, refl, arith, ok, if◌then◌else◌,
}
use zakros.Base.Int.{pos, wrap64}
use zakros.Base.Clock.{Time, second, hour, unix, since}
use zakros.Base.Maps.{lookup, insert, purge}
use zakros.Base.Text.{strip_prefix, parse_int, decimal}
use zakros.Storage.{Uuid, Task}
use zakros.Storage.Memstore.{get_task}
use zakros.Hermes.{thinking}
use zakros.Identity.{admin, system}
use zakros.Registry.{new, find_surface, lookup_by_surface, insert_identity}
use zakros.Replay.Deliveries.{MemStore, seen}
use zakros.Cerberus.{Event, decode_hex, nibble, check_delivery}
use zakros.Cerberus.Slack.{
  SlackVerifier, SlackRequest, new_verifier, is_skewed, verify_signature, slack_event, verify_body,
  verify_slack, verify_slack_all,
}
use zakros.Cerberus.Slack.Once.{slack_once}
use zakros.Auth.{Claims, Verifier}
use zakros.Auth.Admission.{Admits}
use zakros.Minos.{Server, posted, narrated, narration_posted}
use zakros.Minos.Callbacks.{require_pod_auth}
use zakros.Minos.Callbacks.OwnTask.{IsOf}
use zakros.Minos.Bootstrap.{Seed, bootstrap_one, bootstrap_each, bootstrap_identities}
use zakros.Minos.Bootstrap.Additions.{Seeds}
use zakros.Minos.Bootstrap.Seeding.{
  OfConfig, AllRegistered, AllFresh, redrawn, bootstrap_identities-Seeds,
  bootstrap_identities-idempotent,
}
use zakros.Minos.Narration.{
  ReportPostRequest, message_of, narrate, narration_kind, handle_report_post,
}
use zakros.Minos.Narration.OwnThread.{PostsOwn, pod_posts-own_thread}
use zakros.Examples.Setup.{server_of}
use zakros.Examples.Hooks.{sum}
use zakros.Examples.Runs.{payload, job}

abbrev seed : String → String → Uuid → Seed
seed surface name fresh = record { surface = surface; surface_id = name; fresh = fresh; now = 10 }

abbrev admins : List Seed
admins = seed "discord" "ann" 1 ∷ seed "discord" "ann" 2 ∷ []

abbrev systems : List Seed
systems = seed "pod-class" "themis" 3 ∷ []

admins_fresh : AllFresh admin admins new
unfolding new lookup bootstrap_one lookup_by_surface find_surface insert_identity insert
admins_fresh = (refl, (refl, tt))

systems_fresh : AllFresh system systems (bootstrap_each admin admins new).0
unfolding new lookup bootstrap_each bootstrap_one lookup_by_surface find_surface insert_identity
    insert
systems_fresh = (refl, tt)

bootstrap_identities-Seeds_example :
    Seeds
      (OfConfig admins systems)
      (λ v. AllRegistered admins v × AllRegistered systems v)
      new
      (bootstrap_identities admins systems new)
bootstrap_identities-Seeds_example =
    bootstrap_identities-Seeds admins systems new admins_fresh systems_fresh

seed_taken : (bootstrap_identities admins systems new).1 ≡ none
unfolding new lookup bootstrap_identities bootstrap_each bootstrap_one lookup_by_surface
    find_surface insert_identity insert
seed_taken = refl

abbrev redraw : Seed → Uuid × Time
redraw a = (9, 20)

bootstrap_identities-idempotent_example :
    bootstrap_identities
      (map (redrawn redraw) admins)
      (map (redrawn redraw) systems)
      (bootstrap_identities admins systems new).0
    ≡ ((bootstrap_identities admins systems new).0, none)
bootstrap_identities-idempotent_example =
    bootstrap_identities-idempotent admins systems redraw new admins_fresh systems_fresh seed_taken

abbrev body_digest : String → String
body_digest body = "00ff"

abbrev type_of : String → Option String
type_of body = some "event_callback"

abbrev day : MemStore
day = record { entries = []; window = pos (24 * hour) }

abbrev slack : SlackVerifier
slack = new_verifier "s3cret" (some day)

abbrev mention : SlackRequest
mention = record { signature = "v0=ab12"; timestamp = "10"; body = some "{}" }

abbrev arrival : Time
arrival = (62135596800 + 10) * second

abbrev mentioned : Event
mentioned = slack_event body_digest type_of "10" "{}"

mention_admitted : (verify_slack sum body_digest type_of slack mention arrival).1 ≡ ok mentioned
unfolding verify_slack verify_body parse_int decimal is_skewed since unix wrap64 verify_signature
    strip_prefix decode_hex nibble check_delivery seen lookup insert purge
mention_admitted = refl

slack_once_example :
    (verify_slack sum body_digest type_of
      (verify_slack_all sum body_digest type_of
        ((record mention { timestamp = "11" }, arrival + 60 * second) ∷ [])
        (record slack { store = (verify_slack sum body_digest type_of slack mention arrival).0 }))
      (record mention { signature = "v0=AB12" })
      (arrival + 120 * second)).1
    ≢ ok mentioned
slack_once_example =
    slack_once sum body_digest type_of slack mention (record mention { signature = "v0=AB12" })
      ((record mention { timestamp = "11" }, arrival + 60 * second) ∷ []) arrival
      (arrival + 120 * second) (5 * 60 * second) mentioned day refl tt refl (omega arith)
      (inr (omega arith)) mention_admitted (omega arith, tt) refl refl mentioned

abbrev bearer : Claims
bearer = record {
  subject = "task:1";
  issuer = "minos";
  audience = "minos" ∷ [];
  issued_at = 0;
  expires = 200;
  jti = "j1";
  mcp_scopes = ("minos", "task.lifecycle" ∷ []) ∷ [];
}

abbrev gate : Verifier
gate = record { broker = "minos"; verify = λ raw. if raw == "good" then some bearer else none }

abbrev say : ReportPostRequest
say = record { kind = "thinking"; content = "reading the code"; language = "" }

abbrev threaded : Task
threaded = record job {
  envelope =
      some (record payload { communication = record payload.communication { thread_ref = "t1" } });
}

abbrev desk : Server (List String)
desk = server_of (record { tasks = (1, threaded) ∷ [] }) []

abbrev task_named : String → Option Uuid
task_named s = if s == "1" then some 1 else none

pod_posts-own_thread_example :
    let w =
      (require_pod_auth gate "Bearer good" "1" 50 50 none
        (handle_report_post (λ surface thread msg. none) (task_named "1") (some say))
        desk).1.0 in
    (w ≡ desk)
    ⊎ ((c : Claims) × Admits gate "task.lifecycle" "Bearer good" 50 50 none c
        × IsOf "1" c
        × (id : Uuid) × (task_named "1" ≡ some id)
        × PostsOwn (λ surface thread msg. none) id say desk w)
pod_posts-own_thread_example =
    pod_posts-own_thread (λ surface thread msg. none) gate "Bearer good" "1" 50 50 none task_named
      say desk

said_in_thread :
    (handle_report_post (λ surface thread msg. none) (some 1) (some say) desk).0.events
    ≡ posted "discord" "t1" (narrated (message_of say)) ∷ narration_posted 1 thinking ∷ []
unfolding handle_report_post narrate narration_kind get_task lookup
said_in_thread = refl
