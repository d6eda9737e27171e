-- ===== src/Examples/Runs.antt =====
-- Commissions, respawns and the tokens of pods at work.
use zakros.Base.{
  nat_equality, string_equality, same_text_iff, ℕ, String, List, [], ◌∷◌, none, some, true, ◌≡◌,
  ◌≢◌, ◌↔◌, refl, arith, All, ok, inr,
}
use zakros.Base.Int.{pos}
use zakros.Base.Text.{strip_prefix, trim_space, first}
use zakros.Base.Maps.{lookup, insert}
use zakros.Envelope.{Envelope, validate}
use zakros.Storage.{Task, awaiting_review, running, queued}
use zakros.Storage.Memstore.{
  Call, inserts, transitions, new, insert_task, transition_task, run, valid_transition,
}
use zakros.Storage.Memstore.Lifecycle.{InsertsFresh}
use zakros.Storage.Memstore.Links.{run-IsLinked, new-IsLinked}
use zakros.Auth.{Verifier, as_signed, bearer_from_header, has_scope}
use zakros.Dispatch.{PodSpec}
use zakros.Dispatch.Builder.{BuilderInput, build_pod_spec, spec_of, pod_name_of}
use zakros.Dispatch.Builder.Separation.{
  SameButSecrets, with_token, marshalled, build_pod_spec-SameButSecrets,
}
use zakros.Projects.{Project, project_from_config}
use zakros.Minos.{Server}
use zakros.Minos.Minting.{claims_of}
use zakros.Minos.Minting.Scopes.{Grants, claims_of-Grants}
use zakros.Minos.Minting.OwnTask.{token_opens-own_task}
use zakros.Minos.Callbacks.{require_pod_auth}
use zakros.Minos.Callbacks.OwnTask.{IsRefusal}
use zakros.Minos.Webhooks.{handle_report_pr}
use zakros.Minos.Dispatching.{Draws, builder_input}
use zakros.Minos.Commissioning.{CommissionRequest, commission}
use zakros.Minos.Commissioning.Outcome
use zakros.Minos.Commissioning.Outcome.{commission-Ended}
use zakros.Minos.Respawning.{respawn}
use zakros.Minos.Respawning.Fresh
use zakros.Minos.Respawning.Fresh.{respawn-Ended}
use zakros.Minos.Commissioning.{
  compose, find_project, open_thread, prior_context, envelope_of, task_of, check_request,
  insert_commissioned,
}
use zakros.Minos.Minting.{compose_capabilities}
use zakros.Minos.Dispatching.{dispatch, spawn, record_run}
use zakros.Storage.Memstore.{set_task_run}
use zakros.Projects.{get}
use zakros.Cerberus.{Delivery, Failure as Unverified, verify}
use zakros.Minos.Deliveries.{Decoders, answer_unverified}
use zakros.Minos.Deliveries.Once.{Hook, handle, handle_all, verifier_of, redelivery_inert}
use zakros.Examples.Hooks.{sum, hook, closed, seen_hooks, hook_admitted}
use zakros.Examples.Setup.{unicode, environment, server_of, zakros_config, names}

abbrev draws : Draws
draws = record {
  task_id = 1;
  run_id = 2;
  jti = "j1";
  minted_at = 10;
  composed_at = 11;
  created_at = 12;
  inserted_at = 13;
  moved_at = 14;
  started_at = 15;
}

abbrev request : CommissionRequest
request = record {
  project_id = "";
  task_type = "code";
  brief = record { summary = "fix"; detail = "" };
  inputs = "";
  acceptance = "";
  execution = record { repo_url = "repo"; branch = "fix"; base_branch = ""; workspace_size = "" };
  budget = none;
  parent = none;
  origin = record {
    surface = "cli";
    request_id = "r";
    requester = "ann";
    requester_role = "admin";
  };
}

abbrev idle : Server (List String)
idle = server_of new []

idle-free : lookup 1 idle.store.tasks ≡ none
unfolding lookup new
idle-free = refl

commission-Ended_example :
    Outcome.Ended environment draws request idle (commission environment draws request idle)
commission-Ended_example = commission-Ended environment draws request idle idle-free

abbrev project : Project
project = project_from_config zakros_config

claims_of-Grants_example :
    (has_scope "hecate" "credentials.fetch:npm" (some (claims_of environment 1 "j1" 10 project))
      ≡ true)
    ↔ Grants project "hecate" "credentials.fetch:npm"
claims_of-Grants_example =
    claims_of-Grants environment 1 "j1" 10 project "hecate" "credentials.fetch:npm"

abbrev checker : Verifier
checker = record {
  broker = "minos";
  verify = λ raw. some (as_signed (claims_of environment 1 "j1" 10 project));
}

signed_named : ◌≢◌ {A = String} "signed" ""
signed_named = ground (arith, same_text_iff "signed" "")

bearer_signed : bearer_from_header "Bearer signed" ≡ "signed"
unfolding bearer_from_header strip_prefix trim_space
bearer_signed = refl

token_opens-own_task_example :
    ((require_pod_auth checker "Bearer signed" "11111111-a" 50 50 none
        (handle_report_pr (some 1) (some "pr/9"))
        idle).1
      ≡ handle_report_pr (some 1) (some "pr/9") idle)
    × ((path : String)
        → path ≢ "11111111-a"
        → let r =
            (require_pod_auth checker "Bearer signed" path 50 50 none
              (handle_report_pr (some 1) (some "pr/9"))
              idle).1 in
          (r.0 ≡ idle) × IsRefusal r.1)
token_opens-own_task_example =
    token_opens-own_task environment 1 "j1" 10 project checker "signed" "Bearer signed" 50 50
      (handle_report_pr (some 1) (some "pr/9")) idle refl refl signed_named bearer_signed
      (omega arith)

abbrev pub payload : Envelope
payload = record {
  schema_version = "1";
  id = "11111111-a";
  parent_id = none;
  project_id = "zakros";
  created_at = "now";
  task_type = "code";
  backend = "claude-code";
  origin = request.origin;
  brief = request.brief;
  inputs = "{}";
  execution = record {
    repo_url = "repo";
    branch = "fix";
    base_branch = "main";
    workspace_size = "medium";
  };
  communication = zakros_config.communication;
  capabilities = record {
    injected_credentials = zakros_config.capabilities.injected_credentials;
    hecate_credentials = zakros_config.capabilities.hecate_credentials;
    mcp_endpoints = [];
    mcp_auth_token = "old";
  };
  context_ref = none;
  budget = zakros_config.default_budget;
  acceptance = "{}";
}

abbrev pub job : Task
job = record {
  id = 1;
  parent_id = none;
  project_id = "zakros";
  task_type = "code";
  backend = "claude-code";
  state = queued;
  priority = pos 0;
  envelope = some payload;
  run_id = none;
  pod_name = none;
  pr_url = none;
  created_at = 5;
  started_at = none;
  finished_at = none;
  state_changed_at = 5;
  reminded_at = none;
}

abbrev writes : List Call
writes = inserts 10 job ∷ transitions 1 running 20 ∷ transitions 1 awaiting_review 30 ∷ []

writes-fresh : All InsertsFresh writes
writes-fresh = ground arith

abbrev reviewing : Server (List String)
reviewing = server_of (run writes new) []

respawn-Ended_example :
    Fresh.Ended environment draws 1 reviewing (respawn environment draws 1 reviewing)
respawn-Ended_example =
    respawn-Ended environment draws 1 reviewing (run-IsLinked writes new writes-fresh new-IsLinked)

abbrev built : BuilderInput
built = builder_input draws job reviewing

abbrev plain : List (String × String)
plain =
    ("ZAKROS_ENVELOPE", "/var/run/zakros/envelope.json")
    ∷ ("ZAKROS_TASK_ID", "11111111-a")
    ∷ ("ZAKROS_RUN_ID", "22222222-b")
    ∷ ("ZAKROS_PROJECT_ID", "zakros")
    ∷ ("ZAKROS_THREAD_URL", "http://hermes")
    ∷ ("ZAKROS_ARGUS_INGEST_URL", "http://argus")
    ∷ ("ZAKROS_CLIO_INGEST", "")
    ∷ ("ZAKROS_MINOS_URL", "http://minos")
    ∷ ("ZAKROS_GITHUB_BROKER_URL", "http://broker")
    ∷ ("ZAKROS_HECATE_URL", "http://hecate")
    ∷ ("ZAKROS_HECATE_FETCHES", "[]")
    ∷ []

abbrev spec : String → PodSpec
spec credential = spec_of names built payload "{}" plain (("GITHUB_TOKEN", credential) ∷ [])

built_with :
    (credential : String)
    → build_pod_spec names (λ ref. some credential) built ≡ ok (spec credential)
unfolding build_pod_spec insert spec_of
built_with credential = refl

-- The specification of the same task under another bearer token.
abbrev respec : PodSpec
respec =
    spec_of names built
      (record payload { capabilities = record payload.capabilities { mcp_auth_token = "new" } })
      "{}" plain (("GITHUB_TOKEN", "b") ∷ [])

rebuilt : build_pod_spec names (λ ref. some "b") (with_token "new" built) ≡ ok respec
unfolding build_pod_spec insert spec_of
rebuilt = refl

build_pod_spec-SameButSecrets_example :
    SameButSecrets (spec "a") respec
    × (marshalled names built ≡ some (spec "a").envelope)
    × (marshalled names (with_token "new" built) ≡ some respec.envelope)
build_pod_spec-SameButSecrets_example =
    build_pod_spec-SameButSecrets names (λ ref. some "a") (λ ref. some "b") "new" built (spec "a")
      respec (built_with "a") rebuilt

-- The commissioned pod is in the cluster, under its name.
commissioned_pod :
    (commission environment draws request idle).0.cluster ≡ "daedalus-11111111-22222222" ∷ []
unfolding commission compose find_project open_thread prior_context envelope_of task_of
    check_request get compose_capabilities validate insert_commissioned insert_task dispatch spawn
    record_run build_pod_spec spec_of set_task_run transition_task valid_transition lookup insert
    pod_name_of first new project_from_config
commissioned_pod = refl

abbrev decoders : Decoders
decoders = record { pull_request = λ b. none; review = λ b. none; comment = λ b. none }

abbrev call : Delivery → ℕ → Hook
call delivery now = record { delivery = delivery; now = now; draws = draws; refusal = none }

abbrev after : Server (List String)
after =
    handle_all sum environment unicode decoders (call (record hook { delivery = "d2" }) 60 ∷ [])
      (handle sum environment unicode decoders (call hook 50) reviewing).0

redelivery_inert_example :
    (x : Unverified) × (handle sum environment unicode decoders
        (call (record hook { event = "issue_comment" }) 120)
        after
      ≡ (
        record after {
          replays =
              (verify sum
                (verifier_of sum environment unicode decoders "s3cret" after)
                (record hook { event = "issue_comment" })
                120).0;
        },
        answer_unverified x,
      ))
redelivery_inert_example =
    redelivery_inert sum environment unicode decoders "s3cret" (call hook 50)
      (call (record hook { event = "issue_comment" }) 120)
      (call (record hook { delivery = "d2" }) 60 ∷ []) closed seen_hooks reviewing refl refl tt
      hook_admitted (inr (omega arith), tt) (inr (omega arith)) refl
