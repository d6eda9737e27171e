-- ===== src/Examples/Watch.antt =====
-- The watcher and the sweepers at work.
use zakros.Base.{
  ok, Has, Has-one, subst, sym, ap, ℕ, ◌*◌, ◌/◌, ◌-◌, ◌≤◌, ◌&&◌, nat_equality, string_equality,
  String, List, [], ◌∷◌, none, some, true, false, ◌≡◌, refl, arith, All, if◌then◌else◌,
}
use zakros.Base.Int.{pos, ltb_ℤ, leb_ℤ}
use zakros.Base.Clock.{second, time_sub}
use zakros.Base.Maps.{IsMap, lookup, insert, values, remove}
use zakros.Envelope.{Envelope}
use zakros.Storage.{Uuid, Task, queued, State.running as task_running, awaiting_review, same_state}
use zakros.Storage.Memstore.{
  Store, Call, inserts, transitions, records_run, new, insert_task, transition_task, set_task_run,
  step, run, advance, valid_transition,
}
use zakros.Storage.Memstore.Lifecycle.{InsertsFresh}
use zakros.Storage.Memstore.Links.{IsLinked, run-IsLinked, new-IsLinked}
use zakros.Argus.{State, World, new_mem_persister, default_config}
use zakros.Argus.Tracking.{state_of}
use zakros.Argus.Rules.{evaluate, judge}
use zakros.Argus.Outcomes.{is_overdue}
use zakros.Argus.Deadlines.{IsStopped, evaluate-stops}
use zakros.Argus.Patience.{IsSpared, StaysAlive, says_ended, evaluate-spares}
use zakros.Argus.Deletions.{Pod, delete_all, Deletes}
use zakros.Dispatch.{Phase.running as pod_running}
use zakros.Argus.Restart
use zakros.Argus.Thresholds.{expected, state_of-thresholds}
use zakros.Minos.{Server}
use zakros.Examples.Setup.{server_of, cluster as kubernetes}
use zakros.Minos.Hibernation.{Thresholds, sweep_hibernation}
use zakros.Minos.Hibernation.Sweep.{sweep_act, sweep_hibernation-lookup}
use zakros.Minos.Recovery.{reconcile}
use zakros.Minos.Recovery.Restart.{destination, driven, reconcile-lookup}

abbrev payload : Envelope
payload = record {
  schema_version = "1";
  id = "1";
  parent_id = none;
  project_id = "zakros";
  created_at = "";
  task_type = "code";
  backend = "claude-code";
  origin = record {
    surface = "discord";
    request_id = "r";
    requester = "ann";
    requester_role = "admin";
  };
  brief = record { summary = "fix"; detail = "" };
  inputs = "{}";
  execution = record {
    repo_url = "r";
    branch = "b";
    base_branch = "main";
    workspace_size = "small";
  };
  communication = record {
    thread_surface = "discord";
    thread_ref = "t1";
    hermes_url = "";
    argus_ingest_url = "";
    clio_ingest_url = "";
  };
  capabilities = record {
    injected_credentials = [];
    hecate_credentials = [];
    mcp_endpoints = [];
    mcp_auth_token = "";
  };
  context_ref = none;
  budget = record {
    max_tokens = pos 0;
    max_wall_clock_seconds = pos 600;
    warning_threshold_pct = pos 0;
    escalation_threshold_pct = pos 95;
  };
  acceptance = "{}";
}

abbrev job : Uuid → Task
job id = record {
  id = id;
  parent_id = none;
  project_id = "zakros";
  task_type = "code";
  backend = "claude-code";
  state = queued;
  priority = pos 0;
  envelope = some payload;
  run_id = none;
  pod_name = none;
  pr_url = none;
  created_at = 5;
  started_at = none;
  finished_at = none;
  state_changed_at = 5;
  reminded_at = none;
}

-- Task 1 runs in pod p1; task 2 waits for its review.
abbrev morning : List Call
morning =
    inserts 10 (job 1)
    ∷ records_run 1 77 "p1"
    ∷ transitions 1 task_running 20
    ∷ inserts 10 (job 2)
    ∷ transitions 2 task_running 20
    ∷ transitions 2 awaiting_review 30
    ∷ []

morning-fresh : All InsertsFresh morning
morning-fresh = ground arith

abbrev office : Store
office = run morning new

office-IsLinked : IsLinked office
office-IsLinked = run-IsLinked morning new morning-fresh new-IsLinked

abbrev runner : Task
runner = record (job 1) {
  state = task_running;
  run_id = some 77;
  pod_name = some "p1";
  started_at = some 20;
  state_changed_at = 20;
}

abbrev sleeper : Task
sleeper = record (job 2) { state = awaiting_review; started_at = some 20; state_changed_at = 30 }

runner_stored : lookup 1 office.tasks ≡ some runner
unfolding run step insert_task transition_task set_task_run advance valid_transition lookup insert
    new
runner_stored = refl

sleeper_stored : lookup 2 office.tasks ≡ some sleeper
unfolding run step insert_task transition_task set_task_run advance valid_transition lookup insert
    new
sleeper_stored = refl

abbrev minute : ℕ
minute = 60000000000

abbrev watched : State
watched = record {
  task_id = 1;
  run_id = 77;
  pod_name = "p1";
  namespace = "zakros";
  thread_surface = "discord";
  thread_ref = "t1";
  started_at = 20;
  last_heartbeat = 20;
  max_wall_clock = pos (10 * minute);
  warning_at = pos 450000000000;
  escalation_at = pos 570000000000;
  warned = false;
  escalated = false;
  terminated = false;
}

abbrev argus : World (List String)
argus = record {
  cfg = default_config;
  hermes = true;
  persister = none;
  pods = (1, watched) ∷ [];
  store = office;
  cluster = "p1" ∷ [];
  events = [];
}

watched_found : lookup 1 argus.pods ≡ some watched
unfolding lookup
watched_found = refl

watched_late : is_overdue argus.cfg (11 * minute) watched ≡ true
unfolding time_sub
watched_late = refl

evaluate-stops_example :
    IsStopped kubernetes watched argus (evaluate kubernetes (11 * minute) 1000 argus)
evaluate-stops_example =
    evaluate-stops kubernetes (11 * minute) 1000 1 watched argus watched_found refl watched_late

watched_early : is_overdue argus.cfg (4 * minute) watched ≡ false
unfolding time_sub
watched_early = refl

-- Next to the pod of task 1 there is the pod of task 3, which is over its cap after four minutes and
-- comes first.
abbrev hasty : State
hasty = record watched {
  task_id = 3;
  run_id = 78;
  pod_name = "p3";
  max_wall_clock = pos (3 * minute);
}

abbrev crowd : World (List String)
crowd = record argus { pods = (3, hasty) ∷ (1, watched) ∷ []; cluster = "p3" ∷ "p1" ∷ [] }

crowd-IsMap : IsMap crowd.pods
unfolding lookup
crowd-IsMap = (refl, (refl, tt))

crowd_found : lookup 1 crowd.pods ≡ some watched
unfolding lookup
crowd_found = refl

-- Whatever is deleted of p3, p1 runs on.
crowd_alive :
    (ps : List Pod)
    → All (λ p. Has p (("zakros", "p3") ∷ [])) ps
    → kubernetes.pod_phase "zakros" "p1" (delete_all kubernetes ps crowd.cluster) ≡ ok pod_running
crowd_alive [] h = refl
crowd_alive (p ∷ ps) (h, hs) =
    subst
      (λ q.
        kubernetes.pod_phase "zakros" "p1" (delete_all kubernetes (q ∷ ps) crowd.cluster)
        ≡ ok pod_running)
      (sym (Has-one h)) (alone ps hs)
  where
    alone :
        (qs : List Pod)
        → All (λ p. Has p (("zakros", "p3") ∷ [])) qs
        → kubernetes.pod_phase "zakros" "p1" (delete_all kubernetes qs ("p1" ∷ [])) ≡ ok pod_running
    alone [] k = refl
    alone (q ∷ qs) (k, ks) =
        subst
          (λ r.
            kubernetes.pod_phase "zakros" "p1" (delete_all kubernetes (r ∷ qs) ("p1" ∷ []))
            ≡ ok pod_running)
          (sym (Has-one k)) (alone qs ks)

crowd-StaysAlive : StaysAlive kubernetes watched (values (remove 1 crowd.pods)) crowd.cluster
unfolding remove
crowd-StaysAlive ps h = ap says_ended (crowd_alive ps h)

evaluate-spares_example :
    IsSpared 1 watched crowd (evaluate kubernetes (4 * minute) 1000 crowd)
    × Deletes kubernetes
        (values (remove 1 crowd.pods))
        crowd.cluster
        (evaluate kubernetes (4 * minute) 1000 crowd).cluster
evaluate-spares_example =
    evaluate-spares kubernetes (4 * minute) 1000 1 watched crowd crowd-IsMap (refl, (refl, tt))
      crowd_found watched_early crowd-StaysAlive

abbrev idle : World (List String)
idle = record argus { pods = [] }

-- What Argus keeps of the pod once it has warned.
abbrev warned_state : State
warned_state = record (state_of default_config "zakros" 20 90 1 77 "p1" payload) {
  last_heartbeat = 9 * minute;
  warned = true;
  escalated = false;
}

talkative :
    (ltb_ℤ (pos 0) default_config.stall_threshold
      && leb_ℤ default_config.stall_threshold (time_sub (575 * second) (9 * minute)))
    ≡ false
unfolding time_sub
talkative = refl

state_of-thresholds_example :
    (warned_state.max_wall_clock ≡ pos (600 * second))
    × (warned_state.warning_at ≡ pos (600 * second * 75 / 100))
    × (warned_state.escalation_at ≡ pos (600 * second * 95 / 100))
    × (600 * second * 75 / 100 ≤ 600 * second * 95 / 100)
    × (600 * second * 95 / 100 ≤ 600 * second)
    × (judge default_config (575 * second) warned_state
        ≡ expected true false
            (600 * second)
            (600 * second * 75 / 100)
            (600 * second * 95 / 100)
            (575 * second - 20))
state_of-thresholds_example =
    state_of-thresholds default_config "zakros" 20 90 1 77 "p1" payload 600 75 95 (575 * second)
      (9 * minute) true false refl refl refl (omega arith) (omega arith) (omega arith) (omega arith)
      (omega arith) (omega arith) (omega arith) talkative

abbrev minos : Server (List String)
minos = server_of office []

abbrev patience : Thresholds
patience = record { reminder_after = pos minute; abandon_after = pos (3 * minute) }

sweep_hibernation-lookup_example :
    (lookup 2 (sweep_hibernation (some patience) (2 * minute) 40 minos).0.store.tasks
      ≡ some (
          if same_state sleeper.state awaiting_review
          then sweep_act patience (2 * minute) 40 sleeper sleeper
          else sleeper))
    × ((sweep_hibernation (some patience) (2 * minute) 40 minos).1 ≡ false)
sweep_hibernation-lookup_example =
    sweep_hibernation-lookup patience (2 * minute) 40 minos 2 sleeper office-IsLinked sleeper_stored

reconcile-lookup_example :
    lookup 1 (reconcile kubernetes 40 minos).store.tasks
    ≡ some (
        if same_state runner.state task_running
        then driven 40 (destination kubernetes minos.namespace minos.cluster runner.pod_name) runner
        else runner)
reconcile-lookup_example =
    reconcile-lookup kubernetes 40 minos 1 runner office-IsLinked runner_stored

abbrev started : World (List String)
started = record idle { persister = some new_mem_persister }

abbrev shift : List (Restart.Call (List String))
shift =
    Restart.ticks 90 100
    ∷ Restart.beats 1 minute
    ∷ Restart.others office []
    ∷ Restart.ticks (2 * minute) 200
    ∷ []
