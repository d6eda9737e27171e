-- ===== src/Examples/Reviews.antt =====
-- Pull requests at work.
use zakros.Base.{
  nat_equality, string_equality, List, [], ◌∷◌, none, some, true, false, ◌≡◌, ◌==◌, refl, arith,
  All, if◌then◌else◌, inl, inr,
}
use zakros.Base.Int.{pos}
use zakros.Base.Maps.{lookup, insert}
use zakros.Storage.{Uuid, Task, queued, running, awaiting_review, completed, failed}
use zakros.Storage.Memstore.{
  Store, Call, inserts, transitions, records_pr, new, insert_task, transition_task, set_task_pr,
  step, run, advance, valid_transition, bound_elsewhere, has_pr,
}
use zakros.Storage.Memstore.Lifecycle.{InsertsFresh}
use zakros.Storage.Memstore.Links.{IsLinked, run-IsLinked, new-IsLinked}
use zakros.Minos.{Server}
use zakros.Examples.Setup.{server_of}
use zakros.Base.Text.{strip_prefix, trim_space}
use zakros.Auth.{Claims, Verifier, require, bearer_from_header, has_audience, has_scope, listed}
use zakros.Auth.Admission.{Admits}
use zakros.Minos.Callbacks.{check_subject, require_pod_auth}
use zakros.Minos.Callbacks.OwnTask.{IsOf, IsRefusal, require_pod_auth-exact}
use zakros.Minos.Webhooks.{status, failure, handle_report_pr, handle_pull_request_event}
use zakros.Minos.Webhooks.Finalizing.{closing, handle_pull_request_event-finalizes}
use zakros.Minos.Webhooks.Reporting.{linked_to, report-closes}

abbrev job : Uuid → Task
job id = record {
  id = id;
  parent_id = none;
  project_id = "zakros";
  task_type = "code";
  backend = "claude-code";
  state = queued;
  priority = pos 0;
  envelope = none;
  run_id = none;
  pod_name = none;
  pr_url = none;
  created_at = 5;
  started_at = none;
  finished_at = none;
  state_changed_at = 5;
  reminded_at = none;
}

-- Task 1 is in review with its pull request; task 2 runs.
abbrev writes : List Call
writes =
    inserts 10 (job 1)
    ∷ transitions 1 running 20
    ∷ records_pr 1 "pr/7"
    ∷ transitions 1 awaiting_review 30
    ∷ inserts 10 (job 2)
    ∷ transitions 2 running 25
    ∷ []

writes-fresh : All InsertsFresh writes
writes-fresh = ground arith

abbrev held : Store
held = run writes new

held-IsLinked : IsLinked held
held-IsLinked = run-IsLinked writes new writes-fresh new-IsLinked

abbrev reviewed : Task
reviewed = record (job 1) {
  state = awaiting_review;
  pr_url = some "pr/7";
  started_at = some 20;
  state_changed_at = 30;
}

abbrev busy : Task
busy = record (job 2) { state = running; started_at = some 25; state_changed_at = 25 }

reviewed_held : lookup 1 held.tasks ≡ some reviewed
unfolding run step insert_task transition_task set_task_pr advance valid_transition bound_elsewhere
    has_pr lookup insert new
reviewed_held = refl

busy_held : lookup 2 held.tasks ≡ some busy
unfolding run step insert_task transition_task set_task_pr advance valid_transition bound_elsewhere
    has_pr lookup insert new
busy_held = refl

abbrev minos : Server (List Uuid)
minos = server_of held []

report_accepted : (handle_report_pr (some 2) (some "pr/8") minos).1 ≡ status "ok"
unfolding handle_report_pr run step insert_task transition_task set_task_pr advance valid_transition
    bound_elsewhere has_pr lookup insert new
report_accepted = refl

handle_pull_request_event-finalizes_example :
    let r = handle_pull_request_event (some (closing "pr/7" true)) 90 none minos in
    (r.1 ≡ status "completed")
    × ((j : Uuid)
        → lookup j r.0.store.tasks
          ≡ (if 1 == j then some (advance completed 90 reviewed) else lookup j held.tasks))
    × (handle_pull_request_event (some (closing "pr/7" false)) 95 none r.0
        ≡ (r.0, status "already-terminal"))
handle_pull_request_event-finalizes_example =
    handle_pull_request_event-finalizes reviewed "pr/7" true false 90 95 none none minos
      held-IsLinked reviewed_held refl (inr refl)

report-closes_example :
    let r =
      handle_pull_request_event
        (some (closing "pr/8" false))
        90
        none
        (handle_report_pr (some 2) (some "pr/8") minos).0 in
    (r.1 ≡ status "failed")
    × ((j : Uuid)
        → lookup j r.0.store.tasks ≡ (
            if 2 == j
            then some (advance failed 90 (linked_to "pr/8" busy))
            else lookup j held.tasks))
report-closes_example =
    report-closes 2 "pr/8" false 90 none minos busy held-IsLinked busy_held (inl refl)
      report_accepted

abbrev pod : Claims
pod = record {
  subject = "task:2";
  issuer = "minos";
  audience = "minos" ∷ [];
  issued_at = 0;
  expires = 200;
  jti = "j1";
  mcp_scopes = ("minos", "task.lifecycle" ∷ []) ∷ [];
}

abbrev checker : Verifier
checker = record { broker = "minos"; verify = λ raw. if raw == "good" then some pod else none }

require_pod_auth-exact_example :
    let r =
      (require_pod_auth checker "Bearer good" "1" 50 50 none
        (handle_report_pr (some 1) (some "pr/9"))
        minos).1 in
    ((c : Claims)
      → Admits checker "task.lifecycle" "Bearer good" 50 50 none c
      → IsOf "1" c
      → r ≡ handle_report_pr (some 1) (some "pr/9") minos)
    × (((c : Claims) → Admits checker "task.lifecycle" "Bearer good" 50 50 none c → ¬ IsOf "1" c)
        → (r.0 ≡ minos) × IsRefusal r.1)
require_pod_auth-exact_example =
    require_pod_auth-exact checker "Bearer good" "1" 50 50 none
      (handle_report_pr (some 1) (some "pr/9")) minos

-- The pod of task 2 is let in for its own task, and cannot report for task 1.
own_report :
    (require_pod_auth checker "Bearer good" "2" 50 50 none
      (handle_report_pr (some 2) (some "pr/8"))
      minos).1.1
    ≡ status "ok"
unfolding require_pod_auth check_subject require bearer_from_header strip_prefix trim_space
    has_audience has_scope listed handle_report_pr run step insert_task transition_task set_task_pr
    advance valid_transition bound_elsewhere has_pr lookup insert new
own_report = refl

foreign_report :
    (require_pod_auth checker "Bearer good" "1" 50 50 none
      (handle_report_pr (some 1) (some "pr/9"))
      minos).1
    ≡ (minos, failure 403)
unfolding require_pod_auth check_subject require bearer_from_header strip_prefix trim_space
    has_audience has_scope listed lookup
foreign_report = refl
