-- ===== src/Examples/Tasks.antt =====
-- The task store at work.
use zakros.Base.{
  nat_equality, string_equality, List, [], ◌∷◌, none, some, ◌≡◌, ◌≢◌, ◌↔◌, refl, arith, ok, All,
  length,
}
use zakros.Base.Int.{pos}
use zakros.Base.Clock.{Time}
use zakros.Base.Maps.{lookup, insert}
use zakros.Storage.{Uuid, Task, queued, running, completed, failed, conflict}
use zakros.Storage.Memstore.{
  Store, Call, inserts, transitions, records_pr, new, insert_task, transition_task, set_task_pr,
  find_task_by_pr_url, list_tasks, step, run, advance, valid_transition, bound_elsewhere, has_pr,
  find_pr,
}
use zakros.Storage.Memstore.Transition.{Outcome, transition_task-Outcome}
use zakros.Storage.Memstore.Lifecycle.{
  InsertsFresh, IsSound, Continues, run-IsSound, run-Continues, new-IsSound,
}
use zakros.Storage.Memstore.Links.{IsLinked, run-IsLinked, new-IsLinked}
use zakros.Storage.Memstore.Urls.{set_task_pr-conflict}

abbrev draft : Uuid → Time → Task
draft id created = record {
  id = id;
  parent_id = none;
  project_id = "zakros";
  task_type = "code";
  backend = "claude-code";
  state = queued;
  priority = pos 0;
  envelope = none;
  run_id = none;
  pod_name = none;
  pr_url = none;
  created_at = created;
  started_at = none;
  finished_at = none;
  state_changed_at = 0;
  reminded_at = none;
}

abbrev day : List Call
day =
    inserts 10 (draft 1 0)
    ∷ transitions 1 running 20
    ∷ records_pr 1 "pr/7"
    ∷ inserts 30 (draft 2 0)
    ∷ transitions 1 completed 40
    ∷ transitions 1 failed 50
    ∷ []

day-fresh : All InsertsFresh day
day-fresh = ground arith

abbrev evening : Store
evening = run day new

-- The task that the day leaves completed.
abbrev first : Task
first = record (draft 1 10) {
  state = completed;
  pr_url = some "pr/7";
  started_at = some 20;
  finished_at = some 40;
  state_changed_at = 40;
}

evening_first : lookup 1 evening.tasks ≡ some first
unfolding run step insert_task transition_task set_task_pr advance valid_transition bound_elsewhere
    has_pr lookup insert new
evening_first = refl

evening_find : find_task_by_pr_url "pr/7" evening ≡ ok first
unfolding find_task_by_pr_url find_pr run step insert_task transition_task set_task_pr advance
    valid_transition bound_elsewhere has_pr lookup insert new
evening_find = refl

evening_list : length (list_tasks (queued ∷ []) (pos 5) evening) ≡ 1
unfolding list_tasks run step insert_task transition_task set_task_pr advance valid_transition
    bound_elsewhere has_pr lookup insert new
evening_list = refl

evening-IsLinked : IsLinked evening
evening-IsLinked = run-IsLinked day new day-fresh new-IsLinked

run-Continues_example : (u : Task) × (lookup 1 (run day evening).tasks ≡ some u) × Continues first u
run-Continues_example = run-Continues day evening first 1 evening_first

transition_task-Outcome_example :
    Outcome 1 running 60 evening (transition_task 1 running 60 evening)
transition_task-Outcome_example = transition_task-Outcome 1 running 60 evening

run-IsSound_example : IsSound evening
run-IsSound_example = run-IsSound day new day-fresh new-IsSound

run-IsLinked_example : IsLinked (run day evening)
run-IsLinked_example = run-IsLinked day evening day-fresh evening-IsLinked

abbrev linked_second : Store
linked_second = (set_task_pr 2 "pr/8" evening).0

second_stored : lookup 2 evening.tasks ≡ some (record (draft 2 30) { state_changed_at = 30 })
unfolding run step insert_task transition_task set_task_pr advance valid_transition bound_elsewhere
    has_pr lookup insert new
second_stored = refl

set_task_pr-conflict_example :
    ((set_task_pr 2 "pr/7" evening).1 ≡ some conflict)
    ↔ ((u : Task) × (u.id ≢ 2) × (lookup u.id evening.tasks ≡ some u) × (u.pr_url ≡ some "pr/7"))
set_task_pr-conflict_example =
    set_task_pr-conflict 2 "pr/7" evening (record (draft 2 30) { state_changed_at = 30 })
      evening-IsLinked second_stored
