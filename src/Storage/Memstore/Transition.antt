-- ===== src/Storage/Memstore/Transition.antt =====
-- `TransitionTask` on every branch (minos/storage/memstore/memstore.go).
use zakros.Base.{
  nat_equality, Option, none, some, ◌≡◌, ◌⊎◌, inl, inr, arith, Option-cases, Bool-cases, ◌≢◌, true,
  refl, ◌==◌, if◌then◌else◌,
}
use zakros.Base.Maps.{lookup, insert, lookup-insert}
use zakros.Base.Clock.{Time}
use zakros.Storage.{Uuid, Error, not_found, conflict, State, Task, running, completed, failed}
use zakros.Storage.Edges.{Edge, valid_transition-Edge, Edge-valid_transition}
use zakros.Storage.Memstore.{Store, transition_task, valid_transition, advance}

-- The task that a transition leaves: its state, its stamps, and all else as it was.
pub record Stamped (to : State) (now : Time) (t u : Task) : Type 0 where
  pub state : u.state ≡ to
  pub changed : u.state_changed_at ≡ now
  unreminded : u.reminded_at ≡ none
  pub started : to ≡ running → u.started_at ≡ some now
  started_kept : to ≢ running → u.started_at ≡ t.started_at
  pub finished : (to ≡ completed) ⊎ (to ≡ failed) → u.finished_at ≡ some now
  finished_kept : to ≢ completed → to ≢ failed → u.finished_at ≡ t.finished_at
  pub id : u.id ≡ t.id
  pub pr_url : u.pr_url ≡ t.pr_url
  pub run_id : u.run_id ≡ t.run_id
  pub pod_name : u.pod_name ≡ t.pod_name
  pub envelope : u.envelope ≡ t.envelope
  pub created : u.created_at ≡ t.created_at

pub data Outcome (id : Uuid) (to : State) (now : Time) (s : Store)
    : Store × Option Error → Type 0 where
  missing : lookup id s.tasks ≡ none → Outcome id to now s (s, some not_found)
  refused :
      (t : Task)
      → lookup id s.tasks ≡ some t
      → ¬ Edge t.state to
      → Outcome id to now s (s, some conflict)
  done :
      (t u : Task) (s' : Store)
      → lookup id s.tasks ≡ some t
      → Edge t.state to
      → Stamped to now t u
      → lookup id s'.tasks ≡ some u
      → ((j : Uuid) → j ≢ id → lookup j s'.tasks ≡ lookup j s.tasks)
      → Outcome id to now s (s', none)

pub advance-Stamped : (to : State) (now : Time) (t : Task) → Stamped to now t (advance to now t)
unfolding advance
advance-Stamped to now t = record {
  state = ground arith;
  changed = ground arith;
  unreminded = ground arith;
  started = ground arith;
  started_kept = ground arith;
  finished = ground arith;
  finished_kept = ground arith;
  id = ground arith;
  pr_url = ground arith;
  run_id = ground arith;
  pod_name = ground arith;
  envelope = ground arith;
  created = ground arith;
}

-- `TransitionTask` reports a missing task, refuses exactly the moves that the documented diagram
-- lacks and then leaves the store as it was, and otherwise stamps the task and touches no other. A move to
-- running sets the start of the task, also where it has run before: the documentation says that the
-- first start is kept, and the code does not keep it.
pub transition_task-Outcome :
    (id : Uuid) (to : State) (now : Time) (s : Store)
    → Outcome id to now s (transition_task id to now s)
unfolding transition_task
transition_task-Outcome id to now s = elim (Option-cases (lookup id s.tasks)) [
  | inl e ↦ rw (e, transition_task) (missing e)
  | inr (t, e) ↦ elim (Bool-cases (valid_transition t.state to)) [
    | inl valid ↦
        rw (e, transition_task)
          (rw valid (
            done t (advance to now t) _ e (valid_transition-Edge t.state to valid)
              (advance-Stamped to now t)
              (ground (arith, lookup-insert id id (advance to now t) s.tasks))
              (λ j ne. ground (arith, lookup-insert id j (advance to now t) s.tasks))))
    | inr bad ↦
        rw (e, transition_task)
          (rw bad (refused t e (λ edge. ground (arith, Edge-valid_transition edge))))
  ]
]

-- The store in which a task was moved.
abbrev pub moved : Uuid → State → Time → Task → Store → Store
moved id to now t s = record s { tasks = insert id (advance to now t) s.tasks }

pub transition_task-moved :
    (id : Uuid) (to : State) (now : Time) (s : Store) (t : Task)
    → lookup id s.tasks ≡ some t
    → valid_transition t.state to ≡ true
    → transition_task id to now s ≡ (moved id to now t s, none)
unfolding transition_task
transition_task-moved id to now s t e valid = rw (e, transition_task) (rw valid refl)

-- The one store is the other but for a task.
abbrev pub Changed : Uuid → Task → Store → Store → Type 0
Changed id t s v = (j : Uuid) → lookup j v.tasks ≡ (if id == j then some t else lookup j s.tasks)
