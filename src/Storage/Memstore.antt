-- ===== src/Storage/Memstore.antt =====
-- The in-memory task store (minos/storage/memstore/memstore.go). A method that writes returns the
-- new store beside its error, `none` for nil. `now` is the reading of the store's clock.
pub mod Moves
pub mod Transition
pub mod Lifecycle
pub mod Links
pub mod Urls
pub mod Listing
pub mod Members
pub mod Loops
use zakros.Base.{
  String, List, [], ◌∷◌, Option, none, some, Bool, true, false, not, ◌&&◌, ◌||◌, ◌==◌, nat_equality,
  string_equality, if◌then◌else◌, keep, exists, take, length, ltb, leb, Result, ok, err,
}
use zakros.Base.Newest.{newest_first, cut}
use zakros.Base.Maps.{Map, values, lookup, insert}
use zakros.Base.Int.{ℤ, pos, pos_part, ltb_ℤ}
use zakros.Base.Clock.{Time, is_zero}
use zakros.Storage.{
  Uuid, Error, not_found, conflict, State, queued, running, awaiting_review, completed, failed,
  other, same_state, Task,
}

pub record Store : Type 0 where
  pub tasks : Map Uuid Task

unfoldable pub new : Store
new = record { tasks = [] }

-- The defaults that `InsertTask` fills into its copy.
abbrev pub with_defaults : Time → Task → Task
with_defaults now t =
    let created = if is_zero t.created_at then now else t.created_at in
    record t {
      created_at = created;
      state = if same_state t.state (other "") then queued else t.state;
      state_changed_at = if is_zero t.state_changed_at then created else t.state_changed_at;
    }

unfoldable pub insert_task : Time → Option Task → Store → Store × Option Error
unfolding insert lookup
insert_task now none s = (s, some conflict)
insert_task now (some t) s = elim (lookup t.id s.tasks) [
  | some _ ↦ (s, some conflict)
  | none ↦ (record s { tasks = insert t.id (with_defaults now t) s.tasks }, none)
]

unfoldable pub get_task : Uuid → Store → Result Error Task
get_task id s = elim (lookup id s.tasks) [ none ↦ err not_found | some t ↦ ok t ]

-- An empty filter admits every task.
unfoldable pub admits : List State → Task → Bool
admits [] t = true
admits (st ∷ states) t = exists (same_state t.state) (st ∷ states)

abbrev pub creation : Task → Time
creation t = t.created_at

unfoldable pub list_tasks : List State → ℤ → Store → List Task
unfolding admits newest_first cut
list_tasks states limit s =
    cut limit (newest_first creation (keep (admits states) (values s.tasks)))

unfoldable pub valid_transition : State → State → Bool
valid_transition queued to = same_state to running || same_state to failed
valid_transition running to =
    same_state to awaiting_review || same_state to completed || same_state to failed
valid_transition awaiting_review to =
    same_state to running || same_state to completed || same_state to failed
valid_transition _ to = false

-- The `switch to` that stamps a timestamp.
unfoldable pub stamp : State → Time → Task → Task
stamp running now t = record t { started_at = some now }
stamp completed now t = record t { finished_at = some now }
stamp failed now t = record t { finished_at = some now }
stamp _ now t = t

-- What a valid transition writes into the task.
unfoldable pub advance : State → Time → Task → Task
unfolding stamp
advance to now t =
    stamp to now (record t { state = to; state_changed_at = now; reminded_at = none })

unfoldable pub transition_task : Uuid → State → Time → Store → Store × Option Error
transition_task id to now s = elim (lookup id s.tasks) [
  | none ↦ (s, some not_found)
  | some t ↦
      if valid_transition t.state to
      then (record s { tasks = insert id (advance to now t) s.tasks }, none)
      else (s, some conflict)
]

unfoldable pub set_task_run : Uuid → Uuid → String → Store → Store × Option Error
set_task_run id run_id pod_name s = elim (lookup id s.tasks) [
  | none ↦ (s, some not_found)
  | some t ↦ (
    record s {
      tasks = insert id (record t { run_id = some run_id; pod_name = some pod_name }) s.tasks;
    },
    none,
  )
]

unfoldable pub has_pr : String → Task → Bool
has_pr url t = elim t.pr_url [ none ↦ false | some u ↦ u == url ]

-- The uniqueness loop of `SetTaskPR`.
unfoldable pub bound_elsewhere : Uuid → String → Map Uuid Task → Bool
bound_elsewhere id url [] = false
bound_elsewhere id url ((j, t) ∷ m) = not (j == id) && has_pr url t || bound_elsewhere id url m

unfoldable pub set_task_pr : Uuid → String → Store → Store × Option Error
set_task_pr id url s = elim (lookup id s.tasks) [
  | none ↦ (s, some not_found)
  | some t ↦
      if bound_elsewhere id url s.tasks
      then (s, some conflict)
      else (record s { tasks = insert id (record t { pr_url = some url }) s.tasks }, none)
]

unfoldable pub mark_task_reminded : Uuid → Time → Store → Store × Option Error
mark_task_reminded id now s = elim (lookup id s.tasks) [
  | none ↦ (s, some not_found)
  | some t ↦ (record s { tasks = insert id (record t { reminded_at = some now }) s.tasks }, none)
]

unfoldable pub find_pr : String → Map Uuid Task → Option Task
find_pr url [] = none
find_pr url ((j, t) ∷ m) = if has_pr url t then some t else find_pr url m

unfoldable pub find_task_by_pr_url : String → Store → Result Error Task
find_task_by_pr_url url s = elim (find_pr url s.tasks) [ none ↦ err not_found | some t ↦ ok t ]

-- The calls that write, and what a sequence of them leaves.
pub data Call : Type 0 where
  inserts : Time → Task → Call
  transitions : Uuid → State → Time → Call
  records_run : Uuid → Uuid → String → Call
  records_pr : Uuid → String → Call
  reminds : Uuid → Time → Call

unfoldable pub step : Call → Store → Store
step (inserts now t) s = (insert_task now (some t) s).0
step (transitions id to now) s = (transition_task id to now s).0
step (records_run id run_id pod_name) s = (set_task_run id run_id pod_name s).0
step (records_pr id url) s = (set_task_pr id url s).0
step (reminds id now) s = (mark_task_reminded id now s).0

unfoldable pub run : List Call → Store → Store
run [] s = s
run (c ∷ cs) s = run cs (step c s)
