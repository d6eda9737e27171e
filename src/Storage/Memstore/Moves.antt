-- ===== src/Storage/Memstore/Moves.antt =====
-- What one writing call may do to the entry of one task (minos/storage/memstore/memstore.go).
use zakros.Base.{
  nat_equality, Option, none, some, true, ◌≡◌, refl, inl, inr, arith, eqb, eqb_iff, Option-cases,
  Bool-cases, subst,
}
use zakros.Base.Maps.{Map, lookup, insert, lookup-insert}
use zakros.Base.Clock.{Time}
use zakros.Storage.{Uuid, Task, State}
use zakros.Storage.Memstore.{
  Store, Call, inserts, transitions, records_run, records_pr, reminds, insert_task, with_defaults,
  transition_task, set_task_run, set_task_pr, mark_task_reminded, valid_transition, advance, step,
  bound_elsewhere,
}

-- The fields that only `InsertTask` and `TransitionTask` write.
pub record SameLife (t u : Task) : Type 0 where
  pub id : u.id ≡ t.id
  pub state : u.state ≡ t.state
  pub created_at : u.created_at ≡ t.created_at
  pub started_at : u.started_at ≡ t.started_at
  pub finished_at : u.finished_at ≡ t.finished_at

-- From the entry before a call to the entry after it.
pub data Move (c : Call) (j : Uuid) : Option Task → Option Task → Type 0 where
  kept : {o : Option Task} → Move c j o o
  added :
      (now : Time) (t : Task)
      → c ≡ inserts now t
      → t.id ≡ j
      → Move c j none (some (with_defaults now t))
  moved :
      (t : Task) (to : State) (now : Time)
      → valid_transition t.state to ≡ true
      → Move c j (some t) (some (advance to now t))
  touched : (t u : Task) → SameLife t u → Move c j (some t) (some u)

insert-Move :
    (c : Call) (k j : Uuid) (u : Task) (m : Map Uuid Task) (o : Option Task)
    → lookup k m ≡ o
    → Move c k o (some u)
    → Move c j (lookup j m) (lookup j (insert k u m))
insert-Move c k j u m o e mv = elim (Bool-cases (eqb k j)) [
  | inl same ↦
      rw (lookup-insert k j u m, same)
        (subst (λ i. Move c i (lookup i m) (some u)) ((eqb_iff k j).0 same) (rw e mv))
  | inr differ ↦ rw (lookup-insert k j u m, differ) kept
]

-- Every call makes one of the four moves at every task.
pub step-Move :
    (c : Call) (s : Store) (j : Uuid) → Move c j (lookup j s.tasks) (lookup j (step c s).tasks)
unfolding step insert_task transition_task set_task_run set_task_pr mark_task_reminded
step-Move (inserts now t) s j = elim (Option-cases (lookup t.id s.tasks)) [
  | inl e ↦
      rw (e, step, insert_task)
        (insert-Move (inserts now t) t.id j (with_defaults now t) s.tasks none e
          (added now t refl refl))
  | inr (u, e) ↦ rw (e, step, insert_task) kept
]
step-Move (transitions id to now) s j = elim (Option-cases (lookup id s.tasks)) [
  | inl e ↦ rw (e, step, transition_task) kept
  | inr (t, e) ↦ elim (Bool-cases (valid_transition t.state to)) [
    | inl valid ↦
        rw (e, step, transition_task)
          (rw valid (
            insert-Move (transitions id to now) id j (advance to now t) s.tasks (some t) e
              (moved t to now valid)))
    | inr refused ↦ rw (e, step, transition_task) (rw refused kept)
  ]
]
step-Move (records_run id run_id pod_name) s j = elim (Option-cases (lookup id s.tasks)) [
  | inl e ↦ rw (e, step, set_task_run) kept
  | inr (t, e) ↦
      rw (e, step, set_task_run)
        (insert-Move _ id j _ s.tasks (some t) e (touched t _ (ground arith)))
]
step-Move (records_pr id url) s j = elim (Option-cases (lookup id s.tasks)) [
  | inl e ↦ rw (e, step, set_task_pr) kept
  | inr (t, e) ↦ elim (Bool-cases (bound_elsewhere id url s.tasks)) [
    | inl bound ↦ rw (e, step, set_task_pr) (rw bound kept)
    | inr free ↦
        rw (e, step, set_task_pr)
          (rw free (insert-Move _ id j _ s.tasks (some t) e (touched t _ (ground arith))))
  ]
]
step-Move (reminds id now) s j = elim (Option-cases (lookup id s.tasks)) [
  | inl e ↦ rw (e, step, mark_task_reminded) kept
  | inr (t, e) ↦
      rw (e, step, mark_task_reminded)
        (insert-Move _ id j _ s.tasks (some t) e (touched t _ (ground arith)))
]
