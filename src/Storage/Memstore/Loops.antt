-- ===== src/Storage/Memstore/Loops.antt =====
-- A loop over an unlimited `ListTasks` that writes to each task in its turn, as the sweepers of Minos
-- do (minos/core/hibernate.go, minos/core/reconcile.go).
use zakros.Base.{
  nat_equality, ◌==◌, eqb_iff, List, [], ◌∷◌, Option, none, some, true, false, ◌≡◌, ◌≢◌, refl, sym,
  ◌∙◌, ap, inl, inr, arith, All, Has, here, there, for_each, if◌then◌else◌, Bool-cases,
  Option-cases, some-eq,
}
use zakros.Base.Int.{pos}
use zakros.Base.Maps.{lookup, lookup-insert}
use zakros.Base.Clock.{Time}
use zakros.Storage.{Uuid, State, Task, queued, running, awaiting_review, completed, failed, other}
use zakros.Storage.Memstore.{
  Store, admits, list_tasks, transition_task, valid_transition, advance, mark_task_reminded,
}
use zakros.Storage.Memstore.Links.{IsLinked}
use zakros.Storage.Memstore.Transition.{advance-Stamped}
use zakros.Storage.Memstore.Members.{list_tasks-Has, list_tasks-All}

-- What the turn of the task `u` does to the stored task `x` under the identifier `j`.
abbrev pub turned : (Task → Task) → Task → Uuid → Option Task → Option Task
turned act u j none = none
turned act u j (some x) = some (if u.id == j then act x else x)

-- What a transition makes of a stored task, and a reminder.
abbrev pub tried : State → Time → Task → Task
tried to wall x = if valid_transition x.state to then advance to wall x else x

pub transition_task-turned :
    (u : Task) (to : State) (wall : Time) (s : Store) (j : Uuid)
    → lookup j (transition_task u.id to wall s).0.tasks
      ≡ turned (tried to wall) u j (lookup j s.tasks)
unfolding transition_task
transition_task-turned u to wall s j = elim (Option-cases (lookup u.id s.tasks)) [
  | inl e ↦ ground (arith, eqb_iff u.id j)
  | inr (t, e) ↦ ground (arith, lookup-insert u.id j (advance to wall t) s.tasks, eqb_iff u.id j)
]

pub mark_task_reminded-turned :
    (u : Task) (wall : Time) (s : Store) (j : Uuid)
    → lookup j (mark_task_reminded u.id wall s).0.tasks
      ≡ turned (λ x. record x { reminded_at = some wall }) u j (lookup j s.tasks)
unfolding mark_task_reminded
mark_task_reminded-turned u wall s j = elim (Option-cases (lookup u.id s.tasks)) [
  | inl e ↦ ground (arith, eqb_iff u.id j)
  | inr (t, e) ↦
      ground
        (arith, lookup-insert u.id j (record t { reminded_at = some wall }) s.tasks, eqb_iff u.id j)
]

pub turned-same : (u : Task) (j : Uuid) (o : Option Task) → turned (λ x. x) u j o ≡ o
turned-same u j none = refl
turned-same u j (some x) = ground arith

pub turned-ext :
    (f g : Task → Task) (u : Task) (j : Uuid) (o : Option Task)
    → ((x : Task) → f x ≡ g x)
    → turned f u j o ≡ turned g u j o
turned-ext f g u j none h = refl
turned-ext f g u j (some x) h = ap (λ y. some (if u.id == j then y else x)) (h x)

no_loop : (to : State) → valid_transition to to ≡ false
unfolding valid_transition
no_loop queued = refl
no_loop running = refl
no_loop awaiting_review = refl
no_loop completed = refl
no_loop failed = refl
no_loop (other text) = refl

-- The second of two equal attempts changes nothing.
pub tried_again :
    (to : State) (wall : Time) (x : Task) → tried to wall (tried to wall x) ≡ tried to wall x
tried_again to wall x = elim (Bool-cases (valid_transition x.state to)) [
  | inl valid ↦
      ground
        (arith, no_loop to, ap (λ st. valid_transition st to) (advance-Stamped to wall x).state)
  | inr invalid ↦ ground arith
]

pub All-imp :
    {P Q : Task → Type 0} (ts : List Task) → ((t : Task) → P t → Q t) → All P ts → All Q ts
All-imp [] f h = tt
All-imp (t ∷ ts) f h = (f t h.0, All-imp ts f h.1)

-- `IsGood` is what the turns need of the world, and keep.
module _ {W : Type 0} (store_of : W → Store) (turn : Task → W → W) (act : Task → Task → Task)
    (IsGood : W → Type 0) (turn-IsGood : (u : Task) (w : W) → IsGood w → IsGood (turn u w))
    (turn-lookup : (u : Task) (w : W) (j : Uuid)
      → IsGood w
      → lookup j (store_of (turn u w)).tasks
        ≡ turned (act u) u j (lookup j (store_of w).tasks)) where
  module _ (id : Uuid) (t : Task) (again : act t (act t t) ≡ act t t) where
    -- Every task of the list under this identifier is this one.
    abbrev IsOnly : List Task → Type 0
    IsOnly = All (λ u. u.id ≡ id → u ≡ t)

    turn_other :
        (u x : Task) (w : W)
        → IsGood w
        → u.id ≢ id
        → lookup id (store_of w).tasks ≡ some x
        → lookup id (store_of (turn u w)).tasks ≡ some x
    turn_other u x w g ne e = turn-lookup u w id g ∙ ground (arith, eqb_iff u.id id)

    turn_this :
        (u x : Task) (w : W)
        → IsGood w
        → (u.id == id) ≡ true
        → (u.id ≡ id → u ≡ t)
        → lookup id (store_of w).tasks ≡ some x
        → lookup id (store_of (turn u w)).tasks ≡ some (act t x)
    turn_this u x w g at_id only e =
        turn-lookup u w id g
        ∙ ground arith
        ∙ ap (λ v. some (act v x)) (only ((eqb_iff u.id id).0 at_id))

    for_each-done :
        (us : List Task) (w : W)
        → IsGood w
        → IsOnly us
        → lookup id (store_of w).tasks ≡ some (act t t)
        → lookup id (store_of (for_each turn us w)).tasks ≡ some (act t t)
    for_each-done [] w g h e = e
    for_each-done (u ∷ us) w g h e =
        for_each-done us (turn u w) (turn-IsGood u w g) h.1 (elim (Bool-cases (u.id == id)) [
          | inl at_id ↦ turn_this u (act t t) w g at_id h.0 e ∙ ap some again
          | inr elsewhere ↦ turn_other u (act t t) w g (ground (arith, eqb_iff u.id id)) e
        ])

    for_each-Has :
        {us : List Task} (w : W)
        → IsGood w
        → Has t us
        → t.id ≡ id
        → IsOnly us
        → lookup id (store_of w).tasks ≡ some t
        → lookup id (store_of (for_each turn us w)).tasks ≡ some (act t t)
    for_each-Has w g (here {ys = us}) at_id h e =
        for_each-done us (turn t w) (turn-IsGood t w g) h.1
          (turn_this t t w g (ground (arith, eqb_iff t.id id)) (λ x. refl) e)
    for_each-Has w g (there {y = u} {ys = us} m) at_id h e = elim (Bool-cases (u.id == id)) [
      | inl found ↦
          for_each-done us (turn u w) (turn-IsGood u w g) h.1 (turn_this u t w g found h.0 e)
      | inr elsewhere ↦
          for_each-Has (turn u w) (turn-IsGood u w g) m at_id h.1
            (turn_other u t w g (ground (arith, eqb_iff u.id id)) e)
    ]

    for_each-others :
        (us : List Task) (w : W)
        → IsGood w
        → All (λ u. u.id ≢ id) us
        → lookup id (store_of w).tasks ≡ some t
        → lookup id (store_of (for_each turn us w)).tasks ≡ some t
    for_each-others [] w g h e = e
    for_each-others (u ∷ us) w g h e =
        for_each-others us (turn u w) (turn-IsGood u w g) h.1 (turn_other u t w g h.0 e)

    -- After the loop a stored task is as its own turn leaves it, or as it was if it was not listed.
    pub for_each-list_tasks :
        (states : List State) (w : W)
        → IsGood w
        → IsLinked (store_of w)
        → lookup id (store_of w).tasks ≡ some t
        → lookup id (store_of (for_each turn (list_tasks states (pos 0) (store_of w)) w)).tasks
          ≡ some (if admits states t then act t t else t)
    for_each-list_tasks states w g l e =
        let listed = list_tasks-All states (store_of w) l in
        let only =
          λ (u : Task) (h : (lookup u.id (store_of w).tasks ≡ some u) × (admits states u ≡ true))
              (at_id : u.id ≡ id).
            some-eq (sym h.0 ∙ ap (λ j. lookup j (store_of w).tasks) at_id ∙ e) in
        elim (Bool-cases (admits states t)) [
          | inl member ↦ rw member (
              for_each-Has w g (list_tasks-Has states id t (store_of w) e member) (l.ids id t e)
                (All-imp _ only listed) e)
          | inr unlisted ↦ rw unlisted (
              for_each-others _ w g
                (All-imp _
                  (λ u h at_id. ground (arith, ap (admits states) (only u h at_id), h.1, unlisted))
                  listed)
                e)
        ]
