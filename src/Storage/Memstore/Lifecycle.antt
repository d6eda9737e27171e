-- ===== src/Storage/Memstore/Lifecycle.antt =====
-- The life of a task under every sequence of writes (minos/storage/memstore/memstore.go).
use zakros.Base.{
  nat_equality, List, [], ◌∷◌, Option, none, some, Bool, true, false, ◌≡◌, refl, sym, inl, inr,
  arith, is_some, All, subst, Option-cases,
}
use zakros.Base.Maps.{lookup}
use zakros.Base.Clock.{Time}
use zakros.Storage.{Uuid, State, Task, queued, running, awaiting_review, completed, failed}
use zakros.Storage.Edges.{Edge, valid_transition-Edge}
use zakros.Storage.Memstore.{
  new, Store, Call, inserts, with_defaults, valid_transition, advance, step, run,
}
use zakros.Storage.Memstore.Moves.{Move, kept, added, moved, touched, step-Move}

abbrev is_terminal : State → Bool
is_terminal completed = true
is_terminal failed = true
is_terminal _ = false

abbrev is_live : State → Bool
is_live running = true
is_live awaiting_review = true
is_live completed = true
is_live _ = false

-- A task as `Commission` composes it.
pub record IsFresh (t : Task) : Type 0 where
  pub state : t.state ≡ queued
  pub started_at : t.started_at ≡ none
  pub finished_at : t.finished_at ≡ none
  pub pr_url : t.pr_url ≡ none

abbrev pub InsertsFresh : Call → Type 0
InsertsFresh (inserts now t) = IsFresh t
InsertsFresh _ = Unit

-- The timestamps agree with the state.
pub record IsLifecycle (t : Task) : Type 0 where
  queued_unstarted : t.state ≡ queued → t.started_at ≡ none
  live_started : is_live t.state ≡ true → is_some t.started_at ≡ true
  terminal_finished : is_terminal t.state ≡ true → is_some t.finished_at ≡ true
  unfinished : is_terminal t.state ≡ false → t.finished_at ≡ none

advance-IsLifecycle :
    (t : Task) (to : State) (now : Time)
    → valid_transition t.state to ≡ true
    → IsLifecycle t
    → IsLifecycle (advance to now t)
unfolding advance valid_transition
advance-IsLifecycle t to now valid h = ground arith

fresh-IsLifecycle : (now : Time) (t : Task) → IsFresh t → IsLifecycle (with_defaults now t)
fresh-IsLifecycle now t h = ground arith

abbrev Lives : Option Task → Type 0
Lives none = Unit
Lives (some t) = IsLifecycle t

Move-Lives :
    {c : Call} {j : Uuid} {o p : Option Task} → InsertsFresh c → Move c j o p → Lives o → Lives p
Move-Lives f kept h = h
Move-Lives f (added now t e i) h = fresh-IsLifecycle now t (subst InsertsFresh e f)
Move-Lives f (moved t to now valid) h = advance-IsLifecycle t to now valid h
Move-Lives f (touched t u same) h = ground arith

-- Every task of the store has a consistent life.
abbrev pub IsSound : Store → Type 0
IsSound s = (id : Uuid) → Lives (lookup id s.tasks)

-- Whatever the writes, as long as inserted tasks are fresh, every stored task's timestamps agree
-- with its state: queued ones have no start, running, hibernated and completed ones have one, and
-- exactly the terminal ones have an end.
pub run-IsSound :
    (cs : List Call) (s : Store) → All InsertsFresh cs → IsSound s → IsSound (run cs s)
unfolding run
run-IsSound [] s f h = h
run-IsSound (c ∷ cs) s f h =
    run-IsSound cs (step c s) f.1 (λ id. Move-Lives f.0 (step-Move c s id) (h id))

-- A walk along the documented diagram.
pub data Walk : State → State → Type 0 where
  stay : {a : State} → Walk a a
  go : {a b c : State} → Walk a b → Edge b c → Walk a c

-- What the later record of a task owes to an earlier one.
pub record Continues (t u : Task) : Type 0 where
  pub id : u.id ≡ t.id
  pub created : u.created_at ≡ t.created_at
  walk : Walk t.state u.state
  pub settled : is_terminal t.state ≡ true → (u.state ≡ t.state) × (u.finished_at ≡ t.finished_at)

Continues-refl : (t : Task) → Continues t t
Continues-refl t = record { id = refl; created = refl; walk = stay; settled = λ _. (refl, refl) }

abbrev Survives : Task → Option Task → Type 0
Survives t none = ⊥
Survives t (some u) = Continues t u

not_terminal : (a b : State) → valid_transition a b ≡ true → is_terminal a ≡ false
unfolding valid_transition
not_terminal a b h = ground arith

advance-Continues :
    (t u : Task) (to : State) (now : Time)
    → valid_transition u.state to ≡ true
    → Continues t u
    → Continues t (advance to now u)
unfolding advance
advance-Continues t u to now valid h = record {
  id = ground arith;
  created = ground arith;
  walk = subst (Walk t.state) (ground arith) (go h.walk (valid_transition-Edge u.state to valid));
  settled = ground (arith, not_terminal u.state to);
}

Move-Survives :
    {c : Call} {j : Uuid} {o p : Option Task} (t : Task)
    → Move c j o p
    → Survives t o
    → Survives t p
Move-Survives t kept h = h
Move-Survives t (added now u e i) h = absurd h
Move-Survives t (moved u to now valid) h = advance-Continues t u to now valid h
Move-Survives t (touched u v same) h = record {
  id = ground arith;
  created = ground arith;
  walk = rw same.state h.walk;
  settled = ground arith;
}

run-Survives :
    (cs : List Call) (s : Store) (t : Task) (id : Uuid)
    → Survives t (lookup id s.tasks)
    → Survives t (lookup id (run cs s).tasks)
unfolding run
run-Survives [] s t id h = h
run-Survives (c ∷ cs) s t id h =
    run-Survives cs (step c s) t id (Move-Survives t (step-Move c s id) h)

-- No sequence of writes loses a task or moves it off the documented diagram, and a task that is
-- completed or failed keeps its state and its end for good.
pub run-Continues :
    (cs : List Call) (s : Store) (t : Task) (id : Uuid)
    → lookup id s.tasks ≡ some t
    → (u : Task) × (lookup id (run cs s).tasks ≡ some u) × Continues t u
run-Continues cs s t id e = elim (Option-cases (lookup id (run cs s).tasks)) [
  | inl gone ↦ absurd (subst (Survives t) gone survives)
  | inr (u, found) ↦ (u, found, subst (Survives t) found survives)
]
  where
    survives : Survives t (lookup id (run cs s).tasks)
    survives = run-Survives cs s t id (subst (Survives t) (sym e) (Continues-refl t))

pub new-IsSound : IsSound new
unfolding new lookup
new-IsSound = λ id. tt
