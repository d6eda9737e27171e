-- ===== src/Storage/Memstore/Links.antt =====
-- Pull request URLs and the tasks that own them (minos/storage/memstore/memstore.go, SetTaskPR and
-- FindTaskByPRURL).
use zakros.Base.{
  nat_equality, string_equality, String, List, [], ◌∷◌, Option, none, some, false, ◌≡◌, refl, sym,
  ◌∙◌, ◌⊎◌, inl, inr, arith, eqb, eqb_iff, Option-cases, Bool-cases, All, same_text_iff, subst,
  some-eq,
}
use zakros.Base.Maps.{Map, IsMap, lookup, insert, lookup-insert, insert-IsMap}
use zakros.Base.Clock.{Time}
use zakros.Storage.{Uuid, State, Task}
use zakros.Storage.Memstore.{
  new, Store, Call, inserts, transitions, records_run, records_pr, reminds, insert_task,
  with_defaults, transition_task, set_task_run, set_task_pr, mark_task_reminded, valid_transition,
  advance, step, run, bound_elsewhere, has_pr,
}
use zakros.Storage.Memstore.Moves.{Move, kept, added, moved, touched, step-Move}
use zakros.Storage.Memstore.Lifecycle.{InsertsFresh}

abbrev pr_in : Option Task → Option String
pr_in none = none
pr_in (some t) = t.pr_url

abbrev pr_of : Store → Uuid → Option String
pr_of s j = pr_in (lookup j s.tasks)

pub record IsLinked (s : Store) : Type 0 where
  pub is_map : IsMap s.tasks
  pub ids : (k : Uuid) (t : Task) → lookup k s.tasks ≡ some t → t.id ≡ k
  pub distinct : (i j : Uuid) (url : String) → pr_of s i ≡ some url → pr_of s j ≡ some url → i ≡ j

-- A free URL is held by no other task.
bound_elsewhere-free :
    (id : Uuid) (url : String) (m : Map Uuid Task) (j : Uuid)
    → bound_elsewhere id url m ≡ false
    → pr_in (lookup j m) ≡ some url
    → j ≡ id
unfolding bound_elsewhere has_pr lookup
bound_elsewhere-free id url [] j free h = cc
bound_elsewhere-free id url ((k, t) ∷ m) j free h =
    ground
      (arith, bound_elsewhere-free id url m j, eqb_iff k id, eqb_iff k j, same_text_iff url url)

data PrMove (c : Call) (s : Store) (j : Uuid) : Option String → Type 0 where
  pr_kept : PrMove c s j (pr_of s j)
  pr_linked :
      (id : Uuid) (url : String)
      → c ≡ records_pr id url
      → bound_elsewhere id url s.tasks ≡ false
      → j ≡ id
      → PrMove c s j (some url)

same_pr :
    (c : Call) (s : Store) (k j : Uuid) (u : Task)
    → pr_of s k ≡ u.pr_url
    → PrMove c s j (pr_in (lookup j (insert k u s.tasks)))
same_pr c s k j u e =
    subst (PrMove c s j) (ground (arith, lookup-insert k j u s.tasks, eqb_iff k j)) pr_kept

advance-pr_url : (t : Task) (to : State) (now : Time) → (advance to now t).pr_url ≡ t.pr_url
unfolding advance
advance-pr_url t to now = ground arith

step-PrMove : (c : Call) (s : Store) (j : Uuid) → InsertsFresh c → PrMove c s j (pr_of (step c s) j)
unfolding step insert_task transition_task set_task_run set_task_pr mark_task_reminded
step-PrMove (inserts now t) s j f = elim (Option-cases (lookup t.id s.tasks)) [
  | inl e ↦
      rw (e, step, insert_task)
        (same_pr _ s t.id j (with_defaults now t) (ground (arith, f.pr_url)))
  | inr (u, e) ↦ rw (e, step, insert_task) pr_kept
]
step-PrMove (transitions id to now) s j f = elim (Option-cases (lookup id s.tasks)) [
  | inl e ↦ rw (e, step, transition_task) pr_kept
  | inr (t, e) ↦ elim (Bool-cases (valid_transition t.state to)) [
    | inl valid ↦
        rw (e, step, transition_task)
          (rw valid (same_pr _ s id j (advance to now t) (ground (arith, advance-pr_url t to now))))
    | inr refused ↦ rw (e, step, transition_task) (rw refused pr_kept)
  ]
]
step-PrMove (records_run id run_id pod_name) s j f = elim (Option-cases (lookup id s.tasks)) [
  | inl e ↦ rw (e, step, set_task_run) pr_kept
  | inr (t, e) ↦ rw (e, step, set_task_run) (same_pr _ s id j _ (ground arith))
]
step-PrMove (records_pr id url) s j f = elim (Option-cases (lookup id s.tasks)) [
  | inl e ↦ rw (e, step, set_task_pr) pr_kept
  | inr (t, e) ↦ elim (Bool-cases (bound_elsewhere id url s.tasks)) [
    | inl bound ↦ rw (e, step, set_task_pr) (rw bound pr_kept)
    | inr free ↦
        rw (e, step, set_task_pr)
          (rw free (elim (Bool-cases (eqb id j)) [
            | inl same ↦
                subst (PrMove _ s j)
                  (ground (arith, lookup-insert id j (record t { pr_url = some url }) s.tasks))
                  (pr_linked id url refl free (sym ((eqb_iff id j).0 same)))
            | inr differ ↦
                subst (PrMove _ s j)
                  (ground (arith, lookup-insert id j (record t { pr_url = some url }) s.tasks))
                  pr_kept
          ]))
  ]
]
step-PrMove (reminds id now) s j f = elim (Option-cases (lookup id s.tasks)) [
  | inl e ↦ rw (e, step, mark_task_reminded) pr_kept
  | inr (t, e) ↦ rw (e, step, mark_task_reminded) (same_pr _ s id j _ (ground arith))
]

PrMove-old :
    {c : Call} {s : Store} {j : Uuid} {o : Option String} {url : String}
    → PrMove c s j o
    → o ≡ some url
    → (pr_of s j ≡ some url) ⊎ ((c ≡ records_pr j url) × (bound_elsewhere j url s.tasks ≡ false))
PrMove-old pr_kept h = inl h
PrMove-old {c} {s} {j} (pr_linked id u e free same) h =
    inr (cc, subst (λ v. bound_elsewhere j v s.tasks ≡ false) (some-eq h) (rw same free))

step-distinct :
    (c : Call) (s : Store)
    → InsertsFresh c
    → IsLinked s
    → (i j : Uuid) (url : String) → pr_of (step c s) i ≡ some url
    → pr_of (step c s) j ≡ some url
    → i ≡ j
step-distinct c s f h i j url p q =
    both (PrMove-old (step-PrMove c s i f) p) (PrMove-old (step-PrMove c s j f) q)
  where
    both :
        (pr_of s i ≡ some url) ⊎ ((c ≡ records_pr i url) × (bound_elsewhere i url s.tasks ≡ false))
        → (pr_of s j ≡ some url)
          ⊎ ((c ≡ records_pr j url) × (bound_elsewhere j url s.tasks ≡ false))
        → i ≡ j
    both (inl a) (inl b) = h.distinct i j url a b
    both (inl a) (inr b) = bound_elsewhere-free j url s.tasks i b.1 a
    both (inr a) (inl b) = sym (bound_elsewhere-free i url s.tasks j a.1 b)
    both (inr a) (inr b) = cc (a.0, b.0)

step-IsMap : (c : Call) (s : Store) → IsMap s.tasks → IsMap (step c s).tasks
unfolding step insert_task transition_task set_task_run set_task_pr mark_task_reminded
step-IsMap (inserts now t) s h = elim (Option-cases (lookup t.id s.tasks)) [
  | inl e ↦ rw (e, step, insert_task) (insert-IsMap t.id (with_defaults now t) s.tasks h)
  | inr (u, e) ↦ rw (e, step, insert_task) h
]
step-IsMap (transitions id to now) s h = elim (Option-cases (lookup id s.tasks)) [
  | inl e ↦ rw (e, step, transition_task) h
  | inr (t, e) ↦ elim (Bool-cases (valid_transition t.state to)) [
    | inl valid ↦
        rw (e, step, transition_task) (rw valid (insert-IsMap id (advance to now t) s.tasks h))
    | inr refused ↦ rw (e, step, transition_task) (rw refused h)
  ]
]
step-IsMap (records_run id run_id pod_name) s h = elim (Option-cases (lookup id s.tasks)) [
  | inl e ↦ rw (e, step, set_task_run) h
  | inr (t, e) ↦ rw (e, step, set_task_run) (insert-IsMap id _ s.tasks h)
]
step-IsMap (records_pr id url) s h = elim (Option-cases (lookup id s.tasks)) [
  | inl e ↦ rw (e, step, set_task_pr) h
  | inr (t, e) ↦ elim (Bool-cases (bound_elsewhere id url s.tasks)) [
    | inl bound ↦ rw (e, step, set_task_pr) (rw bound h)
    | inr free ↦ rw (e, step, set_task_pr) (rw free (insert-IsMap id _ s.tasks h))
  ]
]
step-IsMap (reminds id now) s h = elim (Option-cases (lookup id s.tasks)) [
  | inl e ↦ rw (e, step, mark_task_reminded) h
  | inr (t, e) ↦ rw (e, step, mark_task_reminded) (insert-IsMap id _ s.tasks h)
]

abbrev HasId : Uuid → Option Task → Type 0
HasId j none = Unit
HasId j (some t) = t.id ≡ j

advance-id : (t : Task) (to : State) (now : Time) → (advance to now t).id ≡ t.id
unfolding advance
advance-id t to now = ground arith

Move-HasId : {c : Call} {j : Uuid} {o p : Option Task} → Move c j o p → HasId j o → HasId j p
Move-HasId kept h = h
Move-HasId (added now t e i) h = i
Move-HasId (moved t to now valid) h = advance-id t to now ∙ h
Move-HasId (touched t u same) h = same.id ∙ h

some-HasId : (j : Uuid) (o : Option Task) → ((t : Task) → o ≡ some t → t.id ≡ j) → HasId j o
some-HasId j none h = tt
some-HasId j (some t) h = h t refl

pub step-IsLinked : (c : Call) (s : Store) → InsertsFresh c → IsLinked s → IsLinked (step c s)
step-IsLinked c s f h = record {
  is_map = step-IsMap c s h.is_map;
  ids = λ k t e. subst (HasId k) e (Move-HasId (step-Move c s k) (some-HasId k _ (h.ids k)));
  distinct = step-distinct c s f h;
}

-- Whatever the writes, as long as inserted tasks are fresh, no two tasks hold one pull request.
pub run-IsLinked :
    (cs : List Call) (s : Store) → All InsertsFresh cs → IsLinked s → IsLinked (run cs s)
unfolding run
run-IsLinked [] s f h = h
run-IsLinked (c ∷ cs) s f h = run-IsLinked cs (step c s) f.1 (step-IsLinked c s f.0 h)

pub new-IsLinked : IsLinked new
unfolding new lookup
new-IsLinked = record { is_map = tt; ids = λ k t e. cc; distinct = λ i j url p q. cc }
