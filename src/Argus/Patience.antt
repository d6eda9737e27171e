-- ===== src/Argus/Patience.antt =====
-- What a pass of the rules engine leaves alone (minos/argus/argus.go, evaluate).
use zakros.Base.{
  nat_equality, List, [], ◌∷◌, none, some, Bool, true, false, ◌==◌, if◌then◌else◌, ◌≡◌, ◌≢◌, refl,
  sym, ◌∙◌, subst, ap, inl, inr, arith, Result, ok, err, eqb_iff, Bool-cases, All, ◌++◌,
}
use zakros.Base.Maps.{Map, IsMap, values, lookup, remove, lookup-here}
use zakros.Base.Clock.{Time}
use zakros.Storage.{Uuid}
use zakros.Dispatch.{
  Dispatcher, DispatchError, Phase, unknown, pending, Phase.running as pod_running, succeeded,
  failed, unlisted, terminal,
}
use zakros.Argus.{State, World}
use zakros.Argus.Rules.{
  Verdict, stop, escalate_now, warn_now, leave, judge, carry_out, act_on, evaluate_one,
  evaluate_each, evaluate,
}
use zakros.Argus.Effects.{is_running}
use zakros.Argus.Outcomes.{
  is_overdue, is_stop, judge-is_stop, finished, spared, Spares, stays, warn-Spares, escalate-Spares,
  evaluate_one-Outcome,
}
use zakros.Argus.Deletions.{
  Pod, PodsOf, PodsOf-cons, delete_all, delete_all-append, Deletes, Deletes-cons,
  evaluate_one-Deletes, evaluate_each-Deletes,
}
use zakros.Argus.Deadlines.{evaluate_one-cfg}

-- Every entry stands under its own task.
abbrev IsKeyed : Map Uuid State → Type 0
IsKeyed [] = Unit
IsKeyed ((k, st) ∷ m) = (st.task_id ≡ k) × IsKeyed m

IsKeyed-others :
    (id : Uuid) (m : Map Uuid State)
    → IsKeyed m
    → lookup id m ≡ none
    → All (λ u. u.task_id ≢ id) (values m)
unfolding lookup
IsKeyed-others id [] h e = tt
IsKeyed-others id ((k, u) ∷ m) h e = (ground arith, IsKeyed-others id m h.1 (ground arith))

-- The dispatcher says that the pod has ended.
abbrev pub says_ended : Result DispatchError Phase → Bool
says_ended (ok p) = terminal p
says_ended (err e) = false

remove-absent : (id : Uuid) (m : Map Uuid State) → lookup id m ≡ none → remove id m ≡ m
unfolding lookup remove
remove-absent id [] h = refl
remove-absent id ((k, u) ∷ m) h = ground (arith, remove-absent id m)

module _ {Cluster : Type 0} where
  -- The entry is as it was but for its warning flags, and its task runs if it did.
  abbrev pub IsSpared : Uuid → State → World Cluster → World Cluster → Type 0
  IsSpared id st w v =
      (b c : Bool) × (lookup id v.pods ≡ some (record st { warned = b; escalated = c }))
      × (is_running id v.store ≡ is_running id w.store)

  Spares-IsSpared :
      (id : Uuid) (st : State) (w v : World Cluster)
      → Spares st w v
      → lookup id w.pods ≡ some st
      → st.task_id ≡ id
      → IsSpared id st w v
  Spares-IsSpared id st w v p e k = (
    (p.is_flagging st).0,
    (p.is_flagging st).1,
    p.pods id ∙ ground (arith, (p.is_flagging st).2),
    ap (is_running id) p.store,
  )

  module _ (d : Dispatcher Cluster) where
    -- However many pods of the entries are deleted, the dispatcher does not say that this pod has ended.
    abbrev pub StaysAlive : State → List State → Cluster → Type 0
    StaysAlive st others c =
        (ps : List Pod)
        → PodsOf others ps
        → says_ended (d.pod_phase st.namespace st.pod_name (delete_all d ps c)) ≡ false

    -- It stays so when some of them are deleted.
    StaysAlive-later :
        (st u : State) (others : List State) (c e : Cluster)
        → Deletes d (u ∷ []) c e
        → StaysAlive st (u ∷ others) c
        → StaysAlive st others e
    StaysAlive-later st u others c e (qs, k, q) alive ps h =
        ap (λ x. says_ended (d.pod_phase st.namespace st.pod_name (delete_all d ps x))) q
        ∙ ap (λ x. says_ended (d.pod_phase st.namespace st.pod_name x))
            (sym (delete_all-append d qs ps c))
        ∙ alive (qs ++ ps) (PodsOf-cons u others qs ps k h)

  module _ (d : Dispatcher Cluster) (now wall : Time) where
    evaluate_one-others :
        (u : State) (id : Uuid) (w : World Cluster)
        → u.task_id ≢ id
        → (lookup id (evaluate_one d now wall u w).pods ≡ lookup id w.pods)
          × (is_running id (evaluate_one d now wall u w).store ≡ is_running id w.store)
    evaluate_one-others u id w ne = elim (evaluate_one-Outcome d now wall u w) [
      | finished f ↦ (f.pods id ∙ ground arith, f.tasks id ∙ ground arith)
      | spared p ↦ (p.pods id ∙ ground arith, ap (is_running id) p.store)
    ]

    evaluate_each-others :
        (us : List State) (id : Uuid) (w : World Cluster)
        → All (λ u. u.task_id ≢ id) us
        → (lookup id (evaluate_each d now wall us w).pods ≡ lookup id w.pods)
          × (is_running id (evaluate_each d now wall us w).store ≡ is_running id w.store)
    unfolding evaluate_each
    evaluate_each-others [] id w h = (refl, refl)
    evaluate_each-others (u ∷ us) id w h =
        let one = evaluate_one-others u id w h.0 in
        let rest = evaluate_each-others us id (evaluate_one d now wall u w) h.1 in
        (rest.0 ∙ one.0, rest.1 ∙ one.1)

    carry_out-Spares :
        (st : State) (w : World Cluster) (v : Verdict)
        → is_stop v ≡ false
        → Spares st w (carry_out d wall st w v)
    unfolding carry_out
    carry_out-Spares st w (stop why) h = ground arith
    carry_out-Spares st w (escalate_now why) h = escalate-Spares st why w
    carry_out-Spares st w (warn_now why) h = warn-Spares st why w
    carry_out-Spares st w leave h = stays st w

    act_on-Spares :
        (st : State) (w : World Cluster) (p : Result DispatchError Phase)
        → is_overdue w.cfg now st ≡ false
        → says_ended p ≡ false
        → Spares st w (act_on d now wall st w p)
    unfolding act_on
    act_on-Spares st w (ok succeeded) h e = ground arith
    act_on-Spares st w (ok failed) h e = ground arith
    act_on-Spares st w (ok unknown) h e =
        carry_out-Spares st w (judge w.cfg now st) (judge-is_stop w.cfg now st ∙ h)
    act_on-Spares st w (ok pending) h e =
        carry_out-Spares st w (judge w.cfg now st) (judge-is_stop w.cfg now st ∙ h)
    act_on-Spares st w (ok pod_running) h e =
        carry_out-Spares st w (judge w.cfg now st) (judge-is_stop w.cfg now st ∙ h)
    act_on-Spares st w (ok (unlisted y)) h e =
        carry_out-Spares st w (judge w.cfg now st) (judge-is_stop w.cfg now st ∙ h)
    act_on-Spares st w (err x) h e =
        carry_out-Spares st w (judge w.cfg now st) (judge-is_stop w.cfg now st ∙ h)

    evaluate_one-Spares :
        (st : State) (w : World Cluster)
        → is_overdue w.cfg now st ≡ false
        → says_ended (d.pod_phase st.namespace st.pod_name w.cluster) ≡ false
        → Spares st w (evaluate_one d now wall st w)
    unfolding evaluate_one
    evaluate_one-Spares st w h e = go st.terminated
      where
        go :
            (b : Bool)
            → Spares st w (
                if b
                then w
                else act_on d now wall st w (d.pod_phase st.namespace st.pod_name w.cluster))
        go true = stays st w
        go false = act_on-Spares st w (d.pod_phase st.namespace st.pod_name w.cluster) h e

    evaluate_each-spares_first :
        (id : Uuid) (st : State) (us : List State) (w : World Cluster)
        → st.task_id ≡ id
        → All (λ u. u.task_id ≢ id) us
        → lookup id w.pods ≡ some st
        → is_overdue w.cfg now st ≡ false
        → StaysAlive d st us w.cluster
        → IsSpared id st w (evaluate_each d now wall (st ∷ us) w)
          × Deletes d us w.cluster (evaluate_each d now wall (st ∷ us) w).cluster
    unfolding evaluate_each
    evaluate_each-spares_first id st us w k others f h alive =
        let v = evaluate_one d now wall st w in
        let spared_one = evaluate_one-Spares st w h (alive [] tt) in
        let one = Spares-IsSpared id st w v spared_one f k in
        let rest = evaluate_each-others us id v others in
        (
          (one.0, one.1, rest.0 ∙ one.2, rest.1 ∙ one.3),
          subst (λ c. Deletes d us c (evaluate_each d now wall us v).cluster) spared_one.cluster
              (evaluate_each-Deletes d now wall us v),
        )

    evaluate_each-spares :
        (id : Uuid) (st : State) (m : Map Uuid State) (w : World Cluster)
        → IsMap m
        → IsKeyed m
        → lookup id m ≡ some st
        → lookup id w.pods ≡ some st
        → is_overdue w.cfg now st ≡ false
        → StaysAlive d st (values (remove id m)) w.cluster
        → IsSpared id st w (evaluate_each d now wall (values m) w)
          × Deletes d
              (values (remove id m))
              w.cluster
              (evaluate_each d now wall (values m) w).cluster
    unfolding evaluate_each lookup remove
    evaluate_each-spares id st [] w dm keyed e f h alive = ground arith
    evaluate_each-spares id st ((k, u) ∷ m) w dm keyed e f h alive = elim (Bool-cases (k == id)) [
      | inl at ↦
          let first = lookup-here id k u st m at e in
          let at_id = (eqb_iff k id).0 at in
          let gone = subst (λ j. lookup j m ≡ none) at_id dm.0 in
          let rest : remove id ((k, u) ∷ m) ≡ m = rw at (remove-absent id m gone) in
          let spared_first =
            evaluate_each-spares_first id st (values m) w
              (ap (λ s. s.task_id) (sym first) ∙ keyed.0 ∙ at_id) (IsKeyed-others id m keyed.1 gone)
              f h (subst (λ x. StaysAlive d st (values x) w.cluster) rest alive) in
          subst
            (λ x.
              IsSpared id st w (evaluate_each d now wall (x ∷ values m) w)
              × Deletes d (values (remove id ((k, u) ∷ m))) w.cluster
                  (evaluate_each d now wall (x ∷ values m) w).cluster)
            (sym first)
            (
              spared_first.0,
              subst
                  (λ x.
                    Deletes d (values x) w.cluster
                      (evaluate_each d now wall (st ∷ values m) w).cluster)
                  (sym rest) spared_first.1,
            )
      | inr off ↦
          let v = evaluate_one d now wall u w in
          let one = evaluate_one-others u id w (ground (arith, keyed.0)) in
          let rest_of : remove id ((k, u) ∷ m) ≡ (k, u) ∷ remove id m = rw off refl in
          let rest =
            evaluate_each-spares id st m v dm.1 keyed.1 (ground arith) (one.0 ∙ f)
              (ap (λ c. is_overdue c now st) (evaluate_one-cfg d now wall u w) ∙ h)
              (StaysAlive-later d st u (values (remove id m)) w.cluster v.cluster
                (evaluate_one-Deletes d now wall u w)
                (subst (λ x. StaysAlive d st (values x) w.cluster) rest_of alive)) in
          let (b, c, kept, runs) = rest.0 in
          (
            (b, c, kept, runs ∙ one.1),
            subst
                (λ x.
                  Deletes d (values x) w.cluster (evaluate_each d now wall (values m) v).cluster)
                (sym rest_of)
                (Deletes-cons d u (values (remove id m)) w.cluster v.cluster
                  (evaluate_each d now wall (values m) v).cluster
                  (evaluate_one-Deletes d now wall u w) rest.1),
          )
    ]

    -- A pass leaves a pod within its limits alone, as long as the dispatcher does not say that it has ended,
    -- whichever pods of the other entries are deleted before its turn: the pod stays tracked as it is, but
    -- for the warning flags, its task runs on if it did, and the pass deletes only pods of the other
    -- entries. It is said of entries that are distinct and stand under their own tasks.
    pub evaluate-spares :
        (id : Uuid) (st : State) (w : World Cluster)
        → IsMap w.pods
        → IsKeyed w.pods
        → lookup id w.pods ≡ some st
        → is_overdue w.cfg now st ≡ false
        → StaysAlive d st (values (remove id w.pods)) w.cluster
        → IsSpared id st w (evaluate d now wall w)
          × Deletes d (values (remove id w.pods)) w.cluster (evaluate d now wall w).cluster
    unfolding evaluate
    evaluate-spares id st w dm keyed e h alive =
        evaluate_each-spares id st w.pods w dm keyed e e h alive
