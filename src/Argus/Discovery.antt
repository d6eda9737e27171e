-- ===== src/Argus/Discovery.antt =====
-- Which pods a pass of discovery tracks (minos/argus/argus.go, discover).
use zakros.Base.{
  nat_equality, ◌==◌, eqb_iff, List, [], ◌∷◌, Option, none, some, Bool, true, false, ◌||◌, ◌≡◌,
  refl, sym, ◌∙◌, ap, inl, inr, arith, All, Has, here, there, for_each, exists, if◌then◌else◌,
  Bool-cases, some-eq,
}
use zakros.Base.Int.{pos}
use zakros.Base.Maps.{lookup, lookup-insert}
use zakros.Base.Clock.{Time}
use zakros.Storage.{Uuid, Task, State.running as task_running, same_state}
use zakros.Storage.Memstore.{admits, list_tasks}
use zakros.Storage.Memstore.Links.{IsLinked}
use zakros.Storage.Memstore.Loops.{All-imp}
use zakros.Storage.Memstore.Members.{list_tasks-Has, list_tasks-All}
use zakros.Argus.{Config, State, World}
use zakros.Argus.Tracking.{fresh_state, start_of, track_new, discover_one, discover}

-- The entry that there was, or else the new one.
abbrev pub found : Option State → Option State → Option State
found (some old) o = some old
found none o = o

Has-exists :
    (p : Task → Bool) (t : Task) {ts : List Task} → Has t ts → p t ≡ true → exists p ts ≡ true
Has-exists p t here h = ground arith
Has-exists p t (there m) h = ground (arith, Has-exists p t m h)

All-exists : (p : Task → Bool) (ts : List Task) → All (λ u. p u ≡ false) ts → exists p ts ≡ false
All-exists p [] h = refl
All-exists p (u ∷ us) h = ground (arith, h.0, All-exists p us h.1)

-- The state that discovery composes.
abbrev fresh : Config → Time → Task → Option State
fresh cfg now t = fresh_state cfg "zakros" (start_of t) now t

found-none : (o : Option State) → found o none ≡ o
found-none none = refl
found-none (some old) = refl

found-found :
    (here listed : Bool) (o p : Option State)
    → found (if here then found o p else o) (if listed then p else none)
      ≡ found o (if here || listed then p else none)
found-found true true none none = refl
found-found true true none (some st) = refl
found-found true false none none = refl
found-found true false none (some st) = refl
found-found false b none p = refl
found-found true b (some old) p = refl
found-found false b (some old) p = refl

module _ {Cluster : Type 0} where
  track_new-lookup :
      (old o : Option State) (t : Task) (w : World Cluster) (id : Uuid)
      → lookup t.id w.pods ≡ old
      → lookup id (track_new old o t w).pods
        ≡ (if t.id == id then found old o else lookup id w.pods)
  unfolding track_new
  track_new-lookup (some old) o t w id e = ground (arith, eqb_iff t.id id)
  track_new-lookup none none t w id e = ground (arith, eqb_iff t.id id)
  track_new-lookup none (some st) t w id e = lookup-insert t.id id st w.pods

  track_new-cfg :
      (old o : Option State) (t : Task) (w : World Cluster) → (track_new old o t w).cfg ≡ w.cfg
  unfolding track_new
  track_new-cfg (some old) o t w = refl
  track_new-cfg none none t w = refl
  track_new-cfg none (some st) t w = refl

  module _ (now : Time) (id : Uuid) (t : Task) where
    discover_one-lookup :
        (u : Task) (w : World Cluster)
        → (u.id ≡ id → u ≡ t)
        → lookup id (discover_one now u w).pods
          ≡ (if u.id == id then found (lookup id w.pods) (fresh w.cfg now t) else lookup id w.pods)
    unfolding discover_one
    discover_one-lookup u w only =
        track_new-lookup (lookup u.id w.pods) (fresh w.cfg now u) u w id refl
        ∙ elim (Bool-cases (u.id == id)) [
          | inl at_id ↦ ground (
            arith,
            ap (λ k. found (lookup k w.pods) (fresh w.cfg now u)) ((eqb_iff u.id id).0 at_id),
            ap (λ x. found (lookup id w.pods) (fresh w.cfg now x))
                (only ((eqb_iff u.id id).0 at_id)),
          )
          | inr elsewhere ↦ ground arith
        ]

    discover_one-cfg : (u : Task) (w : World Cluster) → (discover_one now u w).cfg ≡ w.cfg
    unfolding discover_one
    discover_one-cfg u w = track_new-cfg (lookup u.id w.pods) (fresh w.cfg now u) u w

    for_each-lookup :
        (us : List Task) (w : World Cluster)
        → All (λ u. u.id ≡ id → u ≡ t) us
        → lookup id (for_each (discover_one now) us w).pods
          ≡ found
              (lookup id w.pods)
              (if exists (λ u. u.id == id) us then fresh w.cfg now t else none)
    for_each-lookup [] w only = sym (found-none (lookup id w.pods))
    for_each-lookup (u ∷ us) w only =
        let listed = exists (λ x. x.id == id) us in
        for_each-lookup us (discover_one now u w) only.1
        ∙ ap
            (λ c.
              found (lookup id (discover_one now u w).pods)
                (if listed then fresh c now t else none))
            (discover_one-cfg u w)
        ∙ ap (λ o. found o (if listed then fresh w.cfg now t else none))
            (discover_one-lookup u w only.0)
        ∙ found-found (u.id == id) listed (lookup id w.pods) (fresh w.cfg now t)

    -- After a pass of discovery a stored task's pod is tracked as it was before or, if it was not and
    -- the task is running, from the task's own start; a task without an envelope, a pod or a run is
    -- not tracked, and nor is one that is not running.
    discover-lookup :
        (w : World Cluster)
        → IsLinked w.store
        → lookup id w.store.tasks ≡ some t
        → lookup id (discover now w).pods
          ≡ found (lookup id w.pods) (
              if same_state t.state task_running
              then fresh_state w.cfg "zakros" (start_of t) now t
              else none)
    unfolding discover admits
    discover-lookup w l e =
        let listed = list_tasks-All (task_running ∷ []) w.store l in
        let only =
          λ (u : Task)
              (h : (lookup u.id w.store.tasks ≡ some u) × (admits (task_running ∷ []) u ≡ true))
              (at_id : u.id ≡ id).
            some-eq (sym h.0 ∙ ap (λ j. lookup j w.store.tasks) at_id ∙ e) in
        for_each-lookup (list_tasks (task_running ∷ []) (pos 0) w.store) w (All-imp _ only listed)
        ∙ ap (λ b. found (lookup id w.pods) (if b then fresh w.cfg now t else none))
            (elim (Bool-cases (same_state t.state task_running)) [
              | inl runs ↦
                  Has-exists (λ u. u.id == id) t
                    (list_tasks-Has (task_running ∷ []) id t w.store e (ground arith))
                    (ground (arith, eqb_iff t.id id, l.ids id t e))
                  ∙ sym runs
              | inr rests ↦
                  All-exists (λ u. u.id == id) _
                    (All-imp _
                      (λ u h. elim (Bool-cases (u.id == id)) [
                        | inl at_id ↦ ground (
                          arith,
                          ap (λ x. same_state x.state task_running)
                              (only u h ((eqb_iff u.id id).0 at_id)),
                          h.1,
                          rests,
                        )
                        | inr elsewhere ↦ elsewhere
                      ])
                      listed)
                  ∙ sym rests
            ])
