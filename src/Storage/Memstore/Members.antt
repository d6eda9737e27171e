-- ===== src/Storage/Memstore/Members.antt =====
-- Which tasks an unlimited `ListTasks` returns (minos/storage/memstore/memstore.go).
use zakros.Base.{
  nat_equality, ◌==◌, List, [], ◌∷◌, some, true, ◌≡◌, sym, subst, inl, inr, arith, All, Has, keep,
  here, there, keep-Has, keep-All, Bool-cases,
}
use zakros.Base.Int.{pos}
use zakros.Base.Maps.{Map, values, lookup, lookup-here, values-All}
use zakros.Base.Newest.{newest_first-Has, newest_first-All, cut}
use zakros.Storage.{Uuid, State, Task}
use zakros.Storage.Memstore.{Store, admits, creation, list_tasks}
use zakros.Storage.Memstore.Links.{IsLinked}

values-Has : (id : Uuid) (t : Task) (m : Map Uuid Task) → lookup id m ≡ some t → Has t (values m)
unfolding lookup
values-Has id t [] e = ground arith
values-Has id t ((k, u) ∷ m) e = elim (Bool-cases (k == id)) [
  | inl at_id ↦ subst (λ v. Has t (v ∷ values m)) (sym (lookup-here id k u t m at_id e)) here
  | inr elsewhere ↦ there (values-Has id t m (ground arith))
]

pub list_tasks-Has :
    (states : List State) (id : Uuid) (t : Task) (s : Store)
    → lookup id s.tasks ≡ some t
    → admits states t ≡ true
    → Has t (list_tasks states (pos 0) s)
unfolding list_tasks cut
list_tasks-Has states id t s e h =
    newest_first-Has creation t (keep-Has (admits states) t (values-Has id t s.tasks e) h)

-- In a store whose tasks stand under their own identifiers.
pub list_tasks-All :
    (states : List State) (s : Store)
    → IsLinked s
    → All
        (λ t. (lookup t.id s.tasks ≡ some t) × (admits states t ≡ true))
        (list_tasks states (pos 0) s)
unfolding list_tasks cut
list_tasks-All states s l =
    newest_first-All creation (λ t. (lookup t.id s.tasks ≡ some t) × (admits states t ≡ true))
      (keep (admits states) (values s.tasks))
      (keep-All (λ t. lookup t.id s.tasks ≡ some t) (admits states) (values s.tasks)
        (values-All (λ t. lookup t.id s.tasks ≡ some t) s.tasks l.is_map
          (λ k t e. subst (λ j. lookup j s.tasks ≡ some t) (sym (l.ids k t e)) e)))
