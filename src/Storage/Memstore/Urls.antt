-- ===== src/Storage/Memstore/Urls.antt =====
-- `SetTaskPR` against `FindTaskByPRURL` (minos/storage/memstore/memstore.go).
use zakros.Base.{
  nat_equality, string_equality, String, [], ◌∷◌, none, some, true, ◌≡◌, ◌≢◌, ◌↔◌, refl, sym, ap,
  inl, inr, arith, eqb_iff, Option-cases, Bool-cases, ok, same_text_iff, subst,
}
use zakros.Base.Maps.{Map, IsMap, lookup, lookup-insert}
use zakros.Storage.{Uuid, conflict, Task}
use zakros.Storage.Memstore.{
  Store, records_pr, step, set_task_pr, bound_elsewhere, has_pr, find_pr, find_task_by_pr_url,
}
use zakros.Storage.Memstore.Links.{IsLinked, step-IsLinked}

has_pr_iff : (url : String) (t : Task) → (has_pr url t ≡ true) ↔ (t.pr_url ≡ some url)
unfolding has_pr
has_pr_iff url t = elim (Option-cases t.pr_url) [
  | inl e ↦ (λ h. ground arith, λ h. ground arith)
  | inr (u, e) ↦
      (λ h. ground (arith, same_text_iff u url), λ h. ground (arith, same_text_iff u url))
]

find_pr-some :
    (url : String) (m : Map Uuid Task) (t : Task)
    → IsMap m
    → find_pr url m ≡ some t
    → (k : Uuid) × (lookup k m ≡ some t) × (t.pr_url ≡ some url)
unfolding find_pr lookup
find_pr-some url [] t d h = cc
find_pr-some url ((j, u) ∷ m) t d h = elim (Bool-cases (has_pr url u)) [
  | inl here ↦ (j, ground (arith, eqb_iff j j), ground (arith, (has_pr_iff url u).0 here))
  | inr there ↦
      let (k, found, held) = find_pr-some url m t d.1 (ground arith) in
      (k, ground (arith, eqb_iff j k), held)
]

find_pr-none :
    (url : String) (m : Map Uuid Task) (k : Uuid) (t : Task)
    → find_pr url m ≡ none
    → lookup k m ≡ some t
    → t.pr_url ≢ some url
unfolding find_pr lookup
find_pr-none url [] k t h e held = cc
find_pr-none url ((j, u) ∷ m) k t h e held =
    ground (arith, find_pr-none url m k t, has_pr_iff url u, eqb_iff j k)

-- In a store that the writes can reach, a lookup by URL returns a task exactly if that task is
-- stored under its own identifier and holds the URL, in whatever order the map is visited.
pub find_task_by_pr_url-exact :
    (url : String) (s : Store) (t : Task)
    → IsLinked s
    → (find_task_by_pr_url url s ≡ ok t) ↔ ((lookup t.id s.tasks ≡ some t) × (t.pr_url ≡ some url))
unfolding find_task_by_pr_url
find_task_by_pr_url-exact url s t h = (to, from)
  where
    to : find_task_by_pr_url url s ≡ ok t → (lookup t.id s.tasks ≡ some t) × (t.pr_url ≡ some url)
    to e =
        let (k, found, held) = find_pr-some url s.tasks t h.is_map (ground arith) in
        (subst (λ i. lookup i s.tasks ≡ some t) (sym (h.ids k t found)) found, held)

    from : (lookup t.id s.tasks ≡ some t) × (t.pr_url ≡ some url) → find_task_by_pr_url url s ≡ ok t
    from (found, held) = elim (Option-cases (find_pr url s.tasks)) [
      | inl e ↦ absurd (find_pr-none url s.tasks t.id t e found held)
      | inr (u, e) ↦
          let (k, found', held') = find_pr-some url s.tasks u h.is_map e in
          let same : k ≡ t.id = h.distinct k t.id url (ground arith) (ground arith) in
          rw (e, find_task_by_pr_url)
            (ground (arith, subst (λ i. lookup i s.tasks ≡ some u) same found'))
    ]

set_pr-lookup :
    (id : Uuid) (url : String) (s s' : Store)
    → set_task_pr id url s ≡ (s', none)
    → (t : Task) × (lookup id s'.tasks ≡ some t) × (t.pr_url ≡ some url)
unfolding set_task_pr
set_pr-lookup id url s s' h = elim (Option-cases (lookup id s.tasks)) [
  | inl e ↦ ground arith
  | inr (t, e) ↦ (
    record t { pr_url = some url },
    ground (arith, lookup-insert id id (record t { pr_url = some url }) s.tasks, eqb_iff id id),
    refl,
  )
]

step_store :
    (id : Uuid) (url : String) (s s' : Store)
    → set_task_pr id url s ≡ (s', none)
    → step (records_pr id url) s ≡ s'
unfolding step
step_store id url s s' e = ap (λ r. r.0) e

-- After a pull request URL is recorded for a task, a lookup by the URL returns that task.
find-set_task_pr :
    (id : Uuid) (url : String) (s s' : Store)
    → IsLinked s
    → set_task_pr id url s ≡ (s', none)
    → (t : Task) × (find_task_by_pr_url url s' ≡ ok t) × (t.id ≡ id) × (t.pr_url ≡ some url)
find-set_task_pr id url s s' h e =
    let (t, found, held) = set_pr-lookup id url s s' e in
    let own : t.id ≡ id = linked.ids id t found in
    (t, (find_task_by_pr_url-exact url s' t linked).1 (rw own found, held), own, held)
  where
    linked : IsLinked s'
    linked = subst IsLinked (step_store id url s s' e) (step-IsLinked (records_pr id url) s tt h)

bound_elsewhere-held :
    (id : Uuid) (url : String) (m : Map Uuid Task)
    → IsMap m
    → bound_elsewhere id url m ≡ true
    → (k : Uuid) × (t : Task) × (k ≢ id) × (lookup k m ≡ some t) × (t.pr_url ≡ some url)
unfolding bound_elsewhere lookup
bound_elsewhere-held id url [] d h = cc
bound_elsewhere-held id url ((j, u) ∷ m) d h = elim (Bool-cases (bound_elsewhere id url m)) [
  | inl there ↦
      let (k, t, ne, found, held) = bound_elsewhere-held id url m d.1 there in
      (k, t, ne, ground (arith, eqb_iff j k), held)
  | inr gone ↦ (
    j,
    u,
    ground (arith, eqb_iff j id),
    ground (arith, eqb_iff j j),
    ground (arith, has_pr_iff url u),
  )
]

bound_elsewhere-of_held :
    (id : Uuid) (url : String) (m : Map Uuid Task) (k : Uuid) (t : Task)
    → k ≢ id
    → lookup k m ≡ some t
    → t.pr_url ≡ some url
    → bound_elsewhere id url m ≡ true
unfolding bound_elsewhere lookup
bound_elsewhere-of_held id url [] k t ne found held = cc
bound_elsewhere-of_held id url ((j, u) ∷ m) k t ne found held =
    ground
      (arith, bound_elsewhere-of_held id url m k t, has_pr_iff url u, eqb_iff j k, eqb_iff j id)

-- For a stored task, `SetTaskPR` reports a conflict exactly if another task holds the URL.
pub set_task_pr-conflict :
    (id : Uuid) (url : String) (s : Store) (t : Task)
    → IsLinked s
    → lookup id s.tasks ≡ some t
    → ((set_task_pr id url s).1 ≡ some conflict)
      ↔ ((u : Task) × (u.id ≢ id) × (lookup u.id s.tasks ≡ some u) × (u.pr_url ≡ some url))
unfolding set_task_pr
set_task_pr-conflict id url s t h e = (to, from)
  where
    to :
        (set_task_pr id url s).1 ≡ some conflict
        → (u : Task) × (u.id ≢ id) × (lookup u.id s.tasks ≡ some u) × (u.pr_url ≡ some url)
    to r =
        let (k, u, ne, found, held) = bound_elsewhere-held id url s.tasks h.is_map (ground arith) in
        let own : u.id ≡ k = h.ids k u found in (u, rw own ne, rw own found, held)

    from :
        (u : Task) × (u.id ≢ id) × (lookup u.id s.tasks ≡ some u) × (u.pr_url ≡ some url)
        → (set_task_pr id url s).1 ≡ some conflict
    from (u, ne, found, held) =
        rw (e, set_task_pr) (rw (bound_elsewhere-of_held id url s.tasks u.id u ne found held))
