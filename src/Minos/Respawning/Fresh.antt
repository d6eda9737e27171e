-- ===== src/Minos/Respawning/Fresh.antt =====
-- How a respawn ends (minos/core/commission.go, Respawn and dispatch).
use zakros.Base.{
  ◌==◌, nat_equality, eqb_iff, String, Option, none, some, true, ◌≡◌, ◌⊎◌, inl, inr, refl, sym, ◌∙◌,
  ap, subst, arith, Result, ok, err, if◌then◌else◌, Option-cases, Result-cases, Bool-cases,
}
use zakros.Base.Maps.{lookup, lookup-insert}
use zakros.Envelope.{Envelope}
use zakros.Storage.{
  Uuid, Task, State, same_state, queued, running, awaiting_review, completed, failed, other,
}
use zakros.Storage.Memstore.Links.{IsLinked}
use zakros.Storage.Memstore.{Store, get_task, advance}
use zakros.Storage.Memstore.Transition.{Changed}
use zakros.Dispatch.Builder.{pod_name_of}
use zakros.Projects.{Project, get}
use zakros.Minos.{Server, Environment, Failure, emit, respawned}
use zakros.Minos.Minting.{compose_capabilities}
use zakros.Minos.Dispatching.{Draws, dispatch}
use zakros.Minos.Dispatching.Outcomes.{launched, returned, Ends, dispatch-Ends, IsWaiting}
use zakros.Minos.Respawning.{refresh_context, share, redispatch, refresh, respawn}

-- `u` is the stored task `t` of the identifier, which awaits a review, but for its envelope, whose
-- capabilities are minted anew from the registered project.
pub record IsRefreshed {Cluster : Type 0} (env : Environment Cluster) (d : Draws) (id : Uuid)
    (s : Server Cluster) (t u : Task) : Type 0 where
  pub stored : lookup id s.store.tasks ≡ some t
  pub awaiting : t.state ≡ awaiting_review
  pub same : u ≡ record t { envelope = u.envelope }
  pub minted :
      (e e' : Envelope) × (proj : Project) × (t.envelope ≡ some e)
      × (u.envelope ≡ some e')
      × (get t.project_id s.projects ≡ ok proj)
      × (compose_capabilities env id d.jti d.minted_at proj ≡ ok e'.capabilities)
      × (e'.brief ≡ e.brief)

same_state-awaiting : (st : State) → same_state st awaiting_review ≡ true → st ≡ awaiting_review
same_state-awaiting queued h = cc
same_state-awaiting running h = cc
same_state-awaiting awaiting_review h = refl
same_state-awaiting completed h = cc
same_state-awaiting failed h = cc
same_state-awaiting (other s) h = cc

refresh_context-keeps :
    (m : Option (String → String → Result String (Option String))) (t : Task) (e : Envelope)
    → ((refresh_context m t e).capabilities ≡ e.capabilities)
      × ((refresh_context m t e).brief ≡ e.brief)
unfolding refresh_context
refresh_context-keeps none t e = (refl, refl)
refresh_context-keeps (some get_context) t e = ground arith

share-Changed :
    (id : Uuid) (u w : Task) (m n : Store)
    → u.id ≡ id
    → Changed u.id w (share u m) n
    → Changed id w m n
share-Changed id u w m n own h j =
    subst (λ x. lookup j n.tasks ≡ (if x == j then some w else lookup j m.tasks)) own
      (ground (arith, h j, lookup-insert u.id j u m.tasks))

module _ {Cluster : Type 0} where
  refresh-IsRefreshed :
      (env : Environment Cluster) (d : Draws) (id : Uuid) (s : Server Cluster) (u : Task)
      → refresh env d id s ≡ ok u
      → (t : Task) × IsRefreshed env d id s t u
  unfolding refresh get_task
  refresh-IsRefreshed env d id s u h = elim (Option-cases (lookup id s.store.tasks)) [
    | inl e ↦ ground arith
    | inr (t, e) ↦ elim (Bool-cases (same_state t.state awaiting_review)) [
      | inr other_state ↦ ground arith
      | inl waits ↦ elim (Option-cases t.envelope) [
        | inl bare ↦ ground arith
        | inr (env_old, has) ↦ elim (Result-cases (get t.project_id s.projects)) [
          | inr (x, gone) ↦ ground arith
          | inl (proj, there) ↦
              elim (Result-cases (compose_capabilities env id d.jti d.minted_at proj)) [
                | inr (x, bad) ↦ ground arith
                | inl (caps, good) ↦
                    let env_new =
                      refresh_context env.mnemosyne t (record env_old { capabilities = caps }) in
                    let is : u ≡ record t { envelope = some env_new } = ground arith in
                    let kept =
                      refresh_context-keeps env.mnemosyne t
                        (record env_old { capabilities = caps }) in
                    (
                      t,
                      record {
                        stored = e;
                        awaiting = same_state-awaiting t.state waits;
                        same = rw is refl;
                        minted = (
                          env_old,
                          env_new,
                          proj,
                          has,
                          ap (λ x. x.envelope) is,
                          there,
                          good ∙ ap ok (sym kept.0),
                          kept.1,
                        );
                      },
                    )
              ]
        ]
      ]
    ]
  ]

  -- What a respawn leaves, by its result.
  abbrev pub Ended :
      Environment Cluster
      → Draws
      → Uuid
      → Server Cluster
      → Server Cluster × Result Failure Task
      → Type 0
  Ended env d id s (v, ok w) =
      let pod = pod_name_of env.encoder id d.run_id in
      (t u : Task) × IsRefreshed env d id s t u
      × Changed id (launched d pod u) s.store v.store
      × (w ≡ returned d pod u)
  Ended env d id s (v, err x) =
      (v ≡ s)
      ⊎ ((t u : Task) × IsRefreshed env d id s t u
          × Changed id (advance failed d.moved_at u) s.store v.store)

  redispatch-Ends :
      (env : Environment Cluster) (d : Draws) (u : Task) (s : Server Cluster)
      → Ends env d u u s.store (dispatch env d u s)
      → Ends env d u u s.store (redispatch env d u s)
  unfolding redispatch
  redispatch-Ends env d u s h = go (dispatch env d u s) h
    where
      go :
          (p : Server Cluster × Result Failure Task)
          → Ends env d u u s.store p
          → Ends env d u u s.store
              (elim p.1 [ err e ↦ (p.0, err e) | ok w ↦ (emit (respawned u.id) p.0, ok w) ])
      go (v, ok w) h = h
      go (v, err x) h = h

  rebase :
      (env : Environment Cluster) (d : Draws) (id : Uuid) (s : Server Cluster) (t u : Task)
      → IsRefreshed env d id s t u
      → u.id ≡ id
      → (p : Server Cluster × Result Failure Task) → Ends env d u u (share u s.store) p
      → Ended env d id s p
  rebase env d id s t u f own (v, err x) h =
      inr (t, u, f, share-Changed id u (advance failed d.moved_at u) s.store v.store own h)
  rebase env d id s t u f own (v, ok w) (h, same) =
      let name = ap (λ i. pod_name_of env.encoder i d.run_id) own in
      (
        t,
        u,
        f,
        subst (λ p. Changed id (launched d p u) s.store v.store) name
            (share-Changed id u (launched d (pod_name_of env.encoder u.id d.run_id) u) s.store
              v.store own h),
        same ∙ ap (λ p. returned d p u) name,
      )

  -- In a store that the writes can reach, a respawn that succeeds takes a task that awaits a review to a run in the
  -- pod that it returns, under capabilities minted anew from the registered project, and sets the start of
  -- the task anew, where the documentation has the first one kept; one that fails leaves the server as it
  -- was, or leaves such a task failed, with its new capabilities. No other task is touched. It is said of
  -- the in-memory store, where the run of a stored task is always recorded.
  pub respawn-Ended :
      (env : Environment Cluster) (d : Draws) (id : Uuid) (s : Server Cluster)
      → IsLinked s.store
      → Ended env d id s (respawn env d id s)
  unfolding respawn
  respawn-Ended env d id s linked = elim (Result-cases (refresh env d id s)) [
    | inr (x, bad) ↦ rw (respawn, bad) (inl refl)
    | inl (u, good) ↦
        let (t, f) = refresh-IsRefreshed env d id s u good in
        let own : u.id ≡ id = ap (λ x. x.id) f.same ∙ linked.ids id t f.stored in
        let waits : IsWaiting u.state = inr (ap (λ x. x.state) f.same ∙ f.awaiting) in
        let v : Server Cluster = record s { store = share u s.store } in
        let here : lookup u.id v.store.tasks ≡ some u =
          ground (arith, eqb_iff u.id u.id, lookup-insert u.id u.id u s.store.tasks) in
        rw (respawn, good)
          (rebase env d id s t u f own (redispatch env d u v)
            (redispatch-Ends env d u v (dispatch-Ends env d u u v here waits)))
  ]
