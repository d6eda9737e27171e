-- ===== src/Minos/Deliveries/Once.antt =====
-- A webhook acts once (minos/core/api.go, handleGithubWebhook, over cerberus/verification/github).
use zakros.Base.{
  ℕ, String, List, [], ◌∷◌, Option, none, some, ◌≡◌, refl, sym, ◌∙◌, ap, subst, arith, Result, ok,
  err, inl, inr, ◌==◌, string_equality, All, Option-cases, Result-cases, Bool-cases,
}
use zakros.Base.Maps.{IsMap}
use zakros.Base.Clock.{Time}
use zakros.Base.Text.{Casing}
use zakros.Base.Text.{trim_space}
use zakros.Base.{map, Bool, not, ◌||◌, if◌then◌else◌}
use zakros.Storage.{Uuid, Error, not_found, conflict, Task, completed, failed}
use zakros.Storage.Memstore.{transition_task, find_task_by_pr_url}
use zakros.Base.{◌≢◌}
use zakros.Cerberus.{
  Event as Delivered, Failure as Unverified, Delivery, Verifier, verify, verify_all,
}
use zakros.Cerberus.Deliveries.{redelivery_refused}
use zakros.Replay.Deliveries.{MemStore, Remembered}
use zakros.Minos.{
  Server, Environment, Event, Failure, emit, pr_merged, pr_closed, review_no_task,
  review_wrong_state, respawn_failed, mention_no_task, mention_wrong_state, mention_respawn_failed,
  mention_respawn,
}
use zakros.Minos.Dispatching.{Draws, dispatch, spawn, record_run, builder_input}
use zakros.Dispatch.{PodSpec}
use zakros.Dispatch.Builder.{build_pod_spec}
use zakros.Minos.Respawning.{respawn, redispatch, refresh, share}
use zakros.Minos.Webhooks.{
  PullRequestEvent, Reply, handle_pull_request_event, handle_closed, finalize, post_summary,
}
use zakros.Minos.Deliveries.{
  ReviewEvent, CommentEvent, Decoders, respawn_found, handle_pull_request_review_event,
  handle_mention, handle_issue_comment_event, handle_event, handle_github_webhook,
  answer_unverified,
}

module _ {Cluster : Type 0} where
  -- The replay store and the configuration are as they were.
  abbrev Kept : Server Cluster → Server Cluster → Type 0
  Kept s v = (v.replays ≡ s.replays) × (v.cfg ≡ s.cfg)

  record_run-Kept :
      (d : Draws) (t : Task) (pod : String) (s : Server Cluster) → Kept s (record_run d t pod s).0
  unfolding record_run
  record_run-Kept d t pod s = ground arith

  spawn-Kept :
      (env : Environment Cluster) (d : Draws) (t : Task) (spec : PodSpec) (s : Server Cluster)
      → Kept s (spawn env d t spec s).0
  unfolding spawn
  spawn-Kept env d t spec s = ground (
    arith,
    record_run-Kept d t spec.name
        (record s { cluster = (env.dispatcher.spawn_pod spec s.cluster).0 }),
  )

  dispatch-Kept :
      (env : Environment Cluster) (d : Draws) (t : Task) (s : Server Cluster)
      → Kept s (dispatch env d t s).0
  unfolding dispatch
  dispatch-Kept env d t s =
      elim (Result-cases (build_pod_spec env.encoder env.resolve (builder_input d t s))) [
        | inl (spec, e) ↦ rw (dispatch, e) (spawn-Kept env d t spec s)
        | inr (x, e) ↦ rw (dispatch, e) (refl, refl)
      ]

  redispatch-Kept :
      (env : Environment Cluster) (d : Draws) (t : Task) (s : Server Cluster)
      → Kept s (redispatch env d t s).0
  unfolding redispatch
  redispatch-Kept env d t s = ground (arith, dispatch-Kept env d t s)

  respawn-Kept :
      (env : Environment Cluster) (d : Draws) (id : Uuid) (s : Server Cluster)
      → Kept s (respawn env d id s).0
  unfolding respawn
  respawn-Kept env d id s = elim (Result-cases (refresh env d id s)) [
    | inl (t, e) ↦ rw (respawn, e) (redispatch-Kept env d t (record s { store = share t s.store }))
    | inr (x, e) ↦ rw (respawn, e) (refl, refl)
  ]

  respawn_found-Kept :
      (env : Environment Cluster) (d : Draws) (missing : Event) (wrong : Uuid → Task → Event)
      (refused : Uuid → Failure → Event) (report : Option (Uuid → Event))
      (found : Result Error Task) (s : Server Cluster)
      → Kept s (respawn_found env d missing wrong refused report found s).0
  unfolding respawn_found
  respawn_found-Kept env d missing wrong refused report (err not_found) s = (refl, refl)
  respawn_found-Kept env d missing wrong refused report (err conflict) s = (refl, refl)
  respawn_found-Kept env d missing wrong refused report (ok t) s =
      ground (arith, respawn-Kept env d t.id s)

  review-Kept :
      (env : Environment Cluster) (d : Draws) (body : Option ReviewEvent) (s : Server Cluster)
      → Kept s (handle_pull_request_review_event env d body s).0
  unfolding handle_pull_request_review_event
  review-Kept env d none s = (refl, refl)
  review-Kept env d (some ev) s =
      elim (Bool-cases (not (ev.action == "submitted") || not (ev.state == "changes_requested"))) [
        | inl e ↦ rw (handle_pull_request_review_event, e) (refl, refl)
        | inr e ↦
            rw (handle_pull_request_review_event, e)
              (respawn_found-Kept env d (review_no_task ev.html_url)
                (λ id t. review_wrong_state id t.state) respawn_failed none
                (find_task_by_pr_url ev.html_url s.store) s)
      ]

  mention-Kept :
      (env : Environment Cluster) (casing : Casing) (d : Draws) (handle : String)
      (ev : CommentEvent) (url : String) (s : Server Cluster)
      → Kept s (handle_mention env casing d handle ev url s).0
  unfolding handle_mention
  mention-Kept env casing d handle ev url s = ground (
    arith,
    respawn_found-Kept env d (mention_no_task url) (λ id t. mention_wrong_state id t.state)
        mention_respawn_failed (some (λ id. mention_respawn id ev.login))
        (find_task_by_pr_url url s.store) s,
  )

  comment-Kept :
      (env : Environment Cluster) (casing : Casing) (d : Draws) (body : Option CommentEvent)
      (s : Server Cluster)
      → Kept s (handle_issue_comment_event env casing d body s).0
  unfolding handle_issue_comment_event
  comment-Kept env casing d none s = ground arith
  comment-Kept env casing d (some ev) s = elim (Option-cases ev.pull_request) [
    | inl e ↦ ground arith
    | inr (url, e) ↦
        ground (
          arith,
          mention-Kept env casing d (trim_space s.cfg.project.agent_mention_handle) ev url s,
        )
  ]

  post_summary-Kept :
      (t : Task) (merged : Bool) (url : String) (refusal : Option String) (s : Server Cluster)
      → Kept s (post_summary t merged url refusal s)
  unfolding post_summary
  post_summary-Kept t merged url refusal s = ground arith

  finalize-Kept :
      (t : Task) (merged : Bool) (url : String) (wall : Time) (refusal : Option String)
      (s : Server Cluster)
      → Kept s (finalize t merged url wall refusal s).0
  unfolding finalize
  finalize-Kept t merged url wall refusal s =
      let (m, e) = transition_task t.id (if merged then completed else failed) wall s.store in
      ground (
        arith,
        post_summary-Kept t merged url refusal (
            emit (if merged then pr_merged t.id url else pr_closed t.id url)
              (record s { store = m })),
      )

  closed-Kept :
      (found : Result Error Task) (merged : Bool) (url : String) (wall : Time)
      (refusal : Option String) (s : Server Cluster)
      → Kept s (handle_closed found merged url wall refusal s).0
  unfolding handle_closed
  closed-Kept (err not_found) merged url wall refusal s = (refl, refl)
  closed-Kept (err conflict) merged url wall refusal s = (refl, refl)
  closed-Kept (ok t) merged url wall refusal s =
      ground (arith, finalize-Kept t merged url wall refusal s)

  pull_request-Kept :
      (body : Option PullRequestEvent) (wall : Time) (refusal : Option String) (s : Server Cluster)
      → Kept s (handle_pull_request_event body wall refusal s).0
  unfolding handle_pull_request_event
  pull_request-Kept none wall refusal s = (refl, refl)
  pull_request-Kept (some ev) wall refusal s = ground (
    arith,
    closed-Kept (find_task_by_pr_url ev.html_url s.store) ev.merged ev.html_url wall refusal s,
  )

  event-Kept :
      (env : Environment Cluster) (casing : Casing) (c : Decoders) (d : Draws)
      (refusal : Option String) (ev : Delivered) (s : Server Cluster)
      → Kept s (handle_event env casing c d refusal ev s).0
  unfolding handle_event
  event-Kept env casing c d refusal ev s = ground (
    arith,
    pull_request-Kept (c.pull_request ev.body) d.moved_at refusal s,
    review-Kept env d (c.review ev.body) s,
    comment-Kept env casing d (c.comment ev.body) s,
  )

-- A request to the webhook route, with what handling it draws and meets.
pub record Hook : Type 0 where
  pub delivery : Delivery
  pub now : Time
  pub draws : Draws
  pub refusal : Option String

abbrev pub request : Hook → Delivery × Time
request h = (h.delivery, h.now)

module _ {Cluster : Type 0} (mac : String → String → List ℕ) (env : Environment Cluster)
    (casing : Casing) (c : Decoders) where
  abbrev pub handle : Hook → Server Cluster → Server Cluster × Reply
  handle h s = handle_github_webhook mac env casing c h.draws h.refusal h.delivery h.now s

  unfoldable pub handle_all : List Hook → Server Cluster → Server Cluster
  handle_all [] s = s
  handle_all (h ∷ hs) s = handle_all hs (handle h s).0

  abbrev pub verifier_of : String → Server Cluster → Verifier
  verifier_of secret s = record { secret = secret; store = s.replays }

  -- The replay store after a request is the verifier's, and the configuration stays.
  handle-replays :
      (secret : String) (h : Hook) (s : Server Cluster)
      → env.resolve s.cfg.github_webhook_secret_ref ≡ some secret
      → ((handle h s).0.replays ≡ (verify mac (verifier_of secret s) h.delivery h.now).0)
        × ((handle h s).0.cfg ≡ s.cfg)
  unfolding handle_github_webhook
  handle-replays secret h s e =
      let v = verify mac (verifier_of secret s) h.delivery h.now in
      elim (Result-cases v.1) [
        | inr (x, bad) ↦ rw (e, handle_github_webhook) (rw bad (refl, refl))
        | inl (ev, good) ↦
            rw (e, handle_github_webhook)
              (rw good (event-Kept env casing c h.draws h.refusal ev (record s { replays = v.0 })))
      ]

  handle_all-replays :
      (secret : String) (hs : List Hook) (s : Server Cluster) (o : Option MemStore)
      → s.replays ≡ o
      → env.resolve s.cfg.github_webhook_secret_ref ≡ some secret
      → ((handle_all hs s).replays
          ≡ (verify_all mac (map request hs) (record { secret = secret; store = o })).store)
        × ((handle_all hs s).cfg ≡ s.cfg)
  unfolding handle_all verify_all
  handle_all-replays secret [] s o same e = (same, refl)
  handle_all-replays secret (h ∷ hs) s o same e =
      let (r, k) = handle-replays secret h s e in
      let (r', k') =
        handle_all-replays secret hs (handle h s).0
          (verify mac (record { secret = secret; store = o }) h.delivery h.now).0
          (r
            ∙ ap (λ x. (verify mac (record { secret = secret; store = x }) h.delivery h.now).0)
                same)
          (ap (λ cfg. env.resolve cfg.github_webhook_secret_ref) k ∙ e) in
      (r', k' ∙ k)

  verify_all-secret :
      (rs : List (Delivery × Time)) (v : Verifier) → (verify_all mac rs v).secret ≡ v.secret
  unfolding verify_all
  verify_all-secret [] v = refl
  verify_all-secret ((r, now) ∷ rs) v =
      verify_all-secret rs (record v { store = (verify mac v r now).0 })

  handle-refused :
      (secret : String) (h : Hook) (s : Server Cluster)
      → env.resolve s.cfg.github_webhook_secret_ref ≡ some secret
      → ((ev : Delivered) → (verify mac (verifier_of secret s) h.delivery h.now).1 ≢ ok ev)
      → (x : Unverified) × (handle h s ≡ (
        record s { replays = (verify mac (verifier_of secret s) h.delivery h.now).0 },
        answer_unverified x,
      ))
  unfolding handle_github_webhook
  handle-refused secret h s e out =
      elim (Result-cases (verify mac (verifier_of secret s) h.delivery h.now).1) [
        | inl (ev, good) ↦ absurd (out ev good)
        | inr (x, bad) ↦ (x, rw (e, handle_github_webhook) (rw bad refl))
      ]

  -- Once a webhook delivery was let in, a request with its identifier, within the window (ever, if the window
  -- is not positive) and whatever other requests to the route come in between, changes nothing but the replay
  -- store: no task is moved or respawned, nothing is posted or reported, and it is answered as a
  -- duplicate or an unverified request.
  pub redelivery_inert :
      (secret : String) (first again : Hook) (between : List Hook) (ev : Delivered) (m : MemStore)
      (s : Server Cluster)
      → env.resolve s.cfg.github_webhook_secret_ref ≡ some secret
      → s.replays ≡ some m
      → IsMap m.entries
      → (verify mac (verifier_of secret s) first.delivery first.now).1 ≡ ok ev
      → All (λ r. Remembered m.window first.now r.1) (map request between)
      → Remembered m.window first.now again.now
      → again.delivery.delivery ≡ first.delivery.delivery
      → let v = handle_all between (handle first s).0 in
        (x : Unverified) × (handle again v ≡ (
          record v { replays = (verify mac (verifier_of secret v) again.delivery again.now).0 },
          answer_unverified x,
        ))
  redelivery_inert secret first again between ev m s e held d let_in remembered late same =
      let (r, k) = handle-replays secret first s e in
      let o = (verify mac (verifier_of secret s) first.delivery first.now).0 in
      let (r', k') =
        handle_all-replays secret between (handle first s).0 o r
          (ap (λ cfg. env.resolve cfg.github_webhook_secret_ref) k ∙ e) in
      let v = handle_all between (handle first s).0 in
      let w = verify_all mac (map request between) (record { secret = secret; store = o }) in
      let is : w ≡ verifier_of secret v = λ i. record {
        secret = verify_all-secret (map request between) (record { secret = secret; store = o }) i;
        store = sym r' i;
      } in
      handle-refused secret again v
        (ap (λ cfg. env.resolve cfg.github_webhook_secret_ref) (k' ∙ k) ∙ e)
        (λ ev'.
          subst (λ x. (verify mac x again.delivery again.now).1 ≢ ok ev') is
            (redelivery_refused mac (verifier_of secret s) first.delivery again.delivery
              (map request between) first.now again.now ev m held d let_in remembered late same
              ev'))
