-- ===== src/Minos/Narration/OwnThread.antt =====
-- A pod posts to the thread of its own task (minos/core/api.go, handleReportPost behind requirePodAuth).
use zakros.Base.{
  ◌==◌, string_equality, String, Option, none, some, not, ◌||◌, ◌≡◌, ◌⊎◌, inl, inr, refl, sym,
  subst, ap, ◌∙◌, arith, true, false, Bool, same_text_iff, some-eq, Option-cases, Bool-cases,
  Result-cases, ok, err,
}
use zakros.Base.Clock.{Time}
use zakros.Base.Text.{strip_prefix}
use zakros.Storage.{Uuid, Error, not_found, conflict, Task}
use zakros.Storage.Memstore.{get_task}
use zakros.Envelope.{Envelope}
use zakros.Hermes.{Message}
use zakros.Replay.Tokens.{MemReplayStore}
use zakros.Auth.{Claims, Verifier, require}
use zakros.Auth.Admission.{Admits, require-served}
use zakros.Minos.{Server, emit, posted, narrated, narration_failed, narration_posted}
use zakros.Minos.Webhooks.{Reply}
use zakros.Minos.Callbacks.{require_pod_auth}
use zakros.Minos.Callbacks.OwnTask.{IsOf, require_pod_auth-exact}
use zakros.Minos.Narration.{ReportPostRequest, message_of, narrate, handle_report_post}

-- The token of a request is of the task in the path, or no token of it that is admitted is.
own_or_foreign :
    (v : Verifier) (header path : String) (now wall : Time) (replays : Option MemReplayStore)
    → ((c : Claims) × Admits v "task.lifecycle" header now wall replays c × IsOf path c)
      ⊎ ((c : Claims) → Admits v "task.lifecycle" header now wall replays c → ¬ IsOf path c)
own_or_foreign v header path now wall replays =
    elim (Option-cases (require v "task.lifecycle" header now wall replays).served) [
      | inl e ↦ inr λ c a _. ground (arith, served c a, e)
      | inr (c, e) ↦ elim (Bool-cases (has_task (strip_prefix "task:" c.subject))) [
        | inl own ↦
            inl (c, (require-served v "task.lifecycle" header now wall replays c).0 e, owned c own)
        | inr foreign ↦ inr λ c' a of.
            let same : c' ≡ c = some-eq (sym (served c' a) ∙ e) in
            let mine : IsOf path c = subst (IsOf path) same of in
            ground (arith, mine, foreign, same_text_iff path path)
      ]
    ]
  where
    served :
        (c : Claims)
        → Admits v "task.lifecycle" header now wall replays c
        → (require v "task.lifecycle" header now wall replays).served ≡ some c
    served c a = (require-served v "task.lifecycle" header now wall replays c).1 a

    has_task : Option String → Bool
    has_task o = elim o [ none ↦ false | some id ↦ id == path ]

    owned : (c : Claims) → has_task (strip_prefix "task:" c.subject) ≡ true → IsOf path c
    owned c h = elim (Option-cases (strip_prefix "task:" c.subject)) [
      | inl e ↦ ground arith
      | inr (id, e) ↦ e ∙ ap some ((same_text_iff id path).0 (ground arith))
    ]

module _ {Cluster : Type 0} (post : String → String → Message → Option String) where
  -- Nothing is posted, or one message, to the thread of the envelope of the stored task.
  abbrev pub PostsOwn : Uuid → ReportPostRequest → Server Cluster → Server Cluster → Type 0
  PostsOwn id body s v =
      (v ≡ s)
      ⊎ ((v ≡ emit (narration_failed id (message_of body).kind) s)
          ⊎ ((t : Task) × (e : Envelope) × (get_task id s.store ≡ ok t)
              × (t.envelope ≡ some e)
              × (v
                  ≡ emit (narration_posted id (message_of body).kind) (
                      emit
                        (posted e.communication.thread_surface e.communication.thread_ref
                          (narrated (message_of body)))
                        s))))

  narrate-PostsOwn :
      (id : Uuid) (body : ReportPostRequest) (t : Task) (s : Server Cluster)
      → get_task id s.store ≡ ok t
      → PostsOwn id body s (narrate post t id (message_of body) s).0
  unfolding narrate
  narrate-PostsOwn id body t s stored = elim (Option-cases t.envelope) [
    | inl e ↦ inl (ground arith)
    | inr (e, f) ↦ elim (Bool-cases (e.communication.thread_ref == "")) [
      | inl threadless ↦ inl (ground arith)
      | inr threaded ↦
          elim (Option-cases
            (post e.communication.thread_surface e.communication.thread_ref (message_of body))) [
              | inr (why, g) ↦ inr (inl (ground arith))
              | inl g ↦ inr (inr (t, e, stored, f, ground arith))
            ]
    ]
  ]

  handle_report_post-PostsOwn :
      (id : Uuid) (body : ReportPostRequest) (s : Server Cluster)
      → PostsOwn id body s (handle_report_post post (some id) (some body) s).0
  unfolding handle_report_post
  handle_report_post-PostsOwn id body s = elim (Bool-cases (not s.hermes || body.content == "")) [
    | inl refused ↦ inl (ground arith)
    | inr taken ↦ elim (Result-cases (get_task id s.store)) [
      | inr (x, e) ↦ inl (unstored x e)
      | inl (t, e) ↦
          subst (PostsOwn id body s) (sym (ap (λ r. r.0) (taken_by taken t e)))
            (narrate-PostsOwn id body t s e)
    ]
  ]
    where
      unstored :
          (x : Error)
          → get_task id s.store ≡ err x
          → (handle_report_post post (some id) (some body) s).0 ≡ s
      unstored not_found e = ground arith
      unstored conflict e = ground arith

      taken_by :
          (not s.hermes || body.content == "") ≡ false
          → (t : Task) → get_task id s.store ≡ ok t
          → handle_report_post post (some id) (some body) s ≡ narrate post t id (message_of body) s
      taken_by taken t e =
          let wired : not s.hermes ≡ false = ground arith in
          let filled : (body.content == "") ≡ false = ground arith in
          rw (wired, handle_report_post) (rw filled (rw e refl))

  -- A request of a pod to post leaves the server as it was, or its bearer token is admitted for
  -- `task.lifecycle` and of the task in the path; then the failure of the post is reported, or the message is
  -- posted to the thread that the envelope of that task names, and to no other.
  pub pod_posts-own_thread :
      (v : Verifier) (header path : String) (now wall : Time) (replays : Option MemReplayStore)
      (parse : String → Option Uuid) (body : ReportPostRequest) (s : Server Cluster)
      → let w =
          (require_pod_auth v header path now wall replays
            (handle_report_post post (parse path) (some body))
            s).1.0 in
        (w ≡ s)
        ⊎ ((c : Claims) × Admits v "task.lifecycle" header now wall replays c
            × IsOf path c
            × (id : Uuid) × (parse path ≡ some id)
            × PostsOwn id body s w)
  unfolding handle_report_post
  pod_posts-own_thread v header path now wall replays parse body s =
      elim (own_or_foreign v header path now wall replays) [
        | inr foreign ↦
            inl ((require_pod_auth-exact v header path now wall replays next s).1 foreign).0
        | inl (c, a, own) ↦ elim (Option-cases (parse path)) [
          | inl e ↦ inl (
              ap (λ r. r.0)
                ((require_pod_auth-exact v header path now wall replays next s).0 c a own)
              ∙ unnamed e)
          | inr (id, e) ↦ inr (
            c,
            a,
            own,
            id,
            e,
            subst (PostsOwn id body s)
                (ap (λ o. (handle_report_post post o (some body) s).0) (sym e)
                  ∙ sym (
                      ap (λ r. r.0)
                        ((require_pod_auth-exact v header path now wall replays next s).0 c a own)))
                (handle_report_post-PostsOwn id body s),
          )
        ]
      ]
    where
      next : Server Cluster → Server Cluster × Reply
      next = handle_report_post post (parse path) (some body)

      unnamed : parse path ≡ none → (handle_report_post post (parse path) (some body) s).0 ≡ s
      unnamed e = ap (λ o. (handle_report_post post o (some body) s).0) e
