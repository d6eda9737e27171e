-- ===== src/Minos/Callbacks/OwnTask.antt =====
-- A pod acts on its own task only (minos/core/api.go, requirePodAuth).
use zakros.Base.{
  String, Option, none, some, ◌==◌, string_equality, same_text_iff, ◌≡◌, ◌⊎◌, inl, inr, refl, sym,
  ◌∙◌, ap, subst, arith, Option-cases, Bool-cases, true,
}
use zakros.Base.Clock.{Time}
use zakros.Base.Text.{strip_prefix}
use zakros.Replay.Tokens.{MemReplayStore}
use zakros.Auth.{
  Claims, Verifier, AuditEvent, denied, allowed, status_of, require, Refusal, malformed_bearer,
  invalid_signature, audience_mismatch, expired, scope_denied, replay,
}
use zakros.Auth.Admission.{Admits, require-served, require-event, is_denial_of}
use zakros.Minos.{Server}
use zakros.Minos.Webhooks.{Reply, failure}
use zakros.Minos.Callbacks.{Handler, denial_status, check_subject, require_pod_auth}

-- The token is of the task in the path.
abbrev pub IsOf : String → Claims → Type 0
IsOf path c = strip_prefix "task:" c.subject ≡ some path

abbrev pub IsRefusal : Reply → Type 0
IsRefusal r = (r ≡ failure 401) ⊎ (r ≡ failure 403)

status_of-IsRefusal : (why : Refusal) → IsRefusal (failure (status_of why))
unfolding status_of
status_of-IsRefusal malformed_bearer = inl refl
status_of-IsRefusal invalid_signature = inl refl
status_of-IsRefusal audience_mismatch = inr refl
status_of-IsRefusal expired = inl refl
status_of-IsRefusal scope_denied = inr refl
status_of-IsRefusal replay = inl refl

denial_status-IsRefusal :
    (scope : String) (ev : AuditEvent)
    → is_denial_of scope ev ≡ true
    → IsRefusal (failure (denial_status ev))
unfolding denial_status
denial_status-IsRefusal scope (denied why s) e = status_of-IsRefusal why
denial_status-IsRefusal scope (allowed s c) e = cc

module _ {Cluster : Type 0} where
  check_subject-own :
      (c : Claims) (path : String) (next : Handler Cluster) (s : Server Cluster)
      → IsOf path c
      → check_subject c path next s ≡ next s
  unfolding check_subject
  check_subject-own c path next s own = ground (arith, same_text_iff path path)

  check_subject-other :
      (c : Claims) (path : String) (next : Handler Cluster) (s : Server Cluster)
      → ¬ IsOf path c
      → ((check_subject c path next s).0 ≡ s) × IsRefusal (check_subject c path next s).1
  unfolding check_subject
  check_subject-other c path next s other = elim (Option-cases (strip_prefix "task:" c.subject)) [
    | inl e ↦ rw (e, check_subject) (refl, inl refl)
    | inr (id, e) ↦ elim (Bool-cases (id == path)) [
      | inl same ↦ absurd (other (e ∙ ap some ((same_text_iff id path).0 same)))
      | inr apart ↦ rw (e, check_subject) (rw apart (refl, inr refl))
    ]
  ]

  -- A handler behind the gate runs exactly if the bearer token is admitted for `task.lifecycle` and is of
  -- the task in the path: its answer is then the answer of the call, and otherwise the server is left as
  -- it was and the answer is a 401 or a 403.
  pub require_pod_auth-exact :
      (v : Verifier) (header path : String) (now wall : Time) (replays : Option MemReplayStore)
      (next : Handler Cluster) (s : Server Cluster)
      → let r = (require_pod_auth v header path now wall replays next s).1 in
        ((c : Claims)
          → Admits v "task.lifecycle" header now wall replays c
          → IsOf path c
          → r ≡ next s)
        × (((c : Claims) → Admits v "task.lifecycle" header now wall replays c → ¬ IsOf path c)
            → (r.0 ≡ s) × IsRefusal r.1)
  unfolding require_pod_auth
  require_pod_auth-exact v header path now wall replays next s = (run, refuse)
    where
      answer : Option Claims → Server Cluster × Reply
      answer o = elim o [
        | none ↦
            (s, failure (denial_status (require v "task.lifecycle" header now wall replays).event))
        | some c ↦ check_subject c path next s
      ]

      run :
          (c : Claims)
          → Admits v "task.lifecycle" header now wall replays c
          → IsOf path c
          → answer (require v "task.lifecycle" header now wall replays).served ≡ next s
      run c a own =
          ap answer ((require-served v "task.lifecycle" header now wall replays c).1 a)
          ∙ check_subject-own c path next s own

      refuse :
          ((c : Claims) → Admits v "task.lifecycle" header now wall replays c → ¬ IsOf path c)
          → let r = answer (require v "task.lifecycle" header now wall replays).served in
            (r.0 ≡ s) × IsRefusal r.1
      refuse foreign =
          elim (Option-cases (require v "task.lifecycle" header now wall replays).served) [
            | inl e ↦
                subst (λ o. ((answer o).0 ≡ s) × IsRefusal (answer o).1) (sym e)
                  (
                    refl,
                    denial_status-IsRefusal "task.lifecycle" _
                        ((require-event v "task.lifecycle" header now wall replays).1 e),
                  )
            | inr (c, e) ↦
                subst (λ o. ((answer o).0 ≡ s) × IsRefusal (answer o).1) (sym e)
                  (check_subject-other c path next s
                    (foreign c ((require-served v "task.lifecycle" header now wall replays c).0 e)))
          ]
