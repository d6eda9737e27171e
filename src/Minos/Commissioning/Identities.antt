-- ===== src/Minos/Commissioning/Identities.antt =====
-- A commission and the registry of identities (minos/core/commission.go, Commission and dispatch).
use zakros.Base.{string_equality, String, Option, ◌≡◌, refl, ◌∙◌, arith, Result, ok, err}
use zakros.Storage.{Uuid, Task}
use zakros.Envelope.{Communication, Capabilities}
use zakros.Projects.{Project}
use zakros.Minos.{Server, Environment, Failure}
use zakros.Minos.Minting.{compose_capabilities}
use zakros.Minos.Dispatching.{Draws, record_run, spawn, dispatch}
use zakros.Minos.Commissioning.Envelopes.{
  finish, from_caps, from_thread, from_project, from_check, invalid,
}
use zakros.Minos.Commissioning.{
  CommissionRequest, Action, ◌>>=◌, lift, fail_with, check_request, find_project, envelope_of,
  task_of, open_thread, prior_context, insert_commissioned, compose, commission,
}

-- The action writes no identity and no pairing.
abbrev KeepsIdentities : {Cluster A : Type 0} → Action Cluster A → Type 0
KeepsIdentities {Cluster} m = (s : Server Cluster) → (m s).0.identities ≡ s.identities

module _ {Cluster : Type 0} where
  bind-KeepsIdentities :
      {A B : Type 0} (m : Action Cluster A) (f : A → Action Cluster B)
      → KeepsIdentities m
      → ((a : A) → KeepsIdentities (f a))
      → KeepsIdentities (m >>= f)
  bind-KeepsIdentities {A} {B} m f h k s = after (m s) (h s)
    where
      after :
          (r : Server Cluster × Result Failure A)
          → r.0.identities ≡ s.identities
          → (elim r.1 as (λ x. Server Cluster × Result Failure B) [
            | ok a ↦ f a r.0
            | err e ↦ (r.0, err e)
          ]).0.identities
            ≡ s.identities
      after (v, ok a) e = k a v ∙ e
      after (v, err x) e = e

  record_run-KeepsIdentities :
      (d : Draws) (t : Task) (pod : String)
      → KeepsIdentities {Cluster = Cluster} (record_run d t pod)
  unfolding record_run
  record_run-KeepsIdentities d t pod s = ground arith

  dispatch-KeepsIdentities :
      (env : Environment Cluster) (d : Draws) (t : Task) → KeepsIdentities (dispatch env d t)
  unfolding dispatch spawn record_run
  dispatch-KeepsIdentities env d t s = ground arith

  find_project-KeepsIdentities :
      (id : String) → KeepsIdentities {Cluster = Cluster} (find_project id)
  unfolding find_project
  find_project-KeepsIdentities id s = ground arith

  open_thread-KeepsIdentities :
      (env : Environment Cluster) (id : Uuid) (summary : String) (proj : Project)
      → KeepsIdentities (open_thread env id summary proj)
  unfolding open_thread
  open_thread-KeepsIdentities env id summary proj s = ground arith

  prior_context-KeepsIdentities :
      (env : Environment Cluster) (proj : Project) (task_type : String)
      → KeepsIdentities (prior_context env proj task_type)
  unfolding prior_context
  prior_context-KeepsIdentities env proj task_type s = ground arith

  finish-KeepsIdentities :
      (env : Environment Cluster) (d : Draws) (req : CommissionRequest) (proj : Project)
      (comm : Communication) (caps : Capabilities) (context : Option String)
      → KeepsIdentities (finish env d req proj comm caps context)
  finish-KeepsIdentities env d req proj comm caps context =
      bind-KeepsIdentities (fail_with (invalid (envelope_of env d req proj comm caps context)))
        (λ _. lift (ok (task_of d req proj (envelope_of env d req proj comm caps context))))
        (λ s. refl) λ u s. refl

  compose-KeepsIdentities :
      (env : Environment Cluster) (d : Draws) (req : CommissionRequest)
      → KeepsIdentities (compose env d req)
  unfolding compose
  compose-KeepsIdentities env d req =
      bind-KeepsIdentities (fail_with (check_request req)) (from_check env d req) (λ s. refl)
        λ u.
          bind-KeepsIdentities (find_project req.project_id) (from_project env d req)
            (find_project-KeepsIdentities req.project_id)
            λ proj.
              bind-KeepsIdentities (open_thread env d.task_id req.brief.summary proj)
                (from_thread env d req proj)
                (open_thread-KeepsIdentities env d.task_id req.brief.summary proj)
                λ comm.
                  bind-KeepsIdentities
                    (lift (compose_capabilities env d.task_id d.jti d.minted_at proj))
                    (from_caps env d req proj comm) (λ s. refl)
                    λ caps.
                      bind-KeepsIdentities (prior_context env proj req.task_type)
                        (finish env d req proj comm caps)
                        (prior_context-KeepsIdentities env proj req.task_type)
                        (finish-KeepsIdentities env d req proj comm caps)

  pub commission-KeepsIdentities :
      (env : Environment Cluster) (d : Draws) (req : CommissionRequest) (s : Server Cluster)
      → (commission env d req s).0.identities ≡ s.identities
  unfolding commission insert_commissioned
  commission-KeepsIdentities env d req =
      bind-KeepsIdentities (compose env d req)
        (λ t. insert_commissioned d t >>= λ _. dispatch env d t) (compose-KeepsIdentities env d req)
        λ t.
          bind-KeepsIdentities (insert_commissioned d t) (λ _. dispatch env d t) (λ s. refl)
            λ u. dispatch-KeepsIdentities env d t
