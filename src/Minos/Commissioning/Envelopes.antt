-- ===== src/Minos/Commissioning/Envelopes.antt =====
-- What Commission composes before it writes anything (minos/core/commission.go, Commission).
use zakros.Base.{
  String, Option, none, some, ◌≡◌, refl, ◌∙◌, arith, Result, ok, err, nat_equality, string_equality,
  ◌==◌, if◌then◌else◌, Bool-cases, not, ◌||◌, ◌<>◌, inl, inr,
}
use zakros.Base.Text.{first}
use zakros.Hermes.Broker.{Error, no_plugin}
use zakros.Envelope.{Envelope, Communication, Capabilities, validate}
use zakros.Storage.{Task}
use zakros.Projects.{Project, Error as ProjectError, get}
use zakros.Minos.{
  Server, Environment, Failure, invalid_envelope, unknown_project, no_thread, emit,
  hermes_no_plugin,
}
use zakros.Minos.Minting.{compose_capabilities}
use zakros.Minos.Dispatching.{Draws}
use zakros.Minos.Commissioning.Contents.{
  IsFound, IsBlockOf, IsComposed, envelope_of-IsEnclosed, task_of-IsComposed,
}
use zakros.Minos.Commissioning.{
  CommissionRequest, Action, ◌>>=◌, fail_with, lift, find_project, open_thread, prior_context,
  envelope_of, task_of, compose, check_request,
}

module _ {Cluster : Type 0} where
  prior_context-store :
      (env : Environment Cluster) (proj : Project) (task_type : String) (s : Server Cluster)
      → (prior_context env proj task_type s).0.store ≡ s.store
  unfolding prior_context
  prior_context-store env proj task_type s = ground arith

  -- The action left the store alone, and its result satisfies `P`.
  abbrev pub Keeps :
      {A : Type 0} → (A → Type 0) → Server Cluster → Server Cluster × Result Failure A → Type 0
  Keeps P s (v, ok a) = (v.store ≡ s.store) × P a
  Keeps P s (v, err e) = v.store ≡ s.store

  rebase :
      {A : Type 0} (P : A → Type 0) (s v : Server Cluster) (r : Server Cluster × Result Failure A)
      → v.store ≡ s.store
      → Keeps P v r
      → Keeps P s r
  rebase P s v (w, ok a) e (k, p) = (k ∙ e, p)
  rebase P s v (w, err x) e k = k ∙ e

  >>=-Keeps :
      {A B : Type 0} (P : A → Type 0) (Q : B → Type 0) (m : Action Cluster A)
      (f : A → Action Cluster B) (s : Server Cluster)
      → Keeps P s (m s)
      → ((a : A) (v : Server Cluster) → P a → Keeps Q v (f a v))
      → Keeps Q s ((m >>= f) s)
  >>=-Keeps {A} P Q m f s h k = go (m s) h
    where
      go :
          (r : Server Cluster × Result Failure A)
          → Keeps P s r
          → Keeps Q s (elim r.1 [ ok a ↦ f a r.0 | err e ↦ (r.0, err e) ])
      go (v, ok a) (e, p) = rebase Q s v (f a v) e (k a v p)
      go (v, err x) e = e

  Keeps-any :
      {A : Type 0} (s : Server Cluster) (r : Server Cluster × Result Failure A)
      → r.0.store ≡ s.store
      → Keeps (λ a. Unit {0}) s r
  Keeps-any s (v, ok a) e = (e, tt)
  Keeps-any s (v, err x) e = e

  lift-Keeps :
      {A : Type 0} (r : Result Failure A) (s : Server Cluster) → Keeps (λ a. r ≡ ok a) s (lift r s)
  lift-Keeps (ok a) s = (refl, refl)
  lift-Keeps (err e) s = refl

  find_project-Keeps :
      (id : String) (s : Server Cluster) → Keeps (IsFound s id) s (find_project id s)
  unfolding find_project
  find_project-Keeps id s = go (get (if id == "" then s.cfg.project.id else id) s.projects) refl
    where
      q : Result ProjectError Project
      q = get (if id == "" then s.cfg.project.id else id) s.projects

      go :
          (r : Result ProjectError Project)
          → q ≡ r
          → Keeps (IsFound s id) s (elim r [
            | err e ↦ (s, err (unknown_project (if id == "" then s.cfg.project.id else id)))
            | ok p ↦ (s, ok p)
          ])
      go (ok p) e = (refl, e)
      go (err x) e = refl

  open_thread-Keeps :
      (env : Environment Cluster) (id : _) (summary : String) (proj : Project) (s : Server Cluster)
      → Keeps (IsBlockOf proj) s (open_thread env id summary proj s)
  unfolding open_thread
  open_thread-Keeps env id summary proj s =
      elim (Bool-cases (not s.hermes || proj.communication.thread_surface == "")) [
        | inl skipped ↦ rw skipped (refl, refl)
        | inr opened ↦ rw opened (
            go (
              env.create_thread proj.communication.thread_surface (record {
                parent = proj.thread_parent;
                title = "task-" <> first 8 (env.encoder.uuid_text id);
                opener = "Task commissioned: " <> summary;
              })))
      ]
    where
      go :
          (r : Result Error String)
          → Keeps (IsBlockOf proj) s (elim r [
            | ok ref ↦ (s, ok (record proj.communication { thread_ref = ref }))
            | err no_plugin ↦ (
              emit (hermes_no_plugin proj.communication.thread_surface id) s,
              ok proj.communication,
            )
            | err e ↦ (s, err (no_thread e))
          ])
      go (ok ref) = (refl, refl)
      go (err e) = ground arith

abbrev pub invalid : Envelope → Option Failure
invalid e = elim (validate (some e)) [ none ↦ none | some x ↦ some (invalid_envelope x) ]

invalid-none : (e : Envelope) → invalid e ≡ none → validate (some e) ≡ none
invalid-none e h = ground arith

module _ {Cluster : Type 0} where
  -- The parts of `compose`, last one first.
  abbrev pub finish :
      Environment Cluster
      → Draws
      → CommissionRequest
      → Project
      → Communication
      → Capabilities
      → Option String
      → Action Cluster Task
  finish env d req proj comm caps context =
      let e = envelope_of env d req proj comm caps context in
      fail_with (invalid e) >>= λ _. lift (ok (task_of d req proj e))

  abbrev pub from_caps :
      Environment Cluster
      → Draws
      → CommissionRequest
      → Project
      → Communication
      → Capabilities
      → Action Cluster Task
  from_caps env d req proj comm caps =
      prior_context env proj req.task_type >>= finish env d req proj comm caps

  abbrev pub from_thread :
      Environment Cluster
      → Draws
      → CommissionRequest
      → Project
      → Communication
      → Action Cluster Task
  from_thread env d req proj comm =
      lift (compose_capabilities env d.task_id d.jti d.minted_at proj)
      >>= from_caps env d req proj comm

  abbrev pub from_project :
      Environment Cluster → Draws → CommissionRequest → Project → Action Cluster Task
  from_project env d req proj =
      open_thread env d.task_id req.brief.summary proj >>= from_thread env d req proj

  abbrev pub from_check :
      Environment Cluster → Draws → CommissionRequest → Unit {0} → Action Cluster Task
  from_check env d req _ = find_project req.project_id >>= from_project env d req

  -- A step that leaves the store alone, whatever it returns, and then `f`.
  pass-Keeps :
      {A B : Type 0} (Q : B → Type 0) (m : Action Cluster A) (f : A → Action Cluster B)
      (s : Server Cluster)
      → (m s).0.store ≡ s.store
      → ((a : A) (v : Server Cluster) → Keeps Q v (f a v))
      → Keeps Q s ((m >>= f) s)
  pass-Keeps Q m f s h k = >>=-Keeps (λ a. Unit {0}) Q m f s (Keeps-any s (m s) h) (λ a v _. k a v)

  -- A check that leaves the server as it is, and then `f`.
  check-Keeps :
      {B : Type 0} (Q : B → Type 0) (o : Option Failure) (f : Unit {0} → Action Cluster B)
      (s : Server Cluster)
      → (o ≡ none → Keeps Q s (f tt s))
      → Keeps Q s ((fail_with o >>= f) s)
  check-Keeps Q none f s k = k refl
  check-Keeps Q (some e) f s k = refl

  module _ (env : Environment Cluster) (d : Draws) (req : CommissionRequest) (s : Server Cluster)
      (passed : check_request req ≡ none) where
    abbrev Q : Task → Type 0
    Q = IsComposed env d req s

    from_caps-Keeps :
        (proj : Project) (comm : Communication) (caps : Capabilities) (v : Server Cluster)
        → IsFound s req.project_id proj
        → IsBlockOf proj comm
        → compose_capabilities env d.task_id d.jti d.minted_at proj ≡ ok caps
        → Keeps Q v (from_caps env d req proj comm caps v)
    from_caps-Keeps proj comm caps v found block minted =
        pass-Keeps Q (prior_context env proj req.task_type) (finish env d req proj comm caps) v
          (prior_context-store env proj req.task_type v)
          λ context u.
            let e = envelope_of env d req proj comm caps context in
            check-Keeps Q (invalid e) (λ _. lift (ok (task_of d req proj e))) u
              λ valid. (
                refl,
                task_of-IsComposed env d req s proj e passed found (
                    envelope_of-IsEnclosed env d req proj comm caps context block minted
                      (invalid-none e valid)),
              )

    from_project-Keeps :
        (proj : Project) (v : Server Cluster)
        → IsFound s req.project_id proj
        → Keeps Q v (from_project env d req proj v)
    from_project-Keeps proj v found =
        >>=-Keeps (IsBlockOf proj) Q (open_thread env d.task_id req.brief.summary proj)
          (from_thread env d req proj) v (open_thread-Keeps env d.task_id req.brief.summary proj v)
          λ comm u block.
            >>=-Keeps (λ caps. compose_capabilities env d.task_id d.jti d.minted_at proj ≡ ok caps)
              Q (lift (compose_capabilities env d.task_id d.jti d.minted_at proj))
              (from_caps env d req proj comm) u
              (lift-Keeps (compose_capabilities env d.task_id d.jti d.minted_at proj) u)
              λ caps w minted. from_caps-Keeps proj comm caps w found block minted

  pub compose-Keeps :
      (env : Environment Cluster) (d : Draws) (req : CommissionRequest) (s : Server Cluster)
      → Keeps (IsComposed env d req s) s (compose env d req s)
  unfolding compose
  compose-Keeps env d req s =
      check-Keeps (IsComposed env d req s) (check_request req) (from_check env d req) s λ passed.
        >>=-Keeps (IsFound s req.project_id) (IsComposed env d req s) (find_project req.project_id)
          (from_project env d req) s (find_project-Keeps req.project_id s)
          λ proj v found. from_project-Keeps env d req s passed proj v found
