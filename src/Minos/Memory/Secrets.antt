-- ===== src/Minos/Memory/Secrets.antt =====
-- No secret of a pod stays in the body of its run record (minos/core/api.go).
use zakros.Base.{
  string_equality, String, List, [], ◌∷◌, ◌++◌, some, false, ◌≡◌, ◌≢◌, ◌⊎◌, inl, inr, refl, sym,
  subst, arith, ok, if◌then◌else◌, ◌≤◌, Has, Bool-cases, Option-cases, same_text_iff, ◌==◌,
}
use zakros.Base.Clock.{Time}
use zakros.Base.Text.{contains_text, text_length}
use zakros.Storage.{Uuid, Task}
use zakros.Storage.Memstore.{get_task}
use zakros.Envelope.{Envelope, InjectedCredential}
use zakros.Mnemosyne.{RunRecord, RunStore, store_run, recorded}
use zakros.Mnemosyne.Sanitizer.Redaction.{IsRedactable, sanitize-removes}
use zakros.Minos.{Environment, Server}
use zakros.Minos.Webhooks.{status}
use zakros.Minos.Memory.{
  ReportMemoryRequest, resolved, collect_known_secrets, run_record, handle_report_memory,
}

Has-append_left {ℓ} : {A : Type ℓ} {x : A} {xs : List A} (ys : List A) → Has x xs → Has x (xs ++ ys)
Has-append_left ys Has.here = Has.here
Has-append_left ys (Has.there m) = Has.there (Has-append_left ys m)

Has-append_right {ℓ} :
    {A : Type ℓ} {x : A} (xs : List A) {ys : List A} → Has x ys → Has x (xs ++ ys)
Has-append_right [] m = m
Has-append_right (x ∷ xs) m = Has.there (Has-append_right xs m)

not_empty : (v : String) → IsRedactable v → v ≢ ""
unfolding text_length
not_empty v r e =
    let long : 4 ≤ text_length "" = subst (λ w. 4 ≤ text_length w) e r.long in absurd (omega arith)

module _ {Cluster : Type 0} (env : Environment Cluster) where
  -- The secret provider resolves a credential that the envelope injects to the value.
  abbrev IsInjected : Envelope → String → Type 0
  IsInjected e v =
      (ic : InjectedCredential) × Has ic e.capabilities.injected_credentials
      × (ic.credentials_ref ≢ "")
      × (env.resolve ic.credentials_ref ≡ some v)

  resolved-own :
      (ic : InjectedCredential) (ics : List InjectedCredential) (v : String)
      → ic.credentials_ref ≢ ""
      → env.resolve ic.credentials_ref ≡ some v
      → v ≢ ""
      → resolved env (ic ∷ ics) ≡ v ∷ resolved env ics
  unfolding resolved
  resolved-own ic ics v named e filled =
      ground (arith, same_text_iff ic.credentials_ref "", same_text_iff v "")

  resolved-cases :
      (ic : InjectedCredential) (ics : List InjectedCredential)
      → (resolved env (ic ∷ ics) ≡ resolved env ics)
        ⊎ ((w : String) × (resolved env (ic ∷ ics) ≡ w ∷ resolved env ics))
  unfolding resolved
  resolved-cases ic ics = elim (Bool-cases (ic.credentials_ref == "")) [
    | inl e ↦ inl (ground arith)
    | inr e ↦ elim (Option-cases (env.resolve ic.credentials_ref)) [
      | inl f ↦ inl (ground arith)
      | inr (w, f) ↦ elim (Bool-cases (w == "")) [
        | inl g ↦ inl (ground arith)
        | inr g ↦ inr (w, ground arith)
      ]
    ]
  ]

  resolved-Has :
      {ic : InjectedCredential} {ics : List InjectedCredential} (v : String)
      → Has ic ics
      → ic.credentials_ref ≢ ""
      → env.resolve ic.credentials_ref ≡ some v
      → v ≢ ""
      → Has v (resolved env ics)
  resolved-Has {ic} v (Has.here {ys}) named e filled =
      subst (Has v) (sym (resolved-own ic ys v named e filled)) Has.here
  resolved-Has v (Has.there {y} {ys} m) named e filled =
      let rest = resolved-Has v m named e filled in
      elim (resolved-cases y ys) [
        | inl f ↦ subst (Has v) (sym f) rest
        | inr (w, f) ↦ subst (Has v) (sym f) (Has.there rest)
      ]

  secrets-Has :
      (t : Task) (e : Envelope) (v : String)
      → t.envelope ≡ some e
      → (v ≡ e.capabilities.mcp_auth_token) ⊎ IsInjected e v
      → v ≢ ""
      → Has v (collect_known_secrets env t)
  unfolding collect_known_secrets
  secrets-Has t e v enveloped (inl same) filled =
      let tok : String = e.capabilities.mcp_auth_token in
      let kept : (if tok == "" then [] else tok ∷ []) ≡ tok ∷ [] =
        ground (arith, same_text_iff e.capabilities.mcp_auth_token "") in
      rw (enveloped, collect_known_secrets)
        (subst (λ xs. Has v (resolved env e.capabilities.injected_credentials ++ xs)) (sym kept)
          (Has-append_right (resolved env e.capabilities.injected_credentials)
            (subst (λ w. Has v (w ∷ [])) same Has.here)))
  secrets-Has t e v enveloped (inr (ic, m, named, f)) filled =
      rw (enveloped, collect_known_secrets) (Has-append_left _ (resolved-Has v m named f filled))

  -- A report of a run for a stored task with an envelope adds one record to the store of runs, of that task and its
  -- project, and leaves the tasks as they were; neither a value that the secret provider has for a credential that
  -- the envelope injects, nor its bearer token, occurs in the body of the record, if the value has four
  -- bytes or more, no < and no >, and is no part of the word redacted.
  pub report_memory-hides :
      (id : Uuid) (body : ReportMemoryRequest) (fresh : Uuid) (wall : Time) (s : Server Cluster)
      (runs : RunStore) (t : Task) (e : Envelope) (v : String)
      → get_task id s.store ≡ ok t
      → t.envelope ≡ some e
      → (v ≡ e.capabilities.mcp_auth_token) ⊎ IsInjected e v
      → IsRedactable v
      → let out = handle_report_memory env (some id) (some body) fresh wall s (some runs) in
        (r : RunRecord) × (out.0 ≡ some (record runs { records = runs.records ++ r ∷ [] }))
        × (r.task_id ≡ id)
        × (r.project_id ≡ t.project_id)
        × (contains_text v r.body ≡ false)
        × (out.1.0.store ≡ s.store)
        × (out.1.1 ≡ status "ok")
  unfolding handle_report_memory store_run run_record
  report_memory-hides id body fresh wall s runs t e v stored enveloped secret r =
      rw (stored, handle_report_memory)
        (
          recorded fresh wall (run_record env id t body),
          refl,
          refl,
          refl,
          sanitize-removes body.body _ v r (secrets-Has t e v enveloped secret (not_empty v r)),
          refl,
          refl,
        )
