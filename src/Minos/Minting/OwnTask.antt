-- ===== src/Minos/Minting/OwnTask.antt =====
-- A minted token at the gate of the pod routes (minos/core/commission.go, composeCapabilities, and
-- minos/core/api.go, requirePodAuth).
use zakros.Base.{
  ◌+◌, ◌*◌, ◌≤◌, arith, string_equality, String, List, [], ◌∷◌, ◌++◌, none, some, true, ◌≡◌, ◌≢◌,
  inl, inr, refl, sym, ◌∙◌, ap, subst, some-eq, Has, here, there,
}
use zakros.Base.Clock.{Time, hour}
use zakros.Base.Text.{strip_prefix, strip_prefix-append}
use zakros.Envelope.{McpEndpoint, HecateCredential}
use zakros.Storage.{Uuid}
use zakros.Projects.{Project}
use zakros.Auth.{
  Verifier, Claims, whole_seconds, as_signed, has_audience, has_scope, bearer_from_header,
}
use zakros.Auth.Admission.{Admits}
use zakros.Minos.{Server, Environment}
use zakros.Minos.Minting.{add_audience, base_audience, claims_of}
use zakros.Minos.Minting.Scopes.{claims_of-Grants, Has-listed}
use zakros.Minos.Callbacks.{Handler, require_pod_auth}
use zakros.Minos.Callbacks.OwnTask.{IsOf, IsRefusal, require_pod_auth-exact}

Has-snoc : {x : String} (y : String) {xs : List String} → Has x xs → Has x (xs ++ y ∷ [])
Has-snoc y here = here
Has-snoc y (there m) = there (Has-snoc y m)

add_audience-Has :
    (x : String) (eps : List McpEndpoint) (names : List String)
    → Has x names
    → Has x (add_audience eps names)
unfolding add_audience
add_audience-Has x [] names m = m
add_audience-Has x (ep ∷ eps) names m =
    add_audience-Has x eps (names ++ ep.name ∷ []) (Has-snoc ep.name m)

base-Has : (hcs : List HecateCredential) → Has "minos" (base_audience hcs)
base-Has [] = here
base-Has (hc ∷ hcs) = here

module _ {Cluster : Type 0} (env : Environment Cluster) (task_id : Uuid) (jti : String)
    (minted : Time) (proj : Project) where
  abbrev claims : Claims
  claims = as_signed (claims_of env task_id jti minted proj)

  claims-IsOf : IsOf (env.encoder.uuid_text task_id) claims
  unfolding claims_of
  claims-IsOf = strip_prefix-append "task:" (env.encoder.uuid_text task_id)

  claims-addressed : has_audience "minos" (some claims) ≡ true
  unfolding has_audience claims_of
  claims-addressed = Has-listed "minos" (
      add_audience-Has "minos" proj.capabilities.mcp_endpoints
        (base_audience proj.capabilities.hecate_credentials)
        (base-Has proj.capabilities.hecate_credentials))

  claims-expires : claims.expires ≡ whole_seconds minted + 2 * hour
  unfolding claims_of
  claims-expires = omega arith

  claims-scoped : has_scope "minos" "task.lifecycle" (some claims) ≡ true
  unfolding has_scope
  claims-scoped =
      (claims_of-Grants env task_id jti minted proj "minos" "task.lifecycle").1
        (inl (inl (refl, refl)))

  -- Within two hours of the whole second in which it was minted, the token of a pod opens the routes of its own task to the handlers behind
  -- the gate, and those of no other task: there the server is left as it was, and the answer is a 401 or
  -- a 403. The verifier is taken to return the claims as they were signed, with their instants in
  -- whole seconds.
  pub token_opens-own_task :
      (v : Verifier) (tok header : String) (now wall : Time) (next : Handler Cluster)
      (s : Server Cluster)
      → v.broker ≡ "minos"
      → v.verify tok ≡ some (as_signed (claims_of env task_id jti minted proj))
      → tok ≢ ""
      → bearer_from_header header ≡ tok
      → now ≤ whole_seconds minted + 2 * hour
      → ((require_pod_auth v header (env.encoder.uuid_text task_id) now wall none next s).1
          ≡ next s)
        × ((path : String)
            → path ≢ env.encoder.uuid_text task_id
            → let r = (require_pod_auth v header path now wall none next s).1 in
              (r.0 ≡ s) × IsRefusal r.1)
  token_opens-own_task v tok header now wall next s broker signed present bearer live =
      (own, foreign)
    where
      admitted : Admits v "task.lifecycle" header now wall none claims
      admitted = record {
        present = λ e. present (sym bearer ∙ e);
        signed = ap v.verify bearer ∙ signed;
        addressed = subst (λ b. has_audience b (some claims) ≡ true) (sym broker) claims-addressed;
        live = subst (λ t. now ≤ t) (sym claims-expires) live;
        scoped = inr (
            subst (λ b. has_scope b "task.lifecycle" (some claims) ≡ true) (sym broker)
              claims-scoped);
        unused = tt;
      }

      own :
          (require_pod_auth v header (env.encoder.uuid_text task_id) now wall none next s).1
          ≡ next s
      own =
          (require_pod_auth-exact v header (env.encoder.uuid_text task_id) now wall none next s).0
            claims admitted claims-IsOf

      foreign :
          (path : String)
          → path ≢ env.encoder.uuid_text task_id
          → let r = (require_pod_auth v header path now wall none next s).1 in
            (r.0 ≡ s) × IsRefusal r.1
      foreign path other = (require_pod_auth-exact v header path now wall none next s).1 λ c a is.
          other (
            some-eq (
              sym is
              ∙ ap (λ (d : Claims). strip_prefix "task:" d.subject)
                  (some-eq (sym a.signed ∙ ap v.verify bearer ∙ signed))
              ∙ claims-IsOf))
