-- ===== src/Brokers/Access.antt =====
-- Who is served by the credential broker and by the inference broker (cmd/hecate, cmd/apollo).
use zakros.Base.{
  some-eq, string_equality, String, ◌<>◌, Option, some, true, ◌≡◌, ◌≢◌, ◌↔◌, ◌⊎◌, inl, inr, sym,
  ◌∙◌, ap, subst, arith, ok, err, Option-cases, Result-cases, same_text_iff, Has,
}
use zakros.Base.Clock.{Time}
use zakros.Storage.{Uuid}
use zakros.Projects.{Project}
use zakros.Auth.{Claims, Verifier, as_signed, has_audience, has_scope, bearer_from_header}
use zakros.Base.Text.{Casing, strip_prefix, strip_prefix-append}
use zakros.Envelope.{HecateCredential}
use zakros.Minos.{Environment}
use zakros.Minos.Minting.{claims_of}
use zakros.Minos.Minting.Scopes.{Grants, Lists, claims_of-Grants}
use zakros.Brokers.{authorize}
use zakros.Brokers.Apollo.{
  Provider, ProviderResponse, ProviderRegistry, provider_for, apollo_scope, relayed,
  forward_checked, dispatch_messages,
}
use zakros.Brokers.Hecate.{
  VaultClient, VaultError, vault_not_found, no_token, bad_ref, call_failed, missing_value,
  vault_status, value, read_kv, scope_prefix, dispatch_fetch,
}

-- The bearer of the header is of the broker, and has the scope.
pub record Bears (v : Verifier) (scope header : String) (c : Claims) : Type 0 where
  pub given : bearer_from_header header ≢ ""
  verified : v.verify (bearer_from_header header) ≡ some c
  pub addressed : has_audience v.broker (some c) ≡ true
  pub scoped : has_scope v.broker scope (some c) ≡ true

authorize-Bears :
    (v : Verifier) (scope header : String) (c : Claims)
    → (authorize v scope header ≡ ok c) ↔ Bears v scope header c
unfolding authorize
authorize-Bears v scope header c = (to, from)
  where
    raw : String
    raw = bearer_from_header header

    to : authorize v scope header ≡ ok c → Bears v scope header c
    to h = elim (Option-cases (v.verify raw)) [
      | inl e ↦ ground arith
      | inr (d, e) ↦
          let same : d ≡ c = ground arith in
          record {
            given = ground (arith, same_text_iff raw "");
            verified = e ∙ ap some same;
            addressed = subst (λ x. has_audience v.broker (some x) ≡ true) same (ground arith);
            scoped = subst (λ x. has_scope v.broker scope (some x) ≡ true) same (ground arith);
          }
    ]

    from : Bears v scope header c → authorize v scope header ≡ ok c
    from b = ground (arith, b.given, b.verified, b.addressed, b.scoped, same_text_iff raw "")

-- Hecate hands out a value exactly if the request names a reference, its bearer is addressed to the broker and
-- has the scope of that very reference, and Vault has the value there.
dispatch_fetch-exact :
    (v : Verifier) (vault : VaultClient) (path header val : String)
    → ((dispatch_fetch v vault path header).1 ≡ value val) ↔ (
        (path ≢ "")
        × (read_kv vault path ≡ ok val)
        × (c : Claims) × Bears v (scope_prefix <> path) header c)
unfolding dispatch_fetch
dispatch_fetch-exact v vault path header val = (to, from)
  where
    scope : String
    scope = scope_prefix <> path

    Serves : Type 0
    Serves = (path ≢ "") × (read_kv vault path ≡ ok val) × (c : Claims) × Bears v scope header c

    unread :
        (c : Claims) (x : VaultError)
        → authorize v scope header ≡ ok c
        → read_kv vault path ≡ err x
        → (dispatch_fetch v vault path header).1 ≡ value val
        → ⊥
    unread c vault_not_found e f h = ground arith
    unread c no_token e f h = ground arith
    unread c bad_ref e f h = ground arith
    unread c call_failed e f h = ground arith
    unread c missing_value e f h = ground arith
    unread c (vault_status n) e f h = ground arith

    to : (dispatch_fetch v vault path header).1 ≡ value val → Serves
    to h = elim (Result-cases (authorize v scope header)) [
      | inr ((why, subject), e) ↦ ground arith
      | inl (c, e) ↦ elim (Result-cases (read_kv vault path)) [
        | inr (x, f) ↦ absurd (unread c x e f h)
        | inl (w, f) ↦
            let same : w ≡ val = ground (arith, same_text_iff path "") in
            (
              ground (arith, same_text_iff path ""),
              f ∙ ap ok same,
              c,
              (authorize-Bears v scope header c).0 e,
            )
      ]
    ]

    from : Serves → (dispatch_fetch v vault path header).1 ≡ value val
    from (named, f, c, b) =
        let e = (authorize-Bears v scope header c).1 b in ground (arith, same_text_iff path "")

-- A pod gets a credential from Hecate only if its project lists the credential, or one of the
-- project's endpoints of that name lists the scope. The verifier is taken to return the claims of the pod as
-- they were signed, with their instants in whole seconds.
pub pod_fetches-granted :
    {Cluster : Type 0} (env : Environment Cluster) (task_id : Uuid) (jti : String) (minted : Time)
    (proj : Project) (v : Verifier) (vault : VaultClient) (path header val : String)
    → v.broker ≡ "hecate"
    → v.verify (bearer_from_header header)
      ≡ some (as_signed (claims_of env task_id jti minted proj))
    → (dispatch_fetch v vault path header).1 ≡ value val
    → ((hc : HecateCredential) × Has hc proj.capabilities.hecate_credentials × (hc.ref ≡ path))
      ⊎ Lists "hecate" (scope_prefix <> path) proj.capabilities.mcp_endpoints
unfolding has_scope
pod_fetches-granted env task_id jti minted proj v vault path header val broker verified h =
    let (_, _, c, b) = (dispatch_fetch-exact v vault path header val).0 h in
    granted (
      (claims_of-Grants env task_id jti minted proj "hecate" scope).0 (
        subst (λ x. has_scope x scope (some (claims_of env task_id jti minted proj)) ≡ true) broker
          (subst (λ x. has_scope v.broker scope (some x) ≡ true)
            (some-eq (sym b.verified ∙ verified)) b.scoped)))
  where
    scope : String
    scope = scope_prefix <> path

    granted :
        Grants proj "hecate" scope
        → ((hc : HecateCredential) × Has hc proj.capabilities.hecate_credentials × (hc.ref ≡ path))
          ⊎ Lists "hecate" scope proj.capabilities.mcp_endpoints
    granted (inl (inl (e, _))) = ground (arith, same_text_iff "hecate" "minos")
    granted (inl (inr (inl (e, _)))) = ground (arith, same_text_iff "hecate" "argus")
    granted (inl (inr (inr (_, (hc, m, e))))) = inl (
      hc,
      m,
      some-eq (
          sym (strip_prefix-append scope_prefix hc.ref)
          ∙ ap (strip_prefix scope_prefix) (sym e)
          ∙ strip_prefix-append scope_prefix path),
    )
    granted (inr l) = inr l

-- Apollo relays an answer exactly if the body names a model that a provider is registered for, the bearer is
-- addressed to the broker and has the scope of that provider and that very model, and the answer is the
-- provider's to the same body.
dispatch_messages-exact :
    (casing : Casing) (model_of : String → Option String) (v : Verifier) (idx : ProviderRegistry)
    (body header : String) (resp : ProviderResponse)
    → ((dispatch_messages casing model_of v idx (some body) header).1 ≡ relayed resp) ↔ (
        (model : String) × (p : Provider) × (c : Claims) × (model_of body ≡ some model)
        × (model ≢ "")
        × (provider_for casing model idx ≡ some p)
        × Bears v (apollo_scope p.name model) header c
        × (p.forward body ≡ ok resp))
unfolding dispatch_messages forward_checked
dispatch_messages-exact casing model_of v idx body header resp = (to, from)
  where
    Relays : Type 0
    Relays =
        (model : String) × (p : Provider) × (c : Claims) × (model_of body ≡ some model)
        × (model ≢ "")
        × (provider_for casing model idx ≡ some p)
        × Bears v (apollo_scope p.name model) header c
        × (p.forward body ≡ ok resp)

    checked :
        (p : Provider) (model : String)
        → (forward_checked v p model body header).1 ≡ relayed resp
        → (c : Claims) × Bears v (apollo_scope p.name model) header c × (p.forward body ≡ ok resp)
    checked p model h = elim (Result-cases (authorize v (apollo_scope p.name model) header)) [
      | inr ((why, subject), e) ↦ ground arith
      | inl (c, e) ↦ (c, (authorize-Bears v (apollo_scope p.name model) header c).0 e, ground arith)
    ]

    to : (dispatch_messages casing model_of v idx (some body) header).1 ≡ relayed resp → Relays
    to h = elim (Option-cases (model_of body)) [
      | inl e ↦ ground arith
      | inr (model, e) ↦ elim (Option-cases (provider_for casing model idx)) [
        | inl f ↦ ground arith
        | inr (p, f) ↦
            let (c, b, g) = checked p model (ground (arith, same_text_iff model "")) in
            (model, p, c, e, ground (arith, same_text_iff model ""), f, b, g)
      ]
    ]

    from : Relays → (dispatch_messages casing model_of v idx (some body) header).1 ≡ relayed resp
    from (model, p, c, e, named, f, b, g) =
        let a = (authorize-Bears v (apollo_scope p.name model) header c).1 b in
        ground (arith, same_text_iff model "")
