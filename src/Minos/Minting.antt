-- ===== src/Minos/Minting.antt =====
-- The capabilities of a pod and the token that is minted for it (minos/core/commission.go,
-- composeCapabilities).
pub mod Scopes
pub mod OwnTask
use zakros.Base.{
  ◌+◌, ◌*◌, String, ◌<>◌, List, [], ◌∷◌, ◌++◌, Option, none, some, string_equality, map, Result, ok,
  err,
}
use zakros.Base.Maps.{Map, insert, lookup}
use zakros.Base.Clock.{Time, hour}
use zakros.Envelope.{HecateCredential, McpEndpoint, Capabilities}
use zakros.Storage.{Uuid}
use zakros.Projects.{Project}
use zakros.Auth.{Claims, scopes_of}
use zakros.Minos.{Environment, Failure, unsigned}

abbrev pub fetch_scope : HecateCredential → String
fetch_scope hc = "credentials.fetch:" <> hc.ref

-- The audience and the scopes before the project's endpoints.
abbrev pub base_audience : List HecateCredential → List String
base_audience [] = "minos" ∷ "argus" ∷ []
base_audience (hc ∷ hcs) = "minos" ∷ "argus" ∷ "hecate" ∷ []

abbrev pub base_scopes : List HecateCredential → Map String (List String)
base_scopes [] = ("minos", "task.lifecycle" ∷ []) ∷ ("argus", "heartbeat" ∷ []) ∷ []
base_scopes (hc ∷ hcs) =
    ("minos", "task.lifecycle" ∷ [])
    ∷ ("argus", "heartbeat" ∷ [])
    ∷ ("hecate", fetch_scope hc ∷ map fetch_scope hcs)
    ∷ []

-- The loop over the endpoints, for each of its two results.
unfoldable pub add_scopes : List McpEndpoint → Map String (List String) → Map String (List String)
add_scopes [] m = m
add_scopes (ep ∷ eps) m = add_scopes eps (insert ep.name (scopes_of ep.name m ++ ep.scopes) m)

unfoldable pub add_audience : List McpEndpoint → List String → List String
add_audience [] names = names
add_audience (ep ∷ eps) names = add_audience eps (names ++ ep.name ∷ [])

module _ {Cluster : Type 0} where
  -- The claims that are passed to Sign; `now` is the server's clock and `jti` a fresh UUID.
  unfoldable pub claims_of : Environment Cluster → Uuid → String → Time → Project → Claims
  unfolding add_scopes add_audience
  claims_of env task_id jti now proj = record {
    subject = "task:" <> env.encoder.uuid_text task_id;
    issuer = "minos";
    audience =
        add_audience proj.capabilities.mcp_endpoints
          (base_audience proj.capabilities.hecate_credentials);
    issued_at = now;
    expires = now + 2 * hour;
    jti = jti;
    mcp_scopes =
        add_scopes proj.capabilities.mcp_endpoints
          (base_scopes proj.capabilities.hecate_credentials);
  }

  unfoldable pub compose_capabilities :
      Environment Cluster → Uuid → String → Time → Project → Result Failure Capabilities
  unfolding claims_of
  compose_capabilities env task_id jti now proj =
      elim (env.sign (claims_of env task_id jti now proj)) [
        | none ↦ err unsigned
        | some tok ↦ ok (record {
          injected_credentials = proj.capabilities.injected_credentials;
          hecate_credentials = proj.capabilities.hecate_credentials;
          mcp_endpoints = proj.capabilities.mcp_endpoints;
          mcp_auth_token = tok;
        })
      ]
