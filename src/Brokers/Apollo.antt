-- ===== src/Brokers/Apollo.antt =====
-- The inference broker (cmd/apollo/server.go, dispatchMessages; cmd/apollo/provider.go, the registry).
use zakros.Base.{
  ℕ, string_equality, String, ◌<>◌, List, [], ◌∷◌, Option, none, some, ◌==◌, if◌then◌else◌, Result,
  ok, err,
}
use zakros.Base.Maps.{Map, insert, lookup}
use zakros.Base.Text.{Casing}
use zakros.Auth.{Verifier, Refusal, status_of}
use zakros.Brokers.{authorize}

-- The headers, which are passed on as they are, are left out.
pub record ProviderResponse : Type 0 where
  pub status : ℕ
  pub body : String
  pub tokens_in : ℕ
  pub tokens_out : ℕ

-- `forward` calls the upstream API; its error is a text.
pub record Provider : Type 0 where
  pub name : String
  pub models : List String
  pub forward : String → Result String ProviderResponse

-- The index of the providers by the name of a model in lower case.
abbrev pub ProviderRegistry : Type 0
ProviderRegistry = Map String Provider

unfoldable pub register : Casing → Provider → List String → ProviderRegistry → ProviderRegistry
register casing p [] idx = idx
register casing p (m ∷ ms) idx = register casing p ms (insert (casing.to_lower m) p idx)

unfoldable pub provider_for : Casing → String → ProviderRegistry → Option Provider
provider_for casing model idx = lookup (casing.to_lower model) idx

pub data MessagesEvent : Type 0 where
  messages_denied : Refusal → String → String → MessagesEvent
  upstream_error : String → String → String → MessagesEvent
  messages : String → String → String → String → ProviderResponse → MessagesEvent

pub data MessagesReply : Type 0 where
  relayed : ProviderResponse → MessagesReply
  messages_error : ℕ → MessagesReply

abbrev pub apollo_scope : String → String → String
apollo_scope provider model = "apollo." <> provider <> "." <> model

-- The audit events, and the answer.
unfoldable pub forward_checked :
    Verifier → Provider → String → String → String → List MessagesEvent × MessagesReply
unfolding authorize
forward_checked v p model body header = elim (authorize v (apollo_scope p.name model) header) [
  | err (why, subject) ↦
      (messages_denied why (apollo_scope p.name model) subject ∷ [], messages_error (status_of why))
  | ok c ↦ elim (p.forward body) [
    | err why ↦ (upstream_error model c.subject why ∷ [], messages_error 502)
    | ok resp ↦ (messages model p.name c.subject c.jti resp ∷ [], relayed resp)
  ]
]

-- `body` is the body, none if it cannot be read or is too long; `model_of` reads its field `model`, "" if the
-- field is missing, none if the body cannot be parsed.
unfoldable pub dispatch_messages :
    Casing
    → (String → Option String)
    → Verifier
    → ProviderRegistry
    → Option String
    → String
    → List MessagesEvent × MessagesReply
unfolding forward_checked provider_for
dispatch_messages casing model_of v idx none header = ([], messages_error 400)
dispatch_messages casing model_of v idx (some body) header = elim (model_of body) [
  | none ↦ ([], messages_error 400)
  | some model ↦
      if model == "" then ([], messages_error 400) else elim (provider_for casing model idx) [
        | none ↦ ([], messages_error 400)
        | some p ↦ forward_checked v p model body header
      ]
]
