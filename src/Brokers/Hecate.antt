-- ===== src/Brokers/Hecate.antt =====
-- The credential broker (cmd/hecate/server.go, dispatchFetch; cmd/hecate/vault.go, readKV).
use zakros.Base.{
  ℕ, string_equality, String, ◌<>◌, List, [], ◌∷◌, Option, none, some, ◌||◌, ◌==◌, if◌then◌else◌,
  Result, ok, err, eqb,
}
use zakros.Base.Text.{contains_text}
use zakros.Auth.{Verifier, Refusal, status_of}
use zakros.Brokers.{authorize}

-- What Vault answers to a read: a status other than 200, a body that cannot be decoded, or the value
-- under the key `value`, if there is one.
pub data Answer : Type 0 where
  unreachable undecodable : Answer
  refused_with : ℕ → Answer
  data_with : Option String → Answer

-- `fetch` is the HTTP call for the path of a reference.
pub record VaultClient : Type 0 where
  pub token : String
  pub fetch : String → Answer

pub data VaultError : Type 0 where
  vault_not_found no_token bad_ref call_failed missing_value : VaultError
  vault_status : ℕ → VaultError

unfoldable pub read_kv : VaultClient → String → Result VaultError String
read_kv vault ref =
    if vault.token == ""
    then err no_token
    else if contains_text "/" ref || contains_text "." ref
    then err bad_ref
    else elim (vault.fetch ref) [
      | unreachable ↦ err call_failed
      | refused_with code ↦ if eqb code 404 then err vault_not_found else err (vault_status code)
      | undecodable ↦ err call_failed
      | data_with none ↦ err missing_value
      | data_with (some value) ↦ ok value
    ]

pub data FetchEvent : Type 0 where
  fetch_denied : Refusal → String → String → FetchEvent
  fetch_missing : String → String → FetchEvent
  fetch_failed : String → String → VaultError → FetchEvent
  fetched : String → String → String → FetchEvent

pub data FetchReply : Type 0 where
  value : String → FetchReply
  fetch_error : ℕ → FetchReply

abbrev pub scope_prefix : String
scope_prefix = "credentials.fetch:"

-- `path` is the segment of the path. The audit events, and the answer.
unfoldable pub dispatch_fetch :
    Verifier → VaultClient → String → String → List FetchEvent × FetchReply
unfolding authorize read_kv
dispatch_fetch v vault path header =
    if path == "" then ([], fetch_error 400) else elim (authorize v (scope_prefix <> path) header) [
      | err (why, subject) ↦
          (fetch_denied why (scope_prefix <> path) subject ∷ [], fetch_error (status_of why))
      | ok c ↦ elim (read_kv vault path) [
        | err vault_not_found ↦
            (fetch_missing (scope_prefix <> path) c.subject ∷ [], fetch_error 404)
        | err e ↦ (fetch_failed path c.subject e ∷ [], fetch_error 502)
        | ok val ↦ (fetched path c.subject c.jti ∷ [], value val)
      ]
    ]
