-- ===== src/Cerberus.antt =====
-- The verification of GitHub webhooks (cerberus/verification/verification.go,
-- cerberus/verification/github/github.go). The keyed hash of the standard library (HMAC-SHA256) is a
-- parameter, `mac secret body`.
pub mod Deliveries
pub mod Slack
use zakros.Base.{
  ℕ, ◌+◌, ◌-◌, ◌*◌, string_equality, String, List, [], ◌∷◌, Option, none, some, Bool, true, false,
  not, ◌&&◌, ◌==◌, leb, eqb, if◌then◌else◌, Result, ok, err,
}
use Prim.Native.Char.{code}
use zakros.Base.Clock.{Time}
use zakros.Base.Text.{strip_prefix}
use zakros.Replay.Deliveries.{MemStore, seen}

pub data Failure : Type 0 where
  not_configured unreadable_body invalid_signature replayed timestamp_skew : Failure
  missing_header : String → Failure

pub record Event : Type 0 where
  pub source : String
  pub type : String
  pub delivery_id : String
  pub body : String

-- A request: its headers, "" where one is missing, and its body, `none` if it cannot be read.
pub record Delivery : Type 0 where
  pub signature : String
  pub delivery : String
  pub event : String
  pub body : Option String

-- The replay store is a MemStore, or none.
pub record Verifier : Type 0 where
  pub secret : String
  pub store : Option MemStore

-- hex.DecodeString
unfoldable pub nibble : ℕ → Option ℕ
nibble c =
    if leb 48 c && leb c 57
    then some (c - 48)
    else if leb 97 c && leb c 102
    then some (c - 87)
    else if leb 65 c && leb c 70
    then some (c - 55)
    else none

abbrev byte : Option ℕ → Option ℕ → Option (List ℕ) → Option (List ℕ)
byte (some high) (some low) (some bytes) = some ((16 * high + low) ∷ bytes)
byte _ _ _ = none

unfoldable pub decode_hex : String → Option (List ℕ)
unfolding nibble
decode_hex String.[] = some []
decode_hex (String.◌∷◌ c String.[]) = none
decode_hex (String.◌∷◌ c (String.◌∷◌ d s)) = byte (nibble (code c)) (nibble (code d)) (decode_hex s)

abbrev pub same_bytes : List ℕ → List ℕ → Bool
same_bytes [] [] = true
same_bytes (x ∷ xs) (y ∷ ys) = eqb x y && same_bytes xs ys
same_bytes _ _ = false

module _ (mac : String → String → List ℕ) where
  -- verifyHMAC; each of its errors is ErrInvalidSignature.
  unfoldable pub verify_hmac : String → String → String → Bool
  verify_hmac secret body header = elim (strip_prefix "sha256=" header) [
    | none ↦ false
    | some digits ↦ elim (decode_hex digits) [
      | none ↦ false
      | some got ↦ same_bytes got (mac secret body)
    ]
  ]

-- The replay check, and the event that is returned.
unfoldable pub check_delivery :
    Event → Time → Option MemStore → Option MemStore × Result Failure Event
check_delivery ev now none = (none, ok ev)
check_delivery ev now (some s) =
    let (s', old) = seen ev.delivery_id now s in
    if old then (some s', err replayed) else (some s', ok ev)

module _ (mac : String → String → List ℕ) where
  -- What is left of the replay store, and the result.
  unfoldable pub verify : Verifier → Delivery → Time → Option MemStore × Result Failure Event
  verify v r now =
      if v.secret == ""
      then (v.store, err not_configured)
      else if r.signature == ""
      then (v.store, err (missing_header "X-Hub-Signature-256"))
      else if r.delivery == ""
      then (v.store, err (missing_header "X-GitHub-Delivery"))
      else if r.event == ""
      then (v.store, err (missing_header "X-GitHub-Event"))
      else elim r.body [
        | none ↦ (v.store, err unreadable_body)
        | some body ↦
            if verify_hmac mac v.secret body r.signature
            then check_delivery
                (record {
                  source = "github";
                  type = r.event;
                  delivery_id = r.delivery;
                  body = body;
                })
                now v.store
            else (v.store, err invalid_signature)
      ]

  -- The verifier after a sequence of requests.
  unfoldable pub verify_all : List (Delivery × Time) → Verifier → Verifier
  verify_all [] v = v
  verify_all ((r, now) ∷ rs) v = verify_all rs (record v { store = (verify v r now).0 })
