-- ===== src/Examples/Hooks.antt =====
-- Webhook verification at work.
use zakros.Base.{
  ℕ, string_equality, String, List, [], ◌∷◌, some, ◌≡◌, ◌≢◌, ◌↔◌, inr, refl, arith, ok,
}
use zakros.Base.Int.{pos}
use zakros.Base.Text.{strip_prefix}
use zakros.Base.Maps.{lookup, insert, purge}
use zakros.Replay.Deliveries.{MemStore, seen}
use zakros.Cerberus.{
  Event, Delivery, Verifier, decode_hex, nibble, verify_hmac, check_delivery, verify, verify_all,
}
use zakros.Cerberus.Deliveries.{Admits, verify-admitted, redelivery_refused}

abbrev pub sum : String → String → List ℕ
sum secret body = 171 ∷ 18 ∷ []

abbrev pub hook : Delivery
hook = record {
  signature = "sha256=aB12";
  delivery = "d1";
  event = "pull_request";
  body = some "{}";
}

abbrev pub seen_hooks : MemStore
seen_hooks = record { entries = []; window = pos 100 }

abbrev pub github : Verifier
github = record { secret = "s3cret"; store = some seen_hooks }

abbrev pub closed : Event
closed = record { source = "github"; type = "pull_request"; delivery_id = "d1"; body = "{}" }

verify-admitted_example :
    ((verify sum github hook 50).1 ≡ ok closed) ↔ Admits sum github hook 50 closed
verify-admitted_example = verify-admitted sum github hook 50 closed

pub hook_admitted : (verify sum github hook 50).1 ≡ ok closed
unfolding verify verify_hmac decode_hex nibble check_delivery strip_prefix seen lookup insert purge
hook_admitted = refl

redelivery_refused_example :
    (verify sum
      (verify_all sum
        ((record hook { delivery = "d2" }, 60) ∷ [])
        (record github { store = (verify sum github hook 50).0 }))
      (record hook { event = "issue_comment" })
      120).1
    ≢ ok (record closed { type = "issue_comment" })
redelivery_refused_example =
    redelivery_refused sum github hook (record hook { event = "issue_comment" })
      ((record hook { delivery = "d2" }, 60) ∷ []) 50 120 closed seen_hooks refl tt hook_admitted
      (inr (omega arith), tt) (inr (omega arith)) refl (record closed { type = "issue_comment" })
