-- ===== src/Registry/Pairings.antt =====
-- Pairing requests (minos/identity/memstore/memstore.go, PairingCreate to PairingSweep).
use zakros.Base.{
  ◌+◌, nat_equality, string_equality, String, [], ◌∷◌, Option, none, some, false, ◌≡◌, ◌≢◌, refl,
  arith, subst, ◌==◌, same_text_iff, if◌then◌else◌, ok, err, length,
}
use zakros.Base.Maps.{Map, IsMap, lookup, lookup-insert, lookup-remove}
use zakros.Base.Clock.{Time, is_zero}
use zakros.Identity.{PairingRequest, not_found, pending_expired}
use zakros.Registry.{
  Registry, is_expired, has_pending, pairing_create, pairing_by_token, pairing_delete, sweep,
  pairing_sweep,
}

-- The request as it is stored.
abbrev filed : Time → PairingRequest → PairingRequest
filed now p = record p { created_at = if is_zero p.created_at then now else p.created_at }

-- A request that was accepted is found by its token, and by that token alone, until it expires or
-- is deleted.
pairing_by_token-create :
    (now later : Time) (p : PairingRequest) (s : Registry) (token : String)
    → has_pending p.surface p.surface_id s.pairings ≡ false
    → pairing_by_token token later (pairing_create now p s).0 ≡ (
        if p.token == token
        then (if is_expired later p then err pending_expired else ok (filed now p))
        else pairing_by_token token later s)
unfolding pairing_create pairing_by_token
pairing_by_token-create now later p s token free =
    rw (free, pairing_create) (ground (arith, lookup-insert p.token token (filed now p) s.pairings))

-- After the deletion of a token it is unknown, and every other request is as it was.
pairing_by_token-delete :
    (token other : String) (now : Time) (s : Registry)
    → pairing_by_token other now (pairing_delete token s)
      ≡ (if token == other then err not_found else pairing_by_token other now s)
unfolding pairing_delete pairing_by_token
pairing_by_token-delete token other now s = ground (arith, lookup-remove token other s.pairings)

abbrev live_only : Time → Option PairingRequest → Option PairingRequest
live_only now none = none
live_only now (some p) = if is_expired now p then none else some p

sweep-lookup :
    (now : Time) (token : String) (m : Map String PairingRequest)
    → IsMap m
    → lookup token (sweep now m).0 ≡ live_only now (lookup token m)
unfolding sweep lookup
sweep-lookup now token [] d = refl
sweep-lookup now token ((k, p) ∷ m) d =
    ground (arith, sweep-lookup now token m, same_text_iff k token, missing)
  where
    missing : k ≡ token → lookup token m ≡ none
    missing e = subst (λ t. lookup t m ≡ none) e d.0

sweep-length :
    (now : Time) (m : Map String PairingRequest)
    → length (sweep now m).0 + (sweep now m).1 ≡ length m
unfolding sweep
sweep-length now [] = refl
sweep-length now ((k, p) ∷ m) = ground (arith, sweep-length now m)

-- The sweep deletes exactly the expired requests and reports how many those were: afterwards no
-- lookup finds an expired request, and every other lookup has the result that it had.
pairing_sweep-exact :
    (now : Time) (token : String) (s : Registry)
    → IsMap s.pairings
    → (pairing_by_token token now (pairing_sweep now s).0 ≢ err pending_expired)
      × (pairing_by_token token now s ≢ err pending_expired
          → pairing_by_token token now (pairing_sweep now s).0 ≡ pairing_by_token token now s)
      × (length (pairing_sweep now s).0.pairings + (pairing_sweep now s).1 ≡ length s.pairings)
unfolding pairing_sweep pairing_by_token
pairing_sweep-exact now token s d = (
  ground (arith, sweep-lookup now token s.pairings d),
  ground (arith, sweep-lookup now token s.pairings d),
  sweep-length now s.pairings,
)
