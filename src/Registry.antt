-- ===== src/Registry.antt =====
-- The in-memory identity registry (minos/identity/memstore/memstore.go). `now` is the reading of
-- the registry's clock, `fresh` the identifier that `uuid.New` returns. A clone of an identity is
-- the identity, since values are not shared here.
pub mod Admins
pub mod Grants
pub mod Pairings
mod Counts
mod Moves
use zakros.Base.{
  ℕ, suc, ◌-◌, String, List, [], ◌∷◌, ◌++◌, Option, none, some, Bool, true, false, not, ◌&&◌, ◌||◌,
  ◌==◌, nat_equality, string_equality, if◌then◌else◌, Result, ok, err, ltb, eqb, keep, ◌≡◌,
}
use zakros.Base.Maps.{Map, lookup, insert, remove}
use zakros.Base.Clock.{Time, is_zero, before}
use zakros.Storage.{Uuid}
use zakros.Identity.{
  Capability, Role, admin, same_role, is_valid, Status, active, revoked, same_status, Identity,
  contains, PairingRequest, Error, not_found, already_exists, last_admin, pending_expired,
  invalid_role,
}

pub record Registry : Type 0 where
  pub identities : Map Uuid Identity
  pub pairings : Map String PairingRequest

unfoldable pub new : Registry
new = record { identities = []; pairings = [] }

abbrev pub at_surface : String → String → Identity → Bool
at_surface surface surface_id i = i.surface == surface && i.surface_id == surface_id

unfoldable pub find_surface : String → String → Map Uuid Identity → Option Identity
find_surface surface surface_id [] = none
find_surface surface surface_id ((k, i) ∷ m) =
    if at_surface surface surface_id i then some i else find_surface surface surface_id m

unfoldable pub lookup_by_surface : String → String → Registry → Result Error Identity
lookup_by_surface surface surface_id s = elim (find_surface surface surface_id s.identities) [
  | none ↦ err not_found
  | some i ↦ ok i
]

unfoldable pub get : Uuid → Registry → Result Error Identity
get id s = elim (lookup id s.identities) [ none ↦ err not_found | some i ↦ ok i ]

-- The copy that `Insert` stores.
abbrev pub stored : Time → Uuid → Identity → Identity
stored now fresh i = record i {
  id = if i.id == 0 then fresh else i.id;
  created_at = if is_zero i.created_at then now else i.created_at;
  updated_at = now;
}

unfoldable pub insert_identity : Time → Uuid → Identity → Registry → Registry × Option Error
insert_identity now fresh i s = elim (find_surface i.surface i.surface_id s.identities) [
  | some _ ↦ (s, some already_exists)
  | none ↦ (
    record s { identities = insert (stored now fresh i).id (stored now fresh i) s.identities },
    none,
  )
]

abbrev pub is_active_admin : Identity → Bool
is_active_admin i = same_role i.role admin && same_status i.status active

-- countActiveAdminsLocked
unfoldable pub count_active_admins : Map Uuid Identity → ℕ
count_active_admins [] = 0
count_active_admins ((k, i) ∷ m) =
    let n = count_active_admins m in if is_active_admin i then suc n else n

-- `countActiveAdminsLocked()-1 < 1`, which is also true of the count 0.
abbrev pub would_lock_out : Registry → Bool
would_lock_out s = ltb (count_active_admins s.identities - 1) 1

unfoldable pub set_role : Uuid → Role → Time → Registry → Registry × Option Error
set_role id role now s = elim (lookup id s.identities) [
  | none ↦ (s, some not_found)
  | some i ↦
      if not (is_valid role)
      then (s, some invalid_role)
      else if same_role i.role admin && not (same_role role admin) && would_lock_out s
      then (s, some last_admin)
      else (
        record s {
          identities = insert id (record i { role = role; updated_at = now }) s.identities;
        },
        none,
      )
]

unfoldable pub revoke : Uuid → Time → Registry → Registry × Option Error
revoke id now s = elim (lookup id s.identities) [
  | none ↦ (s, some not_found)
  | some i ↦
      if same_status i.status revoked
      then (s, none)
      else if same_role i.role admin && would_lock_out s
      then (s, some last_admin)
      else (
        record s {
          identities = insert id (record i { status = revoked; updated_at = now }) s.identities;
        },
        none,
      )
]

unfoldable pub filter_out : Capability → List Capability → List Capability
filter_out c [] = []
filter_out c (d ∷ ds) = let rest = filter_out c ds in if d == c then rest else d ∷ rest

abbrev granted : Capability → Time → Identity → Identity
granted c now i = record i {
  capabilities_added = i.capabilities_added ++ c ∷ [];
  capabilities_removed = filter_out c i.capabilities_removed;
  updated_at = now;
}

abbrev deprived : Capability → Time → Identity → Identity
deprived c now i = record i {
  capabilities_added = filter_out c i.capabilities_added;
  capabilities_removed = i.capabilities_removed ++ c ∷ [];
  updated_at = now;
}

unfoldable pub add_capability : Uuid → Capability → Time → Registry → Registry × Option Error
add_capability id c now s = elim (lookup id s.identities) [
  | none ↦ (s, some not_found)
  | some i ↦
      if contains c i.capabilities_added
      then (s, none)
      else (record s { identities = insert id (granted c now i) s.identities }, none)
]

unfoldable pub remove_capability : Uuid → Capability → Time → Registry → Registry × Option Error
remove_capability id c now s = elim (lookup id s.identities) [
  | none ↦ (s, some not_found)
  | some i ↦
      if contains c i.capabilities_removed
      then (s, none)
      else (record s { identities = insert id (deprived c now i) s.identities }, none)
]

unfoldable pub has_pending : String → String → Map String PairingRequest → Bool
has_pending surface surface_id [] = false
has_pending surface surface_id ((k, p) ∷ m) =
    p.surface == surface && p.surface_id == surface_id || has_pending surface surface_id m

unfoldable pub pairing_create : Time → PairingRequest → Registry → Registry × Option Error
pairing_create now p s =
    if has_pending p.surface p.surface_id s.pairings then (s, some already_exists) else (
      record s {
        pairings =
            insert p.token
              (record p { created_at = if is_zero p.created_at then now else p.created_at })
              s.pairings;
      },
      none,
    )

abbrev pub is_expired : Time → PairingRequest → Bool
is_expired now p = not (is_zero p.expires_at) && before p.expires_at now

unfoldable pub pairing_by_token : String → Time → Registry → Result Error PairingRequest
pairing_by_token token now s = elim (lookup token s.pairings) [
  | none ↦ err not_found
  | some p ↦ if is_expired now p then err pending_expired else ok p
]

unfoldable pub pairing_delete : String → Registry → Registry
pairing_delete token s = record s { pairings = remove token s.pairings }

-- The deletions of the sweep, and how many there were.
unfoldable pub sweep : Time → Map String PairingRequest → Map String PairingRequest × ℕ
sweep now [] = ([], 0)
sweep now ((k, p) ∷ m) =
    let (rest, n) = sweep now m in if is_expired now p then (rest, suc n) else ((k, p) ∷ rest, n)

unfoldable pub pairing_sweep : Time → Registry → Registry × ℕ
unfolding sweep
pairing_sweep now s = let (m, n) = sweep now s.pairings in (record s { pairings = m }, n)

-- The calls that write identities, and what a sequence of them leaves.
pub data Call : Type 0 where
  inserts : Time → Uuid → Identity → Call
  sets_role : Uuid → Role → Time → Call
  revokes : Uuid → Time → Call
  adds : Uuid → Capability → Time → Call
  removes : Uuid → Capability → Time → Call

unfoldable pub step : Call → Registry → Registry
step (inserts now fresh i) s = (insert_identity now fresh i s).0
step (sets_role id role now) s = (set_role id role now s).0
step (revokes id now) s = (revoke id now s).0
step (adds id c now) s = (add_capability id c now s).0
step (removes id c now) s = (remove_capability id c now s).0

unfoldable pub run : List Call → Registry → Registry
run [] s = s
run (c ∷ cs) s = run cs (step c s)

-- An identifier from `uuid.New`, or one that the caller chose, is not in use.
abbrev pub Fits : Call → Registry → Type 0
Fits (inserts now fresh i) s = lookup (stored now fresh i).id s.identities ≡ none
Fits _ s = Unit

abbrev pub AllFit : List Call → Registry → Type 0
AllFit [] s = Unit
AllFit (c ∷ cs) s = Fits c s × AllFit cs (step c s)
