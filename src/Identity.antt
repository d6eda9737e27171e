-- ===== src/Identity.antt =====
-- Roles, capabilities and identities (pkg/identity/capability.go and identity.go).
pub mod Resolution
use zakros.Base.{
  String, List, [], ◌∷◌, Option, none, some, Bool, true, false, not, ◌||◌, ◌==◌, string_equality,
  same_text, if◌then◌else◌, exists,
}
use zakros.Base.Clock.{Time}
use zakros.Storage.{Uuid}

-- A capability is a text, so that a grant may name one that no role has.
abbrev pub Capability : Type 0
Capability = String

abbrev pub task_commission_code : Capability
task_commission_code = "task.commission.code"

abbrev pub task_direct : Capability
task_direct = "task.direct"

abbrev pub task_query_state : Capability
task_query_state = "task.query_state"

abbrev pub identity_approve_pairing : Capability
identity_approve_pairing = "identity.approve_pairing"

abbrev pub identity_manage : Capability
identity_manage = "identity.manage"

-- `other` holds every text that names no defined role.
pub data Role : Type 0 where
  admin commissioner observer system : Role
  other : String → Role

abbrev pub same_role : Role → Role → Bool
same_role admin admin = true
same_role commissioner commissioner = true
same_role observer observer = true
same_role system system = true
same_role (other s) (other t) = same_text s t
same_role _ _ = false

abbrev all_roles : List Role
all_roles = admin ∷ commissioner ∷ observer ∷ system ∷ []

abbrev pub role_text : Role → String
role_text admin = "admin"
role_text commissioner = "commissioner"
role_text observer = "observer"
role_text system = "system"
role_text (other s) = s

-- Role(s)
unfoldable pub role_of : String → Role
role_of s =
    if s == "admin"
    then admin
    else if s == "commissioner"
    then commissioner
    else if s == "observer"
    then observer
    else if s == "system"
    then system
    else other s

-- Role.IsValid
unfoldable pub is_valid : Role → Bool
is_valid r = exists (same_role r) all_roles

unfoldable pub role_capabilities : Role → List Capability
role_capabilities admin =
    task_commission_code ∷ task_direct ∷ task_query_state ∷ identity_approve_pairing
    ∷ identity_manage ∷ []
role_capabilities commissioner = task_commission_code ∷ task_direct ∷ task_query_state ∷ []
role_capabilities system = task_commission_code ∷ task_direct ∷ task_query_state ∷ []
role_capabilities observer = task_query_state ∷ []
role_capabilities (other s) = []

pub data Status : Type 0 where
  active revoked pending : Status

abbrev pub same_status : Status → Status → Bool
same_status active active = true
same_status revoked revoked = true
same_status pending pending = true
same_status _ _ = false

pub record Identity : Type 0 where
  pub id : Uuid
  pub surface : String
  pub surface_id : String
  pub role : Role
  pub status : Status
  pub capabilities_added : List Capability
  pub capabilities_removed : List Capability
  pub created_at : Time
  pub updated_at : Time

-- The search loops over a capability list.
unfoldable pub contains : Capability → List Capability → Bool
contains c [] = false
contains c (d ∷ ds) = d == c || contains c ds

-- Identity.HasCapability; a nil receiver has none.
unfoldable pub has_capability : Capability → Option Identity → Bool
has_capability c none = false
has_capability c (some i) =
    if not (same_status i.status active)
    then false
    else if contains c i.capabilities_removed
    then contains c i.capabilities_added
    else if contains c i.capabilities_added
    then true
    else contains c (role_capabilities i.role)

pub record PairingRequest : Type 0 where
  pub token : String
  pub surface : String
  pub surface_id : String
  pub note : String
  pub created_at : Time
  pub expires_at : Time

pub data Error : Type 0 where
  not_found already_exists last_admin pending_expired invalid_role system_identity_rule : Error
