-- ===== src/Identity/Resolution.antt =====
-- What an identity may do (pkg/identity/identity.go, HasCapability).
use zakros.Base.{
  some, true, not, ◌&&◌, ◌||◌, ◌≡◌, refl, ◌⊎◌, inl, inr, arith, string_equality, subst,
}
use zakros.Identity.{
  Capability, Role, admin, commissioner, observer, system, other, active, same_status, Identity,
  identity_manage, identity_approve_pairing, role_capabilities, contains, has_capability,
}

-- A capability is granted exactly to an active identity that was given it explicitly, or whose role
-- has it and that was not deprived of it.
pub has_capability_lem :
    (c : Capability) (i : Identity)
    → has_capability c (some i) ≡ (
        same_status i.status active
        && (contains c i.capabilities_added
            || contains c (role_capabilities i.role) && not (contains c i.capabilities_removed)))
unfolding has_capability
has_capability_lem c i = ground arith

base_admin :
    (c : Capability) (r : Role)
    → (c ≡ identity_manage) ⊎ (c ≡ identity_approve_pairing)
    → contains c (role_capabilities r) ≡ true
    → r ≡ admin
unfolding contains role_capabilities
base_admin c admin e h = refl
base_admin c commissioner (inl e) h =
    cc (subst (λ d. contains d (role_capabilities commissioner) ≡ true) e h)
base_admin c commissioner (inr e) h =
    cc (subst (λ d. contains d (role_capabilities commissioner) ≡ true) e h)
base_admin c system (inl e) h = cc (subst (λ d. contains d (role_capabilities system) ≡ true) e h)
base_admin c system (inr e) h = cc (subst (λ d. contains d (role_capabilities system) ≡ true) e h)
base_admin c observer (inl e) h =
    cc (subst (λ d. contains d (role_capabilities observer) ≡ true) e h)
base_admin c observer (inr e) h =
    cc (subst (λ d. contains d (role_capabilities observer) ≡ true) e h)
base_admin c (other s) e h = cc

-- Whoever may manage identities or approve pairings is active, and is an admin or was given that
-- capability explicitly.
identity_rights :
    (c : Capability) (i : Identity)
    → (c ≡ identity_manage) ⊎ (c ≡ identity_approve_pairing)
    → has_capability c (some i) ≡ true
    → (i.status ≡ active) × ((i.role ≡ admin) ⊎ (contains c i.capabilities_added ≡ true))
unfolding has_capability
identity_rights c i e h = ground (arith, base_admin c i.role e)
