-- ===== src/Registry/Admins.antt =====
-- Last-admin protection (minos/identity/memstore/memstore.go, SetRole and Revoke).
use zakros.Base.{◌≤◌, nat_equality, inl, inr, arith, Option-cases}
use zakros.Base.Maps.{lookup}
use zakros.Identity.{revoked}
use zakros.Registry.{
  Registry, Call, inserts, sets_role, revokes, adds, removes, stored, granted, deprived,
  insert_identity, set_role, revoke, add_capability, remove_capability, step, Fits,
  count_active_admins,
}
use zakros.Registry.Counts.{count-insert_new, count-insert_old}

pub step-keeps_admin :
    (c : Call) (s : Registry)
    → Fits c s
    → 1 ≤ count_active_admins s.identities
    → 1 ≤ count_active_admins (step c s).identities
unfolding step insert_identity set_role revoke add_capability remove_capability
step-keeps_admin (inserts now fresh i) s f h =
    ground (arith, count-insert_new (stored now fresh i).id (stored now fresh i) s.identities)
step-keeps_admin (sets_role id role now) s f h = elim (Option-cases (lookup id s.identities)) [
  | inl e ↦ ground arith
  | inr (i, e) ↦
      ground
        (arith, count-insert_old id i (record i { role = role; updated_at = now }) s.identities)
]
step-keeps_admin (revokes id now) s f h = elim (Option-cases (lookup id s.identities)) [
  | inl e ↦ ground arith
  | inr (i, e) ↦
      ground (
        arith,
        count-insert_old id i (record i { status = revoked; updated_at = now }) s.identities,
      )
]
step-keeps_admin (adds id c now) s f h = elim (Option-cases (lookup id s.identities)) [
  | inl e ↦ ground arith
  | inr (i, e) ↦ ground (arith, count-insert_old id i (granted c now i) s.identities)
]
step-keeps_admin (removes id c now) s f h = elim (Option-cases (lookup id s.identities)) [
  | inl e ↦ ground arith
  | inr (i, e) ↦ ground (arith, count-insert_old id i (deprived c now i) s.identities)
]
