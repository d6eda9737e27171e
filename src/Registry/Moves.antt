-- ===== src/Registry/Moves.antt =====
-- What one writing call may do to one identity (minos/identity/memstore/memstore.go).
use zakros.Base.{
  nat_equality, Option, some, ◌≡◌, refl, ◌⊎◌, inl, inr, arith, eqb, eqb_iff, Option-cases,
  Bool-cases, subst, not, ◌&&◌,
}
use zakros.Base.Maps.{Map, lookup, insert, lookup-insert}
use zakros.Base.Clock.{Time}
use zakros.Storage.{Uuid}
use zakros.Identity.{Identity, revoked, admin, same_role, same_status, is_valid, contains}
use zakros.Registry.{
  Registry, Call, inserts, sets_role, revokes, adds, removes, stored, granted, deprived,
  find_surface, would_lock_out, insert_identity, set_role, revoke, add_capability,
  remove_capability, step,
}

-- A write keeps who the identity is, and never reactivates it.
pub record Kin (i u : Identity) : Type 0 where
  pub id : u.id ≡ i.id
  pub surface : u.surface ≡ i.surface
  pub surface_id : u.surface_id ≡ i.surface_id
  pub status : (u.status ≡ i.status) ⊎ (u.status ≡ revoked)

pub data Move (c : Call) (j : Uuid) : Option Identity → Option Identity → Type 0 where
  kept : {o : Option Identity} → Move c j o o
  added :
      (now : Time) (fresh : Uuid) (i : Identity) (o : Option Identity)
      → c ≡ inserts now fresh i
      → (stored now fresh i).id ≡ j
      → Move c j o (some (stored now fresh i))
  changed : (i u : Identity) → Kin i u → Move c j (some i) (some u)

insert-Move :
    (c : Call) (k j : Uuid) (u : Identity) (m : Map Uuid Identity)
    → Move c k (lookup k m) (some u)
    → Move c j (lookup j m) (lookup j (insert k u m))
insert-Move c k j u m mv = elim (Bool-cases (eqb k j)) [
  | inl same ↦
      rw (lookup-insert k j u m, same)
        (subst (λ i. Move c i (lookup i m) (some u)) ((eqb_iff k j).0 same) mv)
  | inr differ ↦ rw (lookup-insert k j u m, differ) kept
]

change-Move :
    (c : Call) (k j : Uuid) (i u : Identity) (m : Map Uuid Identity)
    → lookup k m ≡ some i
    → Kin i u
    → Move c j (lookup j m) (lookup j (insert k u m))
change-Move c k j i u m e kin = insert-Move c k j u m (rw e (changed i u kin))

-- Every call makes one of the three moves at every identity.
pub step-Move :
    (c : Call) (s : Registry) (j : Uuid)
    → Move c j (lookup j s.identities) (lookup j (step c s).identities)
unfolding step insert_identity set_role revoke add_capability remove_capability
step-Move (inserts now fresh i) s j =
    elim (Option-cases (find_surface i.surface i.surface_id s.identities)) [
      | inl e ↦
          rw (e, step, insert_identity)
            (insert-Move _ (stored now fresh i).id j (stored now fresh i) s.identities
              (added now fresh i _ refl refl))
      | inr (u, e) ↦ rw (e, step, insert_identity) kept
    ]
step-Move (sets_role id role now) s j = elim (Option-cases (lookup id s.identities)) [
  | inl e ↦ rw (e, step, set_role) kept
  | inr (i, e) ↦
      rw (e, step, set_role)
        (elim (Bool-cases (is_valid role)) [
          | inl valid ↦
              rw valid
                (elim (Bool-cases
                  (same_role i.role admin && not (same_role role admin) && would_lock_out s)) [
                    | inl locked ↦ rw locked kept
                    | inr free ↦ rw free (change-Move _ id j i _ s.identities e (ground arith))
                  ])
          | inr invalid ↦ rw invalid kept
        ])
]
step-Move (revokes id now) s j = elim (Option-cases (lookup id s.identities)) [
  | inl e ↦ rw (e, step, revoke) kept
  | inr (i, e) ↦
      rw (e, step, revoke)
        (elim (Bool-cases (same_status i.status revoked)) [
          | inl already ↦ rw already kept
          | inr live ↦ rw live (elim (Bool-cases (same_role i.role admin && would_lock_out s)) [
            | inl locked ↦ rw locked kept
            | inr free ↦ rw free (change-Move _ id j i _ s.identities e (ground arith))
          ])
        ])
]
step-Move (adds id c now) s j = elim (Option-cases (lookup id s.identities)) [
  | inl e ↦ rw (e, step, add_capability) kept
  | inr (i, e) ↦
      rw (e, step, add_capability)
        (elim (Bool-cases (contains c i.capabilities_added)) [
          | inl already ↦ rw already kept
          | inr absent ↦
              rw absent (change-Move _ id j i (granted c now i) s.identities e (ground arith))
        ])
]
step-Move (removes id c now) s j = elim (Option-cases (lookup id s.identities)) [
  | inl e ↦ rw (e, step, remove_capability) kept
  | inr (i, e) ↦
      rw (e, step, remove_capability)
        (elim (Bool-cases (contains c i.capabilities_removed)) [
          | inl already ↦ rw already kept
          | inr absent ↦
              rw absent (change-Move _ id j i (deprived c now i) s.identities e (ground arith))
        ])
]
