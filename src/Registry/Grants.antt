-- ===== src/Registry/Grants.antt =====
-- Capability overrides and revocation (minos/identity/memstore/memstore.go, AddCapability,
-- RemoveCapability and Revoke).
use zakros.Base.{
  nat_equality, string_equality, List, [], ◌∷◌, ◌++◌, Option, none, some, true, false, not, ◌&&◌,
  ◌||◌, ◌≡◌, refl, sym, ◌∙◌, inl, inr, arith, eqb_iff, Bool-cases, subst, ◌==◌, same_text_iff,
}
use zakros.Base.Maps.{lookup, lookup-insert}
use zakros.Base.Clock.{Time}
use zakros.Storage.{Uuid}
use zakros.Identity.{Identity, Capability, active, revoked, contains, has_capability}
use zakros.Identity.Resolution.{has_capability_lem}
use zakros.Registry.{
  Registry, Call, granted, deprived, filter_out, add_capability, remove_capability, step, run, Fits,
  AllFit,
}
use zakros.Registry.Moves.{Move, kept, added, changed, step-Move}

contains-append :
    (c d : Capability) (ds : List Capability)
    → contains c (ds ++ d ∷ []) ≡ (contains c ds || (d == c))
unfolding contains
contains-append c d [] = ground arith
contains-append c d (e ∷ es) = ground (arith, contains-append c d es)

contains-filter_out :
    (c d : Capability) (ds : List Capability)
    → contains c (filter_out d ds) ≡ (contains c ds && not (d == c))
unfolding contains filter_out
contains-filter_out c d [] = refl
contains-filter_out c d (e ∷ es) =
    ground
      (arith, contains-filter_out c d es, same_text_iff e c, same_text_iff d c, same_text_iff e d)

-- No capability is both added and removed.
abbrev IsDisjoint : Identity → Type 0
IsDisjoint i =
    (c : Capability)
    → contains c i.capabilities_added ≡ true
    → contains c i.capabilities_removed ≡ false

granted_lem :
    (c d : Capability) (now : Time) (i : Identity)
    → i.status ≡ active
    → has_capability d (some (granted c now i)) ≡ (c == d || has_capability d (some i))
granted_lem c d now i live =
    rw (has_capability_lem d (granted c now i), has_capability_lem d i)
      (ground (
        arith,
        contains-append d c i.capabilities_added,
        contains-filter_out d c i.capabilities_removed,
      ))

-- Granting a capability to an active identity adds exactly that one to what it may do.
add_capability_lem :
    (id : Uuid) (c d : Capability) (now : Time) (s : Registry) (i : Identity)
    → lookup id s.identities ≡ some i
    → i.status ≡ active
    → has_capability d (lookup id (add_capability id c now s).0.identities)
      ≡ (c == d || has_capability d (some i))
unfolding add_capability
add_capability_lem id c d now s i e live = elim (Bool-cases (contains c i.capabilities_added)) [
  | inl already ↦
      rw (e, add_capability)
        (rw (already, e) (ground (arith, has_capability_lem d i, same_text_iff c d, already_lem)))
  | inr absent ↦
      rw (e, add_capability)
        (rw (absent, lookup-insert id id (granted c now i) s.identities, (eqb_iff id id).1 refl)
          (granted_lem c d now i live))
]
  where
    already_lem : c ≡ d → contains c i.capabilities_added ≡ contains d i.capabilities_added
    already_lem p = cc

deprived_lem :
    (c d : Capability) (now : Time) (i : Identity)
    → has_capability d (some (deprived c now i)) ≡ (has_capability d (some i) && not (c == d))
deprived_lem c d now i =
    rw (has_capability_lem d (deprived c now i), has_capability_lem d i)
      (ground (
        arith,
        contains-append d c i.capabilities_removed,
        contains-filter_out d c i.capabilities_added,
      ))

-- Removing a capability takes exactly that one away, if the identity's overrides do not conflict.
remove_capability_lem :
    (id : Uuid) (c d : Capability) (now : Time) (s : Registry) (i : Identity)
    → IsDisjoint i
    → lookup id s.identities ≡ some i
    → has_capability d (lookup id (remove_capability id c now s).0.identities)
      ≡ (has_capability d (some i) && not (c == d))
unfolding remove_capability
remove_capability_lem id c d now s i dis e = elim (Bool-cases (contains c i.capabilities_removed)) [
  | inl already ↦
      rw (e, remove_capability)
        (rw (already, e) (ground (arith, has_capability_lem d i, same_text_iff c d, same_c, dis c)))
  | inr absent ↦
      rw (e, remove_capability)
        (rw (absent, lookup-insert id id (deprived c now i) s.identities, (eqb_iff id id).1 refl)
          (deprived_lem c d now i))
]
  where
    same_c :
        c ≡ d
        → (contains c i.capabilities_removed ≡ contains d i.capabilities_removed)
          × (contains c i.capabilities_added ≡ contains d i.capabilities_added)
    same_c p = (cc, cc)

abbrev Revoked : Option Identity → Type 0
Revoked none = ⊥
Revoked (some i) = i.status ≡ revoked

step-Revoked :
    (c : Call) (s : Registry) (j : Uuid)
    → Fits c s
    → Revoked (lookup j s.identities)
    → Revoked (lookup j (step c s).identities)
step-Revoked c s j f h = go (lookup j s.identities) refl (step-Move c s j) h
  where
    go :
        {p : Option Identity} (o : Option Identity)
        → lookup j s.identities ≡ o
        → Move c j o p
        → Revoked o
        → Revoked p
    go o e kept r = r
    go o e (added now fresh i _ call same) r = absurd (
        subst Revoked
          (sym e ∙ subst (λ k. lookup k s.identities ≡ none) same (subst (λ d. Fits d s) call f)) r)
    go o e (changed i u kin) r = ground arith

has-Revoked : (c : Capability) (o : Option Identity) → Revoked o → has_capability c o ≡ false
has-Revoked c none h = absurd h
has-Revoked c (some i) h = rw (has_capability_lem c i, h)

-- A revoked identity has no capability, and no sequence of registry writes gives it one again.
run-revoked :
    (cs : List Call) (s : Registry) (id : Uuid) (i : Identity) (c : Capability)
    → AllFit cs s
    → lookup id s.identities ≡ some i
    → i.status ≡ revoked
    → has_capability c (lookup id (run cs s).identities) ≡ false
unfolding run
run-revoked cs s id i c f e h = has-Revoked c _ (stays cs s f (subst Revoked (sym e) h))
  where
    stays :
        (ds : List Call) (t : Registry)
        → AllFit ds t
        → Revoked (lookup id t.identities)
        → Revoked (lookup id (run ds t).identities)
    stays [] t g r = r
    stays (d ∷ ds) t g r = stays ds (step d t) g.1 (step-Revoked d t id g.0 r)
