-- ===== src/Minos/Bootstrap/Additions.antt =====
-- What one step of the seed of the identity registry adds (minos/core/bootstrap.go, bootstrapIdentities).
use zakros.Base.{
  string_equality, nat_equality, String, List, [], ◌∷◌, Option, none, some, true, false, ◌||◌, ◌==◌,
  ◌≡◌, ◌⊎◌, inl, inr, refl, sym, ap, arith, if◌then◌else◌, Option-cases, Bool-cases, same_text_iff,
}
use zakros.Base.Maps.{Map, lookup, insert}
use zakros.Storage.{Uuid}
use zakros.Identity.{Role, active, Identity}
use zakros.Registry.{Registry, at_surface, find_surface, lookup_by_surface, insert_identity, stored}
use zakros.Minos.Bootstrap.{Seed, BootstrapError, incomplete, seeded, bootstrap_one}

-- The first identity of a surface stays the first when another one is put under a new key.
find_surface-insert_new :
    (surface surface_id : String) (k : Uuid) (v : Identity) (m : Map Uuid Identity)
    → lookup k m ≡ none
    → find_surface surface surface_id (insert k v m) ≡ (elim (find_surface surface surface_id m) [
      | none ↦ if at_surface surface surface_id v then some v else none
      | some i ↦ some i
    ])
unfolding lookup insert find_surface
find_surface-insert_new surface surface_id k v [] h = ground arith
find_surface-insert_new surface surface_id k v ((j, w) ∷ m) h =
    ground (arith, find_surface-insert_new surface surface_id k v m)

-- Whoever is registered keeps the identity.
abbrev pub Keeps : Registry → Registry → Type 0
Keeps s v =
    (surface surface_id : String) (i : Identity)
    → find_surface surface surface_id s.identities ≡ some i
    → find_surface surface surface_id v.identities ≡ some i

-- The surface and the identifier that one of the seeds names.
abbrev pub Names : List Seed → String → String → Type 0
Names [] surface surface_id = ⊥
Names (a ∷ rest) surface surface_id =
    ((a.surface ≡ surface) × (a.surface_id ≡ surface_id)) ⊎ Names rest surface surface_id

-- What may be registered for a surface and an identifier there, by its role.
abbrev pub Allowance : Type 1
Allowance = String → String → Role → Type 0

-- Whoever is registered was so before, or is active and allowed.
abbrev pub Adds : Allowance → Registry → Registry → Type 0
Adds R s v =
    (surface surface_id : String) (i : Identity)
    → find_surface surface surface_id v.identities ≡ some i
    → (find_surface surface surface_id s.identities ≡ some i)
      ⊎ (R surface surface_id i.role × (i.status ≡ active))

-- The seed is complete, and registered.
abbrev pub IsRegistered : Registry → Seed → Type 0
IsRegistered v a =
    ((a.surface == "" || a.surface_id == "") ≡ false)
    × (i : Identity) × (find_surface a.surface a.surface_id v.identities ≡ some i)

-- The identifier that an insertion draws is not in use.
abbrev pub IsFresh : Seed → Registry → Type 0
IsFresh a s = lookup a.fresh s.identities ≡ none

abbrev inserted : Role → Seed → Registry → Registry
inserted role a s = record s {
  identities = insert a.fresh (stored a.now a.fresh (seeded role a)) s.identities;
}

insert_seeded :
    (role : Role) (a : Seed) (s : Registry)
    → find_surface a.surface a.surface_id s.identities ≡ none
    → insert_identity a.now a.fresh (seeded role a) s ≡ (inserted role a s, none)
unfolding insert_identity
insert_seeded role a s e = rw (e, insert_identity) refl

-- The three ways in which the body of the loop ends.
bootstrap_one-cases :
    (role : Role) (a : Seed) (s : Registry)
    → (bootstrap_one role a s ≡ (s, some (incomplete role)))
      ⊎ ((IsRegistered s a × (bootstrap_one role a s ≡ (s, none)))
          ⊎ (((a.surface == "" || a.surface_id == "") ≡ false)
              × (find_surface a.surface a.surface_id s.identities ≡ none)
              × (bootstrap_one role a s ≡ (inserted role a s, none))))
unfolding bootstrap_one lookup_by_surface
bootstrap_one-cases role a s = elim (Bool-cases (a.surface == "" || a.surface_id == "")) [
  | inl empty ↦ inl (ground arith)
  | inr full ↦ elim (Option-cases (find_surface a.surface a.surface_id s.identities)) [
    | inr (i, e) ↦ inr (inl ((full, i, e), ground arith))
    | inl e ↦ inr (
        inr (
          full,
          e,
          rw (full, bootstrap_one)
              (rw e
                (rw (insert_seeded role a s e) (ap (λ r. (r.0, none)) (insert_seeded role a s e)))),
        ))
  ]
]

-- What one pass of the loop, or all of them, leave.
abbrev pub Seeds :
    Allowance → (Registry → Type 0) → Registry → Registry × Option BootstrapError → Type 0
Seeds R P s (v, e) = Keeps s v × Adds R s v × (e ≡ none → P v)

pub weaken-Seeds :
    (R S : Allowance) (P : Registry → Type 0) (s : Registry) (r : Registry × Option BootstrapError)
    → ((x y : String) (role : Role) → R x y role → S x y role)
    → Seeds R P s r
    → Seeds S P s r
weaken-Seeds R S P s (v, e) f (k, a, h) = (
  k,
  (λ x y i q. elim (a x y i q) [
    | inl old ↦ inl old
    | inr (role, live) ↦ inr (f x y i.role role, live)
  ]),
  h,
)

-- An identity of the role for a surface that one of the seeds names.
abbrev pub OfRole : Role → List Seed → Allowance
OfRole role seeds surface surface_id r = (r ≡ role) × Names seeds surface surface_id

at_surface-named :
    (x y : String) (i : Identity) → at_surface x y i ≡ true → (i.surface ≡ x) × (i.surface_id ≡ y)
at_surface-named x y i h =
    (ground (arith, same_text_iff i.surface x), ground (arith, same_text_iff i.surface_id y))

pub bootstrap_one-Seeds :
    (role : Role) (a : Seed) (s : Registry)
    → IsFresh a s
    → Seeds (OfRole role (a ∷ [])) (λ v. IsRegistered v a) s (bootstrap_one role a s)
bootstrap_one-Seeds role a s free = elim (bootstrap_one-cases role a s) [
  | inl e ↦ rw e ((λ _ _ _ h. h), (λ _ _ _ h. inl h), λ h. ground arith)
  | inr (inl (there, e)) ↦ rw e ((λ _ _ _ h. h), (λ _ _ _ h. inl h), λ _. there)
  | inr (inr (full, f, e)) ↦ rw e (
    kept,
    added,
    λ _. (
      full,
      new,
      ground (
        arith,
        placed a.surface a.surface_id,
        same_text_iff a.surface a.surface,
        same_text_iff a.surface_id a.surface_id,
      ),
    ),
  )
]
  where
    new : Identity
    new = stored a.now a.fresh (seeded role a)

    placed :
        (x y : String)
        → find_surface x y (inserted role a s).identities ≡ (elim (find_surface x y s.identities) [
          | none ↦ if at_surface x y new then some new else none
          | some i ↦ some i
        ])
    placed x y = find_surface-insert_new x y a.fresh new s.identities free

    kept : Keeps s (inserted role a s)
    kept x y i h = ground (arith, placed x y)

    added : Adds (OfRole role (a ∷ [])) s (inserted role a s)
    added x y i h = elim (Option-cases (find_surface x y s.identities)) [
      | inr (j, e) ↦ inl (ground (arith, placed x y))
      | inl e ↦ elim (Bool-cases (at_surface x y new)) [
        | inl at ↦
            let same : new ≡ i = ground (arith, placed x y) in
            let here = at_surface-named x y new at in
            inr ((sym (ap (λ z. z.role) same), inl here), sym (ap (λ z. z.status) same))
        | inr off ↦ ground (arith, placed x y)
      ]
    ]
