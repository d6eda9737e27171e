-- ===== src/Minos/Bootstrap/Seeding.antt =====
-- What the seed of the identity registry leaves (minos/core/bootstrap.go, bootstrapIdentities).
use zakros.Base.{
  map, string_equality, nat_equality, String, List, [], ◌∷◌, Option, none, some, ◌≡◌, ◌⊎◌, inl, inr,
  refl, ◌∙◌, ap, arith,
}
use zakros.Base.Clock.{Time}
use zakros.Storage.{Uuid}
use zakros.Identity.{Role, admin, system}
use zakros.Registry.{Registry, lookup_by_surface}
use zakros.Minos.Bootstrap.{
  Seed, BootstrapError, bootstrap_one, bootstrap_each, bootstrap_identities,
}
use zakros.Minos.Bootstrap.Additions.{
  Names, Allowance, Keeps, Adds, IsRegistered, IsFresh, Seeds, weaken-Seeds, OfRole,
  bootstrap_one-Seeds,
}

-- Each insertion of the loop draws an identifier that is not in use by then.
abbrev pub AllFresh : Role → List Seed → Registry → Type 0
AllFresh role [] s = Unit
AllFresh role (a ∷ rest) s = IsFresh a s × AllFresh role rest (bootstrap_one role a s).0

abbrev pub AllRegistered : List Seed → Registry → Type 0
AllRegistered [] v = Unit
AllRegistered (a ∷ rest) v = IsRegistered v a × AllRegistered rest v

kept-IsRegistered : (a : Seed) (s v : Registry) → Keeps s v → IsRegistered s a → IsRegistered v a
kept-IsRegistered a s v k (full, i, e) = (full, i, k a.surface a.surface_id i e)

kept-AllRegistered :
    (seeds : List Seed) (s v : Registry) → Keeps s v → AllRegistered seeds s → AllRegistered seeds v
kept-AllRegistered [] s v k h = tt
kept-AllRegistered (a ∷ rest) s v k (h, hs) =
    (kept-IsRegistered a s v k h, kept-AllRegistered rest s v k hs)

-- One call after another, if the first does not fail.
then-Seeds :
    (R : Allowance) (P Q : Registry → Type 0) (s : Registry) (r : Registry × Option BootstrapError)
    (f : Registry → Registry × Option BootstrapError)
    → ((v w : Registry) → Keeps v w → P v → P w)
    → Seeds R P s r
    → Seeds R Q r.0 (f r.0)
    → Seeds R (λ v. P v × Q v) s (elim r.1 [ some x ↦ (r.0, some x) | none ↦ f r.0 ])
then-Seeds R P Q s (v, some x) f stays (k, a, h) (k', a', h') = (k, a, λ e. ground arith)
then-Seeds R P Q s (v, none) f stays (k, a, h) (k', a', h') =
    ((λ x y i e. k' x y i (k x y i e)), added, λ e. (stays v (f v).0 k' (h refl), h' e))
  where
    added : Adds R s (f v).0
    added x y i e = elim (a' x y i e) [ inl e' ↦ a x y i e' | inr new ↦ inr new ]

bootstrap_each-Seeds :
    (role : Role) (seeds : List Seed) (s : Registry)
    → AllFresh role seeds s
    → Seeds (OfRole role seeds) (AllRegistered seeds) s (bootstrap_each role seeds s)
unfolding bootstrap_each
bootstrap_each-Seeds role [] s free = ((λ _ _ _ h. h), (λ _ _ _ h. inl h), λ _. tt)
bootstrap_each-Seeds role (a ∷ rest) s (free, others) =
    then-Seeds (OfRole role (a ∷ rest)) (λ v. IsRegistered v a) (AllRegistered rest) s
      (bootstrap_one role a s) (bootstrap_each role rest) (kept-IsRegistered a)
      (weaken-Seeds (OfRole role (a ∷ [])) (OfRole role (a ∷ rest)) (λ v. IsRegistered v a) s
        (bootstrap_one role a s) (λ x y r h. (h.0, first_of h.1))
        (bootstrap_one-Seeds role a s free))
      (weaken-Seeds (OfRole role rest) (OfRole role (a ∷ rest)) (AllRegistered rest)
        (bootstrap_one role a s).0 (bootstrap_each role rest (bootstrap_one role a s).0)
        (λ x y r h. (h.0, inr h.1))
        (bootstrap_each-Seeds role rest (bootstrap_one role a s).0 others))
  where
    first_of : {x y : String} → Names (a ∷ []) x y → Names (a ∷ rest) x y
    first_of (inl h) = inl h
    first_of (inr h) = elim h [ ]

-- An admin for a surface of the first list, or a system identity for one of the second.
abbrev pub OfConfig : List Seed → List Seed → Allowance
OfConfig admins systems surface surface_id r =
    OfRole admin admins surface surface_id r ⊎ OfRole system systems surface surface_id r

-- The seed of the registry takes no identity away and changes none. Whoever it registers is active, and
-- either an admin whom the configuration lists as an admin, or a system identity that it lists as one; if
-- it succeeds, then every admin and every system identity of the configuration is registered. It is said of
-- insertions whose identifiers are not in use.
pub bootstrap_identities-Seeds :
    (admins systems : List Seed) (s : Registry)
    → AllFresh admin admins s
    → AllFresh system systems (bootstrap_each admin admins s).0
    → Seeds
        (OfConfig admins systems)
        (λ v. AllRegistered admins v × AllRegistered systems v)
        s
        (bootstrap_identities admins systems s)
unfolding bootstrap_identities
bootstrap_identities-Seeds admins systems s free free' =
    then-Seeds (OfConfig admins systems) (AllRegistered admins) (AllRegistered systems) s
      (bootstrap_each admin admins s) (bootstrap_each system systems) (kept-AllRegistered admins)
      (weaken-Seeds (OfRole admin admins) (OfConfig admins systems) (AllRegistered admins) s
        (bootstrap_each admin admins s) (λ _ _ _ h. inl h)
        (bootstrap_each-Seeds admin admins s free))
      (weaken-Seeds (OfRole system systems) (OfConfig admins systems) (AllRegistered systems)
        (bootstrap_each admin admins s).0
        (bootstrap_each system systems (bootstrap_each admin admins s).0) (λ _ _ _ h. inr h)
        (bootstrap_each-Seeds system systems (bootstrap_each admin admins s).0 free'))

-- The same tuple with another draw.
abbrev pub redrawn : (Seed → Uuid × Time) → Seed → Seed
redrawn draw a = record a { fresh = (draw a).0; now = (draw a).1 }

abbrev go_on :
    (Registry → Registry × Option BootstrapError)
    → Registry × Option BootstrapError
    → Registry × Option BootstrapError
go_on f r = elim r.1 [ some x ↦ (r.0, some x) | none ↦ f r.0 ]

bootstrap_each-registered :
    (role : Role) (draw : Seed → Uuid × Time) (seeds : List Seed) (v : Registry)
    → AllRegistered seeds v
    → bootstrap_each role (map (redrawn draw) seeds) v ≡ (v, none)
unfolding bootstrap_each bootstrap_one lookup_by_surface
bootstrap_each-registered role draw [] v h = refl
bootstrap_each-registered role draw (a ∷ rest) v ((full, i, e), hs) =
    ap (go_on (bootstrap_each role (map (redrawn draw) rest))) one
    ∙ bootstrap_each-registered role draw rest v hs
  where
    one : bootstrap_one role (redrawn draw a) v ≡ (v, none)
    one = ground arith

-- Once the seed has succeeded, another start with the same configuration changes nothing, whatever it
-- draws.
pub bootstrap_identities-idempotent :
    (admins systems : List Seed) (draw : Seed → Uuid × Time) (s : Registry)
    → AllFresh admin admins s
    → AllFresh system systems (bootstrap_each admin admins s).0
    → (bootstrap_identities admins systems s).1 ≡ none
    → bootstrap_identities
        (map (redrawn draw) admins)
        (map (redrawn draw) systems)
        (bootstrap_identities admins systems s).0
      ≡ ((bootstrap_identities admins systems s).0, none)
unfolding bootstrap_identities
bootstrap_identities-idempotent admins systems draw s free free' ok_all =
    again (bootstrap_identities admins systems s).0
      ((bootstrap_identities-Seeds admins systems s free free').2 ok_all)
  where
    again :
        (v : Registry)
        → AllRegistered admins v × AllRegistered systems v
        → bootstrap_identities (map (redrawn draw) admins) (map (redrawn draw) systems) v
          ≡ (v, none)
    again v (h, h') =
        ap (go_on (bootstrap_each system (map (redrawn draw) systems)))
          (bootstrap_each-registered admin draw admins v h)
        ∙ bootstrap_each-registered system draw systems v h'
