-- ===== src/Base/Maps.antt =====
-- A Go map as an association list. The order of the entries stands for the order in which a `range`
-- over the map happens to visit them.
use mathlib.Core.Path.{◌≡◌, refl, subst}
use mathlib.Core.Bool.{Bool, true}
use mathlib.Core.Option.{Option, none, some}
use mathlib.Core.List.{List, [], ◌∷◌}
use native.Mathlib.Omega.{arith}
use zakros.Base.Tests.{some-eq, if◌then◌else◌}
use zakros.Base.Lists.{All}
use zakros.Base.Eq.{Equality, ◌==◌}

abbrev pub Map {ℓ κ} : Type ℓ → Type κ → Type (ℓ ⊔ κ)
Map K V = List (K × V)

module _ {ℓ κ} {K : Type ℓ} {V : Type κ} where
  abbrev pub values : Map K V → List V
  values [] = []
  values ((k, v) ∷ m) = v ∷ values m

module _ {ℓ κ} {K : Type ℓ} {V : Type κ} ⦃e : Equality K⦄ where
  -- delete(m, k)
  unfoldable pub remove : K → Map K V → Map K V
  remove k [] = []
  remove k ((j, w) ∷ m) = let rest = remove k m in if j == k then rest else (j, w) ∷ rest

  -- m[k] = v
  unfoldable pub insert : K → V → Map K V → Map K V
  insert k v [] = (k, v) ∷ []
  insert k v ((j, w) ∷ m) = if j == k then (j, v) ∷ m else (j, w) ∷ insert k v m

  -- v, ok := m[k]
  unfoldable pub lookup : K → Map K V → Option V
  lookup k [] = none
  lookup k ((j, v) ∷ m) = if j == k then some v else lookup k m

  -- for k, v := range m { if stale(v) { delete(m, k) } }
  unfoldable pub purge : (V → Bool) → Map K V → Map K V
  purge stale [] = []
  purge stale ((j, w) ∷ m) = let rest = purge stale m in if stale w then rest else (j, w) ∷ rest

  -- No key stands twice.
  abbrev pub IsMap : Map K V → Type κ
  IsMap [] = Unit
  IsMap ((k, v) ∷ m) = (lookup k m ≡ none) × IsMap m

  pub lookup-insert :
      (key k : K) (value : V) (m : Map K V)
      → lookup k (insert key value m) ≡ (if key == k then some value else lookup k m)
  unfolding lookup insert
  lookup-insert key k value [] = ground arith
  lookup-insert key k value ((j, old) ∷ rest) =
      ground
        (arith, lookup-insert key k value rest, e.same_iff key k, e.same_iff j key, e.same_iff j k)

  pub lookup-here :
      (k j : K) (v w : V) (m : Map K V) → (j == k) ≡ true → lookup k ((j, v) ∷ m) ≡ some w → v ≡ w
  unfolding lookup
  lookup-here k j v w m here h =
      some-eq (subst (λ b. (if b then some v else lookup k m) ≡ some w) here h)

  pub lookup-remove :
      (k j : K) (m : Map K V) → lookup j (remove k m) ≡ (if k == j then none else lookup j m)
  unfolding lookup remove
  lookup-remove k j [] = ground arith
  lookup-remove k j ((i, w) ∷ m) =
      ground (arith, e.same_iff k j, e.same_iff i k, e.same_iff i j, lookup-remove k j m)

  lookup_same : (j k : K) (m : Map K V) → j ≡ k → lookup j m ≡ none → lookup k m ≡ none
  lookup_same j k m p h = subst (λ i. lookup i m ≡ none) p h

  pub lookup-purge :
      (stale : V → Bool) (k : K) (m : Map K V)
      → IsMap m
      → lookup k (purge stale m)
        ≡ elim (lookup k m) [ none ↦ none | some v ↦ if stale v then none else some v ]
  unfolding lookup purge
  lookup-purge stale k [] d = refl
  lookup-purge stale k ((j, w) ∷ m) d =
      ground (arith, lookup-purge stale k m d.1, e.same_iff j k, lookup_same j k m)

  purge-missing :
      (stale : V → Bool) (k : K) (m : Map K V) → lookup k m ≡ none → lookup k (purge stale m) ≡ none
  unfolding lookup purge
  purge-missing stale k [] h = refl
  purge-missing stale k ((j, w) ∷ m) h = ground (arith, purge-missing stale k m)

  pub lookup-tail :
      (k j : K) (v u : V) (m : Map K V)
      → IsMap ((k, v) ∷ m)
      → lookup j m ≡ some u
      → lookup j ((k, v) ∷ m) ≡ some u
  unfolding lookup
  lookup-tail k j v u m d f = ground (arith, e.same_iff k j, lookup_same k j m, d.0, f)

  -- What holds of every value that a lookup finds holds of all values.
  pub values-All {μ} :
      (P : V → Type μ) (m : Map K V)
      → IsMap m
      → ((k : K) (v : V) → lookup k m ≡ some v → P v)
      → All P (values m)
  unfolding lookup
  values-All P [] d h = tt
  values-All P ((k, v) ∷ m) d h = (
    h k v (ground (arith, e.same_iff k k)),
    values-All P m d.1 (λ j u f. h j u (ground (arith, e.same_iff k j, lookup_same k j m, d.0, f))),
  )

  pub purge-IsMap : (stale : V → Bool) (m : Map K V) → IsMap m → IsMap (purge stale m)
  unfolding purge
  purge-IsMap stale [] d = tt
  purge-IsMap stale ((j, w) ∷ m) d = ground (arith, purge-IsMap stale m, purge-missing stale j m)

  pub insert-IsMap : (k : K) (v : V) (m : Map K V) → IsMap m → IsMap (insert k v m)
  unfolding insert lookup
  insert-IsMap k v [] h = (refl, tt)
  insert-IsMap k v ((i, w) ∷ m) h =
      ground (arith, insert-IsMap k v m, lookup-insert k i v m, e.same_iff i k, e.same_iff k i)

  pub remove-IsMap : (k : K) (m : Map K V) → IsMap m → IsMap (remove k m)
  unfolding remove lookup
  remove-IsMap k [] h = tt
  remove-IsMap k ((i, w) ∷ m) h =
      ground (arith, remove-IsMap k m, lookup-remove k i m, e.same_iff i k, e.same_iff k i)

ruleset map_laws = (lookup-insert, lookup-remove)
