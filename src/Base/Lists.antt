-- ===== src/Base/Lists.antt =====
-- Lists measured by native numbers, and Boolean searches that run.
use Prim.Native.Nat.{ℕ, zero, suc, ◌+◌, ◌-◌, ◌≤◌}
use mathlib.Core.Path.{◌≡◌, refl, ap}
use mathlib.Core.Logic.{◌⊎◌, inl, inr}
use mathlib.Core.Bool.{Bool, true, false, ◌||◌}
use mathlib.Core.List.{List, [], ◌∷◌, ◌++◌}
use native.Mathlib.Omega.{arith}
use zakros.Base.Tests.{if◌then◌else◌}

module _ {ℓ} {A : Type ℓ} where
  abbrev pub length : List A → ℕ
  length [] = 0
  length (x ∷ xs) = suc (length xs)

  abbrev pub take : ℕ → List A → List A
  take zero xs = []
  take (suc n) [] = []
  take (suc n) (x ∷ xs) = x ∷ take n xs

  abbrev pub drop : ℕ → List A → List A
  drop zero xs = xs
  drop (suc n) [] = []
  drop (suc n) (x ∷ xs) = drop n xs

  -- The elements that pass a Boolean test, in order.
  abbrev pub keep : (A → Bool) → List A → List A
  keep p [] = []
  keep p (x ∷ xs) = let rest = keep p xs in if p x then x ∷ rest else rest

  -- Some element passes.
  abbrev pub exists : (A → Bool) → List A → Bool
  exists p [] = false
  exists p (x ∷ xs) = p x || exists p xs

  -- Every element has a property.
  abbrev pub All {κ} : (A → Type κ) → List A → Type κ
  All P [] = Unit
  All P (x ∷ xs) = P x × All P xs

  pub length-append : (xs ys : List A) → length (xs ++ ys) ≡ length xs + length ys
  length-append [] ys = omega arith
  length-append (x ∷ xs) ys = omega (arith, length-append xs ys)

  pub length-take-le : (n : ℕ) (xs : List A) → length (take n xs) ≤ n
  length-take-le zero xs = omega arith
  length-take-le (suc n) [] = omega arith
  length-take-le (suc n) (x ∷ xs) = omega (arith, length-take-le n xs)

  pub length-drop : (n : ℕ) (xs : List A) → length (drop n xs) ≡ length xs - n
  length-drop zero xs = omega arith
  length-drop (suc n) [] = omega arith
  length-drop (suc n) (x ∷ xs) = omega (arith, length-drop n xs)

  pub take-append-drop : (n : ℕ) (xs : List A) → take n xs ++ drop n xs ≡ xs
  take-append-drop zero xs = refl
  take-append-drop (suc n) [] = refl
  take-append-drop (suc n) (x ∷ xs) = ap (◌∷◌ x) (take-append-drop n xs)

-- The element is one of the list.
pub data Has {ℓ} {A : Type ℓ} (x : A) : List A → Type ℓ where
  here : {ys : List A} → Has x (x ∷ ys)
  there : {y : A} {ys : List A} → Has x ys → Has x (y ∷ ys)

pub Has-cons {ℓ} : {A : Type ℓ} {x y : A} {ys : List A} → Has x (y ∷ ys) → (x ≡ y) ⊎ Has x ys
Has-cons here = inl refl
Has-cons (there m) = inr m

pub Has-one {ℓ} : {A : Type ℓ} {x y : A} → Has x (y ∷ []) → x ≡ y
Has-one h = elim (Has-cons h) [ inl e ↦ e | inr m ↦ elim m [ ] ]

pub keep-Has {ℓ} :
    {A : Type ℓ} (p : A → Bool) (x : A) {xs : List A} → Has x xs → p x ≡ true → Has x (keep p xs)
keep-Has p x here h = rw h here
keep-Has p x (there {y} m) h = go (p y) (keep-Has p x m h)
  where
    go : {zs : List _} → (b : Bool) → Has x zs → Has x (if b then y ∷ zs else zs)
    go true n = there n
    go false n = n

-- for _, x := range xs { … }
abbrev pub for_each {ℓ κ} : {A : Type ℓ} {W : Type κ} → (A → W → W) → List A → W → W
for_each f [] w = w
for_each f (x ∷ xs) w = for_each f xs (f x w)

pub keep-All {ℓ κ} :
    {A : Type ℓ} (P : A → Type κ) (p : A → Bool) (xs : List A)
    → All P xs
    → All (λ x. P x × (p x ≡ true)) (keep p xs)
keep-All P p [] h = tt
keep-All P p (x ∷ xs) h = go (p x) refl (keep-All P p xs h.1)
  where
    go :
        (b : Bool)
        → p x ≡ b
        → All (λ y. P y × (p y ≡ true)) (keep p xs)
        → All (λ y. P y × (p y ≡ true)) (if b then x ∷ keep p xs else keep p xs)
    go true e all = ((h.0, e), all)
    go false e all = all
