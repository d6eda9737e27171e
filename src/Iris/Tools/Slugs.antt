-- ===== src/Iris/Tools/Slugs.antt =====
-- What slugify makes of a summary (agents/iris/internal/iris/tools.go).
use zakros.Base.{
  ℕ, zero, suc, ◌≤◌, String, List, [], ◌∷◌, Bool, true, false, not, ◌&&◌, ◌≡◌, inl, inr, refl,
  arith, length, eqb, if◌then◌else◌, Bool-cases,
}
use zakros.Iris.Tools.{slug_loop, trim_hyphens, before_end, slugify, is_plain, is_raised}

-- Lower-case letters and digits, with single hyphens between them. The flag says that a hyphen, or nothing, stands
-- before; `is_open` leaves out what the end demands.
abbrev pub is_slug : Bool → List ℕ → Bool
is_slug after [] = not after
is_slug after (b ∷ bs) =
    if eqb b b'-' then not after && is_slug true bs else is_plain b && is_slug false bs

abbrev is_open : Bool → List ℕ → Bool
is_open after [] = true
is_open after (b ∷ bs) =
    if eqb b b'-' then not after && is_open true bs else is_plain b && is_open false bs

slug_loop-open :
    (s : String) (room : ℕ) (hyphen : Bool) → is_open hyphen (slug_loop s room hyphen) ≡ true
unfolding slug_loop is_plain is_raised
slug_loop-open String.[] room hyphen = refl
slug_loop-open (String.◌∷◌ c s) zero hyphen = refl
slug_loop-open (String.◌∷◌ c s) (suc room) hyphen = ground (
  arith,
  slug_loop-open s room true,
  slug_loop-open s room false,
  slug_loop-open s (suc room) true,
)

length-slug_loop : (s : String) (room : ℕ) (hyphen : Bool) → length (slug_loop s room hyphen) ≤ room
unfolding slug_loop
length-slug_loop String.[] room hyphen = omega arith
length-slug_loop (String.◌∷◌ c s) zero hyphen = omega arith
length-slug_loop (String.◌∷◌ c s) (suc room) hyphen = ground (
  arith,
  length-slug_loop s room true,
  length-slug_loop s room false,
  length-slug_loop s (suc room) true,
)

-- What is left without the hyphens at the end.
abbrev Trimmed : Bool → List ℕ → ℕ → Type 0
Trimmed after [] n = Unit
Trimmed after (b ∷ bs) n = (is_slug after (b ∷ bs) ≡ true) × (length (b ∷ bs) ≤ n)

-- The flag that a byte leaves for the next one, if it may stand after the flag given.
abbrev Follows : Bool → Bool → ℕ → Type 0
Follows after next b = (if eqb b b'-' then not after && next else is_plain b && not next) ≡ true

before_end-Trimmed :
    (after next : Bool) (b : ℕ) (bs : List ℕ) (n : ℕ)
    → Trimmed next bs n
    → Follows after next b
    → Trimmed after (before_end b bs) (suc n)
before_end-Trimmed after next b [] n t f = elim (Bool-cases (eqb b b'-')) [
  | inl e ↦ rw e tt
  | inr e ↦ rw e (ground arith, omega arith)
]
before_end-Trimmed after true b (x ∷ xs) n t f = ground arith
before_end-Trimmed after false b (x ∷ xs) n t f = ground arith

trim_hyphens-Trimmed :
    (after : Bool) (bs : List ℕ)
    → is_open after bs ≡ true
    → Trimmed after (trim_hyphens bs) (length bs)
unfolding trim_hyphens
trim_hyphens-Trimmed after [] h = tt
trim_hyphens-Trimmed false (b ∷ bs) h = elim (Bool-cases (eqb b b'-')) [
  | inl e ↦
      before_end-Trimmed false true b (trim_hyphens bs) (length bs)
        (trim_hyphens-Trimmed true bs (ground arith)) (ground arith)
  | inr e ↦
      before_end-Trimmed false false b (trim_hyphens bs) (length bs)
        (trim_hyphens-Trimmed false bs (ground arith)) (ground arith)
]
trim_hyphens-Trimmed true (b ∷ bs) h = elim (Bool-cases (eqb b b'-')) [
  | inl e ↦ absurd (ground arith)
  | inr e ↦
      before_end-Trimmed true false b (trim_hyphens bs) (length bs)
        (trim_hyphens-Trimmed false bs (ground arith)) (ground arith)
]

-- The slug of a summary has 1 to 32 bytes, which are lower-case letters, digits and single hyphens, and begins and
-- ends with a letter or a digit.
pub slugify_bounds :
    (s : String)
    → (is_slug true (slugify s) ≡ true) × (1 ≤ length (slugify s)) × (length (slugify s) ≤ 32)
unfolding slugify is_plain
slugify_bounds s =
    go (trim_hyphens (slug_loop s 32 true))
      (trim_hyphens-Trimmed true (slug_loop s 32 true) (slug_loop-open s 32 true))
  where
    go :
        (bs : List ℕ)
        → Trimmed true bs (length (slug_loop s 32 true))
        → let r : List ℕ = elim bs [ [] ↦ b't' ∷ b'a' ∷ b's' ∷ b'k' ∷ [] | b ∷ rest ↦ b ∷ rest ] in
          (is_slug true r ≡ true) × (1 ≤ length r) × (length r ≤ 32)
    go [] t = ground arith
    go (b ∷ rest) t = (t.0, omega arith, omega (arith, length-slug_loop s 32 true))
