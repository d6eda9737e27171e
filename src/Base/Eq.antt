-- ===== src/Base/Eq.antt =====
-- Equality tests: an interface, with its instances at numbers and at texts.
use Prim.Native.Nat.{ℕ}
use Prim.Native.String.{String}
use mathlib.Core.Path.{◌≡◌, refl}
use mathlib.Core.Logic.{◌↔◌}
use mathlib.Core.Bool.{Bool, true}
use text.Mathlib.Text.{◌==◌ as text_eq}
use text.Mathlib.TextEquality.{eq_iff}
use zakros.Base.Tests.{eqb, eqb_iff}

pub record Equality {ℓ} (A : Type ℓ) : Type ℓ where
  pub same : A → A → Bool
  pub same_iff : (x y : A) → (same x y ≡ true) ↔ (x ≡ y)

module _ {ℓ} {A : Type ℓ} ⦃e : Equality A⦄ where
  infix 50 ◌==◌
  abbrev pub ◌==◌ : A → A → Bool
  x == y = e.same x y

  pub ==_refl : (x : A) → (x == x) ≡ true
  ==_refl x = (e.same_iff x x).1 refl

instance abbrev pub nat_equality : Equality ℕ
nat_equality = record { same = eqb; same_iff = eqb_iff }

instance abbrev pub string_equality : Equality String
string_equality = record { same = text_eq; same_iff = eq_iff }

abbrev pub same_text : String → String → Bool
same_text = text_eq

pub same_text_iff : (s t : String) → (same_text s t ≡ true) ↔ (s ≡ t)
same_text_iff = eq_iff
