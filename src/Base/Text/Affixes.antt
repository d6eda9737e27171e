-- ===== src/Base/Text/Affixes.antt =====
-- Texts put together: what the scanning functions of Base.Text find at either end.
use Prim.Native.Nat.{ℕ}
use Prim.Native.Char.{Char, code}
use Prim.Native.String.{String, ◌++◌ as ◌<>◌}
use text.Mathlib.TextLemmas.{nil-append, cons-append}
use mathlib.Core.Path.{◌≡◌, refl, sym, ap, ◌∙◌, subst}
use mathlib.Core.Logic.{◌≢◌}
use mathlib.Core.Bool.{Bool, true, false}
use mathlib.Core.Option.{none}
use native.Mathlib.Omega.{arith}
use zakros.Base.Tests.{eqb}
use zakros.Base.Text.{
  strip_prefix, drop_while, take_while, text_length, trim_left, trim_right, snoc_trim, is_space,
}

-- The text begins with a character that fails the test.
abbrev pub Stops : (ℕ → Bool) → String → Type 0
Stops p String.[] = ⊥
Stops p (String.◌∷◌ c s) = p (code c) ≡ false

-- Every character passes.
abbrev pub Every : (ℕ → Bool) → String → Type 0
Every p String.[] = Unit
Every p (String.◌∷◌ c s) = (p (code c) ≡ true) × Every p s

drop_while-Stops : (p : ℕ → Bool) (s : String) → Stops p s → drop_while p s ≡ s
unfolding drop_while
drop_while-Stops p String.[] h = absurd h
drop_while-Stops p (String.◌∷◌ c s) h = rw h refl

take_while-Stops : (p : ℕ → Bool) (s : String) → Stops p s → take_while p s ≡ ""
unfolding take_while
take_while-Stops p String.[] h = absurd h
take_while-Stops p (String.◌∷◌ c s) h = rw h refl

pub drop_while-append :
    (p : ℕ → Bool) (v s : String) → Every p v → Stops p s → drop_while p (v <> s) ≡ s
unfolding drop_while
drop_while-append p String.[] s h k = rw (nil-append s) (drop_while-Stops p s k)
drop_while-append p (String.◌∷◌ c v) s (h, hs) k =
    rw (cons-append c v s) (rw h (drop_while-append p v s hs k))

pub take_while-append :
    (p : ℕ → Bool) (v s : String) → Every p v → Stops p s → take_while p (v <> s) ≡ v
unfolding take_while
take_while-append p String.[] s h k = rw (nil-append s) (take_while-Stops p s k)
take_while-append p (String.◌∷◌ c v) s (h, hs) k =
    rw (cons-append c v s) (rw h (ap (String.◌∷◌ c) (take_while-append p v s hs k)))

snoc_trim-filled : (c : Char) (s : String) → s ≢ "" → snoc_trim c s ≡ String.◌∷◌ c s
snoc_trim-filled c String.[] f = absurd (f refl)
snoc_trim-filled c (String.◌∷◌ d s) f = refl

append-filled : (p s : String) → s ≢ "" → (p <> s) ≢ ""
unfolding text_length
append-filled String.[] s f e = f (sym (nil-append s) ∙ e)
append-filled (String.◌∷◌ c p) s f e = ground (arith, ap text_length (sym (cons-append c p s) ∙ e))

trim_right-append : (p s : String) → s ≢ "" → trim_right s ≡ s → trim_right (p <> s) ≡ (p <> s)
unfolding trim_right
trim_right-append String.[] s f h = rw (nil-append s) h
trim_right-append (String.◌∷◌ c p) s f h = rw (cons-append c p s) (
    ap (snoc_trim c) (trim_right-append p s f h)
    ∙ snoc_trim-filled c (p <> s) (append-filled p s f))

-- A text that the first character of the key tells apart from it.
pub strip_prefix-apart :
    (c d : Char) (p s : String)
    → eqb (code c) (code d) ≡ false
    → strip_prefix (String.◌∷◌ c p) (String.◌∷◌ d s) ≡ none
unfolding strip_prefix
strip_prefix-apart c d p s h = rw h refl

-- The text has no blank at its end, and is not empty.
abbrev pub Ends : String → Type 0
Ends s = (s ≢ "") × (trim_right s ≡ s)

pub append-Ends : (p s : String) → Ends s → Ends (p <> s)
append-Ends p s (f, h) = (append-filled p s f, trim_right-append p s f h)

pub trim_left-Stops : (s : String) → Stops is_space s → trim_left s ≡ s
unfolding trim_left
trim_left-Stops String.[] h = absurd h
trim_left-Stops (String.◌∷◌ c s) h = rw h refl

-- A space before a text that begins with no blank.
pub space-dropped :
    (p : ℕ → Bool) (s : String) → p 32 ≡ true → Stops p s → drop_while p (" " <> s) ≡ s
space-dropped p s h k = drop_while-append p " " s (h, tt) k

pub key-Stops :
    (p : ℕ → Bool) (c : Char) (key s : String)
    → p (code c) ≡ false
    → Stops p (String.◌∷◌ c key <> s)
key-Stops p c key s h = subst (Stops p) (sym (cons-append c key s)) h
