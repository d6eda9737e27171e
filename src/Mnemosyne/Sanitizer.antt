-- ===== src/Mnemosyne/Sanitizer.antt =====
-- The redaction of run records (mnemosyne/core/sanitize.go). A character stands for a byte.
pub mod Redaction
use Prim.Native.Char.{Char, code}
use zakros.Base.{
  ℕ, zero, suc, ◌-◌, String, ◌<>◌, List, [], ◌∷◌, ◌++◌, map, Option, none, some, Bool, true, false,
  ◌&&◌, ◌||◌, ◌==◌, string_equality, if◌then◌else◌, ltb, leb, eqb,
}
use zakros.Base.Text.{has_prefix, text_length}

-- A part of a regular expression: a character of a class, once, at most once, or as often as
-- possible.
pub data Atom : Type 0 where
  one opt many : (ℕ → Bool) → Atom

abbrev longer : Option ℕ → Option ℕ → Option ℕ
longer none o = o
longer (some n) o = some (suc n)

unfoldable at_most_once : (ℕ → Bool) → (String → Option ℕ) → String → Option ℕ
at_most_once p next String.[] = next String.[]
at_most_once p next (String.◌∷◌ c s) =
    if p (code c) then longer (next s) (next (String.◌∷◌ c s)) else next (String.◌∷◌ c s)

unfoldable repeated : (ℕ → Bool) → (String → Option ℕ) → String → Option ℕ
repeated p next String.[] = next String.[]
repeated p next (String.◌∷◌ c s) =
    let more = repeated p next s in
    if p (code c) then longer more (next (String.◌∷◌ c s)) else next (String.◌∷◌ c s)

-- The length of the match with which a text begins: greedy, with backtracking.
unfoldable pub matched : List Atom → String → Option ℕ
unfolding at_most_once repeated
matched [] s = some 0
matched (one p ∷ r) String.[] = none
matched (one p ∷ r) (String.◌∷◌ c s) =
    let rest = matched r s in if p (code c) then longer rest none else none
matched (opt p ∷ r) s = at_most_once p (matched r) s
matched (many p ∷ r) s = repeated p (matched r) s

abbrev times : ℕ → (ℕ → Bool) → List Atom
times zero p = []
times (suc n) p = one p ∷ times n p

-- {n,}
abbrev at_least : ℕ → (ℕ → Bool) → List Atom
at_least n p = times n p ++ many p ∷ []

abbrev literal : String → List Atom
literal String.[] = []
literal (String.◌∷◌ c s) = one (eqb (code c)) ∷ literal s

abbrev is_one_of : String → ℕ → Bool
is_one_of String.[] c = false
is_one_of (String.◌∷◌ d s) c = eqb (code d) c || is_one_of s c

abbrev is_upper : ℕ → Bool
is_upper c = leb b'A' c && leb c b'Z'

abbrev is_digit : ℕ → Bool
is_digit c = leb b'0' c && leb c b'9'

abbrev is_alnum : ℕ → Bool
is_alnum c = is_upper c || leb b'a' c && leb c b'z' || is_digit c

-- The class \s.
abbrev is_white : ℕ → Bool
is_white c = eqb c 9 || eqb c 10 || eqb c 12 || eqb c 13 || eqb c 32

abbrev or_of : String → (ℕ → Bool) → ℕ → Bool
or_of extra p c = p c || is_one_of extra c

abbrev pub patterns : List (List Atom)
patterns =
    (literal "gh" ++ one (is_one_of "pousr") ∷ literal "_" ++ at_least 20 (or_of "_" is_alnum))
    ∷ (literal "xox" ++ one (is_one_of "abp") ∷ literal "-" ++ at_least 1 (or_of "-" is_alnum))
    ∷ (times 24 (or_of "_-" is_alnum)
        ++ literal "."
        ++ times 6 (or_of "_-" is_alnum)
        ++ literal "."
        ++ at_least 27 (or_of "_-" is_alnum))
    ∷ (literal "AKIA" ++ times 16 (λ c. is_digit c || is_upper c))
    ∷ (literal "-----BEGIN " ++ many (or_of " " is_upper) ∷ literal "PRIVATE KEY-----")
    ∷ (literal "Bearer"
        ++ at_least 1 (is_one_of "\t\n\u{c}\r ")
        ++ at_least 16 (or_of "-_.=" is_alnum))
    ∷ (literal "sk-ant-" ++ at_least 20 (or_of "_-" is_alnum))
    ∷ (at_least 40 (or_of "+/" is_alnum) ++ opt (eqb b'=') ∷ opt (eqb b'=') ∷ [])
    ∷ []

abbrev pub redaction : String
redaction = "<redacted>"

-- ReplaceAll by the placeholder: the matches from the left, none within another. `m` gives the
-- length of the match with which a text begins, and the number counts what is left of the last one.
unfoldable pub redact : (String → Option ℕ) → String → ℕ → String
redact m String.[] k = ""
redact m (String.◌∷◌ c s) (suc k) = redact m s k
redact m (String.◌∷◌ c s) zero = elim (m (String.◌∷◌ c s)) [
  | none ↦ String.◌∷◌ c (redact m s zero)
  | some n ↦ redaction <> redact m s (n - 1)
]

-- The match of a known value.
abbrev pub exactly : String → String → Option ℕ
exactly v s = if has_prefix v s then some (text_length v) else none

unfoldable pub redact_known : List String → String → String
unfolding redact
redact_known [] s = s
redact_known (v ∷ vs) s =
    redact_known vs (if ltb (text_length v) 4 then s else redact (exactly v) s 0)

unfoldable pub redact_patterns : List (List Atom) → String → String
unfolding redact matched
redact_patterns [] s = s
redact_patterns (p ∷ ps) s = redact_patterns ps (redact (matched p) s 0)

unfoldable pub sanitize : String → List String → String
unfolding redact_known redact_patterns
sanitize body known =
    if body == "" then body else redact_patterns patterns (redact_known known body)
