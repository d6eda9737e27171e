-- ===== src/Base/Text.antt =====
-- Go's `strings` functions that the program calls, on native texts. `String` is the list of the
-- characters; `empty` and `cons` name its constructors.
pub mod Affixes
use Prim.Native.Nat.{ℕ, zero, suc, ◌+◌, ◌-◌, ◌*◌, ◌^◌}
use Prim.Native.Char.{Char, code}
use Prim.Native.String.{String, ◌++◌}
use text.Mathlib.TextLemmas.{nil-append, cons-append}
use mathlib.Core.Path.{◌≡◌, refl, ap}
use mathlib.Core.Bool.{Bool, true, false, ◌&&◌, ◌||◌}
use mathlib.Core.List.{List, [], ◌∷◌}
use mathlib.Core.Option.{Option, none, some}
use zakros.Base.Int.{ℤ, pos, sub_ℕ}
use zakros.Base.Tests.{ltb, leb, eqb, eqb_iff, if◌then◌else◌}

-- unicode.IsSpace
unfoldable pub is_space : ℕ → Bool
is_space c =
    leb 9 c && leb c 13
    || eqb c 32
    || eqb c 0x85
    || eqb c 0xa0
    || eqb c 0x1680
    || leb 0x2000 c && leb c 0x200a
    || eqb c 0x2028
    || eqb c 0x2029
    || eqb c 0x202f
    || eqb c 0x205f
    || eqb c 0x3000

unfoldable pub trim_left : String → String
trim_left String.[] = ""
trim_left (String.◌∷◌ c s) =
    let rest = trim_left s in if is_space (code c) then rest else String.◌∷◌ c s

abbrev pub snoc_trim : Char → String → String
snoc_trim c String.[] = if is_space (code c) then "" else String.◌∷◌ c ""
snoc_trim c (String.◌∷◌ d s) = String.◌∷◌ c (String.◌∷◌ d s)

unfoldable pub trim_right : String → String
trim_right String.[] = ""
trim_right (String.◌∷◌ c s) = snoc_trim c (trim_right s)

-- strings.TrimSpace
unfoldable pub trim_space : String → String
unfolding is_space trim_left trim_right
trim_space s = trim_right (trim_left s)

-- The rest of `s` after the prefix `p`; `none` if `p` is no prefix (strings.HasPrefix).
unfoldable pub strip_prefix : String → String → Option String
strip_prefix String.[] s = some s
strip_prefix (String.◌∷◌ c p) String.[] = none
strip_prefix (String.◌∷◌ c p) (String.◌∷◌ d s) =
    let rest = strip_prefix p s in if eqb (code c) (code d) then rest else none

-- s[:n] of a text that has as many characters; of a shorter one, for which Go panics, all of it.
unfoldable pub first : ℕ → String → String
first zero s = ""
first (suc n) String.[] = ""
first (suc n) (String.◌∷◌ c s) = String.◌∷◌ c (first n s)

-- strings.HasPrefix
unfoldable pub has_prefix : String → String → Bool
has_prefix String.[] s = true
has_prefix (String.◌∷◌ c p) String.[] = false
has_prefix (String.◌∷◌ c p) (String.◌∷◌ d s) = eqb (code c) (code d) && has_prefix p s

-- strings.Contains: some end of `s` begins with `p`.
unfoldable pub contains_text : String → String → Bool
unfolding has_prefix
contains_text p String.[] = has_prefix p String.[]
contains_text p (String.◌∷◌ c s) = has_prefix p (String.◌∷◌ c s) || contains_text p s

-- The functions of Go that consult the Unicode tables: strings.ToLower and strings.EqualFold.
pub record Casing : Type 0 where
  pub to_lower : String → String
  pub equal_fold : String → String → Bool

pub strip_prefix-append : (p s : String) → strip_prefix p (p ++ s) ≡ some s
unfolding strip_prefix
strip_prefix-append String.[] s = ap some (nil-append s)
strip_prefix-append (String.◌∷◌ c p) s =
    rw (cons-append c p s) (rw ((eqb_iff (code c) (code c)).1 refl) (strip_prefix-append p s))

abbrev flush : String → List String → List String
flush String.[] ws = ws
flush (String.◌∷◌ c w) ws = String.◌∷◌ c w ∷ ws

-- The word that a text begins with, and the words after it.
unfoldable words : String → String × List String
words String.[] = (String.[], [])
words (String.◌∷◌ c s) =
    let (w, ws) = words s in
    if is_space (code c) then (String.[], flush w ws) else (String.◌∷◌ c w, ws)

-- strings.Fields
unfoldable pub fields : String → List String
unfolding words is_space
fields s = let (w, ws) = words s in flush w ws

-- The end of `s` after the characters that pass the test (strings.TrimLeft).
unfoldable pub drop_while : (ℕ → Bool) → String → String
drop_while p String.[] = String.[]
drop_while p (String.◌∷◌ c s) =
    let rest = drop_while p s in if p (code c) then rest else String.◌∷◌ c s

-- The characters before the first that fails the test.
unfoldable pub take_while : (ℕ → Bool) → String → String
take_while p String.[] = String.[]
take_while p (String.◌∷◌ c s) =
    let rest = take_while p s in if p (code c) then String.◌∷◌ c rest else String.[]

-- The number of characters.
unfoldable pub text_length : String → ℕ
text_length String.[] = 0
text_length (String.◌∷◌ c s) = suc (text_length s)

-- The number that decimal digits write, after the digits read so far.
unfoldable pub decimal : ℕ → String → Option ℕ
decimal n String.[] = some n
decimal n (String.◌∷◌ c s) =
    let rest = decimal (10 * n + (code c - 48)) s in
    if leb 48 (code c) && leb (code c) 57 then rest else none

-- strconv.ParseInt(s, 10, 64)
unfoldable pub parse_int : String → Option ℤ
unfolding decimal
parse_int String.[] = none
parse_int (String.◌∷◌ c s) =
    if eqb (code c) 45
    then (if eqb (text_length s) 0 then none else elim (decimal 0 s) [
      | none ↦ none
      | some n ↦ if leb n (2 ^ 63) then some (sub_ℕ 0 n) else none
    ])
    else elim (if eqb (code c) 43
        then (if eqb (text_length s) 0 then none else decimal 0 s)
        else decimal 0 (String.◌∷◌ c s)) [
          | none ↦ none
          | some n ↦ if ltb n (2 ^ 63) then some (pos n) else none
        ]

-- strconv.ParseUint(s, 10, 64)
unfoldable pub parse_uint : String → Option ℕ
unfolding decimal
parse_uint s =
    if eqb (text_length s) 0
    then none
    else elim (decimal 0 s) [ none ↦ none | some n ↦ if ltb n (2 ^ 64) then some n else none ]
