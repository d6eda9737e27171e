-- ===== src/Minos/Intake/Commands/Termination.antt =====
-- The loop of the parser of commissions ends (minos/core/intake.go, ParseCommissionCommand).
use zakros.Base.{
  ℕ, zero, suc, ◌≤◌, ◌<◌, ◌+◌, String, none, some, Bool, ◌≡◌, refl, arith, Option-cases, inl, inr,
}
use zakros.Base.Text.{strip_prefix, drop_while, take_while, text_length}
use zakros.Minos.Intake.Commands.{
  Key, Found, with_option, bare_value, close_quote, match_value, with_value, match_token, scan,
  is_blank, is_solid, not_quote,
}

drop_while-length : (p : ℕ → Bool) (s : String) → text_length (drop_while p s) ≤ text_length s
unfolding drop_while text_length
drop_while-length p String.[] = ground arith
drop_while-length p (String.◌∷◌ c s) = ground (arith, drop_while-length p s)

strip_prefix-length :
    (p s r : String) → strip_prefix p s ≡ some r → text_length s ≡ text_length p + text_length r
unfolding strip_prefix text_length
strip_prefix-length String.[] s r e = ground arith
strip_prefix-length (String.◌∷◌ c p) String.[] r e = ground arith
strip_prefix-length (String.◌∷◌ c p) (String.◌∷◌ d s) r e =
    ground (arith, strip_prefix-length p s r)

bare_value-length :
    (s v after : String) → bare_value s ≡ some (v, after) → text_length after ≤ text_length s
unfolding bare_value
bare_value-length s v after e = ground (arith, drop_while-length is_solid s)

close_quote-length :
    (whole inner rest v after : String)
    → text_length rest ≤ text_length whole
    → close_quote whole inner rest ≡ some (v, after)
    → text_length after ≤ text_length whole
unfolding close_quote text_length
close_quote-length whole inner String.[] v after h e = bare_value-length whole v after e
close_quote-length whole inner (String.◌∷◌ q rest) v after h e = ground arith

match_value-length :
    (s v after : String) → match_value s ≡ some (v, after) → text_length after ≤ text_length s
unfolding match_value text_length
match_value-length String.[] v after e = ground arith
match_value-length (String.◌∷◌ c s) v after e =
    let whole = String.◌∷◌ c s in
    let shorter = drop_while-length not_quote s in
    let fits : text_length (drop_while not_quote s) ≤ text_length whole = omega arith in
    ground (
      arith,
      close_quote-length whole (take_while not_quote s) (drop_while not_quote s) v after fits,
      bare_value-length whole v after,
    )

with_value-length :
    (k j : Key) (s v after : String)
    → with_value k s ≡ some (j, v, after)
    → text_length after ≤ text_length s
unfolding with_value
with_value-length k j s v after e = elim (Option-cases (match_value s)) [
  | inl none_here ↦ ground arith
  | inr ((u, rest), found) ↦
      ground (arith, match_value-length s u rest found, drop_while-length is_blank rest)
]

-- Each match takes at least its key from the text.
match_token-shorter :
    (k : Key) (s v after : String)
    → match_token s ≡ some (k, v, after)
    → text_length after < text_length s
unfolding match_token text_length
match_token-shorter k s v after e = elim (Option-cases (strip_prefix "repo=" s)) [
  | inr (r, found) ↦
      ground (arith, strip_prefix-length "repo=" s r found, with_value-length Key.repo k r v after)
  | inl none_here ↦ elim (Option-cases (strip_prefix "branch=" s)) [
    | inr (r, found) ↦
        ground
          (arith, strip_prefix-length "branch=" s r found, with_value-length Key.branch k r v after)
    | inl not_branch ↦ elim (Option-cases (strip_prefix "base=" s)) [
      | inr (r, found) ↦
          ground
            (arith, strip_prefix-length "base=" s r found, with_value-length Key.base k r v after)
      | inl not_base ↦ ground arith
    ]
  ]
]

-- A text that no option begins is where the loop stops.
pub scan-settled :
    (n : ℕ) (rest : String) (f : Found) → match_token rest ≡ none → scan n rest f ≡ (rest, f)
unfolding scan
scan-settled zero rest f e = refl
scan-settled (suc n) rest f e = rw (e, scan) refl

-- A text without characters.
match_token-empty : (s : String) → text_length s ≤ 0 → match_token s ≡ none
unfolding match_token text_length strip_prefix
match_token-empty String.[] h = refl
match_token-empty (String.◌∷◌ c s) h = ground arith

-- With as much fuel as the text has characters, the parser's loop stops only where no further option
-- follows, and more fuel changes nothing.
pub scan-stops :
    (n m : ℕ) (rest : String) (f : Found)
    → text_length rest ≤ n
    → n ≤ m
    → (match_token (scan n rest f).0 ≡ none) × (scan m rest f ≡ scan n rest f)
unfolding scan
scan-stops zero m rest f h l =
    let settled = match_token-empty rest h in (settled, scan-settled m rest f settled)
scan-stops (suc n) zero rest f h l = ground arith
scan-stops (suc n) (suc m) rest f h l = elim (Option-cases (match_token rest)) [
  | inl none_here ↦ rw (none_here, scan) (none_here, refl)
  | inr ((k, v, after), found) ↦
      rw (found, scan)
        (scan-stops n m after (with_option k v f)
          (ground (arith, match_token-shorter k rest v after found)) (omega arith))
]
