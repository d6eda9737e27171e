-- ===== src/Mnemosyne/Sanitizer/Redaction.antt =====
-- What the redaction leaves of a known value (mnemosyne/core/sanitize.go).
use Prim.Native.Char.{Char, code}
use zakros.Base.{
  ℕ, zero, suc, ◌-◌, ◌≤◌, String, ◌<>◌, List, [], ◌∷◌, Option, none, Bool, true, false, not, ◌&&◌,
  ◌≡◌, refl, ap, subst, sym, ltb, ◌==◌, string_equality, same_text_iff, ◌∙◌, arith, eqb, Has,
  Bool-cases, Option-cases, inl, inr,
}
use zakros.Base.Text.{has_prefix, contains_text, text_length}
use text.Mathlib.TextLemmas.{nil-append, cons-append, append_assoc}
use zakros.Mnemosyne.Sanitizer.{
  Atom, redact, exactly, redact_known, redact_patterns, patterns, matched, sanitize, redaction,
}

-- Neither < nor > occurs.
abbrev has_no_bracket : String → Bool
has_no_bracket String.[] = true
has_no_bracket (String.◌∷◌ c s) =
    not (eqb (code c) b'<') && not (eqb (code c) b'>') && has_no_bracket s

-- The values of which no part can come from the placeholder, and which are long enough.
pub record IsRedactable (v : String) : Type 0 where
  pub long : 4 ≤ text_length v
  pub plain : has_no_bracket v ≡ true
  pub foreign : contains_text v "redacted" ≡ false

-- A value without brackets that begins a text ends before its first bracket.
has_prefix-bracket :
    (v s : String) (c : Char) (t : String)
    → has_no_bracket v ≡ true
    → code c ≡ b'>'
    → has_prefix v (s <> String.◌∷◌ c t) ≡ true
    → has_prefix v s ≡ true
unfolding has_prefix
has_prefix-bracket String.[] s c t plain e h = refl
has_prefix-bracket (String.◌∷◌ d v) String.[] c t plain e h =
    let h' = rw (nil-append (String.◌∷◌ c t)) at h in ground arith
has_prefix-bracket (String.◌∷◌ d v) (String.◌∷◌ b s) c t plain e h =
    let h' = rw (cons-append b s (String.◌∷◌ c t)) at h in
    ground (arith, has_prefix-bracket v s c t)

-- What holds of no end of `s` and of no end of `t` holds of none of the text with a bracket between.
contains_text-bracket :
    (v s : String) (c : Char) (t : String)
    → has_no_bracket v ≡ true
    → code c ≡ b'>'
    → contains_text v s ≡ false
    → contains_text v t ≡ false
    → contains_text v (s <> String.◌∷◌ c t) ≡ false
unfolding contains_text
contains_text-bracket String.[] String.[] c t plain e h k = cc
contains_text-bracket (String.◌∷◌ d v) String.[] c t plain e h k =
    rw (nil-append (String.◌∷◌ c t)) (ground arith)
contains_text-bracket v (String.◌∷◌ b s) c t plain e h k = rw (cons-append b s (String.◌∷◌ c t)) (
    ground (
      arith,
      has_prefix-bracket v (String.◌∷◌ b s) c t,
      cons-append b s (String.◌∷◌ c t),
      contains_text-bracket v s c t,
    ))

-- Where `m` finds no match, no value begins.
abbrev Finds : (String → Option ℕ) → String → String → Type 0
Finds m v String.[] = has_prefix v "" ≡ false
Finds m v (String.◌∷◌ c s) =
    (m (String.◌∷◌ c s) ≡ none → has_prefix v (String.◌∷◌ c s) ≡ false) × Finds m v s

-- The placeholder with what follows it.
redaction-append : (t : String) → redaction <> t ≡ String.◌∷◌ "<" ("redacted" <> String.◌∷◌ ">" t)
redaction-append t =
    cons-append "<" "redacted>" t
    ∙ ap (String.◌∷◌ "<") (
        append_assoc "redacted" ">" t
        ∙ ap (◌<>◌ "redacted") (cons-append ">" "" t ∙ ap (String.◌∷◌ ">") (nil-append t)))

-- No value begins with a bracket.
has_prefix-opening :
    (v : String) (c : Char) (t : String)
    → has_no_bracket v ≡ true
    → 4 ≤ text_length v
    → code c ≡ b'<'
    → has_prefix v (String.◌∷◌ c t) ≡ false
unfolding has_prefix text_length
has_prefix-opening String.[] c t plain long e = absurd (omega arith)
has_prefix-opening (String.◌∷◌ d v) c t plain long e = ground arith

has_prefix-redact :
    (m : String → Option ℕ) (v s : String)
    → has_no_bracket v ≡ true
    → has_prefix v (redact m s 0) ≡ true
    → has_prefix v s ≡ true
unfolding has_prefix redact
has_prefix-redact m String.[] s plain h = refl
has_prefix-redact m (String.◌∷◌ d v) String.[] plain h = h
has_prefix-redact m (String.◌∷◌ d v) (String.◌∷◌ c s) plain h =
    elim (Option-cases (m (String.◌∷◌ c s))) [
      | inl e ↦ ground (arith, has_prefix-redact m v s)
      | inr (n, e) ↦ ground (arith, redaction-append (redact m s (n - 1)))
    ]

contains_text-redact :
    (m : String → Option ℕ) (v s : String) (k : ℕ)
    → IsRedactable v
    → Finds m v s
    → contains_text v (redact m s k) ≡ false
unfolding contains_text redact
contains_text-redact m v String.[] k r f = f
contains_text-redact m v (String.◌∷◌ c s) (suc k) r f = contains_text-redact m v s k r f.1
contains_text-redact m v (String.◌∷◌ c s) zero r f = elim (Option-cases (m (String.◌∷◌ c s))) [
  | inl e ↦
      rw (e, redact)
        (ground (
          arith,
          has_prefix-redact m v (String.◌∷◌ c s),
          contains_text-redact m v s 0 r f.1,
          f.0 e,
        ))
  | inr (n, e) ↦
      rw (e, redact)
        (rw (redaction-append (redact m s (n - 1))) (
          ground (
            arith,
            has_prefix-opening v "<" ("redacted" <> String.◌∷◌ ">" (redact m s (n - 1))),
            contains_text-bracket v "redacted" ">" (redact m s (n - 1)),
            contains_text-redact m v s (n - 1) r f.1,
          )))
]

-- A value that does not occur in a text does not occur in it after any redaction.
Finds-absent : (m : String → Option ℕ) (v s : String) → contains_text v s ≡ false → Finds m v s
unfolding contains_text
Finds-absent m v String.[] h = h
Finds-absent m v (String.◌∷◌ c s) h = ((λ e. ground (arith)), Finds-absent m v s (ground arith))

Finds-exactly : (v s : String) → 4 ≤ text_length v → Finds (exactly v) v s
unfolding text_length has_prefix
Finds-exactly String.[] s long = absurd (omega arith)
Finds-exactly (String.◌∷◌ d v) String.[] long = refl
Finds-exactly (String.◌∷◌ d v) (String.◌∷◌ c s) long =
    ((λ e. ground arith), Finds-exactly (String.◌∷◌ d v) s long)

redact_known-keeps_out :
    (v : String) (vs : List String) (s : String)
    → IsRedactable v
    → contains_text v s ≡ false
    → contains_text v (redact_known vs s) ≡ false
unfolding redact_known
redact_known-keeps_out v [] s r h = h
redact_known-keeps_out v (w ∷ ws) s r h =
    redact_known-keeps_out v ws _ r (elim (Bool-cases (ltb (text_length w) 4)) [
      | inl short ↦ rw short h
      | inr long ↦
          rw long (contains_text-redact (exactly w) v s 0 r (Finds-absent (exactly w) v s h))
    ])

ltb-long : (v : String) → IsRedactable v → ltb (text_length v) 4 ≡ false
ltb-long v r = ground (arith, r.long)

redact_known-removes :
    (v : String) {vs : List String} (s : String)
    → IsRedactable v
    → Has v vs
    → contains_text v (redact_known vs s) ≡ false
unfolding redact_known
redact_known-removes v s r (Has.here {ys}) =
    redact_known-keeps_out v ys _ r
      (rw (ltb-long v r) (contains_text-redact (exactly v) v s 0 r (Finds-exactly v s r.long)))
redact_known-removes v s r (Has.there m) = redact_known-removes v _ r m

redact_patterns-keeps_out :
    (v : String) (ps : List (List Atom)) (s : String)
    → IsRedactable v
    → contains_text v s ≡ false
    → contains_text v (redact_patterns ps s) ≡ false
unfolding redact_patterns
redact_patterns-keeps_out v [] s r h = h
redact_patterns-keeps_out v (p ∷ ps) s r h =
    redact_patterns-keeps_out v ps _ r
      (contains_text-redact (matched p) v s 0 r (Finds-absent (matched p) v s h))

-- No known value of four bytes or more stays in a sanitized body, if it has no < and no > and is no part of
-- the placeholder.
pub sanitize-removes :
    (body : String) (known : List String) (v : String)
    → IsRedactable v
    → Has v known
    → contains_text v (sanitize body known) ≡ false
unfolding sanitize contains_text
sanitize-removes body known v r m = elim (Bool-cases (body == "")) [
  | inl e ↦ rw e (
      subst (λ b. contains_text v b ≡ false) (sym ((same_text_iff body "").0 e))
        (Finds-exactly v "" r.long))
  | inr e ↦ rw e (redact_patterns-keeps_out v patterns _ r (redact_known-removes v body r m))
]
