-- ===== src/Minos/Intake/Commands/Rendering.antt =====
-- A commission that is written out is read back (minos/core/intake.go, ParseCommissionCommand).
use zakros.Base.{
  ℕ, suc, String, ◌<>◌, string_equality, none, some, false, ◌≡◌, ◌≢◌, refl, sym, ap, ◌∙◌, subst,
  arith, eqb, same_text_iff, ok,
}
use Prim.Native.Char.{code}
use text.Mathlib.TextLemmas.{cons-append}
use zakros.Base.Text.{
  strip_prefix, strip_prefix-append, drop_while, text_length, trim_right, trim_space, is_space,
}
use zakros.Base.Text.Affixes.{
  Stops, Every, drop_while-append, take_while-append, strip_prefix-apart, Ends, append-Ends,
  trim_left-Stops, space-dropped, key-Stops,
}
use zakros.Minos.Intake.Commands.Termination.{scan-stops, scan-settled}
use zakros.Minos.Intake.Commands.{
  Key, bare_value, match_value, with_value, match_token, scan, is_blank, is_solid, is_indent,
  nothing_found, request_of, finish_command, parse_commission_command,
}

-- A value that needs no quotes.
abbrev pub IsBare : String → Type 0
IsBare String.[] = ⊥
IsBare (String.◌∷◌ c v) = (eqb (code c) 34 ≡ false) × Every is_solid (String.◌∷◌ c v)

bare-Every : (v : String) → IsBare v → Every is_solid v
bare-Every String.[] h = absurd h
bare-Every (String.◌∷◌ c v) h = h.1

bare-filled : (v : String) → IsBare v → v ≢ ""
unfolding text_length
bare-filled String.[] h e = h
bare-filled (String.◌∷◌ c v) h e = ground (arith, ap text_length e)

bare_value-append : (v s : String) → IsBare v → Stops is_solid s → bare_value (v <> s) ≡ some (v, s)
unfolding bare_value
bare_value-append v s h k =
    rw
      (
        take_while-append is_solid v s (bare-Every v h) k,
        drop_while-append is_solid v s (bare-Every v h) k,
      )
      (ground (arith, same_text_iff v "", bare-filled v h))

match_value-bare : (v s : String) → IsBare v → Stops is_solid s → match_value (v <> s) ≡ some (v, s)
unfolding match_value
match_value-bare String.[] s h k = absurd h
match_value-bare (String.◌∷◌ c v) s h k =
    let bare = bare_value-append (String.◌∷◌ c v) s h k in
    rw (cons-append c v s)
      (rw h.0 (subst (λ x. bare_value x ≡ some (String.◌∷◌ c v, s)) (cons-append c v s) bare))

with_value-bare :
    (k : Key) (v s rest : String)
    → IsBare v
    → Stops is_solid s
    → drop_while is_blank s ≡ rest
    → with_value k (v <> s) ≡ some (k, v, rest)
unfolding with_value
with_value-bare k v s rest h stops e =
    rw (match_value-bare v s h stops, with_value) (ap (λ x. some (k, v, x)) e)

match_token-repo :
    (v s rest : String)
    → IsBare v
    → Stops is_solid s
    → drop_while is_blank s ≡ rest
    → match_token ("repo=" <> (v <> s)) ≡ some (Key.repo, v, rest)
unfolding match_token
match_token-repo v s rest h k e =
    rw (strip_prefix-append "repo=" (v <> s), match_token) (with_value-bare Key.repo v s rest h k e)

match_token-branch :
    (v s rest : String)
    → IsBare v
    → Stops is_solid s
    → drop_while is_blank s ≡ rest
    → match_token ("branch=" <> (v <> s)) ≡ some (Key.branch, v, rest)
unfolding match_token
match_token-branch v s rest h k e =
    let other : strip_prefix "repo=" ("branch=" <> (v <> s)) ≡ none =
      subst (λ x. strip_prefix "repo=" x ≡ none) (sym (cons-append "b" "ranch=" (v <> s)))
        (strip_prefix-apart "r" "b" "epo=" ("ranch=" <> (v <> s)) refl) in
    rw (other, match_token)
      (rw (strip_prefix-append "branch=" (v <> s)) (with_value-bare Key.branch v s rest h k e))

-- A summary: no blank at either end, and no option at its beginning.
pub record IsSummary (s : String) : Type 0 where
  pub starts : Stops is_space s
  pub ends : trim_right s ≡ s
  pub plain : match_token s ≡ none

abbrev pub rendered : String → String → String → String
rendered repo branch summary =
    "/commission"
    <> (" " <> ("repo=" <> (repo <> (" " <> ("branch=" <> (branch <> (" " <> summary)))))))

space-blank : (s : String) → Stops is_space s → Stops is_blank s
unfolding is_space
space-blank String.[] h = absurd h
space-blank (String.◌∷◌ c s) h = ground arith

Stops-filled : (s : String) → Stops is_space s → s ≢ ""
unfolding text_length
Stops-filled String.[] h e = h
Stops-filled (String.◌∷◌ c s) h e = ground (arith, ap text_length e)

space-Stops : (s : String) → Stops is_solid (" " <> s)
space-Stops s = subst (Stops is_solid) (sym (cons-append " " "" s)) refl

finished :
    (repo branch summary : String)
    → IsBare repo
    → IsBare branch
    → summary ≢ ""
    → finish_command (record { repo = repo; branch = branch; base = "" }) summary
      ≡ ok (request_of (record { repo = repo; branch = branch; base = "" }) summary)
unfolding finish_command
finished repo branch summary r b f = ground (
  arith,
  same_text_iff repo "",
  same_text_iff branch "",
  same_text_iff summary "",
  bare-filled repo r,
  bare-filled branch b,
  f,
)

-- A command that is written out is read back: the repository, the branch and the summary, if the first two
-- have no blanks and begin with no quote, and the summary has no blank at either end and begins with no option.
-- A summary that begins with a keyword that is no option is read back like any other.
pub parse-rendered :
    (repo branch summary : String)
    → IsBare repo
    → IsBare branch
    → IsSummary summary
    → parse_commission_command (rendered repo branch summary)
      ≡ ok (request_of (record { repo = repo; branch = branch; base = "" }) summary)
unfolding parse_commission_command
parse-rendered repo branch summary r b h =
    rw (started, parse_commission_command)
      (rw (dropped, scanned, read_whole)
        (finished repo branch summary r b (Stops-filled summary h.starts)))
  where
    third : String
    third = " " <> summary

    second : String
    second = "branch=" <> (branch <> third)

    options : String
    options = "repo=" <> (repo <> (" " <> second))

    full : Ends (rendered repo branch summary)
    full = append-Ends "/commission" _ (
        append-Ends " " _ (
          append-Ends "repo=" _ (
            append-Ends repo _ (
              append-Ends " " _ (
                append-Ends "branch=" _ (
                  append-Ends branch _
                    (append-Ends " " summary (Stops-filled summary h.starts, h.ends))))))))

    trimmed : trim_space (rendered repo branch summary) ≡ rendered repo branch summary
    trimmed =
        ap trim_right (
          trim_left-Stops (rendered repo branch summary)
            (key-Stops is_space "/" "commission" (" " <> options) refl))
        ∙ full.1

    first_token : match_token options ≡ some (Key.repo, repo, second)
    first_token = match_token-repo repo (" " <> second) second r (space-Stops second) (
        space-dropped is_blank second refl (key-Stops is_blank "b" "ranch=" (branch <> third) refl))

    second_token : match_token second ≡ some (Key.branch, branch, summary)
    second_token =
        match_token-branch branch third summary b (space-Stops summary)
          (space-dropped is_blank summary refl (space-blank summary h.starts))

    started :
        strip_prefix "/commission" (trim_space (rendered repo branch summary))
        ≡ some (" " <> options)
    started =
        ap (strip_prefix "/commission") trimmed ∙ strip_prefix-append "/commission" (" " <> options)

    dropped : drop_while is_indent (" " <> options) ≡ options
    dropped =
        space-dropped is_indent options refl
          (key-Stops is_indent "r" "epo=" (repo <> (" " <> second)) refl)

    read_whole : trim_space summary ≡ summary
    read_whole = ap trim_right (trim_left-Stops summary h.starts) ∙ h.ends

    scanned :
        scan (text_length options) options nothing_found
        ≡ (summary, record { repo = repo; branch = branch; base = "" })
    scanned =
        let n = text_length options in
        sym (scan-stops n (suc (suc n)) options nothing_found (ground arith) (ground arith)).1
        ∙ twice n
      where
        twice :
            (n : ℕ)
            → scan (suc (suc n)) options nothing_found
              ≡ (summary, record { repo = repo; branch = branch; base = "" })
        twice n =
            rw (first_token, scan) (rw (second_token, scan) (scan-settled n summary _ h.plain))
