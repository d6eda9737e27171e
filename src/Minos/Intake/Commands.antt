-- ===== src/Minos/Intake/Commands.antt =====
-- The parser of `/commission` messages (minos/core/intake.go, ParseCommissionCommand).
pub mod Termination
pub mod Rendering
use zakros.Base.{
  ℕ, zero, suc, string_equality, String, Option, none, some, Bool, true, false, not, ◌&&◌, ◌||◌,
  ◌==◌, eqb, if◌then◌else◌, Result, ok, err,
}
use Prim.Native.Char.{code}
use zakros.Base.Text.{strip_prefix, trim_space, drop_while, take_while, text_length}
use zakros.Envelope.{task_type_code}
use zakros.Minos.{CommandError, not_a_command, repo_required, branch_missing, summary_missing}
use zakros.Minos.Commissioning.{CommissionRequest}

-- The classes \\s and \\S of the regular expression, and its `[^"]`.
abbrev pub is_blank : ℕ → Bool
is_blank c = eqb c 9 || eqb c 10 || eqb c 12 || eqb c 13 || eqb c 32

abbrev pub is_solid : ℕ → Bool
is_solid c = not (is_blank c)

abbrev pub not_quote : ℕ → Bool
not_quote c = not (eqb c 34)

abbrev pub is_indent : ℕ → Bool
is_indent c = eqb c 32 || eqb c 9

pub data Key : Type 0 where
  repo branch base : Key

pub record Found : Type 0 where
  pub repo : String
  pub branch : String
  pub base : String

abbrev pub with_option : Key → String → Found → Found
with_option repo v f = record f { repo = v }
with_option branch v f = record f { branch = v }
with_option base v f = record f { base = v }

-- `(\S+)`: a value without blanks, and what follows it.
unfoldable pub bare_value : String → Option (String × String)
unfolding take_while drop_while
bare_value s =
    let v = take_while is_solid s in if v == "" then none else some (v, drop_while is_solid s)

-- What follows a quoted value begins with its closing quote, if there is one.
unfoldable pub close_quote : String → String → String → Option (String × String)
unfolding bare_value
close_quote whole inner String.[] = bare_value whole
close_quote whole inner (String.◌∷◌ q after) = some (inner, after)

-- `(?:"([^"]*)"|(\S+))`
unfoldable pub match_value : String → Option (String × String)
unfolding close_quote bare_value
match_value String.[] = none
match_value (String.◌∷◌ c s) =
    if eqb (code c) 34
    then close_quote (String.◌∷◌ c s) (take_while not_quote s) (drop_while not_quote s)
    else bare_value (String.◌∷◌ c s)

-- The value and the blanks after it.
unfoldable pub with_value : Key → String → Option (Key × String × String)
unfolding match_value drop_while
with_value k s = elim (match_value s) [
  | none ↦ none
  | some (v, after) ↦ some (k, v, drop_while is_blank after)
]

-- One match of `intakeKeyValue`: its key, its value and the rest of the text.
unfoldable pub match_token : String → Option (Key × String × String)
unfolding with_value
match_token s = elim (strip_prefix "repo=" s) [
  | some r ↦ with_value repo r
  | none ↦ elim (strip_prefix "branch=" s) [
    | some r ↦ with_value branch r
    | none ↦ elim (strip_prefix "base=" s) [ some r ↦ with_value base r | none ↦ none ]
  ]
]

-- The loop, on fuel: each match is shorter than the text, so that its length is enough.
unfoldable pub scan : ℕ → String → Found → String × Found
scan zero rest f = (rest, f)
scan (suc n) rest f = elim (match_token rest) [
  | none ↦ (rest, f)
  | some (k, v, after) ↦ scan n after (with_option k v f)
]

abbrev pub nothing_found : Found
nothing_found = record { repo = ""; branch = ""; base = "" }

abbrev pub request_of : Found → String → CommissionRequest
request_of f summary = record {
  project_id = "";
  task_type = task_type_code;
  brief = record { summary = summary; detail = "" };
  inputs = "";
  acceptance = "";
  execution = record {
    repo_url = f.repo;
    branch = f.branch;
    base_branch = f.base;
    workspace_size = "";
  };
  budget = none;
  parent = none;
  origin = record { surface = ""; request_id = ""; requester = ""; requester_role = "" };
}

unfoldable pub finish_command : Found → String → Result CommandError CommissionRequest
finish_command f summary =
    if f.repo == ""
    then err repo_required
    else if f.branch == ""
    then err branch_missing
    else if summary == ""
    then err summary_missing
    else ok (request_of f summary)

unfoldable pub parse_commission_command : String → Result CommandError CommissionRequest
unfolding scan match_token finish_command drop_while trim_space
parse_commission_command text = elim (strip_prefix "/commission" (trim_space text)) [
  | none ↦ err not_a_command
  | some after ↦
      let rest = drop_while is_indent after in
      let (summary, f) = scan (text_length rest) rest nothing_found in
      finish_command f (trim_space summary)
]
