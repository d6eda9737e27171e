-- ===== src/Iris/Tools.antt =====
-- The tools of Iris (agents/iris/internal/iris/tools.go). The HTTP calls to Minos are a parameter.
pub mod Slugs
use Prim.Native.Char.{Char, code, nul, IsScalar}
use native.Mathlib.Decide.{dec_lt}
use mathlib.Core.Logic.{dite}
use zakros.Base.{
  ℕ, zero, suc, ◌+◌, ◌-◌, string_equality, String, ◌<>◌, List, [], ◌∷◌, Option, none, some, Bool,
  true, false, ◌&&◌, ◌||◌, ◌==◌, if◌then◌else◌, Result, ok, err, eqb, leb, ◌<◌, arith,
}
use zakros.Base.Int.{ℤ, pos}
use zakros.Base.Maps.{Map, lookup}

-- A value of a decoded JSON object. Of a number: whether it is positive, and its integer part.
pub data Json : Type 0 where
  text : String → Json
  number : Bool → ℤ → Json
  other : Json

abbrev pub Input : Type 0
Input = Map String Json

-- input[key].(string), "" if it is none.
unfoldable pub text_at : String → Input → String
text_at key input = elim (lookup key input) [ some (text s) ↦ s | _ ↦ "" ]

-- The message that a tool call is made for.
pub record CommissionContext : Type 0 where
  pub surface : String
  pub surface_user_id : String
  pub thread_ref : String

pub record IrisCommission : Type 0 where
  pub repo_url : String
  pub branch : String
  pub base_branch : String
  pub summary : String
  pub origin : CommissionContext

-- The requests to Minos.
pub data MinosCall : Type 0 where
  state_queue : MinosCall
  state_recent : ℤ → MinosCall
  state_tasks : String → ℤ → MinosCall
  commission_task : IrisCommission → MinosCall

pub record ToolSet (World : Type 0) : Type 0 where
  pub default_branch_prefix : String
  pub default_repo_url : String
  -- A request and its answer, which is the JSON text that the model receives.
  pub call : MinosCall → World → World × Result String String

-- What the model is told of a failure.
pub data ToolError : Type 0 where
  unknown_tool upstream : String → ToolError
  summary_missing repo_missing : ToolError

unfoldable pub is_plain : ℕ → Bool
is_plain c = leb b'a' c && leb c b'z' || leb b'0' c && leb c b'9'

unfoldable pub is_raised : ℕ → Bool
is_raised c = leb b'A' c && leb c b'Z'

-- The loop of slugify, on bytes: the text, how many bytes there is room for, and whether a hyphen was
-- the last one.
unfoldable pub slug_loop : String → ℕ → Bool → List ℕ
unfolding is_plain is_raised
slug_loop String.[] room hyphen = []
slug_loop (String.◌∷◌ c s) zero hyphen = []
slug_loop (String.◌∷◌ c s) (suc room) hyphen =
    let plain = code c ∷ slug_loop s room false in
    let lowered = (code c + 32) ∷ slug_loop s room false in
    let skipped = slug_loop s (suc room) true in
    let dashed = b'-' ∷ slug_loop s room true in
    if is_plain (code c)
    then plain
    else if is_raised (code c)
    then lowered
    else if hyphen
    then skipped
    else dashed

abbrev before_end : ℕ → List ℕ → List ℕ
before_end b [] = if eqb b b'-' then [] else b ∷ []
before_end b (x ∷ xs) = b ∷ x ∷ xs

-- The loop that takes hyphens off the end.
unfoldable pub trim_hyphens : List ℕ → List ℕ
trim_hyphens [] = []
trim_hyphens (b ∷ bs) = before_end b (trim_hyphens bs)

unfoldable pub slugify : String → List ℕ
unfolding slug_loop trim_hyphens
slugify s = elim (trim_hyphens (slug_loop s 32 true)) [
  | [] ↦ b't' ∷ b'a' ∷ b's' ∷ b'k' ∷ []
  | b ∷ bs ↦ b ∷ bs
]

byte-IsScalar : (b : ℕ) → b < 128 → IsScalar b
byte-IsScalar b h = ground arith

-- string(out) of ASCII bytes.
unfoldable pub text_of : List ℕ → String
unfolding dec_lt byte-IsScalar
text_of [] = ""
text_of (b ∷ bs) =
    String.◌∷◌ (dite (dec_lt b 128) (λ h. Char.char b (byte-IsScalar b h)) (λ _. nul)) (text_of bs)

unfoldable pub query_of : Input → MinosCall
unfolding text_at
query_of input =
    let scope = text_at "scope" input in
    let limit : ℤ = elim (lookup "limit" input) [ some (number true n) ↦ n | _ ↦ pos 20 ] in
    if scope == "queue"
    then state_queue
    else if scope == "recent"
    then state_recent limit
    else state_tasks "queued,running,awaiting-review" limit

module _ {World : Type 0} where
  abbrev pub answered : World × Result String String → World × Result ToolError String
  answered (w, ok out) = (w, ok out)
  answered (w, err why) = (w, err (upstream why))

  -- The request, with the defaults for what the model left out.
  unfoldable pub commission_of : ToolSet World → Input → CommissionContext → IrisCommission
  unfolding text_at slugify text_of
  commission_of ts input cc =
      let summary = text_at "summary" input in
      let branch = text_at "branch" input in
      let repo_url = text_at "repo_url" input in
      record {
        repo_url = if repo_url == "" then ts.default_repo_url else repo_url;
        branch =
            if branch == "" then ts.default_branch_prefix <> text_of (slugify summary) else branch;
        base_branch = text_at "base_branch" input;
        summary = summary;
        origin = cc;
      }

  unfoldable pub commission_by_tool :
      ToolSet World → Input → CommissionContext → World → World × Result ToolError String
  unfolding commission_of
  commission_by_tool ts input cc w =
      let r = commission_of ts input cc in
      if r.summary == ""
      then (w, err summary_missing)
      else if r.repo_url == ""
      then (w, err repo_missing)
      else answered (ts.call (commission_task r) w)

  unfoldable pub run_tool :
      ToolSet World → String → Input → CommissionContext → World → World × Result ToolError String
  unfolding query_of commission_by_tool
  run_tool ts name input cc w =
      if name == "query_state"
      then answered (ts.call (query_of input) w)
      else if name == "commission"
      then commission_by_tool ts input cc w
      else (w, err (unknown_tool name))
