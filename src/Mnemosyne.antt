-- ===== src/Mnemosyne.antt =====
-- The memory of runs (mnemosyne/core/core.go, mnemosyne/memstore/memstore.go).
pub mod Recall
pub mod Sanitizer
use zakros.Base.{
  ℕ, zero, suc, nat_equality, string_equality, String, ◌<>◌, List, [], ◌∷◌, ◌++◌, Option, none,
  some, Bool, true, false, not, ◌&&◌, ◌||◌, ◌==◌, if◌then◌else◌, keep, length,
}
use zakros.Base.Int.{ℤ, pos}
use zakros.Base.Clock.{Time, is_zero}
use zakros.Base.Text.{first}
use zakros.Base.Newest.{newest_first, cut}
use zakros.Storage.{Uuid}

-- The outcome of a run: `completed`, `failed` or `terminated`, or another text.
abbrev pub RunOutcome : Type 0
RunOutcome = String

pub record RunRecord : Type 0 where
  pub id : Uuid
  pub task_id : Uuid
  pub run_id : Uuid
  pub project_id : String
  pub task_type : String
  pub outcome : RunOutcome
  pub summary : String
  pub body : String
  pub created_at : Time

pub record Context : Type 0 where
  pub ref : String
  pub body : String
  pub prior_runs : ℕ

pub record RunStore : Type 0 where
  pub records : List RunRecord
  pub max_context_runs : ℤ

abbrev pub new : RunStore
new = record { records = []; max_context_runs = pos 5 }

-- The texts of numbers, identifiers and times.
pub record Formats : Type 0 where
  pub number : ℕ → String
  pub uuid_text : Uuid → String
  pub rfc3339 : Time → String

abbrev pub age : RunRecord → Time
age r = r.created_at

-- The copy that is kept.
abbrev pub recorded : Uuid → Time → RunRecord → RunRecord
recorded fresh now r = record r {
  id = if r.id == 0 then fresh else r.id;
  created_at = if is_zero r.created_at then now else r.created_at;
}

-- `none` is a nil record, and the error is that there is none.
unfoldable pub store_run : Uuid → Time → Option RunRecord → RunStore → RunStore × Bool
store_run fresh now none s = (s, true)
store_run fresh now (some r) s =
    (record s { records = s.records ++ recorded fresh now r ∷ [] }, false)

abbrev pub is_prior : String → String → RunRecord → Bool
is_prior project_id task_type r =
    r.project_id == project_id && (task_type == "" || r.task_type == task_type)

abbrev pub entry : Formats → ℕ → RunRecord → String
entry f i r =
    "\n["
    <> f.number i
    <> "] run="
    <> first 8 (f.uuid_text r.run_id)
    <> " outcome="
    <> r.outcome
    <> " at="
    <> f.rfc3339 r.created_at
    <> "\n"
    <> (if r.summary == "" then "" else r.summary <> "\n")

unfoldable pub entries : Formats → ℕ → List RunRecord → String
entries f i [] = ""
entries f i (r ∷ rs) = entry f i r <> entries f (suc i) rs

unfoldable pub assemble : Formats → List RunRecord → String
unfolding entries
assemble f rs = "Prior-run context (newest first):\n" <> entries f 1 rs

abbrev pub context_of : Formats → String → List RunRecord → Context
context_of f project_id out = record {
  ref = "mem:" <> project_id <> ":" <> f.number (length out);
  body = assemble f out;
  prior_runs = length out;
}

unfoldable pub get_context : Formats → String → String → RunStore → Option Context
unfolding newest_first cut assemble
get_context f project_id task_type s = elim (keep (is_prior project_id task_type) s.records) [
  | [] ↦ none
  | r ∷ rs ↦ some (context_of f project_id (cut s.max_context_runs (newest_first age (r ∷ rs))))
]

unfoldable pub get_runs_for_task : Uuid → RunStore → List RunRecord
unfolding newest_first
get_runs_for_task id s = newest_first age (keep (λ r. r.task_id == id) s.records)
