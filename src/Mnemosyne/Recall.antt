-- ===== src/Mnemosyne/Recall.antt =====
-- What the memory of runs gives back (mnemosyne/memstore/memstore.go).
use zakros.Base.{
  nat_equality, eqb_iff, ◌==◌, String, List, [], ◌∷◌, ◌++◌, Option, none, some, ◌≡◌, refl, keep,
  Has, here, there, keep-Has,
}
use zakros.Base.Clock.{Time}
use zakros.Base.Newest.{newest_first-Has, IsNewestFirst, newest_first-IsNewestFirst, Newest}
use zakros.Storage.{Uuid}
use zakros.Mnemosyne.{
  RunRecord, RunStore, Context, Formats, age, recorded, is_prior, store_run, context_of,
  get_runs_for_task,
}

-- No context where no run of the project and the type is recorded; otherwise that of the newest of them.
abbrev pub Recalls : Formats → String → String → RunStore → Option Context → Type 0
Recalls f project_id task_type s none = keep (is_prior project_id task_type) s.records ≡ []
Recalls f project_id task_type s (some c) =
    (out : List RunRecord) × Newest age s.max_context_runs
      (keep (is_prior project_id task_type) s.records) out
    × (c ≡ context_of f project_id out)

Has-last : {x : RunRecord} (xs : List RunRecord) → Has x (xs ++ x ∷ [])
Has-last [] = here
Has-last (y ∷ ys) = there (Has-last ys)

-- A run that was stored is among the runs of its task, which come newest first.
get_runs_for_task-store_run :
    (fresh : Uuid) (now : Time) (r : RunRecord) (s : RunStore)
    → let runs = get_runs_for_task r.task_id (store_run fresh now (some r) s).0 in
      Has (recorded fresh now r) runs × IsNewestFirst age runs
unfolding get_runs_for_task store_run
get_runs_for_task-store_run fresh now r s = (
  newest_first-Has age (recorded fresh now r) (
      keep-Has (λ x. x.task_id == r.task_id) (recorded fresh now r) (Has-last s.records)
        ((eqb_iff r.task_id r.task_id).1 refl)),
  newest_first-IsNewestFirst age
      (keep (λ x. x.task_id == r.task_id) (store_run fresh now (some r) s).0.records),
)
