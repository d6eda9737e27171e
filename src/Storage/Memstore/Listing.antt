-- ===== src/Storage/Memstore/Listing.antt =====
-- `ListTasks`: filter, order and limit (minos/storage/memstore/memstore.go).
use zakros.Base.{List, keep}
use zakros.Base.Int.{ℤ}
use zakros.Base.Maps.{values}
use zakros.Base.Newest.{Newest, cut-Newest}
use zakros.Storage.{State, Task}
use zakros.Storage.Memstore.{Store, admits, creation, list_tasks}

-- `out` is the newest part of the tasks that pass the filter.
abbrev Listed : List State → ℤ → Store → List Task → Type 0
Listed states limit s out = Newest creation limit (keep (admits states) (values s.tasks)) out

-- `ListTasks` returns the tasks that pass the filter, each once and newest first: all of them
-- without a limit, and under a positive limit the newest ones, as many as the limit allows.
list_tasks-Listed :
    (states : List State) (limit : ℤ) (s : Store)
    → Listed states limit s (list_tasks states limit s)
unfolding list_tasks
list_tasks-Listed states limit s = cut-Newest creation limit (keep (admits states) (values s.tasks))
