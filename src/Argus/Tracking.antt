-- ===== src/Argus/Tracking.antt =====
-- Which pods Argus tracks, and their persisted copies (minos/argus/argus.go, TrackTask to
-- rehydrate and discover; minos/argus/persister.go, MemPersister).
use zakros.Base.{
  for_each, nat_equality, String, List, [], ◌∷◌, ◌++◌, Option, none, some, eqb, Bool, true, false,
  ◌||◌, if◌then◌else◌, length, Result, ok, err,
}
use zakros.Base.Int.{ℤ, pos, negsuc, mul64, div64}
use zakros.Base.Maps.{values, lookup, insert, remove}
use zakros.Base.Clock.{Time, is_zero, second}
use zakros.Envelope.{Envelope}
use zakros.Storage.{Uuid, Task, State.running as task_running}
use zakros.Storage.Memstore.{list_tasks}
use zakros.Dispatch.{Dispatcher, DispatchError, Phase, unknown, terminal}
use zakros.Argus.{Config, State, MemPersister, World, Event, discovered, rehydrated}

-- MemPersister.Save, Delete and Load.
unfoldable pub save : Uuid → State → MemPersister → MemPersister
save id st p = record { states = insert id st p.states }

unfoldable pub delete : Uuid → MemPersister → MemPersister
delete id p = record { states = remove id p.states }

unfoldable pub load : MemPersister → List State
load p = values p.states

abbrev pub or_default : ℤ → ℤ → ℤ
or_default (pos n) d = if eqb n 0 then d else pos n
or_default (negsuc n) d = negsuc n

-- The state that TrackTask and discover compose, in the same way.
unfoldable pub state_of : Config → String → Time → Time → Uuid → Uuid → String → Envelope → State
unfolding mul64 div64
state_of cfg namespace started now id run pod e =
    let max = mul64 e.budget.max_wall_clock_seconds (pos second) in
    let warn_pct = or_default e.budget.warning_threshold_pct cfg.warning_threshold_pct in
    let esc_pct = or_default e.budget.escalation_threshold_pct cfg.escalation_threshold_pct in
    record {
      task_id = id;
      run_id = run;
      pod_name = pod;
      namespace = namespace;
      thread_surface = e.communication.thread_surface;
      thread_ref = e.communication.thread_ref;
      started_at = started;
      last_heartbeat = now;
      max_wall_clock = max;
      warning_at = div64 (mul64 max warn_pct) 100;
      escalation_at = div64 (mul64 max esc_pct) 100;
      warned = false;
      escalated = false;
      terminated = false;
    }

-- Nothing is composed for a task without an envelope, a pod or a run.
unfoldable pub fresh_state : Config → String → Time → Time → Task → Option State
fresh_state cfg namespace started now t = elim t.envelope [
  | none ↦ none
  | some e ↦ elim t.pod_name [
    | none ↦ none
    | some pod ↦ elim t.run_id [
      | none ↦ none
      | some run ↦ some (state_of cfg namespace started now t.id run pod e)
    ]
  ]
]

-- The start that discover assumes.
abbrev pub start_of : Task → Time
start_of t = elim t.started_at [
  | none ↦ t.created_at
  | some s ↦ if is_zero s then t.created_at else s
]

-- rehydrate's test: the pod is known to be gone.
abbrev pub is_gone : Result DispatchError Phase → Bool
is_gone (err e) = false
is_gone (ok p) = (elim p [ unknown ↦ true | _ ↦ false ]) || terminal p

module _ {Cluster : Type 0} where
  abbrev pub emit : Event → World Cluster → World Cluster
  emit ev w = record w { events = w.events ++ ev ∷ [] }

  -- Without a persister this does nothing; a MemPersister does not fail.
  abbrev persist_one : State → World Cluster → World Cluster
  persist_one st w = record w {
    persister = elim w.persister [ none ↦ none | some p ↦ some (save st.task_id st p) ];
  }

  -- a.pods[id] = st, and the copy.
  abbrev pub put : Uuid → State → World Cluster → World Cluster
  put id st w = persist_one st (record w { pods = insert id st w.pods })

  -- The entry of `id` is changed in place, and persisted, if there is one.
  abbrev pub update : (State → State) → Uuid → World Cluster → World Cluster
  update f id w = elim (lookup id w.pods) [ none ↦ w | some st ↦ put id (f st) w ]

  unfoldable pub track_task : Option Task → String → Time → World Cluster → World Cluster
  track_task none namespace now w = w
  track_task (some t) namespace now w = elim (fresh_state w.cfg namespace now now t) [
    | none ↦ w
    | some st ↦ put t.id st w
  ]

  unfoldable pub untrack_task : Uuid → World Cluster → World Cluster
  untrack_task id w = record w {
    pods = remove id w.pods;
    persister = elim w.persister [ none ↦ none | some p ↦ some (delete id p) ];
  }

  unfoldable pub heartbeat : Uuid → Time → World Cluster → World Cluster
  heartbeat id now w = update (λ st. record st { last_heartbeat = now }) id w

  -- Whether the task is tracked, and the state composed for it, decide.
  unfoldable pub track_new : Option State → Option State → Task → World Cluster → World Cluster
  track_new (some old) o t w = w
  track_new none none t w = w
  track_new none (some st) t w = emit (discovered t.id st.pod_name) (put t.id st w)

  -- The body of the loop of discover.
  unfoldable pub discover_one : Time → Task → World Cluster → World Cluster
  unfolding track_new
  discover_one now t w =
      track_new (lookup t.id w.pods) (fresh_state w.cfg "zakros" (start_of t) now t) t w

  -- The in-memory store does not fail.
  unfoldable pub discover : Time → World Cluster → World Cluster
  discover now w = for_each (discover_one now) (list_tasks (task_running ∷ []) (pos 0) w.store) w

  module _ (d : Dispatcher Cluster) where
    unfoldable pub restore_each : List State → World Cluster → World Cluster
    restore_each [] w = w
    restore_each (st ∷ sts) w =
        if is_gone (d.pod_phase st.namespace st.pod_name w.cluster)
        then restore_each sts (record w {
          persister = elim w.persister [ none ↦ none | some p ↦ some (delete st.task_id p) ];
        })
        else restore_each sts (record w { pods = insert st.task_id st w.pods })

    unfoldable pub rehydrate : World Cluster → World Cluster
    rehydrate w = elim w.persister [
      | none ↦ w
      | some p ↦ let v = restore_each (load p) w in emit (rehydrated (length v.pods)) v
    ]
