-- ===== src/Argus/Restart.antt =====
-- What a restart of Argus brings back (minos/argus/argus.go, rehydrate).
use zakros.Base.{nat_equality, List, [], ◌∷◌, Option, none, some, ◌≡◌, if◌then◌else◌, String}
use zakros.Base.Clock.{Time}
use zakros.Storage.{Uuid, Task, State.running as task_running}
use zakros.Storage.Memstore.{Store}
use zakros.Dispatch.{Dispatcher}
use zakros.Argus.{State, new_mem_persister, World}
use zakros.Argus.Tracking.{track_task, untrack_task, heartbeat, is_gone}
use zakros.Argus.Rules.{tick}

-- The calls on a running Argus, its ticks, and what others do to the task store and the cluster.
pub data Call (Cluster : Type 0) : Type 0 where
  tracks : Option Task → String → Time → Call Cluster
  untracks : Uuid → Call Cluster
  beats : Uuid → Time → Call Cluster
  ticks : Time → Time → Call Cluster
  others : Store → Cluster → Call Cluster

module _ {Cluster : Type 0} (d : Dispatcher Cluster) where
  unfoldable pub step : Call Cluster → World Cluster → World Cluster
  step (tracks t namespace now) w = track_task t namespace now w
  step (untracks id) w = untrack_task id w
  step (beats id now) w = heartbeat id now w
  step (ticks now wall) w = tick d now wall w
  step (others store cluster) w = record w { store = store; cluster = cluster }

  unfoldable pub run : List (Call Cluster) → World Cluster → World Cluster
  run [] w = w
  run (c ∷ cs) w = run cs (step c w)

  -- The entry, unless the phase of its pod is empty or terminal.
  abbrev pub kept : Cluster → Option State → Option State
  kept cluster none = none
  kept cluster (some st) =
      if is_gone (d.pod_phase st.namespace st.pod_name cluster) then none else some st

  abbrev or_else : Option State → Option State → Option State
  or_else none o = o
  or_else (some st) o = some st

  -- A new Argus with an empty persister.
  abbrev pub IsNew : World Cluster → Type 0
  IsNew w = (w.pods ≡ []) × (w.persister ≡ some new_mem_persister)
