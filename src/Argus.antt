-- ===== src/Argus.antt =====
-- The watcher of running pods (minos/argus/argus.go, minos/argus/persister.go): its configuration,
-- what it knows of each pod, and what it writes to the outside. Tracking is in Tracking, the rules
-- engine in Rules.
pub mod Tracking
pub mod Rules
pub mod Effects
pub mod Outcomes
pub mod Deletions
pub mod Deadlines
pub mod Patience
pub mod Discovery
pub mod Thresholds
pub mod Mirror
pub mod Restart
pub mod Ingest
use zakros.Base.{ℕ, String, Option, none, some, List, [], ◌∷◌, Bool, false}
use zakros.Base.Int.{ℤ, pos}
use zakros.Base.Maps.{Map}
use zakros.Base.Clock.{Time, Duration}
use zakros.Storage.{Uuid, Error}
use zakros.Storage.Memstore.{Store}
use zakros.Dispatch.{DispatchError}

pub record Config : Type 0 where
  pub stall_threshold : Duration
  poll_interval : Duration
  pub warning_threshold_pct : ℤ
  pub escalation_threshold_pct : ℤ

abbrev pub default_config : Config
default_config = record {
  stall_threshold = pos 300000000000;
  poll_interval = pos 30000000000;
  warning_threshold_pct = pos 75;
  escalation_threshold_pct = pos 90;
}

pub record State : Type 0 where
  pub task_id : Uuid
  pub run_id : Uuid
  pub pod_name : String
  pub namespace : String
  pub thread_surface : String
  pub thread_ref : String
  pub started_at : Time
  pub last_heartbeat : Time
  pub max_wall_clock : Duration
  pub warning_at : Duration
  pub escalation_at : Duration
  pub warned : Bool
  pub escalated : Bool
  pub terminated : Bool

-- MemPersister
pub record MemPersister : Type 0 where
  pub states : Map Uuid State

unfoldable pub new_mem_persister : MemPersister
new_mem_persister = record { states = [] }

-- The arguments of the texts that Argus formats.
pub data Reason : Type 0 where
  cap_exceeded : Duration → Duration → Reason  -- wall clock, cap
  no_heartbeat : Duration → Duration → Reason  -- silence, threshold
  budget_used : ℤ → Duration → Duration → Reason  -- per cent, wall clock, cap
  phase_failed : Reason

-- Audit events, and messages to a thread of a surface, in the order in which they are written.
pub data Event : Type 0 where
  discovered : Uuid → String → Event
  rehydrated : ℕ → Event
  hibernated pod_failed : Uuid → Event
  warning escalation termination : Uuid → Reason → Event
  transition_failed : Uuid → Error → Event
  delete_failed : Uuid → DispatchError → Event
  posted : String → String → Reason → Event

-- Argus with what it acts on: the task store and the cluster. `hermes` tells whether a broker is
-- wired.
pub record World (Cluster : Type 0) : Type 0 where
  pub cfg : Config
  pub hermes : Bool
  pub persister : Option MemPersister
  pub pods : Map Uuid State
  pub store : Store
  pub cluster : Cluster
  pub events : List Event
