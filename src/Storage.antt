-- ===== src/Storage.antt =====
-- The persistence contract of Minos (minos/storage/storage.go): task states, the task record and
-- the errors. Its in-memory implementation is in Memstore.
pub mod Memstore
pub mod Edges
use zakros.Base.{ℕ, String, Option, Bool, true, false, same_text}
use zakros.Base.Int.{ℤ}
use zakros.Base.Clock.{Time}
use zakros.Envelope.{Envelope}

-- A UUID is its 128 bits read as a number; `uuid.Nil` is 0.
abbrev pub Uuid : Type 0
Uuid = ℕ

pub data Error : Type 0 where
  not_found conflict : Error

-- `State` is a text in the source: `other` holds every text that names no Phase 1 state.
pub data State : Type 0 where
  queued running awaiting_review completed failed : State
  other : String → State

abbrev pub same_state : State → State → Bool
same_state queued queued = true
same_state running running = true
same_state awaiting_review awaiting_review = true
same_state completed completed = true
same_state failed failed = true
same_state (other s) (other t) = same_text s t
same_state _ _ = false

abbrev pub state_text : State → String
state_text queued = "queued"
state_text running = "running"
state_text awaiting_review = "awaiting-review"
state_text completed = "completed"
state_text failed = "failed"
state_text (other s) = s

pub record Task : Type 0 where
  pub id : Uuid
  pub parent_id : Option Uuid
  pub project_id : String
  pub task_type : String
  pub backend : String
  pub state : State
  pub priority : ℤ
  pub envelope : Option Envelope
  pub run_id : Option Uuid
  pub pod_name : Option String
  pub pr_url : Option String
  pub created_at : Time
  pub started_at : Option Time
  pub finished_at : Option Time
  pub state_changed_at : Time
  pub reminded_at : Option Time
