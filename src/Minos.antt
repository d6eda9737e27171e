-- ===== src/Minos.antt =====
-- The server of Minos (minos/core): what it acts on, and what it writes to the outside.
pub mod Hibernation
pub mod Recovery
pub mod Webhooks
pub mod Callbacks
pub mod Minting
pub mod Dispatching
pub mod Commissioning
pub mod Respawning
pub mod Deliveries
pub mod Intake
pub mod Pairing
pub mod Bootstrap
pub mod SlackHooks
pub mod Narration
pub mod Memory
use zakros.Base.{
  ◌≡◌, arith, String, List, [], ◌∷◌, ◌++◌, Option, none, some, Bool, not, ◌||◌, ◌==◌,
  string_equality, if◌then◌else◌,
}
use zakros.Base.Clock.{Duration}
use zakros.Storage.{Uuid, Error, State, Task}
use zakros.Storage.Memstore.{Store}
use zakros.Dispatch.{DispatchError, Phase, Dispatcher}
use zakros.Dispatch.Builder.{BuildError, Encoder}
use zakros.Auth.{Claims}
use zakros.Envelope.{Invalid}
use zakros.Hermes.{CreateThreadRequest, InboundMessage, MessageKind, Message}
use zakros.Hermes.Broker
use zakros.Projects.{ProjectConfig}
use zakros.Projects
use zakros.Identity.{Role, Capability}
use zakros.Identity
use zakros.Registry.{Registry}
use zakros.Replay.Deliveries.{MemStore}
use zakros.Base.{Result}
use zakros.Base.Clock.{Time}

-- Why a command is no commission.
pub data CommandError : Type 0 where
  not_a_command repo_required branch_missing summary_missing : CommandError

-- Why a task could not be commissioned or respawned.
pub data Failure : Type 0 where
  task_type_required summary_required repo_url_required branch_required : Failure
  unsupported_task_type unknown_project : String → Failure
  no_thread : Broker.Error → Failure
  unsigned no_envelope : Failure
  invalid_envelope : Invalid → Failure
  not_inserted no_task not_recorded not_moved : Error → Failure
  not_built : BuildError → Failure
  not_spawned : DispatchError → Failure
  not_awaiting_review : State → Failure

-- The texts posted to a thread, with the arguments that are formatted into them.
pub data Notice : Type 0 where
  task_abandoned reminder : Duration → Notice
  task_completed task_closed : String → Notice
  already_paired : Role → Notice
  token_error already_pending system_role_refused last_admin_refused no_active_tasks : Notice
  pair_failed approve_failed revoke_failed grant_failed role_failed : Identity.Error → Notice
  pair_requested usage unknown_subcommand unknown_role capability_missing : String → Notice
  pair_notice : String → String → String → String → Notice
  approved_as role_set : String → String → Role → Notice
  revoked_from : String → String → Notice
  granted_to : Capability → String → String → Notice
  commission_rejected : CommandError → Notice
  commission_refused : Failure → Notice
  active_tasks : List Task → Notice
  narrated : Message → Notice

-- Why Reconcile moved a task.
pub data Cause : Type 0 where
  no_pod_name pod_missing pod_succeeded pod_failed phase_unknown : Cause

-- Audit events, and messages to a thread of a surface, in the order in which they are written.
pub data Event : Type 0 where
  abandoned reminded : Uuid → Duration → Event
  abandon_transition_failed mark_reminded_failed : Uuid → Error → Event
  posted : String → String → Notice → Event
  adopted : Uuid → String → Phase → Event
  pr_reported pr_merged pr_closed : Uuid → String → Event
  pr_ignored : String → String → Event
  pr_no_task : String → Event
  post_summary_failed : Uuid → String → Event
  pod_phase_error : Uuid → String → DispatchError → Event
  hermes_no_plugin : String → Uuid → Event
  get_context_failed : String → String → String → Event
  build_failed : Uuid → BuildError → Event
  spawn_failed : Uuid → String → DispatchError → Event
  setrun_failed run_transition_failed : Uuid → String → Error → Event
  spawned : Uuid → Uuid → String → Event
  respawned : Uuid → Event
  review_ignored : String → String → String → Event
  review_no_task mention_no_task : String → Event
  review_wrong_state mention_wrong_state : Uuid → State → Event
  respawn_failed mention_respawn_failed : Uuid → Failure → Event
  mention_respawn : Uuid → String → Event
  pairing_requested : String → String → String → Event
  pairing_approved role_changed : String → String → Role → String → Event
  identity_revoked : String → String → String → Event
  capability_granted : String → String → Capability → String → Event
  capability_refused : String → String → String → Event
  command_failed : String → String → Role → CommandError → Event
  commission_failed : String → String → Role → Failure → Event
  commissioned : Uuid → String → Role → Event
  unhandled_event slack_received : String → String → Event
  slack_url_verification_echoed : String → Event
  narration_failed narration_posted : Uuid → MessageKind → Event
  iris_failed iris_posted memory_looked_up : String → String → Event
  run_stored : Uuid → String → Event
  transitioned transition_failed : Uuid → State → Cause → Event

-- The part of the configuration that the handlers read.
pub record Config : Type 0 where
  pub project : ProjectConfig
  pub github_webhook_secret_ref : String
  pub slack_webhook_secret_ref : String
  pub admin_token_ref : String
  pub minos_pod_url : String
  pub github_broker_pod_url : String
  pub hecate_pod_url : String
  pub apollo_pod_url : String

-- What the server calls: the cluster, the secret provider, jwt.Sign under the signing key, the plugin
-- behind CreateThread, Mnemosyne's GetContext (the reference of the context, if there is one), and the
-- texts of UUIDs, times and JSON.
pub record Environment (Cluster : Type 0) : Type 0 where
  pub dispatcher : Dispatcher Cluster
  pub resolve : String → Option String
  pub sign : Claims → Option String
  pub create_thread : String → CreateThreadRequest → Result Broker.Error String
  pub mnemosyne : Option (String → String → Result String (Option String))
  pub encoder : Encoder
  pub format_time : Time → String
  pub format_stamp : Time → String

-- `hermes` tells whether a broker is wired.
pub record Server (Cluster : Type 0) : Type 0 where
  pub cfg : Config
  pub namespace : String
  pub identities : Registry
  pub projects : Projects.Store
  pub replays : Option MemStore
  pub hermes : Bool
  pub store : Store
  pub cluster : Cluster
  pub events : List Event

module _ {Cluster : Type 0} where
  abbrev pub emit : Event → Server Cluster → Server Cluster
  emit ev s = record s { events = s.events ++ ev ∷ [] }

  -- The message is skipped without a broker, an envelope or a thread; its error is dropped.
  unfoldable pub post_thread : Task → Notice → Server Cluster → Server Cluster
  post_thread t notice s = elim t.envelope [
    | none ↦ s
    | some e ↦
        if not s.hermes || e.communication.thread_ref == ""
        then s
        else emit (posted e.communication.thread_surface e.communication.thread_ref notice) s
  ]

  pub post_thread-store :
      (t : Task) (n : Notice) (s : Server Cluster) → (post_thread t n s).store ≡ s.store
  unfolding post_thread
  post_thread-store t n s = ground arith

  -- `reply` and `replyToThread`: a message to the thread it came from; its error is dropped.
  unfoldable pub reply : InboundMessage → Notice → Server Cluster → Server Cluster
  reply msg notice s =
      if not s.hermes || msg.thread_ref == ""
      then s
      else emit (posted msg.surface msg.thread_ref notice) s
