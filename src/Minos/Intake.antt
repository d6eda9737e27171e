-- ===== src/Minos/Intake.antt =====
-- Chat messages as commands (minos/core/intake.go).
pub mod Commands
pub mod Gates
use zakros.Base.{
  ◌-◌, nat_equality, string_equality, String, ◌<>◌, List, [], ◌∷◌, Option, none, some, Bool, not,
  ◌&&◌, ◌||◌, ◌==◌, if◌then◌else◌, Result, ok, err,
}
use zakros.Base.Int.{pos}
use zakros.Base.Text.{Casing, has_prefix, trim_space}
use zakros.Storage.{queued, running, awaiting_review}
use zakros.Storage.Memstore.{list_tasks}
use zakros.Envelope.{Origin}
use zakros.Hermes.{InboundMessage}
use zakros.Identity.{Identity, role_text, has_capability, task_query_state, task_commission_code}
use zakros.Registry.{lookup_by_surface}
use zakros.Minos.{
  Server, Environment, Notice, CommandError, not_a_command, emit, reply, command_failed,
  commission_failed, commissioned, no_active_tasks, active_tasks, commission_rejected,
  commission_refused, Failure,
}
use zakros.Minos.Commissioning.{CommissionRequest, commission}
use zakros.Minos.Dispatching.{Draws}
use zakros.Minos.Pairing.{Chance, handle_pair, handle_minos_command, reply_capability_refused}
use zakros.Minos.Intake.Commands.{parse_commission_command}

-- "/name" alone, or before a blank.
unfoldable pub is_command : String → String → Bool
unfolding has_prefix
is_command name text = text == name || has_prefix (name <> " ") text

module _ {Cluster : Type 0} where
  -- ListTasks of the in-memory store does not fail.
  unfoldable pub handle_status_query : InboundMessage → Server Cluster → Server Cluster
  unfolding reply
  handle_status_query msg s =
      elim (list_tasks (queued ∷ running ∷ awaiting_review ∷ []) (pos 20) s.store) [
        | [] ↦ reply msg no_active_tasks s
        | t ∷ ts ↦ reply msg (active_tasks (t ∷ ts)) s
      ]

  abbrev pub origin_of : Environment Cluster → InboundMessage → Identity → Origin
  origin_of env msg caller = record {
    surface = "hermes:" <> msg.surface;
    request_id = msg.thread_ref <> ":" <> env.format_stamp msg.timestamp;
    requester = msg.surface_user_id;
    requester_role = role_text caller.role;
  }

  unfoldable pub run_commission :
      Environment Cluster
      → Draws
      → InboundMessage
      → Identity
      → CommissionRequest
      → Server Cluster
      → Server Cluster
  unfolding reply
  run_commission env d msg caller req s =
      let (v, r) = commission env d (record req { origin = origin_of env msg caller }) s in
      elim r [
        | err e ↦
            reply msg (commission_refused e)
              (emit (commission_failed msg.surface msg.surface_user_id caller.role e) v)
        | ok t ↦ emit (commissioned t.id msg.surface_user_id caller.role) v
      ]

  unfoldable pub handle_commission :
      Environment Cluster → Draws → InboundMessage → Identity → Server Cluster → Server Cluster
  unfolding run_commission reply_capability_refused reply
  handle_commission env d msg caller s = elim (parse_commission_command msg.content) [
    | err not_a_command ↦ s
    | err e ↦
        reply msg (commission_rejected e)
          (emit (command_failed msg.surface msg.surface_user_id caller.role e) s)
    | ok req ↦
        if has_capability task_commission_code (some caller)
        then run_commission env d msg caller req s
        else reply_capability_refused msg task_commission_code s
  ]

  -- The dispatch of a message whose sender is registered.
  unfoldable pub handle_known :
      Environment Cluster
      → Casing
      → Draws
      → Chance
      → InboundMessage
      → Identity
      → Server Cluster
      → Server Cluster
  unfolding is_command handle_status_query handle_commission reply_capability_refused
  handle_known env casing d ch msg caller s =
      let text = trim_space msg.content in
      if is_command "/minos" text
      then handle_minos_command ch msg caller s
      else if is_command "/status" text
          || casing.equal_fold text "what's running?"
          || casing.equal_fold text "what is running?"
      then (if has_capability task_query_state (some caller)
          then handle_status_query msg s
          else reply_capability_refused msg task_query_state s)
      else handle_commission env d msg caller s

  unfoldable pub handle_inbound :
      Environment Cluster
      → Casing
      → Draws
      → Chance
      → InboundMessage
      → Server Cluster
      → Server Cluster
  unfolding handle_known is_command
  handle_inbound env casing d ch msg s =
      if is_command "/pair" (trim_space msg.content)
      then handle_pair ch msg s
      else elim (lookup_by_surface msg.surface msg.surface_user_id s.identities) [
        | err e ↦ s
        | ok caller ↦ handle_known env casing d ch msg caller s
      ]
