-- ===== src/Hermes/Broker.antt =====
-- The broker: plugin registration, routing and fan-out (hermes/core/core.go and pull.go). A plugin
-- is code of a surface: `Plugin` and its methods are parameters. `Handler` is a subscribed function.
pub mod Fanout
use zakros.Base.{
  ℕ, String, List, [], ◌∷◌, ◌++◌, Option, none, some, Bool, true, false, ◌==◌, string_equality,
  if◌then◌else◌, Result, ok, err,
}
use zakros.Base.Maps.{Map, lookup, insert}
use zakros.Base.Int.{ℤ}
use zakros.Hermes.{Message, CreateThreadRequest, InboundMessage}
use zakros.Hermes.Pull.{PullConsumer, PullEvent, CtxError, Wake, new_pull_consumer, push, next}

pub data Error : Type 0 where
  nil_plugin already_registered no_plugin name_required unknown_consumer : Error
  plugin_error : String → Error
  ctx_error : CtxError → Error

-- What the broker calls on a plugin; the text is the error's message.
pub record Methods (Plugin : Type 0) : Type 0 where
  pub name : Plugin → String
  pub create_thread : Plugin → CreateThreadRequest → Result String String
  pub post_to_thread : Plugin → String → Message → Option String

pub record Broker (Plugin Handler : Type 0) : Type 0 where
  pub plugins : Map String Plugin
  pub handlers : List Handler
  pub pull_consumers : Map String PullConsumer
  instance_id : String

-- The loop of fanoutPull.
unfoldable pub push_each : InboundMessage → Map String PullConsumer → Map String PullConsumer
push_each msg [] = []
push_each msg ((k, c) ∷ m) = (k, (push c msg).0) ∷ push_each msg m

-- The handlers that are called, each with the message.
unfoldable pub calls :
    {Handler : Type 0} → List Handler → InboundMessage → List (Handler × InboundMessage)
calls [] msg = []
calls (h ∷ hs) msg = (h, msg) ∷ calls hs msg

module _ {Plugin Handler : Type 0} where
  -- New; the identifier is a fresh UUID.
  unfoldable pub new : String → Broker Plugin Handler
  new id = record { plugins = []; handlers = []; pull_consumers = []; instance_id = id }

  unfoldable pub register_plugin :
      Methods Plugin → Option Plugin → Broker Plugin Handler → Broker Plugin Handler × Option Error
  register_plugin m none b = (b, some nil_plugin)
  register_plugin m (some p) b = elim (lookup (m.name p) b.plugins) [
    | some _ ↦ (b, some already_registered)
    | none ↦ (record b { plugins = insert (m.name p) p b.plugins }, none)
  ]

  unfoldable subscribe : Handler → Broker Plugin Handler → Broker Plugin Handler
  subscribe h b = record b { handlers = b.handlers ++ h ∷ [] }

  unfoldable pub plugin : String → Broker Plugin Handler → Result Error Plugin
  plugin surface b = elim (lookup surface b.plugins) [ none ↦ err no_plugin | some p ↦ ok p ]

  unfoldable pub create_thread :
      Methods Plugin → String → CreateThreadRequest → Broker Plugin Handler → Result Error String
  create_thread m surface req b = elim (plugin surface b) [
    | err e ↦ err e
    | ok p ↦ elim (m.create_thread p req) [ ok ref ↦ ok ref | err msg ↦ err (plugin_error msg) ]
  ]

  unfoldable pub post_to_thread :
      Methods Plugin → String → String → Message → Broker Plugin Handler → Option Error
  post_to_thread m surface thread_ref msg b = elim (plugin surface b) [
    | err e ↦ some e
    | ok p ↦ elim (m.post_to_thread p thread_ref msg) [
      | none ↦ none
      | some text ↦ some (plugin_error text)
    ]
  ]

  unfoldable pub register_pull_consumer :
      String
      → ℤ
      → Option (InboundMessage → Bool)
      → Broker Plugin Handler
      → Broker Plugin Handler × Option Error
  register_pull_consumer name capacity filter b =
      if name == "" then (b, some name_required) else elim (lookup name b.pull_consumers) [
        | some _ ↦ (b, some already_registered)
        | none ↦ (
          record b {
            pull_consumers = insert name (new_pull_consumer name capacity filter) b.pull_consumers;
          },
          none,
        )
      ]

  -- PullEvents over the wake-ups of its poll; `none` while it waits.
  unfoldable pull_events :
      String → ℕ → ℤ → List Wake → Broker Plugin Handler → Option (Result Error (List PullEvent))
  pull_events name since max wakes b = elim (lookup name b.pull_consumers) [
    | none ↦ some (err unknown_consumer)
    | some c ↦ elim (next since max wakes) [
      | none ↦ none
      | some (ok evs) ↦ some (ok evs)
      | some (err e) ↦ some (err (ctx_error e))
    ]
  ]

  unfoldable pub fanout_pull : InboundMessage → Broker Plugin Handler → Broker Plugin Handler
  fanout_pull msg b = record b { pull_consumers = push_each msg b.pull_consumers }

  -- deliver: the broker after the fan-out, and the handler calls.
  unfoldable pub deliver :
      InboundMessage
      → Broker Plugin Handler
      → Broker Plugin Handler × List (Handler × InboundMessage)
  unfolding fanout_pull
  deliver msg b = (fanout_pull msg b, calls b.handlers msg)

  unfoldable pub deliver_all : List InboundMessage → Broker Plugin Handler → Broker Plugin Handler
  deliver_all [] b = b
  deliver_all (msg ∷ msgs) b = deliver_all msgs (deliver msg b).0
