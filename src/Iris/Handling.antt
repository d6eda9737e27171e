-- ===== src/Iris/Handling.antt =====
-- The handling of one message and the loop over the polls (agents/iris/internal/iris/handler.go, Handle;
-- poller.go, Run).
pub mod Table
pub mod Once
pub mod Acts
pub mod Authority
use zakros.Base.{
  ℕ, string_equality, String, List, [], ◌∷◌, Option, none, some, Bool, true, false, not, ◌&&◌, ◌||◌,
  ◌==◌, if◌then◌else◌, Result, ok, err, ltb,
}
use zakros.Base.Clock.{Time}
use zakros.Iris.Tools.{CommissionContext}
use zakros.Iris.{
  Turn, ConversationKey, IrisMessage, IrisEvent, key_of, IrisHandler, Agent, HandleError,
  incomplete, not_posted, build_message_history, strip_iris_prefix, run_rounds, rounds, M, ◌>>=◌,
  ◌>>◌, done, append_turn, already_handled,
}

abbrev pub commission_context : IrisMessage → CommissionContext
commission_context msg = record {
  surface = msg.surface;
  surface_user_id = msg.surface_user_id;
  thread_ref = msg.thread_ref;
}

abbrev user_turn : IrisEvent → String → Turn
user_turn ev content = record {
  role = "user";
  content = content;
  timestamp = ev.message.timestamp;
  msg_seq = ev.seq;
}

abbrev assistant_turn : String → Time → Turn
assistant_turn reply now = record {
  role = "assistant";
  content = reply;
  timestamp = now;
  msg_seq = 0;
}

-- What the loop keeps between two polls.
pub record Cursor : Type 0 where
  pub since : ℕ
  pub last_instance : String

-- What EventsNext returns, each event with the clock when it has been handled; none for an error.
abbrev pub Polled : Type 0
Polled = Option (List (IrisEvent × Time) × String)

module _ {World : Type 0} (h : IrisHandler World) where
  unfoldable pub post_as_iris : IrisMessage → String → M World (Unit {0})
  post_as_iris msg content s =
      let (w, e) = h.post msg.surface msg.thread_ref content s.world in
      elim e [
        | none ↦ (record s { world = w }, ok tt)
        | some why ↦ (record s { world = w }, err (not_posted why))
      ]

  -- A message of nothing but the mention.
  unfoldable pub greet : IrisEvent → M World (Unit {0})
  unfolding post_as_iris append_turn
  greet ev = do
    post_as_iris ev.message "Hi! Ask me what's running, or tell me what to commission."
    append_turn h (key_of ev.message) (user_turn ev ev.message.content)
    done tt

  -- runLoop; its error is posted too, if that succeeds.
  unfoldable pub run_loop : IrisEvent → List Turn → M World String
  unfolding run_rounds post_as_iris
  run_loop ev turns s =
      let (w, r) =
        run_rounds h (rounds h) (rounds h) (build_message_history turns)
          (commission_context ev.message) s.world in
      let s' : Agent World = record s { world = w } in
      elim r [
        | ok reply ↦ (s', ok reply)
        | err why ↦ ((post_as_iris ev.message (h.show why) s').0, err why)
      ]

  -- A message that is in no turn of its conversation. `now` is the clock after the reply.
  unfoldable pub handle_new : IrisEvent → Time → M World (Unit {0})
  unfolding strip_iris_prefix greet append_turn run_loop post_as_iris
  handle_new ev now =
      let user = strip_iris_prefix h.casing ev.message.content in
      if user == "" then greet ev else (do
        turns ← append_turn h (key_of ev.message) (user_turn ev user)
        reply ← run_loop ev turns
        post_as_iris ev.message reply
        append_turn h (key_of ev.message) (assistant_turn reply now)
        done tt)

  unfoldable pub proceed : IrisEvent → Time → Bool → M World (Unit {0})
  proceed ev now true = done tt
  proceed ev now false = handle_new ev now

  unfoldable pub handle_message : IrisEvent → Time → M World (Unit {0})
  unfolding already_handled proceed
  handle_message ev now s =
      if ev.message.surface == "" || ev.message.thread_ref == "" || ev.message.surface_user_id == ""
      then (s, err (incomplete ev.seq))
      else (already_handled h (key_of ev.message) ev.seq >>= proceed ev now) s

  -- The loop over the events of a poll, each with the clock; an error is logged.
  unfoldable pub handle_events : List (IrisEvent × Time) → ℕ → Agent World → ℕ × Agent World
  unfolding handle_message
  handle_events [] since s = (since, s)
  handle_events ((ev, now) ∷ evs) since s =
      handle_events evs (if ltb since ev.seq then ev.seq else since) (handle_message ev now s).0

  -- A pass of the loop.
  unfoldable pub poll : Polled → Cursor × Agent World → Cursor × Agent World
  unfolding handle_events
  poll none (c, s) = (c, s)
  poll (some (evs, instance')) (c, s) =
      let restarted =
        not (instance' == "")
        && not (c.last_instance == "")
        && not (instance' == c.last_instance) in
      let (since, s') = handle_events evs (if restarted then 0 else c.since) s in
      (
        record {
          since = since;
          last_instance = if instance' == "" then c.last_instance else instance';
        },
        s',
      )

  unfoldable pub run_polls : List Polled → Cursor × Agent World → Cursor × Agent World
  unfolding poll
  run_polls [] st = st
  run_polls (p ∷ ps) st = run_polls ps (poll p st)
