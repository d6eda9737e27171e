-- ===== src/Hermes/Pull.antt =====
-- The ring buffer of a pull consumer (hermes/core/pull.go).
pub mod Window
pub mod Polling
pub mod Contents
use zakros.Base.{
  ℕ, ◌+◌, ◌-◌, ◌%◌, ◌^◌, String, List, [], ◌∷◌, ◌++◌, Option, none, some, Bool, true, false, ◌&&◌,
  if◌then◌else◌, ltb, leb, length, drop, Result, ok, err,
}
use zakros.Base.Int.{ℤ, pos, pos_part, ltb_ℤ, leb_ℤ}
use zakros.Hermes.{InboundMessage}

pub record PullEvent : Type 0 where
  pub seq : ℕ  -- uint64
  pub message : InboundMessage

pub record PullConsumer : Type 0 where
  pub name : String
  pub filter : Option (InboundMessage → Bool)
  pub cap : ℤ
  pub events : List PullEvent
  pub next_seq : ℕ  -- uint64

unfoldable pub new_pull_consumer : String → ℤ → Option (InboundMessage → Bool) → PullConsumer
new_pull_consumer name capacity filter = record {
  name = name;
  filter = filter;
  cap = capacity;
  events = [];
  next_seq = 1;
}

abbrev pub passes : Option (InboundMessage → Bool) → InboundMessage → Bool
passes none msg = true
passes (some f) msg = f msg

-- c.events[len(c.events)-c.cap:] when the buffer is over a positive capacity.
unfoldable pub trim : ℤ → List PullEvent → List PullEvent
trim cap events =
    if ltb_ℤ (pos 0) cap && ltb (pos_part cap) (length events)
    then drop (length events - pos_part cap) events
    else events

-- The new buffer, and the sequence number given, 0 when the filter drops the message.
unfoldable pub push : PullConsumer → InboundMessage → PullConsumer × ℕ
unfolding trim
push c msg =
    if passes c.filter msg
    then (
      record c {
        next_seq = (c.next_seq + 1) % 2 ^ 64;
        events = trim c.cap (c.events ++ (record { seq = c.next_seq; message = msg }) ∷ []);
      },
      c.next_seq,
    )
    else (c, 0)

-- collectLocked, with `max` events still wanted.
unfoldable pub collect : ℕ → ℕ → List PullEvent → List PullEvent
collect since max [] = []
collect since max (ev ∷ evs) =
    let skipped = collect since max evs in
    let taken = collect since (max - 1) evs in
    if leb ev.seq since then skipped else (ev ∷ (if leb max 1 then [] else taken))

abbrev pub page_size : ℤ → ℕ
page_size max = if leb_ℤ max (pos 0) then 32 else pos_part max

pub data CtxError : Type 0 where
  cancelled deadline_exceeded : CtxError

-- What one turn of the polling loop sees once it holds the lock.
pub record Wake : Type 0 where
  pub events : List PullEvent
  pub ctx_err : Option CtxError
  pub past_deadline : Bool

abbrev answer :
    List PullEvent
    → Wake
    → Option (Result CtxError (List PullEvent))
    → Option (Result CtxError (List PullEvent))
answer (ev ∷ evs) w later = some (ok (ev ∷ evs))
answer [] w later = elim w.ctx_err [
  | some e ↦ some (err e)
  | none ↦ if w.past_deadline then some (ok []) else later
]

-- The loop of `next` over its wake-ups; `none` while it still waits on the condition variable.
unfoldable pub next : ℕ → ℤ → List Wake → Option (Result CtxError (List PullEvent))
next since max [] = none
next since max (w ∷ ws) =
    let later = next since max ws in answer (collect since (page_size max) w.events) w later

-- A sequence of deliveries to one consumer.
unfoldable pub push_all : PullConsumer → List InboundMessage → PullConsumer
push_all c [] = c
push_all c (msg ∷ msgs) = push_all (push c msg).0 msgs

abbrev pub messages : List PullEvent → List InboundMessage
messages [] = []
messages (ev ∷ evs) = ev.message ∷ messages evs
