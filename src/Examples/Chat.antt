-- ===== src/Examples/Chat.antt =====
-- The pull buffer and the broker at work.
use zakros.Base.{
  string_equality, ℕ, suc, ◌≤◌, String, List, [], ◌∷◌, Option, none, some, Bool, true, false, ◌≡◌,
  refl, arith, ok, keep, ◌==◌, if◌then◌else◌,
}
use zakros.Base.Int.{pos}
use zakros.Base.Maps.{lookup, insert}
use zakros.Hermes.{InboundMessage}
use zakros.Hermes.Pull.{
  PullEvent, PullConsumer, Wake, new_pull_consumer, passes, push, push_all, messages,
}
use zakros.Hermes.Pull.Window.{IsWindow}
use zakros.Hermes.Pull.Contents.{keep_last, new-messages}
use zakros.Hermes.Broker.{Broker, Methods, new, register_pull_consumer}

abbrev note : String → InboundMessage
note text = record {
  surface = "discord";
  surface_user_id = "ann";
  thread_ref = "t";
  content = text;
  timestamp = 3;
}

abbrev no_blank : Option (InboundMessage → Bool)
no_blank = some (λ m. if m.content == "" then false else true)

abbrev talk : List InboundMessage
talk = note "a" ∷ note "" ∷ note "b" ∷ note "c" ∷ []

abbrev iris : PullConsumer
iris = record (push_all (new_pull_consumer "iris" (pos 2) no_blank) talk) { name = "iris" }

iris_buffer : messages iris.events ≡ note "b" ∷ note "c" ∷ []
unfolding push_all push new_pull_consumer
iris_buffer = refl

iris-IsWindow : IsWindow iris
unfolding push_all push new_pull_consumer
iris-IsWindow = record {
  first = 2;
  positive = omega arith;
  runs = (refl, (refl, tt));
  next = refl;
  fits = λ n e. ground arith;
}

iris_room : suc iris.next_seq ≤ 100
unfolding push_all push new_pull_consumer
iris_room = omega arith

new-messages_example :
    messages (push_all (new_pull_consumer "iris" (pos 2) no_blank) talk).events
    ≡ keep_last (pos 2) (keep (passes no_blank) talk)
new-messages_example = new-messages "iris" (pos 2) no_blank talk

abbrev buffer : List PullEvent
buffer =
    record { seq = 4; message = note "a" }
    ∷ record { seq = 5; message = note "b" }
    ∷ record { seq = 6; message = note "c" }
    ∷ []

abbrev wakes : List Wake
wakes = record { events = buffer; ctx_err = none; past_deadline = false } ∷ []

abbrev names : Methods String
names = record {
  name = λ p. p;
  create_thread = λ p req. ok "t";
  post_to_thread = λ p ref msg. none;
}

abbrev hub : Broker String ℕ
hub = new "i-1"

abbrev hub_iris : Broker String ℕ
hub_iris = (register_pull_consumer "iris" (pos 2) no_blank hub).0

hub_registers : register_pull_consumer "iris" (pos 2) no_blank hub ≡ (hub_iris, none)
unfolding register_pull_consumer lookup insert new
hub_registers = refl
