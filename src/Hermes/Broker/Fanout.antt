-- ===== src/Hermes/Broker/Fanout.antt =====
-- Routing and fan-out end to end (hermes/core/core.go and pull.go).
use zakros.Base.{
  nat_equality, string_equality, String, List, [], ◌∷◌, Option, none, some, Bool, ◌≡◌, refl, ◌∙◌,
  ap, inl, inr, arith, keep, subst, Option-cases, ◌==◌, same_text_iff, ok, err, if◌then◌else◌,
}
use zakros.Base.Maps.{Map, lookup, lookup-insert}
use zakros.Base.Int.{ℤ}
use zakros.Hermes.{InboundMessage}
use zakros.Hermes.Pull.{PullConsumer, new_pull_consumer, passes, push, push_all, messages}
use zakros.Hermes.Pull.Contents.{keep_last, new-messages}
use zakros.Hermes.Broker.{
  Broker, Methods, register_plugin, plugin, register_pull_consumer, push_each, fanout_pull, deliver,
  deliver_all,
}

abbrev pushed : InboundMessage → Option PullConsumer → Option PullConsumer
pushed msg none = none
pushed msg (some c) = some (push c msg).0

push_each-lookup :
    (msg : InboundMessage) (name : String) (m : Map String PullConsumer)
    → lookup name (push_each msg m) ≡ pushed msg (lookup name m)
unfolding push_each lookup
push_each-lookup msg name [] = refl
push_each-lookup msg name ((k, c) ∷ m) = ground (arith, push_each-lookup msg name m)

module _ {Plugin Handler : Type 0} where
  deliver_all-lookup :
      (msgs : List InboundMessage) (name : String) (c : PullConsumer) (b : Broker Plugin Handler)
      → lookup name b.pull_consumers ≡ some c
      → lookup name (deliver_all msgs b).pull_consumers ≡ some (push_all c msgs)
  unfolding deliver_all deliver push_all
  deliver_all-lookup [] name c b h = h
  deliver_all-lookup (msg ∷ msgs) name c b h =
      deliver_all-lookup msgs name (push c msg).0 (fanout_pull msg b)
        (unfold fanout_pull in (push_each-lookup msg name b.pull_consumers ∙ ap (pushed msg) h))

  registered :
      (name : String) (cap : ℤ) (filter : Option (InboundMessage → Bool))
      (b b' : Broker Plugin Handler)
      → register_pull_consumer name cap filter b ≡ (b', none)
      → lookup name b'.pull_consumers ≡ some (new_pull_consumer name cap filter)
  unfolding register_pull_consumer
  registered name cap filter b b' h = ground (
    arith,
    lookup-insert name name (new_pull_consumer name cap filter) b.pull_consumers,
    same_text_iff name name,
  )

  -- From its registration on, a pull consumer buffers what its filter accepts of the delivered
  -- messages, whatever the other consumers and handlers are: the last ones, as many as it holds.
  deliver_all-messages :
      (name : String) (cap : ℤ) (filter : Option (InboundMessage → Bool))
      (msgs : List InboundMessage) (b b' : Broker Plugin Handler)
      → register_pull_consumer name cap filter b ≡ (b', none)
      → (c : PullConsumer) × (lookup name (deliver_all msgs b').pull_consumers ≡ some c)
        × (messages c.events ≡ keep_last cap (keep (passes filter) msgs))
  deliver_all-messages name cap filter msgs b b' h = (
    push_all (new_pull_consumer name cap filter) msgs,
    deliver_all-lookup msgs name (new_pull_consumer name cap filter) b'
        (registered name cap filter b b' h),
    new-messages name cap filter msgs,
  )

  -- A surface is routed to the plugin that registered first under its name: a registration adds a
  -- route or, when the name is taken, changes nothing.
  register_plugin-routes :
      (m : Methods Plugin) (p : Plugin) (surface : String) (b : Broker Plugin Handler)
      → plugin surface (register_plugin m (some p) b).0 ≡ elim (plugin surface b) [
        | ok q ↦ ok q
        | err e ↦ if m.name p == surface then ok p else err e
      ]
  unfolding register_plugin plugin
  register_plugin-routes m p surface b = elim (Option-cases (lookup (m.name p) b.plugins)) [
    | inl e ↦ ground (
      arith,
      lookup-insert (m.name p) surface p b.plugins,
      same_text_iff (m.name p) surface,
      same_key e,
    )
    | inr (q, e) ↦ ground (arith, same_text_iff (m.name p) surface, same_key' q e)
  ]
    where
      same_key :
          lookup (m.name p) b.plugins ≡ none → m.name p ≡ surface → lookup surface b.plugins ≡ none
      same_key e s = subst (λ k. lookup k b.plugins ≡ none) s e

      same_key' :
          (q : Plugin)
          → lookup (m.name p) b.plugins ≡ some q
          → m.name p ≡ surface
          → lookup surface b.plugins ≡ some q
      same_key' q e s = subst (λ k. lookup k b.plugins ≡ some q) s e
