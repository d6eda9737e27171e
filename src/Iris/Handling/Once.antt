-- ===== src/Iris/Handling/Once.antt =====
-- A message is handled once (agents/iris/internal/iris/handler.go and poller.go).
use zakros.Base.{
  ℕ, List, [], ◌∷◌, none, some, Bool, true, false, ◌||◌, ◌==◌, string_equality, ◌≡◌, ◌⊎◌, inl, inr,
  refl, sym, subst, ◌∙◌, ap, arith, if◌then◌else◌, Bool-cases, Option-cases, nat_equality, ok, err,
}
use zakros.Base.Clock.{Time}
use zakros.Base.Maps.{lookup}
use zakros.Iris.{
  key_equality, IrisEvent, key_of, IrisHandler, Agent, get_conversation, already_handled, M, ◌>>=◌,
  done, strip_iris_prefix, has_seq, ConversationKey, HandleError, no_store, incomplete,
}
use zakros.Iris.Handling.{
  greet, handle_new, proceed, handle_message, handle_events, Cursor, Polled, poll, run_polls,
}
use zakros.Iris.Handling.Table.{
  IsHandled, Keeps, Adds, Keeps-then, Keeps-done, Adds-first, Adds-then, append_turn-Keeps,
  append_turn-Adds, post_as_iris-Keeps, run_loop-Keeps, greet-Keeps, same_table,
}

ruleset keeping =
    (Keeps-then, Keeps-done, append_turn-Keeps, post_as_iris-Keeps, run_loop-Keeps, greet-Keeps)

module _ {World : Type 0} (h : IrisHandler World) where
  handle_new-Keeps :
      (k : ConversationKey) (seq : ℕ) (ev : IrisEvent) (now : Time)
      → Keeps k seq (handle_new h ev now)
  unfolding handle_new
  handle_new-Keeps k seq ev now =
      elim (Bool-cases (strip_iris_prefix h.casing ev.message.content == "")) [
        | inl e ↦ rw e (search keeping)
        | inr e ↦ rw e (search keeping)
      ]

  already-Keeps : (k j : ConversationKey) (seq n : ℕ) → Keeps k seq (already_handled h j n)
  unfolding already_handled get_conversation ◌>>=◌ done
  already-Keeps k j seq n = same_table h k seq (λ s. ground arith)

  greet-Adds : (ev : IrisEvent) → Adds (key_of ev.message) ev.seq (greet h ev)
  unfolding greet
  greet-Adds ev = search (keeping, Adds-first, Adds-then, append_turn-Adds)

  handle_new-Adds :
      (ev : IrisEvent) (now : Time) → Adds (key_of ev.message) ev.seq (handle_new h ev now)
  unfolding handle_new
  handle_new-Adds ev now = elim (Bool-cases (strip_iris_prefix h.casing ev.message.content == "")) [
    | inl e ↦ rw e (greet-Adds ev)
    | inr e ↦ rw e (search (keeping, Adds-first, append_turn-Adds))
  ]

  proceed-Keeps :
      (k : ConversationKey) (seq : ℕ) (ev : IrisEvent) (now : Time) (b : Bool)
      → Keeps k seq (proceed h ev now b)
  unfolding proceed
  proceed-Keeps k seq ev now true = Keeps-done k seq tt
  proceed-Keeps k seq ev now false = handle_new-Keeps k seq ev now

  -- Whatever is handled leaves a message handled.
  handle_message-keeps :
      (k : ConversationKey) (seq : ℕ) (ev : IrisEvent) (now : Time) (s : Agent World)
      → IsHandled k seq s
      → IsHandled k seq (handle_message h ev now s).0
  unfolding handle_message
  handle_message-keeps k seq ev now s d =
      let named : Bool =
        ev.message.surface == ""
        || ev.message.thread_ref == ""
        || ev.message.surface_user_id == "" in
      elim (Bool-cases named) [
        | inl e ↦ rw e d
        | inr e ↦ rw e (
            (Keeps-then (already_handled h (key_of ev.message) ev.seq)
                (already-Keeps k (key_of ev.message) seq ev.seq) (proceed-Keeps k seq ev now)).kept
              s d)
      ]

  -- What already_handled says.
  already-cases :
      (k : ConversationKey) (seq : ℕ) (s : Agent World)
      → ((why : HandleError) × (already_handled h k seq s ≡ (s, err why)))
        ⊎ (already_handled h k seq s ≡ (s, ok (has_seq seq (lookup k s.conversations))))
  unfolding already_handled get_conversation ◌>>=◌ done
  already-cases k seq s = elim (Option-cases (h.get_error s.world k)) [
    | inl e ↦ inr (ground arith)
    | inr (why, e) ↦ inl (no_store why, ground arith)
  ]

  has_seq-IsHandled :
      (k : ConversationKey) (seq : ℕ) (s : Agent World)
      → has_seq seq (lookup k s.conversations) ≡ true
      → IsHandled k seq s
  has_seq-IsHandled k seq s e = elim (Option-cases (lookup k s.conversations)) [
    | inl f ↦ absurd (cc (ap (has_seq seq) f))
    | inr (turns, f) ↦ (turns, f, sym (ap (has_seq seq) f) ∙ e)
  ]

  -- The part of `handle` behind its guard.
  abbrev known : IrisEvent → Time → M World (Unit {0})
  known ev now = already_handled h (key_of ev.message) ev.seq >>= proceed h ev now

  known-cases :
      (ev : IrisEvent) (now : Time) (s : Agent World)
      → ((why : HandleError) × (known ev now s ≡ (s, err why)))
        ⊎ (known ev now s
            ≡ proceed h ev now (has_seq ev.seq (lookup (key_of ev.message) s.conversations)) s)
  unfolding ◌>>=◌
  known-cases ev now s = elim (already-cases (key_of ev.message) ev.seq s) [
    | inl (why, e) ↦ inl (why, ground arith)
    | inr e ↦ inr (ground arith)
  ]

  proceed-adds :
      (ev : IrisEvent) (now : Time) (s : Agent World) (b : Bool)
      → has_seq ev.seq (lookup (key_of ev.message) s.conversations) ≡ b
      → (proceed h ev now b s).1 ≡ ok tt
      → IsHandled (key_of ev.message) ev.seq (proceed h ev now b s).0
  unfolding proceed done
  proceed-adds ev now s true e f = has_seq-IsHandled (key_of ev.message) ev.seq s e
  proceed-adds ev now s false e f = (handle_new-Adds ev now).added s tt f

  -- A message that was handled without an error is handled.
  handle_message-adds :
      (ev : IrisEvent) (now : Time) (s : Agent World)
      → (handle_message h ev now s).1 ≡ ok tt
      → IsHandled (key_of ev.message) ev.seq (handle_message h ev now s).0
  unfolding handle_message
  handle_message-adds ev now s e =
      let named : Bool =
        ev.message.surface == ""
        || ev.message.thread_ref == ""
        || ev.message.surface_user_id == "" in
      elim (Bool-cases named) [
        | inl x ↦ absurd (ground (arith, e))
        | inr x ↦
            let k : (known ev now s).1 ≡ ok tt =
              subst (λ b. (if b then (s, err (incomplete ev.seq)) else known ev now s).1 ≡ ok tt) x
                e in
            rw x (elim (known-cases ev now s) [
              | inl (why, f) ↦ absurd (cc (ap (λ y. y.1) f))
              | inr f ↦
                  subst (λ y. IsHandled (key_of ev.message) ev.seq y.0) (sym f)
                    (proceed-adds ev now s _ refl (sym (ap (λ y. y.1) f) ∙ k))
            ])
      ]

  handled-inert :
      (ev : IrisEvent) (now : Time) (s : Agent World)
      → IsHandled (key_of ev.message) ev.seq s
      → (handle_message h ev now s).0 ≡ s
  unfolding handle_message proceed done
  handled-inert ev now s (turns, e, x) =
      let named : Bool =
        ev.message.surface == ""
        || ev.message.thread_ref == ""
        || ev.message.surface_user_id == "" in
      elim (Bool-cases named) [
        | inl y ↦ rw y refl
        | inr y ↦ rw y (elim (known-cases ev now s) [
          | inl (why, f) ↦ ap (λ z. z.0) f
          | inr f ↦ ap (λ z. z.0) (f ∙ ap (λ b. proceed h ev now b s) (ap (has_seq ev.seq) e ∙ x))
        ])
      ]

  handle_events-keeps :
      (k : ConversationKey) (seq : ℕ) (evs : List (IrisEvent × Time)) (since : ℕ) (s : Agent World)
      → IsHandled k seq s
      → IsHandled k seq (handle_events h evs since s).1
  unfolding handle_events
  handle_events-keeps k seq [] since s d = d
  handle_events-keeps k seq ((ev, now) ∷ evs) since s d =
      handle_events-keeps k seq evs _ (handle_message h ev now s).0
        (handle_message-keeps k seq ev now s d)

  run_polls-keeps :
      (k : ConversationKey) (seq : ℕ) (polls : List Polled) (c : Cursor) (s : Agent World)
      → IsHandled k seq s
      → IsHandled k seq (run_polls h polls (c, s)).1
  unfolding run_polls poll
  run_polls-keeps k seq [] c s d = d
  run_polls-keeps k seq (none ∷ ps) c s d = run_polls-keeps k seq ps c s d
  run_polls-keeps k seq (some (evs, inst) ∷ ps) c s d =
      run_polls-keeps k seq ps _ _ (handle_events-keeps k seq evs _ s d)

  -- Once a message was handled without an error, whatever is polled in between, a message of the same
  -- conversation with the same number changes neither the table nor the world: it is not answered.
  pub handled_once :
      (ev again : IrisEvent) (now later : Time) (s : Agent World) (polls : List Polled) (c : Cursor)
      → (handle_message h ev now s).1 ≡ ok tt
      → key_of again.message ≡ key_of ev.message
      → again.seq ≡ ev.seq
      → let t = (run_polls h polls (c, (handle_message h ev now s).0)).1 in
        (handle_message h again later t).0 ≡ t
  handled_once ev again now later s polls c e same number = handled-inert again later _ (
      run_polls-keeps (key_of again.message) again.seq polls c (handle_message h ev now s).0 (
        subst (λ k. IsHandled k again.seq (handle_message h ev now s).0) (sym same)
          (subst (λ n. IsHandled (key_of ev.message) n (handle_message h ev now s).0) (sym number)
            (handle_message-adds ev now s e))))
