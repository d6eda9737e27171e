-- ===== src/Hermes/Pull/Polling.antt =====
-- What a poll returns (hermes/core/pull.go, collectLocked and next).
use zakros.Base.{
  ℕ, zero, suc, ◌+◌, ◌-◌, ◌≤◌, ◌<◌, List, [], ◌∷◌, none, false, ◌≡◌, ◌↔◌, refl, inl, inr, arith,
  ltb, leb, take, keep, All, Bool-cases, subst,
}
use zakros.Base.Int.{ℤ}
use zakros.Hermes.Pull.{PullEvent, collect, page_size, next, Wake}
use zakros.Hermes.Pull.Window.{RunsFrom}

-- A poll returns exactly the first `max` buffered events that are newer than `since`, in order.
collect-newer :
    (since max : ℕ) (evs : List PullEvent)
    → 1 ≤ max
    → collect since max evs ≡ take max (keep (λ ev. ltb since ev.seq) evs)
unfolding collect
collect-newer since zero evs h = absurd (omega arith)
collect-newer since (suc n) [] h = refl
collect-newer since (suc zero) (ev ∷ evs) h = ground (arith, collect-newer since 1 evs)
collect-newer since (suc (suc n)) (ev ∷ evs) h =
    ground (arith, collect-newer since (suc (suc n)) evs, collect-newer since (suc n) evs)

collect-RunsFrom_above :
    (n since max : ℕ) (evs : List PullEvent)
    → since < n
    → RunsFrom n evs
    → RunsFrom n (collect since max evs)
unfolding collect
collect-RunsFrom_above n since max [] h r = tt
collect-RunsFrom_above n since max (ev ∷ evs) h r =
    ground (arith, collect-RunsFrom_above (suc n) since (max - 1) evs)

-- A consumer that was not overtaken by the buffer's first event sees no gap: a poll continues with
-- the sequence number after the last one it saw, and numbers what it returns consecutively.
collect-RunsFrom :
    (n since max : ℕ) (evs : List PullEvent)
    → n ≤ since + 1
    → RunsFrom n evs
    → RunsFrom (suc since) (collect since max evs)
unfolding collect
collect-RunsFrom n since max [] h r = tt
collect-RunsFrom n since max (ev ∷ evs) h r = elim (Bool-cases (leb ev.seq since)) [
  | inl old ↦ rw old (collect-RunsFrom (suc n) since max evs (ground arith) r.1)
  | inr new ↦
      subst (λ m. RunsFrom m (collect since max (ev ∷ evs))) (ground arith)
        (collect-RunsFrom_above n since max (ev ∷ evs) (ground arith) r)
]

-- Nothing to return, no cancellation and no deadline.
pub record IsQuiet (since : ℕ) (w : Wake) : Type 0 where
  nothing_new : All (λ ev. ev.seq ≤ since) w.events
  open_ctx : w.ctx_err ≡ none
  in_time : w.past_deadline ≡ false

collect-quiet :
    (since max : ℕ) (evs : List PullEvent)
    → All (λ ev. ev.seq ≤ since) evs
    → collect since max evs ≡ []
unfolding collect
collect-quiet since max [] h = refl
collect-quiet since max (ev ∷ evs) h = ground (arith, collect-quiet since max evs)

quiet-collect :
    (since max : ℕ) (evs : List PullEvent)
    → collect since max evs ≡ []
    → All (λ ev. ev.seq ≤ since) evs
unfolding collect
quiet-collect since max [] h = tt
quiet-collect since max (ev ∷ evs) h = ground (arith, quiet-collect since max evs)

wake-waits :
    (since : ℕ) (max : ℤ) (w : Wake) (ws : List Wake)
    → (next since max ws ≡ none) ↔ All (IsQuiet since) ws
    → (next since max (w ∷ ws) ≡ none) ↔ All (IsQuiet since) (w ∷ ws)
unfolding next
wake-waits since max w ws rest = (to, from)
  where
    to : next since max (w ∷ ws) ≡ none → All (IsQuiet since) (w ∷ ws)
    to h = (
      record {
        nothing_new = quiet-collect since (page_size max) w.events (ground arith);
        open_ctx = ground arith;
        in_time = ground arith;
      },
      rest.0 (ground arith),
    )

    from : All (IsQuiet since) (w ∷ ws) → next since max (w ∷ ws) ≡ none
    from h =
        ground (arith, collect-quiet since (page_size max) w.events h.0.nothing_new, rest.1 h.1)

-- A poll goes on waiting exactly as long as every wake-up finds nothing new, no cancellation and no
-- deadline; any other wake-up ends it.
next-waits :
    (since : ℕ) (max : ℤ) (ws : List Wake) → (next since max ws ≡ none) ↔ All (IsQuiet since) ws
unfolding next
next-waits since max [] = (λ _. tt, λ _. refl)
next-waits since max (w ∷ ws) = wake-waits since max w ws (next-waits since max ws)
