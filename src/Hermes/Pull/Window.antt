-- ===== src/Hermes/Pull/Window.antt =====
-- The buffer as a window on the accepted messages (hermes/core/pull.go, push).
use zakros.Base.{
  ℕ, zero, suc, ◌+◌, ◌-◌, ◌%◌, ◌^◌, ◌≤◌, ◌<◌, List, [], ◌∷◌, ◌++◌, ◌≡◌, refl, inl, inr, arith, ltb,
  length, drop, length-append, length-drop, Bool-cases, subst,
}
use zakros.Base.Int.{ℤ, pos, negsuc}
use zakros.Hermes.{InboundMessage}
use zakros.Hermes.Pull.{PullEvent, PullConsumer, passes, trim, push}

-- The sequence numbers of the events run from `n` upwards without a gap.
abbrev pub RunsFrom : ℕ → List PullEvent → Type 0
RunsFrom n [] = Unit
RunsFrom n (ev ∷ evs) = (ev.seq ≡ n) × RunsFrom (suc n) evs

pub record IsWindow (c : PullConsumer) : Type 0 where
  pub first : ℕ
  pub positive : 1 ≤ first
  pub runs : RunsFrom first c.events
  pub next : c.next_seq ≡ first + length c.events
  pub fits : (n : ℕ) → c.cap ≡ pos (suc n) → length c.events ≤ suc n

RunsFrom-append :
    (n : ℕ) (evs : List PullEvent) (ev : PullEvent)
    → RunsFrom n evs
    → ev.seq ≡ n + length evs
    → RunsFrom n (evs ++ ev ∷ [])
RunsFrom-append n [] ev h e = (omega arith, tt)
RunsFrom-append n (x ∷ xs) ev h e = (h.0, RunsFrom-append (suc n) xs ev h.1 (omega arith))

RunsFrom-drop :
    (k n : ℕ) (evs : List PullEvent)
    → k ≤ length evs
    → RunsFrom n evs
    → RunsFrom (n + k) (drop k evs)
RunsFrom-drop zero n evs h r = subst (λ m. RunsFrom m evs) (omega arith) r
RunsFrom-drop (suc k) n [] h r = tt
RunsFrom-drop (suc k) n (x ∷ xs) h r =
    subst (λ m. RunsFrom m (drop k xs)) (omega arith) (RunsFrom-drop k (suc n) xs (omega arith) r.1)

-- How many events a trim drops.
abbrev pub excess : ℤ → ℕ → ℕ
excess (pos zero) len = 0
excess (pos (suc n)) len = len - suc n
excess (negsuc n) len = 0

drop_none : (evs : List PullEvent) (k : ℕ) → k ≡ 0 → drop k evs ≡ evs
drop_none evs zero h = refl
drop_none evs (suc k) h = absurd (omega arith)

pub trim-drop : (cap : ℤ) (evs : List PullEvent) → trim cap evs ≡ drop (excess cap (length evs)) evs
unfolding trim
trim-drop (pos zero) evs = refl
trim-drop (negsuc n) evs = ground arith
trim-drop (pos (suc n)) evs = elim (Bool-cases (ltb (suc n) (length evs))) [
  | inl over ↦ ground arith
  | inr fits ↦ ground (arith, drop_none evs (length evs - suc n))
]

pub excess-le : (cap : ℤ) (len : ℕ) → excess cap len ≤ len
excess-le (pos zero) len = omega arith
excess-le (pos (suc n)) len = omega arith
excess-le (negsuc n) len = omega arith

excess_fits : (cap : ℤ) (n len : ℕ) → cap ≡ pos (suc n) → len - excess cap len ≤ suc n
excess_fits (pos zero) n len e = ground arith
excess_fits (pos (suc m)) n len e = ground arith
excess_fits (negsuc m) n len e = cc

grown : PullConsumer → InboundMessage → List PullEvent
grown c msg = c.events ++ (record { seq = c.next_seq; message = msg }) ∷ []

grown-IsWindow :
    (c : PullConsumer) (msg : InboundMessage)
    → suc c.next_seq < 2 ^ 64
    → IsWindow c
    → IsWindow
        (record c { next_seq = (c.next_seq + 1) % 2 ^ 64; events = trim c.cap (grown c msg) })
unfolding grown
grown-IsWindow c msg small w = record {
  first = w.first + gone;
  positive = omega (arith, w.positive);
  runs = rw (trim-drop c.cap (grown c msg)) (
      RunsFrom-drop gone w.first (grown c msg) (excess-le c.cap len)
        (RunsFrom-append w.first c.events _ w.runs w.next));
  next =
      rw (trim-drop c.cap (grown c msg))
        (omega (arith, w.next, grew, length-drop gone (grown c msg), excess-le c.cap len));
  fits = λ n e.
      rw (trim-drop c.cap (grown c msg))
        (omega (arith, length-drop gone (grown c msg), excess_fits c.cap n len e));
}
  where
    len : ℕ
    len = length (grown c msg)

    gone : ℕ
    gone = excess c.cap len

    grew : len ≡ length c.events + 1
    grew = length-append c.events _

-- Until the 64-bit counter runs out, the buffer holds consecutive sequence numbers up to the last
-- one given, and never more events than a positive capacity.
push-IsWindow :
    (c : PullConsumer) (msg : InboundMessage)
    → suc c.next_seq < 2 ^ 64
    → IsWindow c
    → IsWindow (push c msg).0
unfolding push grown
push-IsWindow c msg small w = elim (Bool-cases (passes c.filter msg)) [
  | inl accepted ↦ rw (accepted, push) (grown-IsWindow c msg small w)
  | inr dropped ↦ rw (dropped, push) w
]
