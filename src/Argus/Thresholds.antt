-- ===== src/Argus/Thresholds.antt =====
-- The thresholds that Argus computes from a task's budget, and what the rules make of them
-- (minos/argus/argus.go, TrackTask and evaluate).
use zakros.Base.{
  Bool, true, false, not, ◌&&◌, if◌then◌else◌, leb, ◌-◌, ℕ, ◌*◌, ◌/◌, ◌^◌, ◌≤◌, ◌<◌, String, ◌≡◌,
  ap, ◌∙◌, arith,
}
use native.Mathlib.Nat.{mul-le-mul_left}
use zakros.Base.Int.{ℤ, pos, ltb_ℤ, leb_ℤ, wrap64, mul64, div64}
use zakros.Base.Clock.{Time, second, time_sub}
use zakros.Envelope.{Envelope}
use zakros.Storage.{Uuid}
use zakros.Argus.{Config, State, cap_exceeded, budget_used, no_heartbeat}
use zakros.Argus.Rules.{Verdict, stop, escalate_now, warn_now, leave, judge, percent_of}
use zakros.Argus.Tracking.{or_default, state_of}

mul64-small : (a b : ℕ) → a * b < 2 ^ 63 → mul64 (pos a) (pos b) ≡ pos (a * b)
unfolding mul64 wrap64
mul64-small a b h = ground arith

div64-pos : (a : ℕ) → div64 (pos a) 100 ≡ pos (a / 100)
unfolding div64
div64-pos a = ground arith

-- Without overflow.
pub share :
    (m p : ℕ) → p ≤ 100 → m * 100 < 2 ^ 63 → div64 (mul64 (pos m) (pos p)) 100 ≡ pos (m * p / 100)
share m p h small =
    ap (λ z. div64 z 100) (mul64-small m p (omega (arith, mul-le-mul_left m h, small)))
    ∙ div64-pos (m * p)

-- Go's difference of two instants that are less than 2^63 nanoseconds apart.
time_sub-later : (t u : Time) → u ≤ t → t - u < 2 ^ 63 → time_sub t u ≡ pos (t - u)
unfolding time_sub
time_sub-later t u h k = ground arith

-- The verdict on a pod that has run for `x` under the cap `m`, with the warning at `a` and the escalation
-- at `b`, by what Argus has already told.
abbrev pub expected : Bool → Bool → ℕ → ℕ → ℕ → ℕ → Verdict
expected warned escalated m a b x =
    let used = budget_used (percent_of (pos x) (pos m)) (pos x) (pos m) in
    if leb m x
    then stop (cap_exceeded (pos x) (pos m))
    else if not escalated && leb b x
    then escalate_now used
    else if not warned && leb a x
    then warn_now used
    else leave

-- The switch of evaluate over what it compares, `silence` being the verdict on a silent pod.
abbrev chosen : Bool → Bool → ℤ → ℤ → ℤ → ℤ → Bool → Verdict → Verdict
chosen warned escalated max warning escalation wall stalled silence =
    let used = budget_used (percent_of wall max) wall max in
    let capped = ltb_ℤ (pos 0) max in
    if capped && leb_ℤ max wall
    then stop (cap_exceeded wall max)
    else if stalled
    then silence
    else if capped && not escalated && ltb_ℤ (pos 0) escalation && leb_ℤ escalation wall
    then escalate_now used
    else if capped && not warned && ltb_ℤ (pos 0) warning && leb_ℤ warning wall
    then warn_now used
    else leave

chosen-expected :
    (warned escalated : Bool) (m a b x : ℕ) (silence : Verdict)
    → 0 < m
    → 0 < a
    → 0 < b
    → chosen warned escalated (pos m) (pos a) (pos b) (pos x) false silence
      ≡ expected warned escalated m a b x
chosen-expected true true m a b x silence m0 a0 b0 = ground arith
chosen-expected true false m a b x silence m0 a0 b0 = ground arith
chosen-expected false true m a b x silence m0 a0 b0 = ground arith
chosen-expected false false m a b x silence m0 a0 b0 = ground arith

judge-expected :
    (cfg : Config) (at : Time) (st : State) (m a b x : ℕ)
    → st.max_wall_clock ≡ pos m
    → st.warning_at ≡ pos a
    → st.escalation_at ≡ pos b
    → time_sub at st.started_at ≡ pos x
    → (ltb_ℤ (pos 0) cfg.stall_threshold
        && leb_ℤ cfg.stall_threshold (time_sub at st.last_heartbeat))
      ≡ false
    → 0 < m
    → 0 < a
    → 0 < b
    → judge cfg at st ≡ expected st.warned st.escalated m a b x
unfolding judge
judge-expected cfg at st m a b x hm ha hb hx silent m0 a0 b0 =
    cc (hm, ha, hb, hx, silent) ∙ chosen-expected st.warned st.escalated m a b x no_stall m0 a0 b0
  where
    no_stall : Verdict
    no_stall = stop (no_heartbeat (time_sub at st.last_heartbeat) cfg.stall_threshold)

-- For a budget of n ≥ 1 seconds whose percentages, after the defaults, are 1 ≤ p ≤ q ≤ 100, the state that
-- Argus composes has the budget as its cap, and the warning at p and the escalation at q per cent of it,
-- rounded down to a nanosecond, in this order. Of a pod in this state that has beaten since, and however
-- much Argus has told already, the rules on time decide after x nanoseconds: stop, if x has reached the cap;
-- otherwise escalate, if x has reached the escalation and that has not been told; otherwise warn, if x has
-- reached the warning and that has not been told; and else nothing. This holds as long as a hundred times
-- the cap, and x, do not overflow an int64, and the pod is not silent for the stall threshold.
pub state_of-thresholds :
    (cfg : Config) (namespace : String) (started now : Time) (id run : Uuid) (pod : String)
    (e : Envelope) (n p q : ℕ) (at beat : Time) (warned escalated : Bool)
    → e.budget.max_wall_clock_seconds ≡ pos n
    → or_default e.budget.warning_threshold_pct cfg.warning_threshold_pct ≡ pos p
    → or_default e.budget.escalation_threshold_pct cfg.escalation_threshold_pct ≡ pos q
    → 1 ≤ n
    → 1 ≤ p
    → p ≤ q
    → q ≤ 100
    → n * second * 100 < 2 ^ 63
    → started ≤ at
    → at - started < 2 ^ 63
    → (ltb_ℤ (pos 0) cfg.stall_threshold && leb_ℤ cfg.stall_threshold (time_sub at beat)) ≡ false
    → let st = state_of cfg namespace started now id run pod e in
      (st.max_wall_clock ≡ pos (n * second))
      × (st.warning_at ≡ pos (n * second * p / 100))
      × (st.escalation_at ≡ pos (n * second * q / 100))
      × (n * second * p / 100 ≤ n * second * q / 100)
      × (n * second * q / 100 ≤ n * second)
      × (judge cfg at (record st { last_heartbeat = beat; warned = warned; escalated = escalated })
          ≡ expected warned escalated
              (n * second)
              (n * second * p / 100)
              (n * second * q / 100)
              (at - started))
unfolding state_of
state_of-thresholds cfg namespace started now id run pod e n p q at beat warned escalated hn hp hq
      n1 p1 pq q100 small later near silent =
    let cap = ap (λ z. mul64 z (pos second)) hn ∙ mul64-small n second (omega (arith, small)) in
    let part = λ (z : ℤ) (r : ℕ) (hz : z ≡ pos r) (r100 : r ≤ 100).
      ap (λ c. div64 (mul64 c z) 100) cap
      ∙ ap (λ y. div64 (mul64 (pos (n * second)) y) 100) hz
      ∙ share (n * second) r r100 small in
    let least = mul-le-mul_left (n * second) p1 in
    let order = mul-le-mul_left (n * second) pq in
    let st = state_of cfg namespace started now id run pod e in
    (
      cap,
      part _ p hp (omega arith),
      part _ q hq q100,
      omega (arith, order),
      omega (arith, mul-le-mul_left (n * second) q100),
      judge-expected cfg at
          (record st { last_heartbeat = beat; warned = warned; escalated = escalated }) (n * second)
          (n * second * p / 100) (n * second * q / 100) (at - started) cap
          (part _ p hp (omega arith)) (part _ q hq q100) (time_sub-later at started later near)
          silent (omega arith) (omega (arith, least)) (omega (arith, least, order)),
    )
