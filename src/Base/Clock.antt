-- ===== src/Base/Clock.antt =====
-- Go's `time`: instants and durations in nanoseconds.
use Prim.Native.Nat.{ℕ, ◌+◌, ◌-◌, ◌*◌, ◌^◌}
use mathlib.Core.Bool.{Bool}
use zakros.Base.Tests.{ltb, leb, eqb, if◌then◌else◌}
use zakros.Base.Int.{ℤ, pos, negsuc, pos_part, neg_part, sub_ℕ, wrap64}

-- An instant, counted from the zero `time.Time` (1 January of the year 1).
abbrev pub Time : Type 0
Time = ℕ

abbrev pub Duration : Type 0
Duration = ℤ

abbrev pub is_zero : Time → Bool
is_zero t = eqb t 0

-- t.Before(u)
abbrev pub before : Time → Time → Bool
before t u = ltb t u

abbrev pub second : ℕ
second = 1000000000

abbrev pub hour : ℕ
hour = 3600 * second

-- t.Sub(u), which saturates at the ends of an int64.
unfoldable pub time_sub : Time → Time → Duration
time_sub t u =
    if leb u t
    then (if ltb (t - u) (2 ^ 63) then pos (t - u) else pos (2 ^ 63 - 1))
    else (if ltb (u - t) (2 ^ 63) then negsuc (u - t - 1) else negsuc (2 ^ 63 - 1))

-- time.Unix(sec, 0), in nanoseconds from the zero time; the seconds between the epochs are added with
-- wrap-around.
unfoldable pub unix : ℤ → ℤ
unfolding wrap64
unix sec =
    let n = wrap64 (sub_ℕ (pos_part sec + 62135596800) (neg_part sec)) in
    sub_ℕ (pos_part n * second) (neg_part n * second)

-- t.Sub(u) for an instant that may precede the zero time.
unfoldable pub since : Time → ℤ → Duration
since t u =
    let d = sub_ℕ (t + neg_part u) (pos_part u) in
    if ltb (2 ^ 63 - 1) (pos_part d)
    then pos (2 ^ 63 - 1)
    else if ltb (2 ^ 63) (neg_part d)
    then negsuc (2 ^ 63 - 1)
    else d
