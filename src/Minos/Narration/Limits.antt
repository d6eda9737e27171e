-- ===== src/Minos/Narration/Limits.antt =====
-- The limits of a poll (minos/core/iris_hermes.go, handleHermesEventsNext).
use zakros.Base.{
  ℕ, ◌≤◌, String, string_equality, ◌==◌, some, ◌≡◌, arith, inl, inr, Option-cases, Bool-cases,
}
use zakros.Base.Int.{pos, negsuc}
use zakros.Base.Text.{parse_int}
use zakros.Minos.Narration.{max_of, timeout_of}

max_of-bounds : (raw : String) (n : ℕ) → max_of raw ≡ some n → (1 ≤ n) × (n ≤ 100)
unfolding max_of
max_of-bounds raw n h = elim (Bool-cases (raw == "")) [
  | inl missing ↦ ground arith
  | inr given ↦ elim (Option-cases (parse_int raw)) [
    | inl e ↦ ground arith
    | inr (pos k, e) ↦ ground arith
    | inr (negsuc k, e) ↦ ground arith
  ]
]

timeout_of-bound : (raw : String) (m : ℕ) → timeout_of raw ≡ some m → m ≤ 60
unfolding timeout_of
timeout_of-bound raw m h = elim (Bool-cases (raw == "")) [
  | inl missing ↦ ground arith
  | inr given ↦ elim (Option-cases (parse_int raw)) [
    | inl e ↦ ground arith
    | inr (pos k, e) ↦ ground arith
    | inr (negsuc k, e) ↦ ground arith
  ]
]

-- A poll asks for 1 to 100 events and waits for at most a minute, whatever its parameters are; others are
-- refused.
limits_bounded :
    (raw raw' : String) (n m : ℕ)
    → max_of raw ≡ some n
    → timeout_of raw' ≡ some m
    → ((1 ≤ n) × (n ≤ 100)) × (m ≤ 60)
limits_bounded raw raw' n m h k = (max_of-bounds raw n h, timeout_of-bound raw' m k)
