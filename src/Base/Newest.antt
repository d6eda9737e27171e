-- ===== src/Base/Newest.antt =====
-- Lists sorted newest first and cut to a limit, as the stores return them (minos/storage/memstore/memstore.go,
-- ListTasks; mnemosyne/memstore/memstore.go).
use Prim.Native.Nat.{ℕ, zero, suc, ◌≤◌}
use mathlib.Core.Path.{◌≡◌, refl, ap, subst}
use mathlib.Core.Logic.{◌≢◌, inl, inr}
use mathlib.Core.Bool.{◌&&◌}
use mathlib.Core.List.{List, [], ◌∷◌, ◌++◌, Perm, append-nil}
use mathlib.Core.List.Perm
use native.Mathlib.Omega.{arith}
use zakros.Base.Tests.{leb, ltb, ltb→lt, Bool-cases, if◌then◌else◌}
use zakros.Base.Int.{ℤ, pos, negsuc, ltb_ℤ, pos_part}
use zakros.Base.Lists.{
  All, Has, here, there, length, take, drop, take-append-drop, length-take-le, length-append,
  length-drop,
}

module _ {A : Type 0} (at : A → ℕ) where
  -- `sort.Slice` by `CreatedAt.After`: newest first. Go does not say where equal instants go.
  unfoldable pub place : A → List A → List A
  place t [] = t ∷ []
  place t (u ∷ us) = if leb (at u) (at t) then t ∷ u ∷ us else u ∷ place t us

  unfoldable pub newest_first : List A → List A
  unfolding place
  newest_first [] = []
  newest_first (t ∷ ts) = place t (newest_first ts)

  -- No element stands before a newer one.
  abbrev pub IsNewestFirst : List A → Type 0
  IsNewestFirst [] = Unit
  IsNewestFirst (t ∷ ts) = All (λ u. (at u) ≤ (at t)) ts × IsNewestFirst ts

  All-older : (a b : ℕ) (ts : List A) → a ≤ b → All (λ u. (at u) ≤ a) ts → All (λ u. (at u) ≤ b) ts
  All-older a b [] h all = tt
  All-older a b (t ∷ ts) h all = (omega arith, All-older a b ts h all.1)

  All-place :
      (a : ℕ) (t : A) (ts : List A)
      → (at t) ≤ a
      → All (λ u. (at u) ≤ a) ts
      → All (λ u. (at u) ≤ a) (place t ts)
  unfolding place
  All-place a t [] h all = (h, tt)
  All-place a t (u ∷ us) h all = elim (Bool-cases (leb (at u) (at t))) [
    | inl older ↦ rw older (h, all)
    | inr newer ↦ rw newer (all.0, All-place a t us h all.1)
  ]

  place-IsNewestFirst : (t : A) (ts : List A) → IsNewestFirst ts → IsNewestFirst (place t ts)
  unfolding place
  place-IsNewestFirst t [] h = (tt, tt)
  place-IsNewestFirst t (u ∷ us) h = elim (Bool-cases (leb (at u) (at t))) [
    | inl older ↦ rw older ((ground arith, All-older (at u) (at t) us (ground arith) h.0), h)
    | inr newer ↦ rw newer (All-place (at u) t us (ground arith) h.0, place-IsNewestFirst t us h.1)
  ]

  place-perm : (t : A) (ts : List A) → Perm (place t ts) (t ∷ ts)
  unfolding place
  place-perm t [] = Perm.refl (t ∷ [])
  place-perm t (u ∷ us) = elim (Bool-cases (leb (at u) (at t))) [
    | inl older ↦ rw older (Perm.refl (t ∷ u ∷ us))
    | inr newer ↦ rw newer (Perm.trans (Perm.cons u (place-perm t us)) (Perm.swap t u us))
  ]

  pub newest_first-IsNewestFirst : (ts : List A) → IsNewestFirst (newest_first ts)
  unfolding newest_first
  newest_first-IsNewestFirst [] = tt
  newest_first-IsNewestFirst (t ∷ ts) =
      place-IsNewestFirst t (newest_first ts) (newest_first-IsNewestFirst ts)

  newest_first-perm : (ts : List A) → Perm (newest_first ts) ts
  unfolding newest_first
  newest_first-perm [] = Perm.refl []
  newest_first-perm (t ∷ ts) =
      Perm.trans (place-perm t (newest_first ts)) (Perm.cons t (newest_first-perm ts))

  place-here : (t : A) (ts : List A) → Has t (place t ts)
  unfolding place
  place-here t [] = here
  place-here t (u ∷ us) = elim (Bool-cases (leb (at u) (at t))) [
    | inl older ↦ rw older here
    | inr newer ↦ rw newer (there (place-here t us))
  ]

  place-there : (u t : A) {ts : List A} → Has t ts → Has t (place u ts)
  unfolding place
  place-there u t (here {ys = us}) = elim (Bool-cases (leb (at t) (at u))) [
    | inl older ↦ rw older (there here)
    | inr newer ↦ rw newer here
  ]
  place-there u t (there {y = v} m) = elim (Bool-cases (leb (at v) (at u))) [
    | inl older ↦ rw older (there (there m))
    | inr newer ↦ rw newer (there (place-there u t m))
  ]

  pub newest_first-Has : (t : A) {ts : List A} → Has t ts → Has t (newest_first ts)
  unfolding newest_first
  newest_first-Has t (here {ys = us}) = place-here t (newest_first us)
  newest_first-Has t (there {y = u} m) = place-there u t (newest_first-Has t m)

  place-All : (P : A → Type 0) (t : A) (ts : List A) → P t → All P ts → All P (place t ts)
  unfolding place
  place-All P t [] p h = (p, tt)
  place-All P t (u ∷ us) p h = elim (Bool-cases (leb (at u) (at t))) [
    | inl older ↦ rw older (p, h)
    | inr newer ↦ rw newer (h.0, place-All P t us p h.1)
  ]

  pub newest_first-All : (P : A → Type 0) (ts : List A) → All P ts → All P (newest_first ts)
  unfolding newest_first
  newest_first-All P [] h = tt
  newest_first-All P (t ∷ ts) h = place-All P t (newest_first ts) h.0 (newest_first-All P ts h.1)

module _ {A : Type 0} where
  -- A limit that is not positive cuts nothing.
  unfoldable pub cut : ℤ → List A → List A
  cut limit out =
      if ltb_ℤ (pos 0) limit && ltb (pos_part limit) (length out)
      then take (pos_part limit) out
      else out

  length_zero : (ts : List A) → length ts ≤ 0 → ts ≡ []
  length_zero [] h = refl
  length_zero (t ∷ ts) h = absurd (omega arith)

  -- What the limit cuts off.
  abbrev cut_off : ℤ → List A → List A
  cut_off (pos zero) ts = []
  cut_off (pos (suc n)) ts = drop (suc n) ts
  cut_off (negsuc n) ts = []

  drop_short : (n : ℕ) (ts : List A) → length ts ≤ n → drop n ts ≡ []
  drop_short n ts h = length_zero (drop n ts) (omega (arith, length-drop n ts))

  cut_some :
      (n : ℕ) (ts : List A)
      → cut (pos (suc n)) ts ≡ (if ltb (suc n) (length ts) then take (suc n) ts else ts)
  unfolding cut
  cut_some n ts = ground arith

  cut_none : (n : ℕ) (ts : List A) → cut (negsuc n) ts ≡ ts
  unfolding cut
  cut_none n ts = ground arith

  cut-zero : (ts : List A) → cut (pos zero) ts ≡ ts
  unfolding cut
  cut-zero ts = refl

  cut-append : (limit : ℤ) (ts : List A) → cut limit ts ++ cut_off limit ts ≡ ts
  cut-append (negsuc n) ts = rw (cut_none n ts) (append-nil ts)
  cut-append (pos zero) ts = rw (cut-zero ts) (append-nil ts)
  cut-append (pos (suc n)) ts = elim (Bool-cases (ltb (suc n) (length ts))) [
    | inl long ↦ rw (cut_some n ts, long) (take-append-drop (suc n) ts)
    | inr short ↦ rw (cut_some n ts, short, drop_short (suc n) ts (ground arith)) (append-nil ts)
  ]

  cut-le : (n : ℕ) (ts : List A) → length (cut (pos (suc n)) ts) ≤ suc n
  cut-le n ts = elim (Bool-cases (ltb (suc n) (length ts))) [
    | inl long ↦ rw (cut_some n ts, long) (length-take-le (suc n) ts)
    | inr short ↦ rw (cut_some n ts, short) (ground arith)
  ]

  cut-full : (n : ℕ) (ts : List A) → drop (suc n) ts ≢ [] → length (cut (pos (suc n)) ts) ≡ suc n
  cut-full n ts more = elim (Bool-cases (ltb (suc n) (length ts))) [
    | inl long ↦ omega (
      arith,
      ltb→lt (suc n) (length ts) long,
      cut-le n ts,
      length-append (cut (pos (suc n)) ts) (drop (suc n) ts),
      ap length (cut-append (pos (suc n)) ts),
      length-drop (suc n) ts,
    )
    | inr short ↦ absurd (more (drop_short (suc n) ts (ground arith)))
  ]

-- `out` is the newest part of `xs`.
pub record Newest {A : Type 0} (at : A → ℕ) (limit : ℤ) (xs out : List A) : Type 0 where
  pub rest : List A
  pub all : Perm (out ++ rest) xs
  ordered : IsNewestFirst at (out ++ rest)
  pub within : (n : ℕ) → limit ≡ pos (suc n) → length out ≤ suc n
  pub full : (n : ℕ) → limit ≡ pos (suc n) → rest ≢ [] → length out ≡ suc n
  pub unlimited : limit ≡ pos 0 → rest ≡ []

pub cut-Newest :
    {A : Type 0} (at : A → ℕ) (limit : ℤ) (xs : List A)
    → Newest at limit xs (cut limit (newest_first at xs))
cut-Newest {A} at limit xs = record {
  rest = cut_off limit sorted;
  all = rw (cut-append limit sorted) (newest_first-perm at xs);
  ordered = rw (cut-append limit sorted) (newest_first-IsNewestFirst at xs);
  within = λ n e. rw e (cut-le n sorted);
  full = λ n e more. rw e (cut-full n sorted (subst (λ l. cut_off l sorted ≢ []) e more));
  unlimited = λ e. rw e;
}
  where
    sorted : List A
    sorted = newest_first at xs
