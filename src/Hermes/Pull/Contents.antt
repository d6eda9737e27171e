-- ===== src/Hermes/Pull/Contents.antt =====
-- The buffer against its specification: the last accepted messages (hermes/core/pull.go).
use zakros.Base.{
  ℕ, zero, suc, ◌+◌, ◌-◌, ◌≤◌, String, List, [], ◌∷◌, ◌++◌, Option, Bool, ◌≡◌, refl, sym, ◌∙◌, ap,
  inl, inr, arith, length, drop, keep, length-append, length-drop, Bool-cases, if◌then◌else◌,
}
use mathlib.Core.List.{append-nil, append_assoc}
use zakros.Base.Int.{ℤ, pos, negsuc}
use zakros.Hermes.{InboundMessage}
use zakros.Hermes.Pull.{
  PullEvent, PullConsumer, new_pull_consumer, passes, trim, push, push_all, messages,
}
use zakros.Hermes.Pull.Window.{excess, excess-le, trim-drop}

abbrev pub keep_last : ℤ → List InboundMessage → List InboundMessage
keep_last cap msgs = drop (excess cap (length msgs)) msgs

drop-append :
    {A : Type 0} (k : ℕ) (xs ys : List A) → k ≤ length xs → drop k xs ++ ys ≡ drop k (xs ++ ys)
drop-append zero xs ys h = refl
drop-append (suc k) [] ys h = absurd (omega arith)
drop-append (suc k) (x ∷ xs) ys h = drop-append k xs ys (omega arith)

drop-nil : {A : Type 0} (k : ℕ) → drop {A = A} k [] ≡ []
drop-nil zero = refl
drop-nil (suc k) = refl

zero_plus : (n : ℕ) → n ≡ 0 + n
zero_plus n = omega arith

suc_plus : (b a : ℕ) → suc (b + a) ≡ suc b + a
suc_plus b a = omega arith

drop-drop : {A : Type 0} (a b : ℕ) (xs : List A) → drop a (drop b xs) ≡ drop (b + a) xs
drop-drop a zero xs = ap (λ k. drop k xs) (zero_plus a)
drop-drop {A} a (suc b) [] = drop-nil a ∙ sym (drop-nil (suc b + a))
drop-drop a (suc b) (x ∷ xs) = drop-drop a b xs ∙ ap (λ k. drop k (x ∷ xs)) (suc_plus b a)

messages-drop : (k : ℕ) (evs : List PullEvent) → messages (drop k evs) ≡ drop k (messages evs)
messages-drop zero evs = refl
messages-drop (suc k) [] = refl
messages-drop (suc k) (ev ∷ evs) = messages-drop k evs

length-messages : (evs : List PullEvent) → length (messages evs) ≡ length evs
length-messages [] = refl
length-messages (ev ∷ evs) = ap suc (length-messages evs)

messages-append : (evs fvs : List PullEvent) → messages (evs ++ fvs) ≡ messages evs ++ messages fvs
messages-append [] fvs = refl
messages-append (ev ∷ evs) fvs = ap (◌∷◌ ev.message) (messages-append evs fvs)

excess-excess :
    (cap : ℤ) (len : ℕ)
    → excess cap len + excess cap (len - excess cap len + 1) ≡ excess cap (len + 1)
excess-excess (pos zero) len = omega arith
excess-excess (pos (suc n)) len = omega arith
excess-excess (negsuc n) len = omega arith

-- Trimming between two deliveries loses nothing that the last trim would keep.
keep_last-append :
    (cap : ℤ) (xs : List InboundMessage) (y : InboundMessage)
    → keep_last cap (keep_last cap xs ++ y ∷ []) ≡ keep_last cap (xs ++ y ∷ [])
keep_last-append cap xs y =
    ap (λ l. drop (excess cap (length l)) l) (drop-append e xs (y ∷ []) (excess-le cap (length xs)))
    ∙ drop-drop (excess cap (length (drop e (xs ++ y ∷ [])))) e (xs ++ y ∷ [])
    ∙ ap (λ k. drop k (xs ++ y ∷ [])) counts
  where
    e : ℕ
    e = excess cap (length xs)

    counts : e + excess cap (length (drop e (xs ++ y ∷ []))) ≡ excess cap (length (xs ++ y ∷ []))
    counts =
        ap (λ k. e + excess cap k)
          (omega (
            arith,
            length-drop e (xs ++ y ∷ []),
            length-append xs (y ∷ []),
            excess-le cap (length xs),
          ))
        ∙ excess-excess cap (length xs)
        ∙ ap (excess cap) (omega (arith, length-append xs (y ∷ [])))

messages-trim :
    (cap : ℤ) (evs : List PullEvent) → messages (trim cap evs) ≡ keep_last cap (messages evs)
messages-trim cap evs = rw (trim-drop cap evs) (
    messages-drop (excess cap (length evs)) evs
    ∙ ap (λ k. drop (excess cap k) (messages evs)) (sym (length-messages evs)))

same_setup :
    (c : PullConsumer) (msg : InboundMessage)
    → ((push c msg).0.cap ≡ c.cap) × ((push c msg).0.filter ≡ c.filter)
unfolding push
same_setup c msg = (ground arith, ground arith)

messages-push :
    (c : PullConsumer) (msg : InboundMessage)
    → messages (push c msg).0.events ≡ (
        if passes c.filter msg
        then keep_last c.cap (messages c.events ++ msg ∷ [])
        else messages c.events)
messages-push c msg = elim (Bool-cases (passes c.filter msg)) [
  | inl accepted ↦
      unfold push in
      rw accepted (messages-trim c.cap _ ∙ ap (keep_last c.cap) (messages-append c.events _))
  | inr dropped ↦ unfold push in rw dropped
]

push_all-messages :
    (cap : ℤ) (filter : Option (InboundMessage → Bool)) (c : PullConsumer)
    (seen msgs : List InboundMessage)
    → c.cap ≡ cap
    → c.filter ≡ filter
    → messages c.events ≡ keep_last cap seen
    → messages (push_all c msgs).events ≡ keep_last cap (seen ++ keep (passes filter) msgs)
unfolding push_all
push_all-messages cap filter c seen [] ec ef h = rw append-nil h
push_all-messages cap filter c seen (msg ∷ msgs) ec ef h = elim (Bool-cases (passes filter msg)) [
  | inl accepted ↦ rw accepted (
      push_all-messages cap filter (push c msg).0 (seen ++ msg ∷ []) msgs
        ((same_setup c msg).0 ∙ ec) ((same_setup c msg).1 ∙ ef)
        (messages-push c msg ∙ rw (ef, ec, accepted, h) (keep_last-append cap seen msg))
      ∙ ap (keep_last cap) (append_assoc seen (msg ∷ []) (keep (passes filter) msgs)))
  | inr dropped ↦ rw dropped (
      push_all-messages cap filter (push c msg).0 seen msgs ((same_setup c msg).0 ∙ ec)
        ((same_setup c msg).1 ∙ ef) (messages-push c msg ∙ rw (ef, dropped) h))
]

-- Whatever was delivered to a new consumer, its buffer holds the messages that its filter accepts,
-- in order: all of them without a capacity, and the last ones, as many as fit, with one.
pub new-messages :
    (name : String) (cap : ℤ) (filter : Option (InboundMessage → Bool)) (msgs : List InboundMessage)
    → messages (push_all (new_pull_consumer name cap filter) msgs).events
      ≡ keep_last cap (keep (passes filter) msgs)
new-messages name cap filter msgs =
    push_all-messages cap filter (new_pull_consumer name cap filter) [] msgs
      (unfold new_pull_consumer in refl) (unfold new_pull_consumer in refl)
      (unfold new_pull_consumer in sym (drop-nil (excess cap 0)))
