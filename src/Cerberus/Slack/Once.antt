-- ===== src/Cerberus/Slack/Once.antt =====
-- Which Slack webhooks are let in, and that none is let in twice (cerberus/verification/slack/slack.go).
use zakros.Base.{
  some-eq, not, ◌&&◌, ◌||◌, ◌+◌, ◌*◌, ◌≤◌, ◌<◌, ◌^◌, ℕ, string_equality, String, ◌<>◌, List, [],
  ◌∷◌, Option, some, true, false, ◌==◌, same_text_iff, ok, ◌≡◌, ◌≢◌, ◌↔◌, ◌⊎◌, inl, inr, refl, sym,
  ◌∙◌, ap, subst, arith, All, Bool-cases, Option-cases,
}
use zakros.Base.Maps.{IsMap}
use zakros.Base.Int.{ℤ, pos, negsuc, leb_ℤ, ltb_ℤ, pos_part, neg_part, neg64}
use zakros.Base.Clock.{Time, Duration, since, unix}
use zakros.Base.Text.{strip_prefix, parse_int}
use zakros.Replay.Deliveries.{MemStore, seen, Remembered, seen-fresh}
use zakros.Cerberus.{Event, decode_hex, check_delivery}
use zakros.Cerberus.Deliveries.{
  IsNew, Keeps, check_delivery-ok, check_delivery-IsNew, check_delivery-Keeps, Keeps-old,
  same_bytes_iff,
}
use zakros.Cerberus.Slack.{
  SlackVerifier, SlackRequest, is_skewed, verify_signature, slack_event, verify_body, verify_slack,
  verify_slack_all,
}

-- A difference that is no more than the window either way.
since-close :
    (w t : ℕ) (u : ℤ)
    → w + 1 < 2 ^ 63
    → (ltb_ℤ (pos w) (since t u) || ltb_ℤ (since t u) (neg64 (pos w))) ≡ false
    → (t + neg_part u ≤ w + pos_part u) × (pos_part u ≤ w + (t + neg_part u))
unfolding since
since-close w t (pos n) small h = (ground arith, ground arith)
since-close w t (negsuc n) small h = (ground arith, ground arith)

-- Two instants at which the same timestamp is let in are at most two windows apart.
is_skewed-close :
    (w t later : ℕ) (sec : ℤ)
    → w + 1 < 2 ^ 63
    → is_skewed (pos w) t sec ≡ false
    → is_skewed (pos w) later sec ≡ false
    → later ≤ t + 2 * w
unfolding is_skewed
is_skewed-close w t later sec small h k =
    let (early, _) = since-close w later (unix sec) small k in
    let (_, late) = since-close w t (unix sec) small h in omega arith

module _ (mac : String → String → List ℕ) where
  -- The header names the hash of the version, the timestamp and the body under the secret.
  abbrev IsSlackSigned : String → String → String → String → Type 0
  IsSlackSigned secret ts body header =
      (digits : String) × (strip_prefix "v0=" header ≡ some digits)
      × (decode_hex digits ≡ some (mac secret ("v0:" <> ts <> ":" <> body)))

  verify_signature-IsSlackSigned :
      (secret ts body header : String)
      → (verify_signature mac secret ts body header ≡ true) ↔ IsSlackSigned secret ts body header
  unfolding verify_signature
  verify_signature-IsSlackSigned secret ts body header = (to, from)
    where
      hash : List ℕ
      hash = mac secret ("v0:" <> ts <> ":" <> body)

      to : verify_signature mac secret ts body header ≡ true → IsSlackSigned secret ts body header
      to h = elim (Option-cases (strip_prefix "v0=" header)) [
        | inl e ↦ ground arith
        | inr (digits, e) ↦ elim (Option-cases (decode_hex digits)) [
          | inl f ↦ ground arith
          | inr (got, f) ↦ (digits, e, f ∙ ap some ((same_bytes_iff got hash).0 (ground arith)))
        ]
      ]

      from : IsSlackSigned secret ts body header → verify_signature mac secret ts body header ≡ true
      from (digits, e, f) = rw (e, f, verify_signature) ((same_bytes_iff hash hash).1 refl)

module _ (mac : String → String → List ℕ) (digest : String → String)
    (probe : String → Option String) where
  -- What a request must have to be let in as the event.
  pub record SlackAdmits (v : SlackVerifier) (r : SlackRequest) (now : Time) (ev : Event)
      : Type 0 where
    pub configured : v.secret ≢ ""
    pub sec : ℤ
    pub parsed : parse_int r.timestamp ≡ some sec
    timely : is_skewed v.replay_window now sec ≡ false
    pub body : r.body ≡ some ev.body
    pub signed : IsSlackSigned mac v.secret r.timestamp ev.body r.signature
    pub new : IsNew ev.delivery_id now v.store
    pub event : slack_event digest probe r.timestamp ev.body ≡ ev

  verify_slack-SlackAdmits :
      (v : SlackVerifier) (r : SlackRequest) (now : Time) (ev : Event)
      → (verify_slack mac digest probe v r now).1 ≡ ok ev
      → SlackAdmits v r now ev
  unfolding verify_slack verify_body
  verify_slack-SlackAdmits v r now ev h = elim (Option-cases (parse_int r.timestamp)) [
    | inl no_time ↦ ground arith
    | inr (sec, parsed) ↦ elim (Option-cases r.body) [
      | inl e ↦ ground arith
      | inr (body, e) ↦
          let x = slack_event digest probe r.timestamp body in
          let (same, new) = check_delivery-ok x ev now v.store (ground arith) in
          subst (SlackAdmits v r now) same (record {
            configured = ground (arith, same_text_iff v.secret "");
            sec = sec;
            parsed = parsed;
            timely = ground arith;
            body = e;
            signed =
                (verify_signature-IsSlackSigned mac v.secret r.timestamp body r.signature).0
                  (ground arith);
            new = new;
            event = refl;
          })
    ]
  ]

  header_present :
      (secret ts body header : String) → IsSlackSigned mac secret ts body header → header ≢ ""
  unfolding strip_prefix
  header_present secret ts body header (digits, e, f) blank =
      ground (arith, subst (λ h. strip_prefix "v0=" h ≡ some digits) blank e)

  time_present : (ts : String) (sec : ℤ) → parse_int ts ≡ some sec → ts ≢ ""
  unfolding parse_int
  time_present ts sec e blank = ground (arith, subst (λ t. parse_int t ≡ some sec) blank e)

  -- What the verifier does with a request that has all of it.
  SlackAdmits-verify_slack :
      (v : SlackVerifier) (r : SlackRequest) (now : Time) (ev : Event)
      → SlackAdmits v r now ev
      → verify_slack mac digest probe v r now ≡ check_delivery ev now v.store
  unfolding verify_slack verify_body
  SlackAdmits-verify_slack v r now ev a =
      let signed =
        (verify_signature-IsSlackSigned mac v.secret r.timestamp ev.body r.signature).1 a.signed in
      ground (
        arith,
        same_text_iff v.secret "",
        same_text_iff r.signature "",
        same_text_iff r.timestamp "",
        header_present v.secret r.timestamp ev.body r.signature a.signed,
        time_present r.timestamp a.sec a.parsed,
        a.event,
      )

  -- A request is let in as an event exactly if the secret is set, its timestamp is a number of seconds within
  -- the window around now, the signature is the hash of timestamp and body under the secret, and the delivery,
  -- which timestamp and body name, is no repetition.
  verify_slack-admitted :
      (v : SlackVerifier) (r : SlackRequest) (now : Time) (ev : Event)
      → ((verify_slack mac digest probe v r now).1 ≡ ok ev) ↔ SlackAdmits v r now ev
  verify_slack-admitted v r now ev = (
    verify_slack-SlackAdmits v r now ev,
    λ a.
        ap (λ q. q.1) (SlackAdmits-verify_slack v r now ev a)
        ∙ check_delivery-IsNew ev now v.store a.new,
  )

  abbrev slack_after : SlackVerifier → SlackRequest → Time → SlackVerifier
  slack_after v r now = record v { store = (verify_slack mac digest probe v r now).0 }

  verify_slack-store :
      (v : SlackVerifier) (r : SlackRequest) (now : Time)
      → ((verify_slack mac digest probe v r now).0 ≡ v.store)
        ⊎ ((x : Event) × ((verify_slack mac digest probe v r now).0
              ≡ (check_delivery x now v.store).0))
  unfolding verify_slack verify_body
  verify_slack-store v r now = elim (Option-cases (parse_int r.timestamp)) [
    | inl no_time ↦ inl (ground arith)
    | inr (sec, parsed) ↦ elim (Option-cases r.body) [
      | inl e ↦ inl (ground arith)
      | inr (body, e) ↦
          elim (Bool-cases (
            not (v.secret == "")
            && not (r.signature == "")
            && not (r.timestamp == "")
            && not (is_skewed v.replay_window now sec)
            && verify_signature mac v.secret r.timestamp body r.signature)) [
              | inl checked ↦ inr (slack_event digest probe r.timestamp body, ground arith)
              | inr unchecked ↦ inl (ground arith)
            ]
    ]
  ]

  verify_slack-Keeps :
      (v : SlackVerifier) (r : SlackRequest) (now : Time) (key : String) (t : Time)
      (window : Duration)
      → Remembered window t now
      → Keeps key t window v.store
      → Keeps key t window (verify_slack mac digest probe v r now).0
  verify_slack-Keeps v r now key t window m h = elim (verify_slack-store v r now) [
    | inl e ↦ subst (Keeps key t window) (sym e) h
    | inr (x, e) ↦
        subst (Keeps key t window) (sym e) (check_delivery-Keeps x now v.store key t window m h)
  ]

  verify_slack_all-Keeps :
      (rs : List (SlackRequest × Time)) (v : SlackVerifier) (key : String) (t : Time)
      (window : Duration)
      → All (λ r. Remembered window t r.1) rs
      → Keeps key t window v.store
      → Keeps key t window (verify_slack_all mac digest probe rs v).store
  unfolding verify_slack_all
  verify_slack_all-Keeps [] v key t window m h = h
  verify_slack_all-Keeps ((r, now) ∷ rs) v key t window m h =
      verify_slack_all-Keeps rs (slack_after v r now) key t window m.1
        (verify_slack-Keeps v r now key t window m.0 h)

  verify_slack_all-window :
      (rs : List (SlackRequest × Time)) (v : SlackVerifier)
      → (verify_slack_all mac digest probe rs v).replay_window ≡ v.replay_window
  unfolding verify_slack_all
  verify_slack_all-window [] v = refl
  verify_slack_all-window ((r, now) ∷ rs) v = verify_slack_all-window rs (slack_after v r now)

  -- An accepted delivery is remembered.
  verify_slack-remembers :
      (v : SlackVerifier) (r : SlackRequest) (now : Time) (ev : Event) (s : MemStore)
      → v.store ≡ some s
      → IsMap s.entries
      → SlackAdmits v r now ev
      → Keeps ev.delivery_id now s.window (verify_slack mac digest probe v r now).0
  unfolding check_delivery
  verify_slack-remembers v r now ev s e d a =
      let new : (seen ev.delivery_id now s).1 ≡ false = subst (IsNew ev.delivery_id now) e a.new in
      let left : some (seen ev.delivery_id now s).0 ≡ (verify_slack mac digest probe v r now).0 =
        ground (arith, SlackAdmits-verify_slack v r now ev a, e, new) in
      subst (Keeps ev.delivery_id now s.window) left (seen-fresh ev.delivery_id now s d new)

  -- A request with the timestamp and the body of one that was let in is never let in again, whatever requests
  -- come in between, if the replay store keeps its entries for at least twice the window of the
  -- verifier (or for ever) and no clock reading in between is later than that of the last request.
  pub slack_once :
      (v : SlackVerifier) (first again : SlackRequest) (between : List (SlackRequest × Time))
      (t later w : ℕ) (ev : Event) (s : MemStore)
      → v.store ≡ some s
      → IsMap s.entries
      → v.replay_window ≡ pos w
      → w + 1 < 2 ^ 63
      → (leb_ℤ s.window (pos 0) ≡ true) ⊎ (2 * w ≤ pos_part s.window)
      → (verify_slack mac digest probe v first t).1 ≡ ok ev
      → All (λ r. r.1 ≤ later) between
      → again.timestamp ≡ first.timestamp
      → again.body ≡ first.body
      → (ev' : Event)
      → (verify_slack mac digest probe
          (verify_slack_all mac digest probe between
            (record v { store = (verify_slack mac digest probe v first t).0 }))
          again
          later).1
        ≢ ok ev'
  slack_once v first again between t later w ev s e d width small long h times same_time same_body
        ev' admitted =
      let a = verify_slack-SlackAdmits v first t ev h in
      let a' = verify_slack-SlackAdmits after again later ev' admitted in
      let close =
        is_skewed-close w t later a.sec small
          (subst (λ x. is_skewed x t a.sec ≡ false) width a.timely) (timely a a') in
      let recent : Remembered s.window t later = elim long [
        | inl ever ↦ inl ever
        | inr wide ↦ inr (omega arith)
      ] in
      Keeps-old ev'.delivery_id later t s.window after.store recent
        (subst (λ k. Keeps k t s.window after.store) (same_id a a')
          (verify_slack_all-Keeps between (slack_after v first t) ev.delivery_id t s.window
            (before_later recent between times) (verify_slack-remembers v first t ev s e d a)))
        a'.new
    where
      after : SlackVerifier
      after = verify_slack_all mac digest probe between (slack_after v first t)

      timely :
          (a : SlackAdmits v first t ev) (a' : SlackAdmits after again later ev')
          → is_skewed (pos w) later a.sec ≡ false
      timely a a' =
          let same : a'.sec ≡ a.sec = some-eq (sym a'.parsed ∙ ap parse_int same_time ∙ a.parsed) in
          subst (λ x. is_skewed (pos w) later x ≡ false) same
            (subst (λ x. is_skewed x later a'.sec ≡ false)
              (verify_slack_all-window between (slack_after v first t) ∙ width) a'.timely)

      same_id :
          SlackAdmits v first t ev
          → SlackAdmits after again later ev'
          → ev.delivery_id ≡ ev'.delivery_id
      same_id a a' =
          let bodies : ev.body ≡ ev'.body = some-eq (sym a.body ∙ sym same_body ∙ a'.body) in
          sym (ap (λ x. x.delivery_id) a.event)
          ∙ ap (λ b. first.timestamp <> ":" <> digest b) bodies
          ∙ ap (λ ts. ts <> ":" <> digest ev'.body) (sym same_time)
          ∙ ap (λ x. x.delivery_id) a'.event

      before_later :
          Remembered s.window t later
          → (rs : List (SlackRequest × Time)) → All (λ r. r.1 ≤ later) rs
          → All (λ r. Remembered s.window t r.1) rs
      before_later m [] h = tt
      before_later m ((r, now) ∷ rs) (early, others) =
          (elim m [ inl ever ↦ inl ever | inr wide ↦ inr (omega arith) ], before_later m rs others)
