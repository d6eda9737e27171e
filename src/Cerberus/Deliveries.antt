-- ===== src/Cerberus/Deliveries.antt =====
-- Which GitHub webhooks are let in, and how often (cerberus/verification/github/github.go).
use zakros.Base.{
  not, ◌&&◌, ℕ, string_equality, String, List, [], ◌∷◌, Option, none, some, true, false, ◌==◌,
  same_text_iff, ok, ◌≡◌, ◌≢◌, ◌↔◌, ◌⊎◌, inl, inr, refl, sym, ◌∙◌, ap, subst, arith, All,
  Bool-cases, Option-cases,
}
use zakros.Base.Maps.{IsMap}
use zakros.Base.Clock.{Time, Duration}
use zakros.Base.Text.{strip_prefix}
use zakros.Replay.Deliveries.{MemStore, seen, Remembered, Holds, seen-Holds, seen-fresh, Holds-seen}
use zakros.Cerberus.{
  Event, Delivery, Verifier, decode_hex, same_bytes, verify_hmac, check_delivery, verify,
  verify_all,
}

pub same_bytes_iff : (xs ys : List ℕ) → (same_bytes xs ys ≡ true) ↔ (xs ≡ ys)
same_bytes_iff [] [] = ground arith
same_bytes_iff [] (y ∷ ys) = ground arith
same_bytes_iff (x ∷ xs) [] = ground arith
same_bytes_iff (x ∷ xs) (y ∷ ys) = ground (arith, same_bytes_iff xs ys)

-- The delivery is not a repetition.
abbrev pub IsNew : String → Time → Option MemStore → Type 0
IsNew id now none = Unit
IsNew id now (some s) = (seen id now s).1 ≡ false

pub check_delivery-ok :
    (x ev : Event) (now : Time) (s : Option MemStore)
    → (check_delivery x now s).1 ≡ ok ev
    → (x ≡ ev) × IsNew x.delivery_id now s
unfolding check_delivery
check_delivery-ok x ev now none h = (ground arith, tt)
check_delivery-ok x ev now (some s) h = elim (Bool-cases (seen x.delivery_id now s).1) [
  | inl old ↦ ground arith
  | inr fresh ↦ (ground arith, fresh)
]

pub check_delivery-IsNew :
    (x : Event) (now : Time) (s : Option MemStore)
    → IsNew x.delivery_id now s
    → (check_delivery x now s).1 ≡ ok x
unfolding check_delivery
check_delivery-IsNew x now none h = refl
check_delivery-IsNew x now (some s) h = ground arith

-- The store has the delivery since `t`.
abbrev pub Keeps : String → Time → Duration → Option MemStore → Type 0
Keeps key t window none = ⊥
Keeps key t window (some s) = Holds key t window s

pub check_delivery-Keeps :
    (x : Event) (now : Time) (s : Option MemStore) (key : String) (t : Time) (window : Duration)
    → Remembered window t now
    → Keeps key t window s
    → Keeps key t window (check_delivery x now s).0
unfolding check_delivery
check_delivery-Keeps x now none key t window r h = absurd h
check_delivery-Keeps x now (some s) key t window r h =
    elim (Bool-cases (seen x.delivery_id now s).1) [
      | inl old ↦ rw old (seen-Holds key t window x.delivery_id now s r h)
      | inr fresh ↦ rw fresh (seen-Holds key t window x.delivery_id now s r h)
    ]

-- A delivery that is remembered is not new.
pub Keeps-old :
    (key : String) (now t : Time) (window : Duration) (o : Option MemStore)
    → Remembered window t now
    → Keeps key t window o
    → ¬ IsNew key now o
Keeps-old key now t window none m k n = k
Keeps-old key now t window (some s) m k n = ground (arith, n, Holds-seen key t window now s m k)

module _ (mac : String → String → List ℕ) where
  -- The header names the hash of the body under the secret.
  abbrev IsSigned : String → String → String → Type 0
  IsSigned secret body header =
      (digits : String) × (strip_prefix "sha256=" header ≡ some digits)
      × (decode_hex digits ≡ some (mac secret body))

  verify_hmac-IsSigned :
      (secret body header : String)
      → verify_hmac mac secret body header ≡ true
      → IsSigned secret body header
  unfolding verify_hmac
  verify_hmac-IsSigned secret body header h = elim (Option-cases (strip_prefix "sha256=" header)) [
    | inl e ↦ ground arith
    | inr (digits, e) ↦ elim (Option-cases (decode_hex digits)) [
      | inl f ↦ ground arith
      | inr (got, f) ↦
          (digits, e, f ∙ ap some ((same_bytes_iff got (mac secret body)).0 (ground arith)))
    ]
  ]

  IsSigned-verify_hmac :
      (secret body header : String)
      → IsSigned secret body header
      → verify_hmac mac secret body header ≡ true
  unfolding verify_hmac
  IsSigned-verify_hmac secret body header (digits, e, f) =
      rw (e, f, verify_hmac) ((same_bytes_iff (mac secret body) (mac secret body)).1 refl)

  -- What a request must have to be let in as the event.
  pub record Admits (v : Verifier) (r : Delivery) (now : Time) (ev : Event) : Type 0 where
    pub configured : v.secret ≢ ""
    identified : r.delivery ≢ ""
    typed : r.event ≢ ""
    pub signed : IsSigned v.secret ev.body r.signature
    pub body : r.body ≡ some ev.body
    pub new : IsNew r.delivery now v.store
    pub source : ev.source ≡ "github"
    pub type : ev.type ≡ r.event
    pub delivery_id : ev.delivery_id ≡ r.delivery

  verify-Admits :
      (v : Verifier) (r : Delivery) (now : Time) (ev : Event)
      → (verify mac v r now).1 ≡ ok ev
      → Admits v r now ev
  unfolding verify
  verify-Admits v r now ev h = elim (Option-cases r.body) [
    | inl e ↦ ground arith
    | inr (body, e) ↦
        let x : Event = record {
          source = "github";
          type = r.event;
          delivery_id = r.delivery;
          body = body;
        } in
        let (same, new) = check_delivery-ok x ev now v.store (ground arith) in
        subst (Admits v r now) same (record {
          configured = ground (arith, same_text_iff v.secret "");
          identified = ground (arith, same_text_iff r.delivery "");
          typed = ground (arith, same_text_iff r.event "");
          signed = verify_hmac-IsSigned v.secret body r.signature (ground arith);
          body = e;
          new = new;
          source = refl;
          type = refl;
          delivery_id = refl;
        })
  ]

  header_present : (secret body header : String) → IsSigned secret body header → header ≢ ""
  unfolding strip_prefix
  header_present secret body header (digits, e, f) blank =
      ground (arith, subst (λ h. strip_prefix "sha256=" h ≡ some digits) blank e)

  Admits-verify :
      (v : Verifier) (r : Delivery) (now : Time) (ev : Event)
      → Admits v r now ev
      → (verify mac v r now).1 ≡ ok ev
  unfolding verify
  Admits-verify v r now ev a =
      let x : Event = record {
        source = "github";
        type = r.event;
        delivery_id = r.delivery;
        body = ev.body;
      } in
      let same : x ≡ ev = cc (a.source, a.type, a.delivery_id) in
      ground (
        arith,
        same_text_iff v.secret "",
        same_text_iff r.signature "",
        same_text_iff r.delivery "",
        same_text_iff r.event "",
        header_present v.secret ev.body r.signature a.signed,
        IsSigned-verify_hmac v.secret ev.body r.signature a.signed,
        check_delivery-IsNew x now v.store a.new,
        same,
      )

  -- A request is let in as an event exactly if the secret is set, the three headers are there, the
  -- signature is the hash of the body under the secret, and the delivery is no repetition; the event
  -- then carries the request's type, identifier and body.
  pub verify-admitted :
      (v : Verifier) (r : Delivery) (now : Time) (ev : Event)
      → ((verify mac v r now).1 ≡ ok ev) ↔ Admits v r now ev
  verify-admitted v r now ev = (verify-Admits v r now ev, Admits-verify v r now ev)

  -- The verifier after one request.
  abbrev after : Verifier → Delivery → Time → Verifier
  after v r now = record v { store = (verify mac v r now).0 }

  verify-store :
      (v : Verifier) (r : Delivery) (now : Time)
      → ((verify mac v r now).0 ≡ v.store)
        ⊎ ((x : Event) × ((verify mac v r now).0 ≡ (check_delivery x now v.store).0))
  unfolding verify
  verify-store v r now = elim (Option-cases r.body) [
    | inl e ↦ inl (ground arith)
    | inr (body, e) ↦
        let x : Event = record {
          source = "github";
          type = r.event;
          delivery_id = r.delivery;
          body = body;
        } in
        elim (Bool-cases (
          not (v.secret == "")
          && not (r.signature == "")
          && not (r.delivery == "")
          && not (r.event == "")
          && verify_hmac mac v.secret body r.signature)) [
            | inl checked ↦ inr (x, ground arith)
            | inr unchecked ↦ inl (ground arith)
          ]
  ]

  verify-Keeps :
      (v : Verifier) (r : Delivery) (now : Time) (key : String) (t : Time) (window : Duration)
      → Remembered window t now
      → Keeps key t window v.store
      → Keeps key t window (verify mac v r now).0
  verify-Keeps v r now key t window m h = elim (verify-store v r now) [
    | inl e ↦ subst (Keeps key t window) (sym e) h
    | inr (x, e) ↦
        subst (Keeps key t window) (sym e) (check_delivery-Keeps x now v.store key t window m h)
  ]

  verify_all-Keeps :
      (rs : List (Delivery × Time)) (v : Verifier) (key : String) (t : Time) (window : Duration)
      → All (λ r. Remembered window t r.1) rs
      → Keeps key t window v.store
      → Keeps key t window (verify_all mac rs v).store
  unfolding verify_all
  verify_all-Keeps [] v key t window m h = h
  verify_all-Keeps ((r, now) ∷ rs) v key t window m h =
      verify_all-Keeps rs (after v r now) key t window m.1 (verify-Keeps v r now key t window m.0 h)

  -- An accepted delivery is remembered.
  verify-remembers :
      (v : Verifier) (r : Delivery) (now : Time) (ev : Event) (s : MemStore)
      → v.store ≡ some s
      → IsMap s.entries
      → Admits v r now ev
      → Keeps r.delivery now s.window (verify mac v r now).0
  unfolding verify check_delivery
  verify-remembers v r now ev s e d a =
      let new : (seen r.delivery now s).1 ≡ false = subst (IsNew r.delivery now) e a.new in
      let left : some (seen r.delivery now s).0 ≡ (verify mac v r now).0 = ground (
        arith,
        same_text_iff v.secret "",
        same_text_iff r.signature "",
        same_text_iff r.delivery "",
        same_text_iff r.event "",
        header_present v.secret ev.body r.signature a.signed,
        IsSigned-verify_hmac v.secret ev.body r.signature a.signed,
        a.body,
        e,
        new,
      ) in
      subst (Keeps r.delivery now s.window) left (seen-fresh r.delivery now s d new)

  refused :
      (v : Verifier) (r : Delivery) (now : Time) (t : Time) (window : Duration)
      → Remembered window t now
      → Keeps r.delivery t window v.store
      → (ev : Event) → Admits v r now ev
      → ⊥
  refused v r now t window m h ev a = Keeps-old r.delivery now t window v.store m h a.new

  -- Once a delivery was let in, no request with its identifier is let in again within the window (ever,
  -- if the window is not positive), whatever other requests come in between.
  pub redelivery_refused :
      (v : Verifier) (first again : Delivery) (between : List (Delivery × Time)) (t later : Time)
      (ev : Event) (s : MemStore)
      → v.store ≡ some s
      → IsMap s.entries
      → (verify mac v first t).1 ≡ ok ev
      → All (λ r. Remembered s.window t r.1) between
      → Remembered s.window t later
      → again.delivery ≡ first.delivery
      → (ev' : Event)
      → (verify mac
          (verify_all mac between (record v { store = (verify mac v first t).0 }))
          again
          later).1
        ≢ ok ev'
  redelivery_refused v first again between t later ev s e d h m r same ev' admitted =
      refused (verify_all mac between (after v first t)) again later t s.window r
        (subst (λ k. Keeps k t s.window (verify_all mac between (after v first t)).store) (sym same)
          (verify_all-Keeps between (after v first t) first.delivery t s.window m
            (verify-remembers v first t ev s e d (verify-Admits v first t ev h))))
        ev' (verify-Admits _ again later ev' admitted)
