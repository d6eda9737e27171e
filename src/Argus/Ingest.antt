-- ===== src/Argus/Ingest.antt =====
-- The routes of the Argus daemon (cmd/argus/server.go): heartbeats of pods and events of brokers. What the
-- JSON decoder makes of a body is an argument, `none` for an error.
use zakros.Base.{
  ℕ, string_equality, String, [], ◌∷◌, Option, none, some, not, ◌||◌, ◌==◌, ◌≡◌, ◌⊎◌, inl, inr,
  refl, ap, ◌∙◌, arith, if◌then◌else◌, Option-cases, Bool-cases, same_text_iff,
}
use zakros.Base.Maps.{Map, insert}
use zakros.Base.Clock.{Time}
use zakros.Base.Text.{strip_prefix}
use zakros.Storage.{Uuid}
use zakros.Replay.Tokens.{MemReplayStore}
use zakros.Auth.{Claims, Verifier, require}
use zakros.Auth.Admission.{Admits, require-served}
use zakros.Minos.Callbacks.{denial_status}
use zakros.Argus.{World}
use zakros.Argus.Tracking.{heartbeat}

pub data IngestReply : Type 0 where
  accepted : IngestReply
  rejected : ℕ → IngestReply

module _ {Cluster : Type 0} where
  -- The subject must be "task:" and the identifier of the body.
  unfoldable pub check_pod :
      String → String → Uuid → Time → World Cluster → World Cluster × IngestReply
  check_pod subject named id now w = elim (strip_prefix "task:" subject) [
    | none ↦ (w, rejected 403)
    | some own ↦
        if own == "" || not (own == named)
        then (w, rejected 403)
        else (heartbeat id now w, accepted)
  ]

  -- `parse` is uuid.Parse.
  unfoldable pub handle_heartbeat :
      (String → Option Uuid)
      → Option String
      → Claims
      → Time
      → World Cluster
      → World Cluster × IngestReply
  unfolding check_pod
  handle_heartbeat parse none c now w = (w, rejected 400)
  handle_heartbeat parse (some named) c now w =
      if named == "" then (w, rejected 400) else elim (parse named) [
        | none ↦ (w, rejected 400)
        | some id ↦ check_pod c.subject named id now w
      ]

  -- The route: the bearer middleware for the scope `heartbeat`, and the handler. `now` is the clock of the
  -- verifier, `wall` that of the replay store, and `beat` that of Argus.
  unfoldable pub heartbeat_route :
      Verifier
      → String
      → Time
      → Time
      → Option MemReplayStore
      → (String → Option Uuid)
      → Option String
      → Time
      → World Cluster
      → Option MemReplayStore × (World Cluster × IngestReply)
  unfolding handle_heartbeat denial_status
  heartbeat_route v header now wall replays parse body beat w =
      let o = require v "heartbeat" header now wall replays in
      (
        o.replays,
        elim o.served [
          | none ↦ (w, rejected (denial_status o.event))
          | some c ↦ handle_heartbeat parse body c beat w
        ],
      )

  handle_heartbeat-own :
      (parse : String → Option Uuid) (body : Option String) (c : Claims) (now : Time)
      (w : World Cluster)
      → ((handle_heartbeat parse body c now w).0 ≡ w)
        ⊎ ((named : String) × (id : Uuid) × (body ≡ some named)
            × (parse named ≡ some id)
            × (strip_prefix "task:" c.subject ≡ some named)
            × ((handle_heartbeat parse body c now w).0 ≡ heartbeat id now w))
  unfolding handle_heartbeat check_pod
  handle_heartbeat-own parse none c now w = inl refl
  handle_heartbeat-own parse (some named) c now w = elim (Option-cases (parse named)) [
    | inl e ↦ inl (ground arith)
    | inr (id, e) ↦ elim (Option-cases (strip_prefix "task:" c.subject)) [
      | inl f ↦ inl (ground arith)
      | inr (own, f) ↦ elim (Bool-cases (named == "" || own == "" || not (own == named))) [
        | inl foreign ↦ inl (ground arith)
        | inr mine ↦ inr (
          named,
          id,
          refl,
          e,
          f ∙ ap some ((same_text_iff own named).0 (ground arith)),
          ground arith,
        )
      ]
    ]
  ]

  -- Nothing changed, or a heartbeat of the task that an admitted token is of.
  abbrev pub BeatsOwn :
      Verifier
      → String
      → Time
      → Time
      → Option MemReplayStore
      → (String → Option Uuid)
      → Option String
      → Time
      → World Cluster
      → World Cluster
      → Type 0
  BeatsOwn v header now wall replays parse body beat w w' =
      (w' ≡ w)
      ⊎ ((c : Claims) × Admits v "heartbeat" header now wall replays c
          × (named : String) × (id : Uuid) × (body ≡ some named)
          × (parse named ≡ some id)
          × (strip_prefix "task:" c.subject ≡ some named)
          × (w' ≡ heartbeat id beat w))

  -- A heartbeat is taken only with a bearer token that is admitted for the scope `heartbeat`, and only for the
  -- task that the token is of; everything else leaves what Argus knows as it was.
  pub heartbeat-own_task :
      (v : Verifier) (header : String) (now wall : Time) (replays : Option MemReplayStore)
      (parse : String → Option Uuid) (body : Option String) (beat : Time) (w : World Cluster)
      → BeatsOwn v header now wall replays parse body beat w
          (heartbeat_route v header now wall replays parse body beat w).1.0
  unfolding heartbeat_route
  heartbeat-own_task v header now wall replays parse body beat w =
      taken (require v "heartbeat" header now wall replays).served refl
    where
      answer : Option Claims → World Cluster × IngestReply
      answer o = elim o [
        | none ↦ (w, rejected (denial_status (require v "heartbeat" header now wall replays).event))
        | some c ↦ handle_heartbeat parse body c beat w
      ]

      taken :
          (o : Option Claims)
          → (require v "heartbeat" header now wall replays).served ≡ o
          → BeatsOwn v header now wall replays parse body beat w (answer o).0
      taken none e = inl refl
      taken (some c) e = elim (handle_heartbeat-own parse body c beat w) [
        | inl same ↦ inl same
        | inr (named, id, b, p, own, beats) ↦ inr (
          c,
          (require-served v "heartbeat" header now wall replays c).0 e,
          named,
          id,
          b,
          p,
          own,
          beats,
        )
      ]

pub record EventRequest : Type 0 where
  pub type : String
  pub pod : String
  pub fields : Map String String
  pub message : String

abbrev put_all : Map String String → Map String String → Map String String
put_all [] m = m
put_all ((k, v) ∷ rest) m = put_all rest (insert k v m)

-- The fields of the audit event. Those of the body come last, and may replace the first ones.
unfoldable event_fields : EventRequest → Claims → Map String String
event_fields body c =
    let base = ("type", body.type) ∷ ("sub", c.subject) ∷ ("jti", c.jti) ∷ [] in
    put_all body.fields (if body.pod == "" then base else insert "pod" body.pod base)

-- The message and the fields of the audit event, if there is one, and the answer.
unfoldable pub handle_event :
    Option EventRequest → Claims → Option (String × Map String String) × IngestReply
unfolding event_fields
handle_event none c = (none, rejected 400)
handle_event (some body) c =
    if body.type == ""
    then (none, rejected 400)
    else (some (body.message, event_fields body c), accepted)
