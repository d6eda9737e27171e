-- ===== src/Minos/Narration.antt =====
-- Messages that pods and Iris post, and what Iris pulls (minos/core/api.go, handleReportPost and
-- narrationKind; minos/core/iris_hermes.go). `post` is PostToThread: its error for a message to a thread of a
-- surface, if there is one. What the JSON and UUID parsers return is an argument, `none` for an error.
pub mod OwnThread
pub mod Limits
use zakros.Base.{
  ℕ, ◌*◌, string_equality, String, List, [], ◌∷◌, Option, none, some, Bool, true, false, not, ◌||◌,
  ◌==◌, if◌then◌else◌, Result, ok, err, ltb,
}
use zakros.Base.Int.{ℤ, pos, negsuc, ltb_ℤ}
use zakros.Base.Text.{Casing, trim_space, has_prefix, parse_int, parse_uint}
use zakros.Storage.{Uuid, not_found, conflict, Task}
use zakros.Storage.Memstore.{get_task}
use zakros.Hermes.{MessageKind, thinking, code, request_human_input, Message, InboundMessage}
use zakros.Hermes
use zakros.Minos.{
  Server, emit, posted, narrated, narration_failed, narration_posted, iris_failed, iris_posted,
}
use zakros.Minos.Webhooks.{Reply, status, failure}

pub record ReportPostRequest : Type 0 where
  pub kind : String
  pub content : String
  pub language : String

pub record PostAsIrisRequest : Type 0 where
  pub surface : String
  pub thread_ref : String
  pub content : String

unfoldable pub narration_kind : String → MessageKind
narration_kind raw =
    if raw == "thinking"
    then thinking
    else if raw == "code"
    then code
    else if raw == "request_human_input"
    then request_human_input
    else Hermes.status

abbrev pub message_of : ReportPostRequest → Message
message_of body = record {
  kind = narration_kind body.kind;
  content = body.content;
  language = body.language;
}

module _ {Cluster : Type 0} (post : String → String → Message → Option String) where
  -- The post to the thread of the task, if it has one.
  unfoldable pub narrate : Task → Uuid → Message → Server Cluster → Server Cluster × Reply
  narrate t id msg s = elim t.envelope [
    | none ↦ (s, failure 424)
    | some e ↦
        if e.communication.thread_ref == ""
        then (s, failure 424)
        else elim (post e.communication.thread_surface e.communication.thread_ref msg) [
          | some why ↦ (emit (narration_failed id msg.kind) s, failure 502)
          | none ↦ (
            emit (narration_posted id msg.kind) (
                emit
                  (posted e.communication.thread_surface e.communication.thread_ref (narrated msg))
                  s),
            status "ok",
          )
        ]
  ]

  unfoldable pub handle_report_post :
      Option Uuid → Option ReportPostRequest → Server Cluster → Server Cluster × Reply
  unfolding narrate narration_kind
  handle_report_post none body s = (s, if not s.hermes then failure 503 else failure 400)
  handle_report_post (some id) none s = (s, if not s.hermes then failure 503 else failure 400)
  handle_report_post (some id) (some body) s =
      if not s.hermes
      then (s, failure 503)
      else if body.content == ""
      then (s, failure 400)
      else elim (get_task id s.store) [
        | err not_found ↦ (s, failure 404)
        | err conflict ↦ (s, failure 500)
        | ok t ↦ narrate t id (message_of body) s
      ]

  unfoldable handle_hermes_post_as_iris :
      Option PostAsIrisRequest → Server Cluster → Server Cluster × Reply
  handle_hermes_post_as_iris none s = (s, if not s.hermes then failure 503 else failure 400)
  handle_hermes_post_as_iris (some body) s =
      let msg : Message = record { kind = Hermes.status; content = body.content; language = "" } in
      if not s.hermes
      then (s, failure 503)
      else if body.surface == "" || body.thread_ref == "" || body.content == ""
      then (s, failure 400)
      else elim (post body.surface body.thread_ref msg) [
        | some why ↦ (emit (iris_failed body.surface body.thread_ref) s, failure 502)
        | none ↦ (
          emit (iris_posted body.surface body.thread_ref)
              (emit (posted body.surface body.thread_ref (narrated msg)) s),
          status "ok",
        )
      ]

-- IrisPullFilter
unfoldable iris_pull_filter : Casing → InboundMessage → Bool
unfolding has_prefix
iris_pull_filter casing msg =
    let t = trim_space msg.content in
    let low = casing.to_lower t in
    if t == "" then false else has_prefix "@iris" low || has_prefix "/iris" low

-- The three limits of a poll, each from the text of its parameter, "" if it is missing; `none` is a 400. The
-- timeout is in seconds.
unfoldable since_of : String → Option ℕ
unfolding parse_uint
since_of raw = if raw == "" then some 0 else parse_uint raw

abbrev pub cap : ℕ → ℤ → ℕ
cap most (pos n) = if ltb most n then most else n
cap most (negsuc n) = 0

unfoldable pub max_of : String → Option ℕ
unfolding parse_int
max_of raw = if raw == "" then some 32 else elim (parse_int raw) [
  | none ↦ none
  | some n ↦ if ltb_ℤ n (pos 1) then none else some (cap 100 n)
]

unfoldable pub timeout_of : String → Option ℕ
unfolding parse_int
timeout_of raw = if raw == "" then some 25 else elim (parse_int raw) [
  | none ↦ none
  | some n ↦ if ltb_ℤ n (pos 0) then none else some (cap 60 n)
]
