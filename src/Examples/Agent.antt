-- ===== src/Examples/Agent.antt =====
-- Iris and the reports of runs at work.
use zakros.Base.{
  ℕ, string_equality, nat_equality, String, List, [], ◌∷◌, ◌++◌, none, some, false, true, ◌≡◌, ◌≤◌,
  refl, arith, ok, inr, length, here, ◌≢◌, same_text_iff,
}
use zakros.Base.Int.{pos}
use zakros.Base.Maps.{lookup}
use zakros.Base.Text.{contains_text, has_prefix, text_length, trim_space}
use zakros.Storage.Memstore.{get_task}
use zakros.Mnemosyne.{RunRecord, new}
use zakros.Mnemosyne.Sanitizer.{sanitize}
use zakros.Mnemosyne.Sanitizer.Redaction.{IsRedactable}
use zakros.Minos.{Server}
use zakros.Minos.Webhooks.{status}
use zakros.Minos.Memory.{ReportMemoryRequest, handle_report_memory}
use zakros.Minos.Memory.Secrets.{report_memory-hides}
use zakros.Iris.{
  IrisEvent, IrisHandler, Agent, ChatMessage, CreateResponse, said, text as text_block, tool_use,
  rounds, ◌>>=◌, done,
}
use zakros.Iris.Tools.{ToolSet, text, slugify, text_of}
use zakros.Iris.Tools.Slugs.{is_slug, slugify_bounds}
use zakros.Iris.Handling.{commission_context, handle_new, handle_message, Cursor, Polled, run_polls}
use zakros.Iris.Handling.Acts.{Acts}
use zakros.Iris.Handling.Authority.{handle_message-Acts}
use zakros.Iris.Handling.Once.{handled_once}
use zakros.Examples.Setup.{environment, server_of, unicode}
use zakros.Examples.Runs.{payload, job}

abbrev office : Server (List String)
office = server_of (record { tasks = (1, job) ∷ [] }) []

abbrev report : ReportMemoryRequest
report = record { outcome = "completed"; summary = "done"; body = "pushed with token, twice" }

body_redacted :
    sanitize "pushed with token, ghp_0123456789abcdefghij0" ("token" ∷ [])
    ≡ "pushed with <redacted>, <redacted>"
unfolding sanitize text_length has_prefix
body_redacted = refl

token-IsRedactable : IsRedactable "token"
unfolding text_length contains_text has_prefix
token-IsRedactable = record { long = omega arith; plain = refl; foreign = refl }

job_stored : get_task 1 office.store ≡ ok job
unfolding get_task lookup
job_stored = refl

named : ◌≢◌ {A = String} "github" ""
named = ground (arith, same_text_iff "github" "")

report_memory-hides_example :
    let out = handle_report_memory environment (some 1) (some report) 7 80 office (some new) in
    (r : RunRecord) × (out.0 ≡ some (record new { records = [] ++ r ∷ [] }))
    × (r.task_id ≡ 1)
    × (r.project_id ≡ job.project_id)
    × (contains_text "token" r.body ≡ false)
    × (out.1.0.store ≡ office.store)
    × (out.1.1 ≡ status "ok")
report_memory-hides_example =
    report_memory-hides environment 1 report 7 80 office new job payload "token" job_stored refl
      (inr (record { env_var = "GITHUB_TOKEN"; credentials_ref = "github" }, here, named, refl))
      token-IsRedactable

-- A world that logs what is done to it. The model answers an utterance by a commission.
abbrev tools : ToolSet (List String)
tools = record {
  default_branch_prefix = "iris/";
  default_repo_url = "repo";
  call = λ c w. ("minos" ∷ w, ok "{}");
}

abbrev think : List ChatMessage → List String → CreateResponse
think (said role s ∷ []) w = record {
  content = tool_use "u1" "commission" (("summary", text "Fix CI!") ∷ []) ∷ [];
  stop_reason = "tool_use";
}
think msgs w = record { content = text_block "Commissioned." ∷ []; stop_reason = "end_turn" }

abbrev iris : IrisHandler (List String)
iris = record {
  get_error = λ w k. none;
  upsert_error = λ w k ts. none;
  create = λ msgs w. ("model" ∷ w, ok (think msgs w));
  post = λ surface thread content w. (content ∷ w, none);
  show = λ e. "error";
  tools = tools;
  casing = unicode;
  max_tool_rounds = pos 0;
}

abbrev asked_of_iris : IrisEvent
asked_of_iris = record {
  seq = 4;
  message = record {
    surface = "discord";
    thread_ref = "t1";
    surface_user_id = "ann";
    content = "@iris fix CI";
    timestamp = 10;
  };
}

abbrev idle : Agent (List String)
idle = record { conversations = []; world = [] }

iris_answers :
    (handle_message iris asked_of_iris 20 idle).0.world
    ≡ "Commissioned." ∷ "model" ∷ "minos" ∷ "model" ∷ []
unfolding handle_message ◌>>=◌ done lookup handle_new trim_space
iris_answers = refl

iris_answered : (handle_message iris asked_of_iris 20 idle).1 ≡ ok tt
unfolding handle_message ◌>>=◌ done lookup handle_new trim_space
iris_answered = refl

abbrev polls : List Polled
polls = none ∷ some ((record asked_of_iris { seq = 5 }, 40) ∷ [], "i2") ∷ []

abbrev cursor : Cursor
cursor = record { since = 4; last_instance = "i1" }

handled_once_example :
    let t = (run_polls iris polls (cursor, (handle_message iris asked_of_iris 20 idle).0)).1 in
    (handle_message iris asked_of_iris 60 t).0 ≡ t
handled_once_example =
    handled_once iris asked_of_iris asked_of_iris 20 60 idle polls cursor iris_answered refl refl

handle_message-Acts_example :
    (asks : ℕ) × (posts : ℕ) × (asks ≤ rounds iris)
    × (posts ≤ 1)
    × Acts iris
        (commission_context asked_of_iris.message)
        []
        asks
        posts
        (handle_message iris asked_of_iris 20 idle).0.world
handle_message-Acts_example = handle_message-Acts iris asked_of_iris 20 idle

ci_slug : text_of (slugify "Fix the CI!") ≡ "fix-the-ci"
unfolding slugify text_of
ci_slug = refl

slugify_bounds_example :
    (is_slug true (slugify "Fix the CI!") ≡ true)
    × (1 ≤ length (slugify "Fix the CI!"))
    × (length (slugify "Fix the CI!") ≤ 32)
slugify_bounds_example = slugify_bounds "Fix the CI!"
