-- ===== src/Iris.antt =====
-- Iris, the conversational agent (agents/iris/internal/iris: conversation.go, handler.go, poller.go). The model, the
-- post to Hermes and Minos act on a world, and the table of conversations is a map, each of whose
-- two statements may fail. A character stands for a byte.
pub mod Tools
pub mod Handling
use zakros.Base.{
  ℕ, zero, suc, ◌+◌, nat_equality, string_equality, Equality, String, ◌<>◌, List, [], ◌∷◌, ◌++◌,
  map, Option, none, some, Bool, true, false, not, ◌&&◌, ◌||◌, ◌≡◌, ◌↔◌, arith, ◌==◌, same_text_iff,
  if◌then◌else◌, Result, ok, err, exists, ltb,
}
use zakros.Base.Int.{ℤ, pos, ltb_ℤ, pos_part}
use zakros.Base.Clock.{Time}
use zakros.Base.Maps.{Map, lookup, insert}
use zakros.Base.Text.{Casing, trim_space, has_prefix}
use zakros.Iris.Tools.{Input, CommissionContext, ToolSet, ToolError, run_tool}

pub record Turn : Type 0 where
  pub role : String
  pub content : String
  pub timestamp : Time
  pub msg_seq : ℕ

-- The surface, the thread and the user of a conversation.
pub record ConversationKey : Type 0 where
  pub surface : String
  pub thread_ref : String
  user_identity : String

abbrev pub same_key : ConversationKey → ConversationKey → Bool
same_key a b =
    a.surface == b.surface && a.thread_ref == b.thread_ref && a.user_identity == b.user_identity

pub same_key_iff : (a b : ConversationKey) → (same_key a b ≡ true) ↔ (a ≡ b)
same_key_iff a b = ground (
  arith,
  same_text_iff a.surface b.surface,
  same_text_iff a.thread_ref b.thread_ref,
  same_text_iff a.user_identity b.user_identity,
)

instance abbrev pub key_equality : Equality ConversationKey
key_equality = record { same = same_key; same_iff = same_key_iff }

pub record IrisMessage : Type 0 where
  pub surface : String
  pub thread_ref : String
  pub surface_user_id : String
  pub content : String
  pub timestamp : Time

pub record IrisEvent : Type 0 where
  pub seq : ℕ
  pub message : IrisMessage

abbrev pub key_of : IrisMessage → ConversationKey
key_of msg = record {
  surface = msg.surface;
  thread_ref = msg.thread_ref;
  user_identity = msg.surface_user_id;
}

pub data ContentBlock : Type 0 where
  text : String → ContentBlock
  tool_use : String → String → Input → ContentBlock
  tool_result : String → Result ToolError String → ContentBlock
  other : ContentBlock

pub data ChatMessage : Type 0 where
  said : String → String → ChatMessage
  blocks : String → List ContentBlock → ChatMessage

pub record CreateResponse : Type 0 where
  pub content : List ContentBlock
  pub stop_reason : String

pub data HandleError : Type 0 where
  incomplete : ℕ → HandleError
  no_store not_posted no_model : String → HandleError
  rounds_exceeded : ℕ → HandleError

-- The handler and what it calls: the table's two statements, the model and the post, with their errors.
pub record IrisHandler (World : Type 0) : Type 0 where
  pub get_error : World → ConversationKey → Option String
  pub upsert_error : World → ConversationKey → List Turn → Option String
  pub create : List ChatMessage → World → World × Result String CreateResponse
  pub post : String → String → String → World → World × Option String
  pub show : HandleError → String
  pub tools : ToolSet World
  pub casing : Casing
  pub max_tool_rounds : ℤ

pub record Agent (World : Type 0) : Type 0 where
  pub conversations : Map ConversationKey (List Turn)
  pub world : World

-- A method that may fail.
abbrev pub M : Type 0 → Type 0 → Type 0
M World A = Agent World → Agent World × Result HandleError A

infixl 5 ◌>>=◌ ◌>>◌
unfoldable pub ◌>>=◌ : {World A B : Type 0} → M World A → (A → M World B) → M World B
◌>>=◌ m f s = let (s', r) = m s in elim r [ ok a ↦ f a s' | err why ↦ (s', err why) ]

abbrev pub ◌>>◌ : {World A B : Type 0} → M World A → M World B → M World B
m >> k = m >>= λ _. k

unfoldable pub done : {World A : Type 0} → A → M World A
done a s = (s, ok a)

abbrev pub extended : Option (List Turn) → Turn → List Turn
extended none t = t ∷ []
extended (some ts) t = ts ++ t ∷ []

abbrev pub has_seq : ℕ → Option (List Turn) → Bool
has_seq seq none = false
has_seq seq (some turns) = exists (λ t. t.msg_seq == seq) turns

-- splitContent, for each of its two results.
unfoldable pub tool_uses : List ContentBlock → List (String × String × Input)
tool_uses [] = []
tool_uses (tool_use id name input ∷ bs) = (id, name, input) ∷ tool_uses bs
tool_uses (text s ∷ bs) = tool_uses bs
tool_uses (tool_result id r ∷ bs) = tool_uses bs
tool_uses (other ∷ bs) = tool_uses bs

unfoldable final_text : List ContentBlock → String
final_text [] = ""
final_text (text s ∷ bs) = s <> final_text bs
final_text (tool_use id name input ∷ bs) = final_text bs
final_text (tool_result id r ∷ bs) = final_text bs
final_text (other ∷ bs) = final_text bs

unfoldable reply_of : String → String
reply_of final = if trim_space final == "" then "(no reply)" else trim_space final

abbrev pub build_message_history : List Turn → List ChatMessage
build_message_history = map (λ (t : Turn). said t.role t.content)

-- The text after the characters that it begins with.
unfoldable without_first : ℕ → String → String
without_first zero s = s
without_first (suc n) String.[] = ""
without_first (suc n) (String.◌∷◌ c s) = without_first n s

unfoldable pub strip_iris_prefix : Casing → String → String
unfolding without_first has_prefix
strip_iris_prefix casing s =
    let t = trim_space s in
    let low = casing.to_lower t in
    if has_prefix "@iris" low || has_prefix "/iris" low then trim_space (without_first 5 t) else t

module _ {World : Type 0} (h : IrisHandler World) where
  -- The calls of one answer of the model. An error of a tool is told to the model.
  unfoldable pub run_tools :
      List (String × String × Input) → CommissionContext → World → World × List ContentBlock
  unfolding run_tool
  run_tools [] cc w = (w, [])
  run_tools ((id, name, input) ∷ uses) cc w =
      let (w', r) = run_tool h.tools name input cc w in
      let (w'', rs) = run_tools uses cc w' in (w'', tool_result id r ∷ rs)

  -- The rounds that are left of `most`.
  unfoldable pub run_rounds :
      ℕ → ℕ → List ChatMessage → CommissionContext → World → World × Result HandleError String
  unfolding run_tools tool_uses final_text reply_of
  run_rounds most zero msgs cc w = (w, err (rounds_exceeded most))
  run_rounds most (suc n) msgs cc w =
      let (w', answer) = h.create msgs w in
      elim answer [
        | err why ↦ (w', err (no_model why))
        | ok resp ↦
            let final = reply_of (final_text resp.content) in
            elim (resp.stop_reason == "tool_use") [
              | false ↦ (w', ok final)
              | true ↦ elim (tool_uses resp.content) [
                | [] ↦ (w', ok final)
                | call ∷ calls ↦
                    let (w'', results) = run_tools (call ∷ calls) cc w' in
                    run_rounds most n
                      (msgs ++ blocks "assistant" resp.content ∷ blocks "user" results ∷ []) cc w''
              ]
            ]
      ]

  abbrev pub rounds : ℕ
  rounds = if ltb_ℤ (pos 0) h.max_tool_rounds then pos_part h.max_tool_rounds else 6

  -- `none` if there is no conversation.
  unfoldable pub get_conversation : ConversationKey → M World (Option (List Turn))
  get_conversation k s = elim (h.get_error s.world k) [
    | some why ↦ (s, err (no_store why))
    | none ↦ (s, ok (lookup k s.conversations))
  ]

  unfoldable pub upsert_turns : ConversationKey → List Turn → M World (List Turn)
  upsert_turns k turns s = elim (h.upsert_error s.world k turns) [
    | some why ↦ (s, err (no_store why))
    | none ↦ (record s { conversations = insert k turns s.conversations }, ok turns)
  ]

  unfoldable pub append_turn : ConversationKey → Turn → M World (List Turn)
  unfolding get_conversation upsert_turns
  append_turn k turn = do c ← get_conversation k; upsert_turns k (extended c turn)

  unfoldable pub already_handled : ConversationKey → ℕ → M World Bool
  unfolding get_conversation
  already_handled k seq = do c ← get_conversation k; done (has_seq seq c)
