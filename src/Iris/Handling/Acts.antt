-- ===== src/Iris/Handling/Acts.antt =====
-- What Iris does to the world for a message (agents/iris/internal/iris/handler.go and tools.go).
use zakros.Base.{
  ℕ, zero, suc, ◌+◌, ◌≤◌, String, List, [], ◌∷◌, ◌++◌, ◌==◌, string_equality, ◌≡◌, ◌≢◌, ◌⊎◌, inl,
  inr, refl, sym, subst, arith, Bool-cases, Result, ok, err, Result-cases, same_text_iff,
}
use zakros.Iris.Tools.{
  Input, CommissionContext, MinosCall, state_queue, state_recent, state_tasks, commission_task,
  ToolSet, IrisCommission, commission_of, query_of, commission_by_tool, run_tool, answered, text_at,
}
use zakros.Iris.{IrisHandler, ChatMessage, blocks, tool_uses, run_tools, run_rounds}

-- The calls that the tools may make for a message: reads, and commissions in the name of its sender.
abbrev MayCall : CommissionContext → MinosCall → Type 0
MayCall cc state_queue = Unit
MayCall cc (state_recent n) = Unit
MayCall cc (state_tasks states n) = Unit
MayCall cc (commission_task r) = (r.origin ≡ cc) × (r.summary ≢ "") × (r.repo_url ≢ "")

-- What is done to the world, with the numbers of requests to the model and of posts.
pub data Acts {World : Type 0} (h : IrisHandler World) (cc : CommissionContext) (w : World)
    : ℕ → ℕ → World → Type 0 where
  still : Acts h cc w 0 0 w
  asked :
      {a p : ℕ} {v : World} (msgs : List ChatMessage)
      → Acts h cc w a p v
      → Acts h cc w (suc a) p (h.create msgs v).0
  posted :
      {a p : ℕ} {v : World} (content : String)
      → Acts h cc w a p v
      → Acts h cc w a (suc p) (h.post cc.surface cc.thread_ref content v).0
  called :
      {a p : ℕ} {v : World} (c : MinosCall)
      → MayCall cc c
      → Acts h cc w a p v
      → Acts h cc w a p (h.tools.call c v).0

query_of-MayCall : (cc : CommissionContext) (input : Input) → MayCall cc (query_of input)
unfolding query_of
query_of-MayCall cc input = elim (Bool-cases (text_at "scope" input == "queue")) [
  | inl e ↦ rw e tt
  | inr e ↦ elim (Bool-cases (text_at "scope" input == "recent")) [
    | inl f ↦ rw (e, f) tt
    | inr f ↦ rw (e, f) tt
  ]
]

answered-world : {World : Type 0} (x : World × Result String String) → (answered x).0 ≡ x.0
answered-world (w, ok out) = refl
answered-world (w, err why) = refl

module _ {World : Type 0} (ts : ToolSet World) (cc : CommissionContext) where
  Calls : World → World → Type 0
  Calls w v = (v ≡ w) ⊎ ((c : MinosCall) × MayCall cc c × (v ≡ (ts.call c w).0))

  of_sender : (input : Input) → (commission_of ts input cc).origin ≡ cc
  unfolding commission_of
  of_sender input = refl

  commission_by_tool-Calls :
      (input : Input) (w : World) → Calls w (commission_by_tool ts input cc w).0
  unfolding commission_by_tool Calls
  commission_by_tool-Calls input w =
      let r : IrisCommission = commission_of ts input cc in
      elim (Bool-cases (r.summary == "")) [
        | inl e ↦ inl (rw e refl)
        | inr e ↦ elim (Bool-cases (r.repo_url == "")) [
          | inl f ↦ inl (rw (e, f) refl)
          | inr f ↦ inr (
            commission_task r,
            (
              of_sender input,
              ground (arith, same_text_iff r.summary ""),
              ground (arith, same_text_iff r.repo_url ""),
            ),
            rw (e, f) (answered-world (ts.call (commission_task r) w)),
          )
        ]
      ]

  run_tool-Calls :
      (name : String) (input : Input) (w : World) → Calls w (run_tool ts name input cc w).0
  unfolding run_tool Calls
  run_tool-Calls name input w = elim (Bool-cases (name == "query_state")) [
    | inl e ↦ inr (
      query_of input,
      query_of-MayCall cc input,
      rw e (answered-world (ts.call (query_of input) w)),
    )
    | inr e ↦ elim (Bool-cases (name == "commission")) [
      | inl f ↦ rw (e, f) (commission_by_tool-Calls input w)
      | inr f ↦ inl (rw (e, f) refl)
    ]
  ]

List-cases {ℓ} : {A : Type ℓ} (xs : List A) → (xs ≡ []) ⊎ ((x : A) × (r : List A) × (xs ≡ x ∷ r))
List-cases [] = inl refl
List-cases (x ∷ r) = inr (x, r, refl)

module _ {World : Type 0} (h : IrisHandler World) (cc : CommissionContext) where
  -- A round ends the loop after one request, or goes on after the calls of the answer.
  round :
      (most n : ℕ) (msgs : List ChatMessage) (v : World)
      → ((run_rounds h most (suc n) msgs cc v).0 ≡ (h.create msgs v).0)
        ⊎ ((uses : List (String × String × Input)) × (msgs' : List ChatMessage) × ((run_rounds h
                most
                (suc n)
                msgs
                cc
                v).0
              ≡ (run_rounds h most n msgs' cc (run_tools h uses cc (h.create msgs v).0).0).0))
  unfolding run_rounds
  round most n msgs v = elim (Result-cases (h.create msgs v).1) [
    | inr (why, e) ↦ inl (ground arith)
    | inl (resp, e) ↦ elim (Bool-cases (resp.stop_reason == "tool_use")) [
      | inr f ↦ inl (ground arith)
      | inl f ↦ elim (List-cases (tool_uses resp.content)) [
        | inl g ↦ inl (ground arith)
        | inr (u, us, g) ↦ inr (
          u ∷ us,
          msgs
              ++ blocks "assistant" resp.content
                ∷ blocks "user" (run_tools h (u ∷ us) cc (h.create msgs v).0).1
                ∷ [],
          ground arith,
        )
      ]
    ]
  ]

module _ {World : Type 0} (h : IrisHandler World) (cc : CommissionContext) {w : World} where
  run_tool-Acts :
      (name : String) (input : Input) {a p : ℕ} {v : World}
      → Acts h cc w a p v
      → Acts h cc w a p (run_tool h.tools name input cc v).0
  unfolding Calls
  run_tool-Acts name input {a} {p} {v} d = elim (run_tool-Calls h.tools cc name input v) [
    | inl e ↦ subst (Acts h cc w a p) (sym e) d
    | inr (c, may, e) ↦ subst (Acts h cc w a p) (sym e) (called c may d)
  ]

  run_tools-Acts :
      (uses : List (String × String × Input)) {a p : ℕ} {v : World}
      → Acts h cc w a p v
      → Acts h cc w a p (run_tools h uses cc v).0
  unfolding run_tools
  run_tools-Acts [] d = d
  run_tools-Acts ((id, name, input) ∷ uses) d = run_tools-Acts uses (run_tool-Acts name input d)

  pub run_rounds-Acts :
      (most n : ℕ) (msgs : List ChatMessage) {a p : ℕ} {v : World}
      → Acts h cc w a p v
      → (b : ℕ) × (b ≤ n + a) × Acts h cc w b p (run_rounds h most n msgs cc v).0
  run_rounds-Acts most zero msgs {a} d = (a, omega arith, unfold run_rounds in d)
  run_rounds-Acts most (suc n) msgs {a} {p} {v} d = elim (round h cc most n msgs v) [
    | inl e ↦ (suc a, omega arith, subst (Acts h cc w (suc a) p) (sym e) (asked msgs d))
    | inr (uses, msgs', e) ↦
        let (b, le, d') = run_rounds-Acts most n msgs' (run_tools-Acts uses (asked msgs d)) in
        (b, omega arith, subst (Acts h cc w b p) (sym e) d')
  ]
