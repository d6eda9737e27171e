-- ===== src/Iris/Handling/Authority.antt =====
-- Iris acts in the name of the sender (agents/iris/internal/iris/handler.go).
use zakros.Base.{
  ℕ, ◌+◌, ◌≤◌, String, List, Bool, true, false, ◌==◌, string_equality, ◌≡◌, ◌⊎◌, inl, inr, refl,
  sym, subst, ◌∙◌, ap, arith, Bool-cases, Result, ok, err, Result-cases, ◌||◌,
}
use zakros.Base.Clock.{Time}
use zakros.Iris.Tools.{CommissionContext}
use zakros.Iris.{
  IrisMessage, IrisEvent, IrisHandler, Agent, HandleError, Turn, ConversationKey, key_of,
  get_conversation, upsert_turns, append_turn, already_handled, strip_iris_prefix, run_rounds,
  rounds, M, ◌>>=◌, done, build_message_history,
}
use zakros.Iris.Handling.{
  commission_context, post_as_iris, greet, run_loop, handle_new, proceed, handle_message,
}
use zakros.Iris.Handling.Table.{>>=-ok, >>=-err}
use zakros.Iris.Handling.Acts.{Acts, still, posted, run_rounds-Acts}

-- A method that leaves the world alone.
record IsQuiet {World A : Type 0} (m : M World A) : Type 0 where
  quiet : (s : Agent World) → (m s).0.world ≡ s.world

-- The posts that a method may make: one if it fails.
abbrev most_posts : {A : Type 0} → ℕ → Result HandleError A → ℕ
most_posts q (ok a) = q
most_posts q (err why) = 1

most_posts-le :
    {A : Type 0} (q r : ℕ) (o : Result HandleError A) → q ≤ 1 → r ≤ q → r ≤ most_posts q o
most_posts-le q r (ok a) small le = le
most_posts-le q r (err why) small le = omega arith

most_posts-one : {A : Type 0} (o : Result HandleError A) → most_posts 1 o ≡ 1
most_posts-one (ok a) = refl
most_posts-one (err why) = refl

-- What is done to the world stays within `n` requests and `q` posts more than before.
abbrev Within :
    {World A : Type 0}
    → IrisHandler World
    → CommissionContext
    → World
    → ℕ
    → ℕ
    → Agent World × Result HandleError A
    → Type 0
Within h cc w n q x =
    (b : ℕ) × (r : ℕ) × (b ≤ n) × (r ≤ most_posts q x.1) × Acts h cc w b r x.0.world

-- A method that asks the model up to `n` times and posts up to `q` times if it succeeds, when nothing was posted.
record Does {World A : Type 0} (h : IrisHandler World) (cc : CommissionContext) (n q : ℕ)
    (m : M World A) : Type 0 where
  does :
      {w : World} {a : ℕ} (s : Agent World)
      → Acts h cc w a 0 s.world
      → Within h cc w (n + a) q (m s)

module _ {World A B : Type 0} (m : M World A) {f : A → M World B} where
  IsQuiet-then : IsQuiet m → ((a : A) → IsQuiet (f a)) → IsQuiet (m >>= f)
  IsQuiet-then x y = record {
    quiet = λ s. elim (Result-cases (m s).1) [
      | inl (a, e) ↦ ap (λ r. r.0.world) (>>=-ok m f s a e) ∙ (y a).quiet (m s).0 ∙ x.quiet s
      | inr (why, e) ↦ ap (λ r. r.0.world) (>>=-err m f s why e) ∙ x.quiet s
    ];
  }

  module _ {h : IrisHandler World} {cc : CommissionContext} where
    -- The posts come after what is done first.
    Does-then :
        {n k q : ℕ}
        → Does h cc n 0 m
        → ((a : A) → Does h cc k q (f a))
        → Does h cc (n + k) q (m >>= f)
    Does-then {n} {k} {q} x y = record {
      does = λ {w} {a} s d.
          let (b, r, le, le', d') = x.does s d in
          elim (Result-cases (m s).1) [
            | inl (v, e) ↦
                let none' : r ≡ 0 = omega (arith, subst (λ o. r ≤ most_posts 0 o) e le') in
                let (b', r', ge, ge', d'') =
                  (y v).does (m s).0 (subst (λ i. Acts h cc w b i (m s).0.world) none' d') in
                subst (Within h cc w (n + k + a) q) (sym (>>=-ok m f s v e))
                  (b', r', omega arith, ge', d'')
            | inr (why, e) ↦
                subst (Within h cc w (n + k + a) q) (sym (>>=-err m f s why e))
                  (b, r, omega arith, subst (λ o. r ≤ most_posts 0 o) e le', d')
          ];
    }

    -- What is quiet comes after the posts.
    Does-quiet :
        {n q : ℕ} → q ≤ 1 → Does h cc n q m → ((a : A) → IsQuiet (f a)) → Does h cc n q (m >>= f)
    Does-quiet {n} {q} small x y = record {
      does = λ {w} {a} s d.
          let (b, r, le, le', d') = x.does s d in
          elim (Result-cases (m s).1) [
            | inl (v, e) ↦
                let le'' : r ≤ q = subst (λ o. r ≤ most_posts q o) e le' in
                subst (Within h cc w (n + a) q) (sym (>>=-ok m f s v e)) (
                  b,
                  r,
                  le,
                  most_posts-le q r (f v (m s).0).1 small le'',
                  subst (Acts h cc w b r) (sym ((y v).quiet (m s).0)) d',
                )
            | inr (why, e) ↦
                subst (Within h cc w (n + a) q) (sym (>>=-err m f s why e))
                  (b, r, le, subst (λ o. r ≤ most_posts q o) e le', d')
          ];
    }

Does-more :
    {World A : Type 0} {h : IrisHandler World} {cc : CommissionContext} {n k q : ℕ} {m : M World A}
    → n ≤ k
    → Does h cc n q m
    → Does h cc k q m
Does-more le x = record {
  does = λ s d. let (b, r, le', posts, d') = x.does s d in (b, r, omega arith, posts, d');
}

IsQuiet-done : {World A : Type 0} (a : A) → IsQuiet {World = World} (done a)
unfolding done
IsQuiet-done a = record { quiet = λ s. refl }

module _ {World : Type 0} (h : IrisHandler World) where
  append_turn-IsQuiet : (k : ConversationKey) (t : Turn) → IsQuiet (append_turn h k t)
  unfolding append_turn get_conversation upsert_turns ◌>>=◌
  append_turn-IsQuiet k t = record { quiet = λ s. ground arith }

  already-IsQuiet : (k : ConversationKey) (n : ℕ) → IsQuiet (already_handled h k n)
  unfolding already_handled get_conversation ◌>>=◌ done
  already-IsQuiet k n = record { quiet = λ s. ground arith }

  module _ (cc : CommissionContext) where
    Does-IsQuiet : {A : Type 0} {m : M World A} → IsQuiet m → Does h cc 0 0 m
    Does-IsQuiet {m} x = record {
      does = λ {w} {a} s d.
          (a, 0, omega arith, omega arith, subst (Acts h cc w a 0) (sym (x.quiet s)) d);
    }

  post_as_iris-world :
      (msg : IrisMessage) (content : String) (s : Agent World)
      → (post_as_iris h msg content s).0.world
        ≡ (h.post msg.surface msg.thread_ref content s.world).0
  unfolding post_as_iris
  post_as_iris-world msg content s = ground arith

  module _ (ev : IrisEvent) where
    post_as_iris-Does :
        (content : String)
        → Does h (commission_context ev.message) 0 1 (post_as_iris h ev.message content)
    post_as_iris-Does content = record {
      does = λ {w} {a} s d. (
        a,
        1,
        omega arith,
        omega (arith, most_posts-one (post_as_iris h ev.message content s).1),
        subst (Acts h (commission_context ev.message) w a 1)
            (sym (post_as_iris-world ev.message content s)) (posted content d),
      );
    }

    looped : List Turn → Agent World → World × Result HandleError String
    looped ts s =
        run_rounds h (rounds h) (rounds h) (build_message_history ts)
          (commission_context ev.message) s.world

    run_loop-cases :
        (ts : List Turn) (s : Agent World)
        → ((reply : String) × (run_loop h ev ts s
              ≡ (record s { world = (looped ts s).0 }, ok reply)))
          ⊎ ((why : HandleError) × (run_loop h ev ts s ≡ (
            (post_as_iris h ev.message (h.show why) (record s { world = (looped ts s).0 })).0,
            err why,
          )))
    unfolding run_loop looped
    run_loop-cases ts s = elim (Result-cases (looped ts s).1) [
      | inl (reply, e) ↦ inl (reply, ground arith)
      | inr (why, e) ↦ inr (why, ground arith)
    ]

    run_loop-Does :
        (ts : List Turn) → Does h (commission_context ev.message) (rounds h) 0 (run_loop h ev ts)
    unfolding looped
    run_loop-Does ts = record {
      does = λ {w} {a} s d.
          let (b, le, d') =
            run_rounds-Acts h (commission_context ev.message) (rounds h) (rounds h)
              (build_message_history ts) d in
          elim (run_loop-cases ts s) [
            | inl (reply, e) ↦
                subst (Within h (commission_context ev.message) w (rounds h + a) 0) (sym e)
                  (b, 0, le, omega arith, d')
            | inr (why, e) ↦
                subst (Within h (commission_context ev.message) w (rounds h + a) 0) (sym e) (
                  b,
                  1,
                  le,
                  omega arith,
                  subst (Acts h (commission_context ev.message) w b 1)
                      (sym (
                        post_as_iris-world ev.message (h.show why)
                          (record s { world = (looped ts s).0 })))
                      (posted (h.show why) d'),
                )
          ];
    }

    greet-Does : Does h (commission_context ev.message) 0 1 (greet h ev)
    unfolding greet
    greet-Does =
        Does-quiet (post_as_iris h ev.message _) (omega arith) (post_as_iris-Does _)
          (λ _. search (IsQuiet-then, IsQuiet-done, append_turn-IsQuiet))

    handle_new-Does :
        (now : Time) → Does h (commission_context ev.message) (rounds h) 1 (handle_new h ev now)
    unfolding handle_new
    handle_new-Does now = elim (Bool-cases (strip_iris_prefix h.casing ev.message.content == "")) [
      | inl e ↦ rw e (Does-more (omega arith) greet-Does)
      | inr e ↦ rw e (
          Does-more {n = 0 + (rounds h + 0)} (omega arith) (
            Does-then _ (Does-IsQuiet _ (append_turn-IsQuiet _ _)) (λ turns.
              Does-then (run_loop h ev turns) (run_loop-Does turns) (λ reply.
                Does-quiet (post_as_iris h ev.message reply) (omega arith) (post_as_iris-Does reply)
                  (λ _. search (IsQuiet-then, IsQuiet-done, append_turn-IsQuiet))))))
    ]

    proceed-Does :
        (now : Time) (b : Bool)
        → Does h (commission_context ev.message) (rounds h) 1 (proceed h ev now b)
    unfolding proceed done
    proceed-Does now true = record { does = λ {w} {a} s d. (a, 0, omega arith, omega arith, d) }
    proceed-Does now false = handle_new-Does now

  -- For a message Iris does nothing to the world but ask the model, as often as the rounds allow at most, post,
  -- once at most, to the thread of the message, and make requests to Minos, which read the state or commission a
  -- task with a summary and a repository in the name of the sender.
  pub handle_message-Acts :
      (ev : IrisEvent) (now : Time) (s : Agent World)
      → (asks : ℕ) × (posts : ℕ) × (asks ≤ rounds h)
        × (posts ≤ 1)
        × Acts h
            (commission_context ev.message)
            s.world
            asks
            posts
            (handle_message h ev now s).0.world
  unfolding handle_message
  handle_message-Acts ev now s =
      let named : Bool =
        ev.message.surface == ""
        || ev.message.thread_ref == ""
        || ev.message.surface_user_id == "" in
      elim (Bool-cases named) [
        | inl e ↦ rw e (0, 0, omega arith, omega arith, still)
        | inr e ↦
            let (b, r, le, le', d) =
              (Does-then (already_handled h (key_of ev.message) ev.seq)
                  (Does-IsQuiet (commission_context ev.message)
                    (already-IsQuiet (key_of ev.message) ev.seq))
                  (proceed-Does ev now)).does
                s still in
            rw e (b, r, omega arith, subst (λ k. r ≤ k) (most_posts-one _) le', d)
      ]
