-- ===== src/Iris/Handling/Table.antt =====
-- What the methods of Iris leave of the turns in the table (agents/iris/internal/iris/conversation.go).
use zakros.Base.{
  ℕ, ◌==◌, String, List, [], ◌∷◌, ◌++◌, Option, none, some, Bool, true, ◌||◌, ◌≡◌, ◌⊎◌, inl, inr,
  refl, sym, subst, ◌∙◌, ap, arith, exists, Bool-cases, Option-cases, nat_equality, ok, err,
  Result-cases,
}
use zakros.Base.Maps.{lookup, insert, lookup-insert}
use zakros.Iris.{
  Turn, ConversationKey, key_equality, same_key_iff, IrisMessage, IrisEvent, HandleError, no_store,
  IrisHandler, Agent, get_conversation, upsert_turns, append_turn, extended, M, ◌>>=◌, done,
}
use zakros.Iris.Handling.{post_as_iris, greet, run_loop}

-- Some turn of the conversation is of the message with the number.
abbrev pub IsHandled : {World : Type 0} → ConversationKey → ℕ → Agent World → Type 0
IsHandled k seq s =
    (turns : List Turn) × (lookup k s.conversations ≡ some turns)
    × (exists (λ t. t.msg_seq == seq) turns ≡ true)

exists-append {ℓ} :
    {A : Type ℓ} (p : A → Bool) (xs ys : List A)
    → exists p (xs ++ ys) ≡ (exists p xs || exists p ys)
exists-append p [] ys = refl
exists-append p (x ∷ xs) ys = ground (arith, exists-append p xs ys)

module _ {World : Type 0} (h : IrisHandler World) where
  -- The table is left as it was, or has the turn at the end of the conversation.
  append_turn-cases :
      (k : ConversationKey) (t : Turn) (s : Agent World)
      → ((why : HandleError) × (append_turn h k t s ≡ (s, err why)))
        ⊎ ((append_turn h k t s).0 ≡ record s {
          conversations = insert k (extended (lookup k s.conversations) t) s.conversations;
        })
  unfolding append_turn get_conversation upsert_turns ◌>>=◌
  append_turn-cases k t s = elim (Option-cases (h.get_error s.world k)) [
    | inr (why, e) ↦ inl (no_store why, ground arith)
    | inl e ↦
        elim (Option-cases (h.upsert_error s.world k (extended (lookup k s.conversations) t))) [
          | inl g ↦ inr (ground arith)
          | inr (why, g) ↦ inl (no_store why, ground arith)
        ]
  ]

insert-keeps :
    {World : Type 0} (j k : ConversationKey) (seq : ℕ) (t : Turn) (s : Agent World)
    → IsHandled k seq s
    → IsHandled k seq (record s {
      conversations = insert j (extended (lookup j s.conversations) t) s.conversations;
    })
insert-keeps j k seq t s (turns, e, m) = elim (Bool-cases (j == k)) [
  | inl same ↦
      let at : j ≡ k = (same_key_iff j k).0 same in
      (
        turns ++ t ∷ [],
        lookup-insert j k (extended (lookup j s.conversations) t) s.conversations
            ∙ rw same (
                ap some (
                  subst (λ i. extended (lookup i s.conversations) t ≡ turns ++ t ∷ []) (sym at)
                    (rw e refl))),
        rw (exists-append (λ (u : Turn). u.msg_seq == seq) turns (t ∷ [])) (rw m refl),
      )
  | inr apart ↦ (
    turns,
    lookup-insert j k (extended (lookup j s.conversations) t) s.conversations ∙ rw apart e,
    m,
  )
]

extended-has :
    (ts : Option (List Turn)) (t : Turn) (seq : ℕ)
    → t.msg_seq ≡ seq
    → exists (λ u. u.msg_seq == seq) (extended ts t) ≡ true
extended-has none t seq e = ground arith
extended-has (some ts) t seq e =
    rw (exists-append (λ (u : Turn). u.msg_seq == seq) ts (t ∷ [])) (ground arith)

-- A method leaves a message handled.
pub record Keeps {World A : Type 0} (k : ConversationKey) (seq : ℕ) (m : M World A) : Type 0 where
  pub kept : (s : Agent World) → IsHandled k seq s → IsHandled k seq (m s).0

-- A method leaves it handled if it succeeds.
pub record Adds {World A : Type 0} (k : ConversationKey) (seq : ℕ) (m : M World A) : Type 0 where
  pub added : (s : Agent World) (a : A) → (m s).1 ≡ ok a → IsHandled k seq (m s).0

module _ {World A B : Type 0} (m : M World A) (f : A → M World B) where
  pub >>=-ok : (s : Agent World) (a : A) → (m s).1 ≡ ok a → (m >>= f) s ≡ f a (m s).0
  unfolding ◌>>=◌
  >>=-ok s a e = ground arith

  pub >>=-err :
      (s : Agent World) (why : HandleError) → (m s).1 ≡ err why → (m >>= f) s ≡ ((m s).0, err why)
  unfolding ◌>>=◌
  >>=-err s why e = ground arith

module _ {World A B : Type 0} {k : ConversationKey} {seq : ℕ} (m : M World A)
    {f : A → M World B} where
  pub Keeps-then : Keeps k seq m → ((a : A) → Keeps k seq (f a)) → Keeps k seq (m >>= f)
  Keeps-then p q = record {
    kept = λ s d. elim (Result-cases (m s).1) [
      | inl (a, e) ↦
          subst (λ x. IsHandled k seq x.0) (sym (>>=-ok m f s a e))
            ((q a).kept (m s).0 (p.kept s d))
      | inr (why, e) ↦ subst (λ x. IsHandled k seq x.0) (sym (>>=-err m f s why e)) (p.kept s d)
    ];
  }

  pub Adds-first : Adds k seq m → ((a : A) → Keeps k seq (f a)) → Adds k seq (m >>= f)
  Adds-first p q = record {
    added = λ s b h. elim (Result-cases (m s).1) [
      | inl (a, e) ↦
          subst (λ x. IsHandled k seq x.0) (sym (>>=-ok m f s a e))
            ((q a).kept (m s).0 (p.added s a e))
      | inr (why, e) ↦ absurd (cc (ap (λ x. x.1) (>>=-err m f s why e)))
    ];
  }

  pub Adds-then : ((a : A) → Adds k seq (f a)) → Adds k seq (m >>= f)
  Adds-then q = record {
    added = λ s b h. elim (Result-cases (m s).1) [
      | inl (a, e) ↦
          subst (λ x. IsHandled k seq x.0) (sym (>>=-ok m f s a e))
            ((q a).added (m s).0 b (sym (ap (λ x. x.1) (>>=-ok m f s a e)) ∙ h))
      | inr (why, e) ↦ absurd (cc (ap (λ x. x.1) (>>=-err m f s why e)))
    ];
  }

pub Keeps-done :
    {World A : Type 0} (k : ConversationKey) (seq : ℕ) (a : A)
    → Keeps {World = World} k seq (done a)
unfolding done
Keeps-done k seq a = record { kept = λ s d. d }

module _ {World : Type 0} (h : IrisHandler World) (k : ConversationKey) (seq : ℕ) where
  pub append_turn-Keeps : (j : ConversationKey) (t : Turn) → Keeps k seq (append_turn h j t)
  append_turn-Keeps j t = record {
    kept = λ s d. elim (append_turn-cases h j t s) [
      | inl (why, e) ↦ subst (λ x. IsHandled k seq x.0) (sym e) d
      | inr e ↦ subst (IsHandled k seq) (sym e) (insert-keeps j k seq t s d)
    ];
  }

  pub append_turn-Adds : (t : Turn) → t.msg_seq ≡ seq → Adds k seq (append_turn h k t)
  append_turn-Adds t same = record {
    added = λ s ts f. elim (append_turn-cases h k t s) [
      | inl (why, e) ↦ absurd (cc (ap (λ x. x.1) e))
      | inr e ↦ subst (IsHandled k seq) (sym e) (
        extended (lookup k s.conversations) t,
        lookup-insert k k (extended (lookup k s.conversations) t) s.conversations
            ∙ rw ((same_key_iff k k).1 refl) refl,
        extended-has (lookup k s.conversations) t seq same,
      )
    ];
  }

  pub same_table :
      {A : Type 0} {m : M World A}
      → ((s : Agent World) → (m s).0.conversations ≡ s.conversations)
      → Keeps k seq m
  same_table e = record { kept = λ s (turns, f, x). (turns, ap (lookup k) (e s) ∙ f, x) }

  pub post_as_iris-Keeps : (msg : IrisMessage) (c : String) → Keeps k seq (post_as_iris h msg c)
  unfolding post_as_iris
  post_as_iris-Keeps msg c = same_table (λ s. ground (arith))

  pub run_loop-Keeps : (ev : IrisEvent) (ts : List Turn) → Keeps k seq (run_loop h ev ts)
  unfolding run_loop post_as_iris
  run_loop-Keeps ev ts = same_table (λ s. ground (arith))

  pub greet-Keeps : (ev : IrisEvent) → Keeps k seq (greet h ev)
  unfolding greet
  greet-Keeps ev = search (Keeps-then, Keeps-done, append_turn-Keeps, post_as_iris-Keeps)
