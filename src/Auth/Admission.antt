-- ===== src/Auth/Admission.antt =====
-- Who is admitted by the middleware (pkg/brokerauth/brokerauth.go, Require).
use zakros.Base.{
  ◌≤◌, string_equality, String, List, [], ◌∷◌, Option, none, some, Bool, true, false, not, ◌&&◌,
  ◌≡◌, ◌≢◌, ◌↔◌, refl, sym, ◌∙◌, ap, ◌⊎◌, inl, inr, arith, ◌==◌, same_text, same_text_iff, All,
  Option-cases, Bool-cases, subst, some-eq,
}
use zakros.Base.Clock.{Time, before}
use zakros.Replay.Tokens.{MemReplayStore, seen, Holds, seen-Holds}
use zakros.Auth.{
  Claims, Verifier, Request, AuditEvent, allowed, denied, has_audience, has_scope,
  bearer_from_header, check_replay, require, require_all,
}

-- The first use of an identifier, as far as the store knows.
abbrev pub IsUnused : Claims → Time → Option MemReplayStore → Type 0
IsUnused c wall none = Unit
IsUnused c wall (some s) = (c.jti ≡ "") ⊎ ((seen c.jti c.expires wall s).1 ≡ false)

pub record Admits (v : Verifier) (scope header : String) (now wall : Time)
    (s : Option MemReplayStore) (c : Claims) : Type 0 where
  pub present : bearer_from_header header ≢ ""
  pub signed : v.verify (bearer_from_header header) ≡ some c
  pub addressed : has_audience v.broker (some c) ≡ true
  pub live : now ≤ c.expires
  pub scoped : (scope ≡ "") ⊎ (has_scope v.broker scope (some c) ≡ true)
  pub unused : IsUnused c wall s

check_replay-served :
    (scope : String) (wall : Time) (c d : Claims) (s : Option MemReplayStore)
    → (check_replay scope wall c s).served ≡ some d
    → (c ≡ d) × IsUnused c wall s
check_replay-served scope wall c d none h = (some-eq h, tt)
check_replay-served scope wall c d (some s) h = elim (Bool-cases (same_text c.jti "")) [
  | inl blank ↦ (ground arith, inl ((same_text_iff c.jti "").0 blank))
  | inr named ↦ elim (Bool-cases (seen c.jti c.expires wall s).1) [
    | inl old ↦ ground arith
    | inr fresh ↦ (ground arith, inr fresh)
  ]
]

check_replay-serves :
    (scope : String) (wall : Time) (c : Claims) (s : Option MemReplayStore)
    → IsUnused c wall s
    → (check_replay scope wall c s).served ≡ some c
check_replay-serves scope wall c none h = refl
check_replay-serves scope wall c (some s) h = ground (arith, same_text_iff c.jti "")

require-Admits :
    (v : Verifier) (scope header : String) (now wall : Time) (s : Option MemReplayStore)
    (c : Claims)
    → (require v scope header now wall s).served ≡ some c
    → Admits v scope header now wall s c
unfolding require
require-Admits v scope header now wall s c h =
    elim (Option-cases (v.verify (bearer_from_header header))) [
      | inl e ↦ ground arith
      | inr (d, e) ↦
          let (same, unused) = check_replay-served scope wall d c s (ground arith) in
          record {
            present = ground (arith, same_text_iff (bearer_from_header header) "");
            signed = e ∙ ap some same;
            addressed = subst (λ x. has_audience v.broker (some x) ≡ true) same (ground arith);
            live = subst (λ (x : Claims). now ≤ x.expires) same (ground arith);
            scoped =
                subst (λ x. (scope ≡ "") ⊎ (has_scope v.broker scope (some x) ≡ true)) same
                  (ground (arith, same_text_iff scope ""));
            unused = subst (λ x. IsUnused x wall s) same unused;
          }
    ]

Admits-require :
    (v : Verifier) (scope header : String) (now wall : Time) (s : Option MemReplayStore)
    (c : Claims)
    → Admits v scope header now wall s c
    → (require v scope header now wall s).served ≡ some c
unfolding require
Admits-require v scope header now wall s c a = ground (
  arith,
  same_text_iff (bearer_from_header header) "",
  same_text_iff scope "",
  check_replay-serves scope wall c s a.unused,
)

-- The handler runs under given claims exactly if the bearer is present, verifies to those claims,
-- is addressed to the broker, has not expired, carries the route's scope, and is no replay.
pub require-served :
    (v : Verifier) (scope header : String) (now wall : Time) (s : Option MemReplayStore)
    (c : Claims)
    → ((require v scope header now wall s).served ≡ some c) ↔ Admits v scope header now wall s c
require-served v scope header now wall s c =
    (require-Admits v scope header now wall s c, Admits-require v scope header now wall s c)

abbrev pub is_denial_of : String → AuditEvent → Bool
is_denial_of scope (denied why s) = s == scope
is_denial_of scope (allowed s c) = false

-- Every call leaves one audit event about its scope: `allowed`, with the claims under which the
-- handler runs, if it runs, and a denial if it does not.
pub require-event :
    (v : Verifier) (scope header : String) (now wall : Time) (s : Option MemReplayStore)
    → ((c : Claims)
        → (require v scope header now wall s).served ≡ some c
        → (require v scope header now wall s).event ≡ allowed scope c)
      × ((require v scope header now wall s).served ≡ none
          → is_denial_of scope (require v scope header now wall s).event ≡ true)
unfolding require
require-event v scope header now wall s = (
  λ c h. ground (arith, same_text_iff scope scope),
  λ h. ground (arith, same_text_iff scope scope),
)

abbrev pub Keeps : String → Time → Option MemReplayStore → Type 0
Keeps jti expires none = ⊥
Keeps jti expires (some s) = Holds jti expires s

check_replay-Keeps :
    (scope : String) (wall : Time) (c : Claims) (s : MemReplayStore) (jti : String) (expires : Time)
    → wall ≤ expires
    → Holds jti expires s
    → Keeps jti expires (check_replay scope wall c (some s)).replays
check_replay-Keeps scope wall c s jti expires live h = elim (Bool-cases (same_text c.jti "")) [
  | inl blank ↦ rw blank h
  | inr named ↦ elim (Bool-cases (seen c.jti c.expires wall s).1) [
    | inl old ↦ rw (named, old) (seen-Holds jti expires c.jti c.expires wall s live h)
    | inr fresh ↦ rw (named, fresh) (seen-Holds jti expires c.jti c.expires wall s live h)
  ]
]

-- The store after a call is the one before it, or the one after the replay check.
require-replays :
    (v : Verifier) (scope header : String) (now wall : Time) (s : Option MemReplayStore)
    → ((require v scope header now wall s).replays ≡ s)
      ⊎ ((c : Claims) × ((require v scope header now wall s).replays
            ≡ (check_replay scope wall c s).replays))
unfolding require
require-replays v scope header now wall s =
    elim (Option-cases (v.verify (bearer_from_header header))) [
      | inl e ↦ inl (ground arith)
      | inr (c, e) ↦ elim (Bool-cases (same_text (bearer_from_header header) "")) [
        | inl blank ↦ inl (ground arith)
        | inr present ↦ elim (Bool-cases (has_audience v.broker (some c))) [
          | inr other ↦ inl (ground arith)
          | inl addressed ↦ elim (Bool-cases (before c.expires now)) [
            | inl late ↦ inl (ground arith)
            | inr live ↦
                elim (Bool-cases (not (scope == "") && not (has_scope v.broker scope (some c)))) [
                  | inl unscoped ↦ inl (ground arith)
                  | inr scoped ↦ inr (c, ground arith)
                ]
          ]
        ]
      ]
    ]

require-Keeps :
    (v : Verifier) (r : Request) (s : Option MemReplayStore) (jti : String) (expires : Time)
    → r.wall ≤ expires
    → Keeps jti expires s
    → Keeps jti expires (require v r.scope r.header r.now r.wall s).replays
require-Keeps v r none jti expires live h = absurd h
require-Keeps v r (some s) jti expires live h =
    elim (require-replays v r.scope r.header r.now r.wall (some s)) [
      | inl e ↦ subst (Keeps jti expires) (sym e) h
      | inr (c, e) ↦
          subst (Keeps jti expires) (sym e)
            (check_replay-Keeps r.scope r.wall c s jti expires live h)
    ]

pub require_all-Keeps :
    (v : Verifier) (rs : List Request) (s : Option MemReplayStore) (jti : String) (expires : Time)
    → All (λ r. r.wall ≤ expires) rs
    → Keeps jti expires s
    → Keeps jti expires (require_all v rs s)
unfolding require_all
require_all-Keeps v [] s jti expires live h = h
require_all-Keeps v (r ∷ rs) s jti expires live h =
    require_all-Keeps v rs _ jti expires live.1 (require-Keeps v r s jti expires live.0 h)
