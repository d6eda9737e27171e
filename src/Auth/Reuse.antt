-- ===== src/Auth/Reuse.antt =====
-- A token that carries an identifier serves one call (pkg/brokerauth/brokerauth.go and
-- memreplay.go).
use zakros.Base.{
  ◌≤◌, string_equality, List, Option, none, some, ◌≡◌, ◌≢◌, ◌∙◌, inl, inr, arith, same_text_iff,
  All, subst, false, sym,
}
use zakros.Base.Maps.{IsMap}
use zakros.Replay.Tokens.{MemReplayStore, seen, seen-first, Holds-seen}
use zakros.Auth.{Claims, Verifier, Request, bearer_from_header, require, require_all}
use zakros.Auth.Admission.{Admits, IsUnused, Keeps, require-served, require_all-Keeps}

recorded :
    (v : Verifier) (r : Request) (s : MemReplayStore) (c : Claims)
    → c.jti ≢ ""
    → Admits v r.scope r.header r.now r.wall (some s) c
    → (require v r.scope r.header r.now r.wall (some s)).replays
      ≡ some (seen c.jti c.expires r.wall s).0
unfolding require
recorded v r s c named a = ground (
  arith,
  same_text_iff (bearer_from_header r.header) "",
  same_text_iff r.scope "",
  same_text_iff c.jti "",
)

first-Keeps :
    (v : Verifier) (r : Request) (s : MemReplayStore) (c : Claims)
    → IsMap s.entries
    → c.jti ≢ ""
    → Admits v r.scope r.header r.now r.wall (some s) c
    → Keeps c.jti c.expires (require v r.scope r.header r.now r.wall (some s)).replays
first-Keeps v r s c d named a = elim a.unused [
  | inl blank ↦ absurd (named blank)
  | inr fresh ↦
      subst (Keeps c.jti c.expires) (sym (recorded v r s c named a))
        (seen-first c.jti c.expires r.wall s d fresh)
]

-- Once a token with an identifier has served a call, no call with a token of that identifier is
-- served until the first one's expiry, whatever other calls come in between.
pub second_use_refused :
    (v : Verifier) (first again : Request) (between : List Request) (s : MemReplayStore)
    (c : Claims)
    → IsMap s.entries
    → c.jti ≢ ""
    → (require v first.scope first.header first.now first.wall (some s)).served ≡ some c
    → All (λ r. r.wall ≤ c.expires) between
    → again.wall ≤ c.expires
    → (d : Claims) → d.jti ≡ c.jti
    → (require v again.scope again.header again.now again.wall (
        require_all v between
          (require v first.scope first.header first.now first.wall (some s)).replays)).served
      ≢ some d
second_use_refused v first again between s c m named served live late d same again_served =
    conflict (require_all v between _) kept
      ((require-served v again.scope again.header again.now again.wall _ d).0 again_served).unused
  where
    kept : Keeps c.jti c.expires (
        require_all v between
          (require v first.scope first.header first.now first.wall (some s)).replays)
    kept = require_all-Keeps v between _ c.jti c.expires live (
        first-Keeps v first s c m named
          ((require-served v first.scope first.header first.now first.wall (some s) c).0 served))

    conflict : (t : Option MemReplayStore) → Keeps c.jti c.expires t → IsUnused d again.wall t → ⊥
    conflict none h u = h
    conflict (some t) h (inl blank) = named (sym same ∙ blank)
    conflict (some t) h (inr fresh) = ground (
      arith,
      subst (λ j. (seen j d.expires again.wall t).1 ≡ false) same fresh,
      Holds-seen c.jti c.expires d.expires again.wall t late h,
    )
