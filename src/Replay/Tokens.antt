-- ===== src/Replay/Tokens.antt =====
-- The token replay store of the brokers (pkg/brokerauth/memreplay.go). `now` is the reading of
-- `time.Now`.
use zakros.Base.{
  ℕ, ◌≤◌, string_equality, String, [], none, some, Bool, true, false, ◌≡◌, sym, arith, ◌==◌,
  same_text_iff, subst, length,
}
use zakros.Base.Maps.{
  Map, IsMap, lookup, insert, purge, lookup-insert, lookup-purge, insert-IsMap, purge-IsMap,
}
use zakros.Base.Clock.{Time, before}

pub record MemReplayStore : Type 0 where
  pub entries : Map String Time

unfoldable new_mem_replay_store : MemReplayStore
new_mem_replay_store = record { entries = [] }

abbrev is_past : Time → Time → Bool
is_past now expires = before expires now

unfoldable pub seen : String → Time → Time → MemReplayStore → MemReplayStore × Bool
seen jti expires now s =
    let kept = purge (is_past now) s.entries in
    elim (lookup jti kept) [
      | some _ ↦ (record { entries = kept }, true)
      | none ↦ (record { entries = insert jti expires kept }, false)
    ]

unfoldable pub size : MemReplayStore → ℕ
size s = length s.entries

-- The store has the token until the instant `expires`.
pub record Holds (jti : String) (expires : Time) (s : MemReplayStore) : Type 0 where
  pub is_map : IsMap s.entries
  pub entry : lookup jti s.entries ≡ some expires

seen-IsMap :
    (jti : String) (expires now : Time) (s : MemReplayStore)
    → IsMap s.entries
    → IsMap (seen jti expires now s).0.entries
unfolding seen
seen-IsMap jti expires now s d = ground (
  arith,
  purge-IsMap (is_past now) s.entries d,
  insert-IsMap jti expires (purge (is_past now) s.entries),
)

pub seen-Holds :
    (jti : String) (expires : Time) (k : String) (e now : Time) (s : MemReplayStore)
    → now ≤ expires
    → Holds jti expires s
    → Holds jti expires (seen k e now s).0
unfolding seen
seen-Holds jti expires k e now s live h = record {
  is_map = seen-IsMap k e now s h.is_map;
  entry = ground (arith, lookup-insert k jti e (purge (is_past now) s.entries), kept, same);
}
  where
    kept : lookup jti (purge (is_past now) s.entries) ≡ some expires
    kept = rw (lookup-purge (is_past now) jti s.entries h.is_map, h.entry) (ground arith)

    same : (k == jti) ≡ true → lookup k (purge (is_past now) s.entries) ≡ some expires
    same p =
        subst (λ j. lookup j (purge (is_past now) s.entries) ≡ some expires)
          (sym ((same_text_iff k jti).0 p)) kept

pub seen-first :
    (jti : String) (expires now : Time) (s : MemReplayStore)
    → IsMap s.entries
    → (seen jti expires now s).1 ≡ false
    → Holds jti expires (seen jti expires now s).0
unfolding seen
seen-first jti expires now s d f = record {
  is_map = seen-IsMap jti expires now s d;
  entry =
      ground (
        arith,
        lookup-insert jti jti expires (purge (is_past now) s.entries),
        same_text_iff jti jti,
      );
}

pub Holds-seen :
    (jti : String) (expires e now : Time) (s : MemReplayStore)
    → now ≤ expires
    → Holds jti expires s
    → (seen jti e now s).1 ≡ true
unfolding seen
Holds-seen jti expires e now s live h =
    ground (arith, lookup-purge (is_past now) jti s.entries h.is_map, h.entry)
