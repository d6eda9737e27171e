-- ===== src/Replay/Deliveries.antt =====
-- The webhook replay store (cerberus/core/replay/replay.go, MemStore).
use zakros.Base.{
  ◌+◌, ◌-◌, ◌≤◌, string_equality, String, List, [], ◌∷◌, none, some, Bool, true, false, ◌≡◌, ◌↔◌,
  sym, ◌∙◌, ◌⊎◌, inl, inr, arith, if◌then◌else◌, ◌==◌, same_text_iff, All, Option-cases, Bool-cases,
  subst,
}
use zakros.Base.Maps.{
  Map, IsMap, lookup, insert, purge, lookup-insert, lookup-purge, insert-IsMap, purge-IsMap,
}
use zakros.Base.Int.{pos, pos_part, leb_ℤ}
use zakros.Base.Clock.{Time, Duration, before}

pub record MemStore : Type 0 where
  pub entries : Map String Time
  pub window : Duration

unfoldable new_mem_store : Duration → MemStore
new_mem_store window = record { entries = []; window = window }

-- Entries before now.Add(-window) are stale; a window that is not positive collects nothing. An
-- instant before the zero time, which no entry precedes, stands as 0.
abbrev is_stale : Duration → Time → Time → Bool
is_stale window now t = before t (now - pos_part window)

unfoldable gc : Time → MemStore → MemStore
gc now s =
    if leb_ℤ s.window (pos 0)
    then s
    else record s { entries = purge (is_stale s.window now) s.entries }

unfoldable pub seen : String → Time → MemStore → MemStore × Bool
unfolding gc
seen key at s =
    let t = gc at s in
    elim (lookup key t.entries) [
      | some _ ↦ (t, true)
      | none ↦ (record t { entries = insert key at t.entries }, false)
    ]

unfoldable pub seen_all : List (String × Time) → MemStore → MemStore
seen_all [] s = s
seen_all ((key, at) ∷ calls) s = seen_all calls (seen key at s).0

-- An entry made at `t` counts at `now`.
abbrev pub Remembered : Duration → Time → Time → Type 0
Remembered window t now = (leb_ℤ window (pos 0) ≡ true) ⊎ (now ≤ t + pos_part window)

gc-lookup :
    (key : String) (now t : Time) (s : MemStore)
    → IsMap s.entries
    → lookup key s.entries ≡ some t
    → Remembered s.window t now
    → lookup key (gc now s).entries ≡ some t
unfolding gc
gc-lookup key now t s d e (inl off) = rw off e
gc-lookup key now t s d e (inr recent) = elim (Bool-cases (leb_ℤ s.window (pos 0))) [
  | inl off ↦ rw off e
  | inr on ↦ rw (on, lookup-purge (is_stale s.window now) key s.entries d, e) (ground arith)
]

gc-IsMap : (now : Time) (s : MemStore) → IsMap s.entries → IsMap (gc now s).entries
unfolding gc
gc-IsMap now s d = ground (arith, purge-IsMap (is_stale s.window now) s.entries d)

gc-window : (now : Time) (s : MemStore) → (gc now s).window ≡ s.window
unfolding gc
gc-window now s = ground arith

-- What a call leaves of the store, with the key remembered since `t`.
pub record Holds (key : String) (t : Time) (window : Duration) (s : MemStore) : Type 0 where
  pub is_map : IsMap s.entries
  pub entry : lookup key s.entries ≡ some t
  same_window : s.window ≡ window

gc-Holds :
    (key : String) (t : Time) (window : Duration) (now : Time) (s : MemStore)
    → Remembered window t now
    → Holds key t window s
    → Holds key t window (gc now s)
gc-Holds key t window now s r h = record {
  is_map = gc-IsMap now s h.is_map;
  entry =
      gc-lookup key now t s h.is_map h.entry
        (subst (λ w. Remembered w t now) (sym h.same_window) r);
  same_window = gc-window now s ∙ h.same_window;
}

pub seen-Holds :
    (key : String) (t : Time) (window : Duration) (k : String) (at : Time) (s : MemStore)
    → Remembered window t at
    → Holds key t window s
    → Holds key t window (seen k at s).0
unfolding seen
seen-Holds key t window k at s r h = elim (Option-cases (lookup k (gc at s).entries)) [
  | inl e ↦
      rw (e, seen)
        (record {
          is_map = insert-IsMap k at (gc at s).entries held.is_map;
          entry = ground (arith, lookup-insert k key at (gc at s).entries, held.entry, other e);
          same_window = held.same_window;
        })
  | inr (u, e) ↦ rw (e, seen) held
]
  where
    held : Holds key t window (gc at s)
    held = gc-Holds key t window at s r h

    other : lookup k (gc at s).entries ≡ none → (k == key) ≡ true → ⊥
    other e p = ground (
      arith,
      subst (λ j. lookup j (gc at s).entries ≡ none) ((same_text_iff k key).0 p) e,
      held.entry,
    )

pub seen-fresh :
    (key : String) (at : Time) (s : MemStore)
    → IsMap s.entries
    → (seen key at s).1 ≡ false
    → Holds key at s.window (seen key at s).0
unfolding seen
seen-fresh key at s d f = elim (Option-cases (lookup key (gc at s).entries)) [
  | inl e ↦
      rw (e, seen)
        (record {
          is_map = insert-IsMap key at (gc at s).entries (gc-IsMap at s d);
          entry = ground (arith, lookup-insert key key at (gc at s).entries, same_text_iff key key);
          same_window = gc-window at s;
        })
  | inr (u, e) ↦ ground arith
]

seen_all-Holds :
    (key : String) (t : Time) (window : Duration) (calls : List (String × Time)) (s : MemStore)
    → All (λ c. Remembered window t c.1) calls
    → Holds key t window s
    → Holds key t window (seen_all calls s)
unfolding seen_all
seen_all-Holds key t window [] s r h = h
seen_all-Holds key t window ((k, at) ∷ calls) s r h =
    seen_all-Holds key t window calls (seen k at s).0 r.1 (seen-Holds key t window k at s r.0 h)

pub Holds-seen :
    (key : String) (t : Time) (window : Duration) (at : Time) (s : MemStore)
    → Remembered window t at
    → Holds key t window s
    → (seen key at s).1 ≡ true
unfolding seen
Holds-seen key t window at s r h = ground (arith, (gc-Holds key t window at s r h).entry)

-- A delivery that was accepted is reported as a duplicate when it comes again within the window (at
-- any time, if the window is not positive), whatever other deliveries come in between.
pub seen-duplicate :
    (key : String) (t later : Time) (calls : List (String × Time)) (s : MemStore)
    → IsMap s.entries
    → (seen key t s).1 ≡ false
    → All (λ c. Remembered s.window t c.1) calls
    → Remembered s.window t later
    → (seen key later (seen_all calls (seen key t s).0)).1 ≡ true
seen-duplicate key t later calls s d f between r =
    Holds-seen key t s.window later (seen_all calls (seen key t s).0) r
      (seen_all-Holds key t s.window calls (seen key t s).0 between (seen-fresh key t s d f))

-- A delivery is reported as a duplicate exactly if the store has it from a time that still counts.
pub seen-exact :
    (key : String) (at : Time) (s : MemStore)
    → IsMap s.entries
    → ((seen key at s).1 ≡ true)
      ↔ ((t : Time) × (lookup key s.entries ≡ some t) × Remembered s.window t at)
unfolding seen gc
seen-exact key at s d = (to, from)
  where
    to :
        (seen key at s).1 ≡ true
        → (t : Time) × (lookup key s.entries ≡ some t) × Remembered s.window t at
    to h = elim (Bool-cases (leb_ℤ s.window (pos 0))) [
      | inl off ↦ elim (Option-cases (lookup key s.entries)) [
        | inl e ↦ ground arith
        | inr (t, e) ↦ (t, e, inl off)
      ]
      | inr on ↦ elim (Option-cases (lookup key s.entries)) [
        | inl e ↦ ground (arith, lookup-purge (is_stale s.window at) key s.entries d)
        | inr (t, e) ↦
            (t, e, inr (ground (arith, lookup-purge (is_stale s.window at) key s.entries d)))
      ]
    ]

    from :
        (t : Time) × (lookup key s.entries ≡ some t) × Remembered s.window t at
        → (seen key at s).1 ≡ true
    from (t, e, r) = ground (arith, gc-lookup key at t s d e r)
