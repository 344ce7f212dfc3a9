-- ===== src/Cache/Upkeep.antt =====
-- lruTracker.add and lruTracker.remove of pkg/worker/cache.go keep the index in agreement with the slice.
use rffmpeg.Base.{
  ℕ, String, false, ◌≡◌, refl, sym, ap, subst, ◌∙◌, none, some, ◌==◌, arith, length, if◌then◌else◌,
  Bool-cases, Option-cases, inl, inr, eq_iff,
}
use rffmpeg.Cache.{
  Entry, Tracker, new_lru_tracker, slot, set_slot, assign, add, added, entry_at, entry_of,
}
use rffmpeg.Cache.Slots.{slot-set_slot, slot-append}
use rffmpeg.Cache.Index.{IsIndexed, IsPlaced, IsKeyedAt, at_key, slot-lt, apart}

-- The agreement, from its two halves.
pub indexed :
    (t : Tracker)
    → ((k : String) (i : ℕ)
        → t.key_index k ≡ some i
        → (e : Entry) × ((slot i t.entries ≡ some e) × (e.key ≡ k)))
    → ((i : ℕ) (e : Entry) → slot i t.entries ≡ some e → t.key_index e.key ≡ some i)
    → IsIndexed t
indexed t p q = record {
  placed = λ k. elim (Option-cases (t.key_index k)) [
    | inl c ↦ subst (IsPlaced t.entries k) (sym c) tt
    | inr (i, c) ↦ subst (IsPlaced t.entries k) (sym c) (p k i c)
  ];
  keyed = λ i. elim (Option-cases (slot i t.entries)) [
    | inl c ↦ subst (IsKeyedAt t.key_index i) (sym c) tt
    | inr (e, c) ↦ subst (IsKeyedAt t.key_index i) (sym c) (q i e c)
  ];
}

pub new-IsIndexed : IsIndexed new_lru_tracker
unfolding new_lru_tracker slot
new-IsIndexed = record { placed = λ k. tt; keyed = λ i. tt }

abbrev pub fresh_entry : ℕ → String → ℕ → Entry
fresh_entry now key size = record { key = key; last_used = now; size = size }

module _ (now : ℕ) (key : String) (size : ℕ) (t : Tracker) (h : IsIndexed t) where
  -- A new key.
  append_entry :
      (x : String)
      → t.key_index key ≡ none
      → entry_at (added now key size t none) (assign key (some (length t.entries)) t.key_index x)
        ≡ (if x == key then some (fresh_entry now key size) else entry_at t (t.key_index x))
  unfolding assign
  append_entry x c = elim (Bool-cases (x == key)) [
    | inl e ↦ rw (e, slot-append) (ground arith)
    | inr e ↦ rw e (kept e)
  ]
    where
      kept :
          (x == key) ≡ false
          → entry_at (added now key size t none) (t.key_index x) ≡ entry_at t (t.key_index x)
      kept e = elim (Option-cases (t.key_index x)) [
        | inl q ↦ rw q refl
        | inr (j, q) ↦
            let (a, (s, r)) = at_key t h x j q in
            rw (q, slot-append) (ground (arith, slot-lt j t.entries a s))
      ]

  -- A known key.
  rewrite_entry :
      (x : String) (i : ℕ) (a : Entry)
      → t.key_index key ≡ some i
      → slot i t.entries ≡ some a
      → a.key ≡ key
      → entry_at
          (record t { entries = set_slot i (record a { last_used = now; size = size }) t.entries })
          (t.key_index x)
        ≡ (if x == key then some (fresh_entry now key size) else entry_at t (t.key_index x))
  rewrite_entry x i a q s r = elim (Bool-cases (x == key)) [
    | inl e ↦
        rw (e, ap t.key_index ((eq_iff x key).0 e) ∙ q, slot-set_slot, sym r)
          (ground (arith, slot-lt i t.entries a s))
    | inr e ↦ rw e (kept e)
  ]
    where
      kept :
          (x == key) ≡ false
          → entry_at
              (record t {
                entries = set_slot i (record a { last_used = now; size = size }) t.entries;
              })
              (t.key_index x)
            ≡ entry_at t (t.key_index x)
      kept e = elim (Option-cases (t.key_index x)) [
        | inl c ↦ rw c refl
        | inr (j, c) ↦ rw (c, slot-set_slot) (ground (arith, apart t h x key j i c q e))
      ]

  -- Adding a key gives it the new entry and leaves the entry of every other key, where the index agrees
  -- with the slice.
  pub entry-add :
      (x : String)
      → entry_of x (add now key size t)
        ≡ (if x == key then some (fresh_entry now key size) else entry_of x t)
  unfolding entry_of add
  entry-add x = elim (Option-cases (t.key_index key)) [
    | inl c ↦ rw c (append_entry x c)
    | inr (i, q) ↦ let (a, (s, r)) = at_key t h key i q in rw (q, s) (rewrite_entry x i a q s r)
  ]
