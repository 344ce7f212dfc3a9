-- ===== src/Cache/Index.antt =====
-- The index of lruTracker in pkg/worker/cache.go agrees with its slice, and the pair is a map from key
-- to entry.
use rffmpeg.Base.{
  ℕ, ◌-◌, ◌<◌, String, true, false, ◌≡◌, refl, sym, ap, subst, ◌∙◌, Option, none, some, List, ◌==◌,
  arith, ◌⊎◌, length, take, ltb, eqb, if◌then◌else◌, Bool-cases, Option-cases, inl, inr, eq_iff,
}
use rffmpeg.Cache.{Entry, Tracker, slot, set_slot, assign, remove, removed, entry_at, entry_of}
use rffmpeg.Cache.Slots.{slot-set_slot, slot-take, slot-out, slot-in}

-- A key's position holds an entry of that key.
abbrev pub IsPlaced : List Entry → String → Option ℕ → Type 0
IsPlaced es k none = Unit
IsPlaced es k (some i) = (e : Entry) × ((slot i es ≡ some e) × (e.key ≡ k))

-- An entry's key has the position of the entry.
abbrev pub IsKeyedAt : (String → Option ℕ) → ℕ → Option Entry → Type 0
IsKeyedAt m i none = Unit
IsKeyedAt m i (some e) = m e.key ≡ some i

pub record IsIndexed (t : Tracker) : Type 0 where
  pub placed : (k : String) → IsPlaced t.entries k (t.key_index k)
  pub keyed : (i : ℕ) → IsKeyedAt t.key_index i (slot i t.entries)

module _ (t : Tracker) (h : IsIndexed t) where
  pub at_key :
      (k : String) (i : ℕ)
      → t.key_index k ≡ some i
      → (e : Entry) × ((slot i t.entries ≡ some e) × (e.key ≡ k))
  at_key k i q = subst (IsPlaced t.entries k) q (h.placed k)

  pub of_slot : (i : ℕ) (e : Entry) → slot i t.entries ≡ some e → t.key_index e.key ≡ some i
  of_slot i e q = subst (IsKeyedAt t.key_index i) q (h.keyed i)

pub slot-lt : (i : ℕ) (es : List Entry) (e : Entry) → slot i es ≡ some e → i < length es
slot-lt i es e q = elim (Bool-cases (ltb i (length es))) [
  | inl b ↦ ground (arith, b)
  | inr b ↦ ground (arith, q, slot-out i es (ground (arith, b)))
]

pub some_inj : (a b : Entry) → ◌≡◌ {A = Option Entry} (some a) (some b) → a ≡ b
some_inj a b q = ap (λ (o : Option Entry). or_first o) q
  where
    or_first : Option Entry → Entry
    or_first none = a
    or_first (some e) = e

module _ (t : Tracker) (h : IsIndexed t) where
  -- Two keys have two positions.
  pub apart :
      (k k' : String) (i j : ℕ)
      → t.key_index k ≡ some i
      → t.key_index k' ≡ some j
      → (k == k') ≡ false
      → eqb j i ≡ false
  apart k k' i j q q' ne =
      let (e, (s, r)) = at_key t h k i q in
      let (e', (s', r')) = at_key t h k' j q' in
      elim (Bool-cases (eqb j i)) [
        | inl b ↦ ground (
          arith,
          ne,
          (eq_iff k k').1 (
              sym r
              ∙ ap (λ e. e.key)
                  (some_inj e e' (sym s ∙ ap (λ n. slot n t.entries) (same i j b) ∙ s'))
              ∙ r'),
        )
        | inr b ↦ b
      ]
    where
      same : (i j : ℕ) → eqb j i ≡ true → i ≡ j
      same i j b = ground (arith, b)

  -- Removing the key at the last position.
  remove_last :
      (key x : String) (i : ℕ)
      → t.key_index key ≡ some i
      → eqb i (length t.entries - 1) ≡ true
      → (x == key) ≡ false
      → entry_at (record t { entries = take (length t.entries - 1) t.entries }) (t.key_index x)
        ≡ entry_at t (t.key_index x)
  remove_last key x i q b ne = elim (Option-cases (t.key_index x)) [
    | inl c ↦ rw c refl
    | inr (j, c) ↦
        let (e, (s, r)) = at_key t h x j c in
        rw (c, slot-take) (ground (arith, slot-lt j t.entries e s, apart x key j i c q ne, b))
  ]

  pub last_slot :
      (key : String) (i : ℕ)
      → t.key_index key ≡ some i
      → (l : Entry) × (slot (length t.entries - 1) t.entries ≡ some l)
  last_slot key i q = elim (Option-cases (slot (length t.entries - 1) t.entries)) [
    | inl c ↦
        let (e, (s, r)) = at_key t h key i q in
        absurd
          (slot-in (length t.entries - 1) t.entries (ground (arith, slot-lt i t.entries e s)) c)
    | inr p ↦ p
  ]

  -- Removing another one: the last entry moves.
  remove_moved :
      (key x : String) (i : ℕ) (l : Entry)
      → t.key_index key ≡ some i
      → slot (length t.entries - 1) t.entries ≡ some l
      → eqb i (length t.entries - 1) ≡ false
      → (x == key) ≡ false
      → entry_at
          (record t { entries = take (length t.entries - 1) (set_slot i l t.entries) })
          (assign l.key (some i) t.key_index x)
        ≡ entry_at t (t.key_index x)
  unfolding assign
  remove_moved key x i l q sl b ne = elim (Bool-cases (x == l.key)) [
    | inl c ↦
        let (e, (s, r)) = at_key t h key i q in
        rw (c, ap t.key_index ((eq_iff x l.key).0 c) ∙ of_slot t h _ l sl, slot-take, slot-set_slot)
          (ground (arith, slot-lt i t.entries e s, b, sl))
    | inr c ↦ rw c (kept c)
  ]
    where
      kept :
          (x == l.key) ≡ false
          → entry_at
              (record t { entries = take (length t.entries - 1) (set_slot i l t.entries) })
              (t.key_index x)
            ≡ entry_at t (t.key_index x)
      kept d = elim (Option-cases (t.key_index x)) [
        | inl c ↦ rw c refl
        | inr (j, c) ↦
            let (e, (s, r)) = at_key t h x j c in
            rw (c, slot-take, slot-set_slot)
              (ground (
                arith,
                slot-lt j t.entries e s,
                apart x key j i c q ne,
                apart x l.key j (length t.entries - 1) c (of_slot t h _ l sl) d,
                b,
              ))
      ]

  -- Removing a key takes its entry away and leaves the entry of every other key, where the index
  -- agrees with the slice.
  pub entry-remove :
      (key x : String) → entry_of x (remove key t) ≡ (if x == key then none else entry_of x t)
  unfolding entry_of remove assign
  entry-remove key x = elim (Option-cases (t.key_index key)) [
    | inl c ↦ rw c (absent c (Bool-cases (x == key)))
    | inr (i, q) ↦ rw q (present i q (Bool-cases (x == key)))
  ]
    where
      absent :
          t.key_index key ≡ none
          → ((x == key) ≡ true) ⊎ ((x == key) ≡ false)
          → entry_at t (t.key_index x) ≡ (if x == key then none else entry_at t (t.key_index x))
      absent c (inl e) = rw (e, ap t.key_index ((eq_iff x key).0 e) ∙ c) refl
      absent c (inr e) = rw e refl

      present :
          (i : ℕ)
          → t.key_index key ≡ some i
          → ((x == key) ≡ true) ⊎ ((x == key) ≡ false)
          → entry_at (removed key t (some i)) ((removed key t (some i)).key_index x)
            ≡ (if x == key then none else entry_at t (t.key_index x))
      present i q (inl e) = rw e refl
      present i q (inr e) = elim (Bool-cases (eqb i (length t.entries - 1))) [
        | inl b ↦ rw (e, b) (remove_last key x i q b e)
        | inr b ↦ let (l, sl) = last_slot key i q in rw (e, b, sl) (remove_moved key x i l q sl b e)
      ]
