-- ===== src/Cache/Removal.antt =====
-- lruTracker.remove of pkg/worker/cache.go keeps the index in agreement with the slice.
use rffmpeg.Base.{
  ℕ, ◌-◌, ◌<◌, String, true, false, ◌≡◌, sym, ap, subst, ◌∙◌, Option, none, some, List, ◌==◌, arith,
  length, take, ltb, eqb, Bool-cases, Option-cases, inl, inr, eq_iff, eq_refl,
}
use rffmpeg.Cache.{Entry, Tracker, slot, set_slot, assign, remove}
use rffmpeg.Cache.Slots.{slot-set_slot, slot-take}
use rffmpeg.Cache.Index.{IsIndexed, at_key, of_slot, slot-lt, apart, last_slot}
use rffmpeg.Cache.Upkeep.{indexed}
use rffmpeg.Cache.Agreement.{same_value, same_place}

-- The slot before the end of a truncated slice.
taken :
    (j n : ℕ) (es : List Entry) (e : Entry)
    → slot j (take n es) ≡ some e
    → (ltb j n ≡ true) × (slot j es ≡ some e)
taken j n es e s = elim (Bool-cases (ltb j n)) [
  | inl b ↦ (b, ground (arith, slot-take j n es, s, b))
  | inr b ↦ ground (arith, slot-take j n es, s, b)
]

module _ (t : Tracker) (h : IsIndexed t) (key : String) (i : ℕ) (q : t.key_index key ≡ some i) where
  -- An entry at another position has another key.
  other_key :
      (j : ℕ) (e : Entry) → slot j t.entries ≡ some e → eqb j i ≡ false → (e.key == key) ≡ false
  other_key j e s ne = elim (Bool-cases (e.key == key)) [
    | inl b ↦
        ground (arith, ne, sym (of_slot t h j e s) ∙ ap t.key_index ((eq_iff e.key key).0 b) ∙ q)
    | inr b ↦ b
  ]

  remove_last-IsIndexed :
      eqb i (length t.entries - 1) ≡ true
      → IsIndexed (record {
        entries = take (length t.entries - 1) t.entries;
        key_index = assign key none t.key_index;
      })
  unfolding assign
  remove_last-IsIndexed b = indexed _ place own
    where
      place :
          (k : String) (j : ℕ)
          → assign key none t.key_index k ≡ some j
          → (e : Entry) × ((slot j (take (length t.entries - 1) t.entries) ≡ some e) × (e.key ≡ k))
      place k j c = elim (Bool-cases (k == key)) [
        | inl e ↦ ground (arith, e, c)
        | inr e ↦
            let c' : t.key_index k ≡ some j = ground (arith, e, c) in
            let (a, (s, r)) = at_key t h k j c' in
            (
              a,
              (
                rw slot-take
                    (ground (arith, slot-lt j t.entries a s, apart t h k key j i c' q e, b, s)),
                r,
              ),
            )
      ]

      own :
          (j : ℕ) (e : Entry)
          → slot j (take (length t.entries - 1) t.entries) ≡ some e
          → assign key none t.key_index e.key ≡ some j
      own j e s =
          let (l, s') = taken j (length t.entries - 1) t.entries e s in
          rw (other_key j e s' (ground (arith, l, b))) (of_slot t h j e s')

  module _ (l : Entry) (sl : slot (length t.entries - 1) t.entries ≡ some l)
      (b : eqb i (length t.entries - 1) ≡ false) where
    moved_index : String → Option ℕ
    unfolding assign
    moved_index = assign key none (assign l.key (some i) t.key_index)

    i_lt : i < length t.entries - 1
    i_lt = let (a, (s, r)) = at_key t h key i q in ground (arith, slot-lt i t.entries a s, b)

    l_other : (l.key == key) ≡ false
    l_other = other_key (length t.entries - 1) l sl (ground (arith, b))

    moved_place :
        (k : String) (j : ℕ)
        → moved_index k ≡ some j
        → (e : Entry) × ((slot j (take (length t.entries - 1) (set_slot i l t.entries)) ≡ some e)
            × (e.key ≡ k))
    unfolding assign moved_index
    moved_place k j c = elim (Bool-cases (k == key)) [
      | inl e ↦ ground (arith, e, c)
      | inr e ↦ (elim (Bool-cases (k == l.key)) [
        | inl d ↦ (
          l,
          (
            rw (slot-take, slot-set_slot) (ground (arith, e, d, c, i_lt)),
            sym ((eq_iff k l.key).0 d),
          ),
        )
        | inr d ↦
            let c' : t.key_index k ≡ some j = ground (arith, e, d, c) in
            let (a, (s, r)) = at_key t h k j c' in
            (
              a,
              (
                rw (slot-take, slot-set_slot)
                    (ground (
                      arith,
                      slot-lt j t.entries a s,
                      apart t h k key j i c' q e,
                      apart t h k l.key j (length t.entries - 1) c' (of_slot t h _ l sl) d,
                      s,
                    )),
                r,
              ),
            )
      ])
    ]

    moved_own :
        (j : ℕ) (e : Entry)
        → slot j (take (length t.entries - 1) (set_slot i l t.entries)) ≡ some e
        → moved_index e.key ≡ some j
    unfolding assign moved_index
    moved_own j e s =
        let (b', s') = taken j (length t.entries - 1) (set_slot i l t.entries) e s in
        elim (Bool-cases (eqb j i)) [
          | inl d ↦
              subst (λ (x : Entry). moved_index x.key ≡ some j)
                (same_value _ l e (slot-set_slot j i l t.entries ∙ ground (arith, d, i_lt)) s')
                (rw (l_other, eq_refl l.key) (ap some (same_place i j d)))
          | inr d ↦
              let s'' : slot j t.entries ≡ some e =
                sym (slot-set_slot j i l t.entries ∙ ground (arith, d)) ∙ s' in
              rw (other_key j e s'' d, not_last j e s'' b') (of_slot t h j e s'')
        ]
      where
        not_last :
            (j : ℕ) (e : Entry)
            → slot j t.entries ≡ some e
            → ltb j (length t.entries - 1) ≡ true
            → (e.key == l.key) ≡ false
        not_last j e s lt = elim (Bool-cases (e.key == l.key)) [
          | inl d ↦ ground (
            arith,
            lt,
            sym (of_slot t h j e s)
                ∙ ap t.key_index ((eq_iff e.key l.key).0 d)
                ∙ of_slot t h _ l sl,
          )
          | inr d ↦ d
        ]

    remove_moved-IsIndexed : IsIndexed (record {
      entries = take (length t.entries - 1) (set_slot i l t.entries);
      key_index = assign key none (assign l.key (some i) t.key_index);
    })
    unfolding moved_index
    remove_moved-IsIndexed = indexed _ moved_place moved_own

module _ (t : Tracker) (h : IsIndexed t) where
  -- Removing a key keeps the index in agreement with the slice: every key of the index has an entry of
  -- that key at its position, and every entry's key has the entry's position.
  pub remove-IsIndexed : (key : String) → IsIndexed (remove key t)
  unfolding remove
  remove-IsIndexed key = elim (Option-cases (t.key_index key)) [
    | inl c ↦ rw c h
    | inr (i, q) ↦ (elim (Bool-cases (eqb i (length t.entries - 1))) [
      | inl b ↦ rw (q, b) (remove_last-IsIndexed t h key i q b)
      | inr b ↦
          let (l, sl) = last_slot t h key i q in
          rw (q, b, sl) (remove_moved-IsIndexed t h key i q l sl b)
    ])
  ]
