-- ===== src/Cache/Agreement.antt =====
-- lruTracker.add and lruTracker.remove of pkg/worker/cache.go keep the index in agreement with the slice.
use rffmpeg.Base.{
  ℕ, String, true, ◌≡◌, refl, sym, ap, subst, ◌∙◌, Option, none, some, [], ◌∷◌, ◌++◌, ◌==◌, arith,
  length, eqb, Bool-cases, Option-cases, inl, inr, eq_iff, eq_refl,
}
use rffmpeg.Cache.{Entry, Tracker, slot, set_slot, assign, touch, add, added}
use rffmpeg.Cache.Slots.{slot-set_slot, slot-append}
use rffmpeg.Cache.Index.{IsIndexed, at_key, of_slot, slot-lt, some_inj}
use rffmpeg.Cache.Upkeep.{indexed, fresh_entry}

pub same_value : (o : Option Entry) (a b : Entry) → o ≡ some a → o ≡ some b → a ≡ b
same_value o a b p q = some_inj a b (sym p ∙ q)

pub same_place : (i j : ℕ) → eqb j i ≡ true → i ≡ j
same_place i j b = ground (arith, b)

module _ (now : ℕ) (key : String) (size : ℕ) (t : Tracker) (h : IsIndexed t) where
  append-IsIndexed : t.key_index key ≡ none → IsIndexed (added now key size t none)
  unfolding assign
  append-IsIndexed c = indexed _ place own
    where
      place :
          (k : String) (i : ℕ)
          → assign key (some (length t.entries)) t.key_index k ≡ some i
          → (e : Entry) × ((slot i (t.entries ++ fresh_entry now key size ∷ []) ≡ some e)
              × (e.key ≡ k))
      place k i q = elim (Bool-cases (k == key)) [
        | inl e ↦ (
          fresh_entry now key size,
          (rw slot-append (ground (arith, e, q)), sym ((eq_iff k key).0 e)),
        )
        | inr e ↦
            let (a, (s, r)) = at_key t h k i (ground (arith, e, q)) in
            (a, (rw slot-append (ground (arith, slot-lt i t.entries a s, s)), r))
      ]

      old :
          (i : ℕ) (e : Entry)
          → t.key_index e.key ≡ some i
          → assign key (some (length t.entries)) t.key_index e.key ≡ some i
      old i e o = elim (Bool-cases (e.key == key)) [
        | inl b ↦ ground (arith, c, sym (ap t.key_index ((eq_iff e.key key).0 b)) ∙ o)
        | inr b ↦ rw b o
      ]

      own :
          (i : ℕ) (e : Entry)
          → slot i (t.entries ++ fresh_entry now key size ∷ []) ≡ some e
          → assign key (some (length t.entries)) t.key_index e.key ≡ some i
      own i e s = elim (Bool-cases (eqb i (length t.entries))) [
        | inl b ↦
            subst (λ (x : Entry). assign key (some (length t.entries)) t.key_index x.key ≡ some i)
              (same_value _ (fresh_entry now key size) e
                (slot-append i _ t.entries ∙ ground (arith, b)) s)
              (rw (eq_refl key) (ap some (same_place (length t.entries) i b)))
        | inr b ↦
            old i e (of_slot t h i e (sym (slot-append i _ t.entries ∙ ground (arith, b)) ∙ s))
      ]

  rewrite-IsIndexed :
      (i : ℕ) (a x : Entry)
      → x.key ≡ a.key
      → t.key_index key ≡ some i
      → slot i t.entries ≡ some a
      → IsIndexed (record t { entries = set_slot i x t.entries })
  rewrite-IsIndexed i a x w q s = indexed _ place own
    where
      place :
          (k : String) (j : ℕ)
          → t.key_index k ≡ some j
          → (e : Entry) × ((slot j (set_slot i x t.entries) ≡ some e) × (e.key ≡ k))
      place k j c =
          let (b, (s', r)) = at_key t h k j c in
          elim (Bool-cases (eqb j i)) [
            | inl e ↦ (
              x,
              (
                rw slot-set_slot (ground (arith, e, slot-lt i t.entries a s)),
                w
                    ∙ ap (λ (y : Entry). y.key)
                        (same_value (slot j t.entries) a b
                          (sym (ap (λ n. slot n t.entries) (same_place i j e)) ∙ s) s')
                    ∙ r,
              ),
            )
            | inr e ↦ (b, (rw slot-set_slot (ground (arith, e, s')), r))
          ]

      own :
          (j : ℕ) (e : Entry)
          → slot j (set_slot i x t.entries) ≡ some e
          → t.key_index e.key ≡ some j
      own j e s' = elim (Bool-cases (eqb j i)) [
        | inl b ↦
            subst (λ (y : Entry). t.key_index y.key ≡ some j)
              (same_value _ x e
                (slot-set_slot j i _ t.entries ∙ ground (arith, b, slot-lt i t.entries a s)) s')
              (ap t.key_index w ∙ of_slot t h i a s ∙ ap some (same_place i j b))
        | inr b ↦ of_slot t h j e (sym (slot-set_slot j i _ t.entries ∙ ground (arith, b)) ∙ s')
      ]

  pub add-IsIndexed : IsIndexed (add now key size t)
  unfolding add
  add-IsIndexed = elim (Option-cases (t.key_index key)) [
    | inl c ↦ rw c (append-IsIndexed c)
    | inr (i, q) ↦
        let (a, (s, r)) = at_key t h key i q in
        rw (q, s) (rewrite-IsIndexed i a (record a { last_used = now; size = size }) refl q s)
  ]

  pub touch-IsIndexed : IsIndexed (touch now key t)
  unfolding touch
  touch-IsIndexed = elim (Option-cases (t.key_index key)) [
    | inl c ↦ rw c h
    | inr (i, q) ↦
        let (a, (s, r)) = at_key t h key i q in
        rw (q, s) (rewrite-IsIndexed i a (record a { last_used = now }) refl q s)
  ]
