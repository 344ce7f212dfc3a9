-- ===== src/Rewrite/Replacing.antt =====
-- pkg/encoder/rewrite/videoencoder.go, ReplacePrimaryVideoEncoder: the loop writes two tokens.
use rffmpeg.Base.{
  ℕ, zero, suc, ◌+◌, ◌<◌, ◌≡◌, refl, sym, ap, ◌∙◌, String, true, false, Option, none, some, List,
  [], ◌∷◌, ◌++◌, ◌==◌, ◌<>◌, eqb, arith, Bool-cases, Option-cases, inl, inr, if◌then◌else◌,
}
use rffmpeg.Rewrite.{
  VideoEncoderFlag, HardwareCapabilities, selection, flag_index, replaced, rewritten_tokens,
  head_tokens,
}
use rffmpeg.Rewrite.Tokens.{
  selection-IsSelection, selection-bare, selection-alone, selection-IsValue, none≢some,
}
use rffmpeg.Rewrite.Lookup.{IsLookup, IsLookup-next, IsLookup-here, bare-separator, eqb_refl}

-- The list with the two tokens at a position replaced.
unfoldable pub put_tokens : ℕ → String → String → List String → List String
put_tokens zero t1 t2 [] = []
put_tokens zero t1 t2 (a ∷ []) = a ∷ []
put_tokens zero t1 t2 (a ∷ (b ∷ rest)) = t1 ∷ t2 ∷ rest
put_tokens (suc d) t1 t2 [] = []
put_tokens (suc d) t1 t2 (a ∷ rest) = a ∷ put_tokens d t1 t2 rest

unfoldable pub first_token : VideoEncoderFlag → String
first_token p = if p.generic then "-c:v" else "-" <> p.name

tokens-first :
    (p : VideoEncoderFlag) (enc : String) → rewritten_tokens p enc ≡ first_token p ∷ enc ∷ []
unfolding rewritten_tokens first_token
tokens-first p enc = elim (Bool-cases p.generic) [ inl h ↦ simp h refl | inr h ↦ simp h refl ]

module _ (caps : Option HardwareCapabilities) (p : VideoEncoderFlag) where
  -- The flag is selected at this distance, and no separator stands before it.
  unfoldable pub IsChosen : ℕ → ℕ → List String → Type 0
  IsChosen i d [] = ⊥
  IsChosen i zero (arg ∷ rest) = ((arg == "--") ≡ false) × (selection caps i arg rest ≡ some p)
  IsChosen i (suc d) (arg ∷ rest) = ((arg == "--") ≡ false) × IsChosen (suc i) d rest

module _ (caps : Option HardwareCapabilities) (flags : List VideoEncoderFlag) (p : VideoEncoderFlag)
    (enc : String) where
  replaced-passthrough :
      (i : ℕ) (args : List String) → replaced flags p enc false true i args ≡ args
  unfolding replaced
  replaced-passthrough i [] = refl
  replaced-passthrough i (arg ∷ rest) = ap (λ x. arg ∷ x) (replaced-passthrough (suc i) rest)

  -- The three shapes of a round.
  replaced-end :
      (i : ℕ) (arg : String) (rest : List String)
      → (arg == "--") ≡ true
      → replaced flags p enc false false i (arg ∷ rest) ≡ arg ∷ rest
  unfolding replaced
  replaced-end i arg rest h = rw h (ap (λ x. arg ∷ x) (replaced-passthrough (suc i) rest))

  replaced-other :
      (i : ℕ) (arg : String) (rest : List String)
      → (arg == "--") ≡ false
      → flag_index flags i ≡ none
      → replaced flags p enc false false i (arg ∷ rest)
        ≡ arg ∷ replaced flags p enc false false (suc i) rest
  unfolding replaced
  replaced-other i arg rest h k = rw (h, k) refl

  replaced-selected :
      (i : ℕ) (arg next : String) (rest : List String) (q : VideoEncoderFlag)
      → (arg == "--") ≡ false
      → flag_index flags i ≡ some q
      → replaced flags p enc false false i (arg ∷ (next ∷ rest))
        ≡ head_tokens flags p enc i arg (some q) (next ∷ rest)
          ++ replaced flags p enc false false (suc (suc i)) rest
  unfolding replaced
  replaced-selected i arg next rest q h k = rw (h, k) refl

  replaced-nil : (i : ℕ) → replaced flags p enc false false i [] ≡ []
  unfolding replaced
  replaced-nil i = refl

  -- A selection that is not the primary one is copied with its value.
  copied :
      (i : ℕ) (arg next : String) (rest : List String) (q : VideoEncoderFlag)
      → (arg == "--") ≡ false
      → flag_index flags i ≡ some q
      → eqb q.index p.index ≡ false
      → replaced flags p enc false false i (arg ∷ (next ∷ rest))
        ≡ arg ∷ (next ∷ replaced flags p enc false false (suc (suc i)) rest)
  copied i arg next rest q h k other = replaced-selected i arg next rest q h k ∙ rw other refl

  differ : (i : ℕ) (q : VideoEncoderFlag) → q.index ≡ i → p.index < i → eqb q.index p.index ≡ false
  differ i q h past = ground (arith, h, past)

  -- After the primary flag the loop copies.
  replaced-after :
      (i : ℕ) (args : List String)
      → p.index < i
      → IsLookup caps flags i args
      → replaced flags p enc false false i args ≡ args
  replaced-after i [] past l = replaced-nil i
  replaced-after i (arg ∷ []) past l = elim (Bool-cases (arg == "--")) [
    | inl e ↦ replaced-end i arg [] e
    | inr e ↦ elim (Option-cases (selection caps i arg [])) [
      | inl n ↦
          replaced-other i arg [] e (IsLookup-here caps flags i arg [] e l ∙ n)
          ∙ ap (λ x. arg ∷ x) (replaced-nil (suc i))
      | inr (q, s) ↦ absurd (selection-alone caps i arg q s)
    ]
  ]
  replaced-after i (arg ∷ (next ∷ rest)) past l = elim (Bool-cases (arg == "--")) [
    | inl e ↦ replaced-end i arg (next ∷ rest) e
    | inr e ↦ elim (Option-cases (selection caps i arg (next ∷ rest))) [
      | inl n ↦
          replaced-other i arg (next ∷ rest) e
            (IsLookup-here caps flags i arg (next ∷ rest) e l ∙ n)
          ∙ ap (λ x. arg ∷ x)
              (replaced-after (suc i) (next ∷ rest) (omega (arith, past))
                (IsLookup-next caps flags i arg (next ∷ rest) e l))
      | inr (q, s) ↦
          let v = selection-IsValue caps i arg next rest q s in
          let l2 =
            IsLookup-next caps flags (suc i) next rest (bare-separator next v.2)
              (IsLookup-next caps flags i arg (next ∷ rest) e l) in
          copied i arg next rest q e (IsLookup-here caps flags i arg (next ∷ rest) e l ∙ s)
            (differ i q (selection-IsSelection caps i arg (next ∷ rest) q s).index_is past)
          ∙ ap (λ x. arg ∷ (next ∷ x)) (replaced-after (suc (suc i)) rest (omega (arith, past)) l2)
    ]
  ]

  before :
      (i d : ℕ) (q : VideoEncoderFlag)
      → q.index ≡ i
      → p.index ≡ i + suc d
      → eqb q.index p.index ≡ false
  before i d q h k = ground (arith, h, k)

  at : (q : VideoEncoderFlag) (i : ℕ) → q.index ≡ i → p.index ≡ i + 0 → eqb q.index p.index ≡ true
  at q i h k = ground (arith, h, k)

  no_tokens_left : (i d : ℕ) → IsChosen caps p i d [] → ⊥
  unfolding IsChosen
  no_tokens_left i d c = c

  -- The loop replaces the two tokens of the primary flag and no other.
  pub replaced-put :
      (i d : ℕ) (args : List String)
      → p.index ≡ i + d
      → IsChosen caps p i d args
      → IsLookup caps flags i args
      → replaced flags p enc false false i args ≡ put_tokens d (first_token p) enc args
  unfolding IsChosen put_tokens
  replaced-put i d [] k c l = absurd c
  replaced-put i zero (arg ∷ []) k c l = absurd (selection-alone caps i arg p c.1)
  replaced-put i zero (arg ∷ (next ∷ rest)) k (e, s) l =
      let v = selection-IsValue caps i arg next rest p s in
      let l2 =
        IsLookup-next caps flags (suc i) next rest (bare-separator next v.2)
          (IsLookup-next caps flags i arg (next ∷ rest) e l) in
      replaced-selected i arg next rest p e (IsLookup-here caps flags i arg (next ∷ rest) e l ∙ s)
      ∙ (rw (eqb_refl p.index, tokens-first p enc) refl
          ∙ ap (λ x. first_token p ∷ (enc ∷ x))
              (replaced-after (suc (suc i)) rest (omega (arith, k)) l2))
  replaced-put i (suc d) (arg ∷ []) k c l = absurd (no_tokens_left (suc i) d c.1)
  replaced-put i (suc zero) (arg ∷ (next ∷ rest)) k (e, c) l =
      elim (Option-cases (selection caps i arg (next ∷ rest))) [
        | inl n ↦
            replaced-other i arg (next ∷ rest) e
              (IsLookup-here caps flags i arg (next ∷ rest) e l ∙ n)
            ∙ ap (λ x. arg ∷ x)
                (replaced-put (suc i) zero (next ∷ rest) (omega (arith, k)) c
                  (IsLookup-next caps flags i arg (next ∷ rest) e l))
        | inr (q, s) ↦
            let bare = (selection-IsValue caps i arg next rest q s).2 in
            absurd (none≢some p (sym (selection-bare caps (suc i) next rest bare) ∙ c.1))
      ]
  replaced-put i (suc (suc d)) (arg ∷ (next ∷ rest)) k (e, c) l =
      elim (Option-cases (selection caps i arg (next ∷ rest))) [
        | inl n ↦
            replaced-other i arg (next ∷ rest) e
              (IsLookup-here caps flags i arg (next ∷ rest) e l ∙ n)
            ∙ ap (λ x. arg ∷ x)
                (replaced-put (suc i) (suc d) (next ∷ rest) (omega (arith, k)) c
                  (IsLookup-next caps flags i arg (next ∷ rest) e l))
        | inr (q, s) ↦
            let l2 =
              IsLookup-next caps flags (suc i) next rest c.0
                (IsLookup-next caps flags i arg (next ∷ rest) e l) in
            copied i arg next rest q e (IsLookup-here caps flags i arg (next ∷ rest) e l ∙ s)
              (before i (suc d) q (selection-IsSelection caps i arg (next ∷ rest) q s).index_is k)
            ∙ ap (λ x. arg ∷ (next ∷ x))
                (replaced-put (suc (suc i)) d rest (omega (arith, k)) c.1 l2)
      ]
