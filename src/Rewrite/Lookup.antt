-- ===== src/Rewrite/Lookup.antt =====
-- pkg/encoder/rewrite/videoencoder.go, flagAt: looking a flag up by its index is parsing at that token.
use rffmpeg.Base.{
  ℕ, suc, ◌≤◌, ◌<◌, ◌≡◌, refl, sym, ap, ◌∙◌, subst, String, true, false, Option, none, some, List,
  [], ◌∷◌, ◌==◌, eqb, starts_with, arith, Bool-cases, Option-cases, inl, inr, eq_iff,
}
use rffmpeg.Base.Tables.{find_where}
use rffmpeg.Rewrite.{
  VideoEncoderFlag, HardwareCapabilities, selection, parse_from, push_flag, flag_index,
}
use rffmpeg.Rewrite.Tokens.{selection-IsSelection}

pub eqb-false : (a b : ℕ) → a < b → eqb a b ≡ false
eqb-false a b h = ground (arith, h)

pub eqb_refl : (a : ℕ) → eqb a a ≡ true
eqb_refl a = ground arith

-- A token without a dash is no separator.
pub bare-separator : (arg : String) → starts_with arg "-" ≡ false → (arg == "--") ≡ false
bare-separator arg h = elim (Bool-cases (arg == "--")) [
  | inl e ↦ ground (arith, subst (λ x. starts_with x "-" ≡ false) ((eq_iff arg "--").0 e) h)
  | inr e ↦ e
]

at_front :
    (p : VideoEncoderFlag) (flags : List VideoEncoderFlag) (i : ℕ)
    → p.index ≡ i
    → flag_index (p ∷ flags) i ≡ some p
unfolding flag_index find_where
at_front p flags i h = rw (subst (λ x. eqb p.index x ≡ true) h (eqb_refl p.index)) refl

module _ (caps : Option HardwareCapabilities) where
  pub parse-step :
      (i : ℕ) (arg : String) (rest : List String)
      → (arg == "--") ≡ false
      → parse_from caps i (arg ∷ rest)
        ≡ push_flag caps (selection caps i arg rest) (parse_from caps (suc i) rest)
  unfolding parse_from
  parse-step i arg rest h = rw h refl

  pub parse-end :
      (i : ℕ) (arg : String) (rest : List String)
      → (arg == "--") ≡ true
      → parse_from caps i (arg ∷ rest) ≡ []
  unfolding parse_from
  parse-end i arg rest h = rw h refl

  -- The flag in front has another index.
  index-push :
      (i j : ℕ) (arg : String) (rest : List String) (flags : List VideoEncoderFlag)
      → eqb i j ≡ false
      → flag_index (push_flag caps (selection caps i arg rest) flags) j ≡ flag_index flags j
  unfolding flag_index find_where
  index-push i j arg rest flags h = elim (Option-cases (selection caps i arg rest)) [
    | inl e ↦ rw e refl
    | inr (p, e) ↦
        let s = selection-IsSelection caps i arg rest p e in
        rw e (rw (subst (λ x. eqb x j ≡ false) (sym s.index_is) h) refl)
  ]

  index-before :
      (i j : ℕ) (args : List String) → j < i → flag_index (parse_from caps i args) j ≡ none
  unfolding flag_index find_where parse_from
  index-before i j [] h = refl
  index-before i j (arg ∷ rest) h = elim (Bool-cases (arg == "--")) [
    | inl e ↦ rw e refl
    | inr e ↦
        ap (λ x. flag_index x j) (parse-step i arg rest e)
        ∙ (index-push i j arg rest (parse_from caps (suc i) rest) (ground (arith, h))
            ∙ index-before (suc i) j rest (omega (arith, h)))
  ]

  -- From position i on, the flags are those of the tokens that are left.
  unfoldable pub IsLookup : List VideoEncoderFlag → ℕ → List String → Type 0
  IsLookup flags i args =
      (j : ℕ) → i ≤ j → flag_index flags j ≡ flag_index (parse_from caps i args) j

  module _ (flags : List VideoEncoderFlag) (i : ℕ) (arg : String) (rest : List String)
      (more : (arg == "--") ≡ false) where
    pub IsLookup-next : IsLookup flags i (arg ∷ rest) → IsLookup flags (suc i) rest
    unfolding IsLookup
    IsLookup-next l j h =
        l j (omega (arith, h))
        ∙ (ap (λ x. flag_index x j) (parse-step i arg rest more)
            ∙ index-push i j arg rest (parse_from caps (suc i) rest) (eqb-false i j h))

    pub IsLookup-here :
        IsLookup flags i (arg ∷ rest) → flag_index flags i ≡ selection caps i arg rest
    unfolding IsLookup
    IsLookup-here l =
        l i (omega arith) ∙ (ap (λ x. flag_index x i) (parse-step i arg rest more) ∙ found)
      where
        found :
            flag_index (push_flag caps (selection caps i arg rest) (parse_from caps (suc i) rest)) i
            ≡ selection caps i arg rest
        found = elim (Option-cases (selection caps i arg rest)) [
          | inl e ↦ rw e (index-before (suc i) i rest (omega arith))
          | inr (p, e) ↦
              let s = selection-IsSelection caps i arg rest p e in
              rw e (at_front p (parse_from caps (suc i) rest) i s.index_is)
        ]
