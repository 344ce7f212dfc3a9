-- ===== src/Rewrite/Primary.antt =====
-- pkg/encoder/rewrite/videoencoder.go, PrimaryVideoEncoderFlag: where the primary flag stands.
use rffmpeg.Base.{
  ℕ, zero, suc, ◌+◌, ◌≡◌, refl, sym, ap, ◌∙◌, String, true, false, Option, none, some, List, [],
  ◌∷◌, ◌==◌, starts_with, arith, Bool-cases, Option-cases, inl, inr,
}
use rffmpeg.Rewrite.{
  VideoEncoderFlag, HardwareCapabilities, selection, parse_from, push_flag, last_explicit,
  last_flag,
}
use rffmpeg.Rewrite.Tokens.{selection-IsSelection, selection-bare, none≢some}
use rffmpeg.Rewrite.Lookup.{parse-step, parse-end, bare-separator}
use rffmpeg.Rewrite.Replacing.{IsChosen}

-- The last explicit flag of a list with one more in front.
last_explicit-later :
    (f q : VideoEncoderFlag) (flags : List VideoEncoderFlag)
    → last_explicit flags ≡ some q
    → last_explicit (f ∷ flags) ≡ some q
unfolding last_explicit
last_explicit-later f q flags h = rw h refl

pub last_explicit-first :
    (f : VideoEncoderFlag) (flags : List VideoEncoderFlag)
    → last_explicit flags ≡ none
    → f.generic ≡ false
    → last_explicit (f ∷ flags) ≡ some f
unfolding last_explicit
last_explicit-first f flags h g = rw h (ground (arith, g))

last_explicit-generic :
    (f : VideoEncoderFlag) (flags : List VideoEncoderFlag)
    → last_explicit flags ≡ none
    → f.generic ≡ true
    → last_explicit (f ∷ flags) ≡ none
unfolding last_explicit
last_explicit-generic f flags h g = rw h (ground (arith, g))

module _ (caps : Option HardwareCapabilities) where
  -- A token without a dash is passed over.
  pub parse-bare :
      (i : ℕ) (arg : String) (rest : List String)
      → starts_with arg "-" ≡ false
      → parse_from caps i (arg ∷ rest) ≡ parse_from caps (suc i) rest
  parse-bare i arg rest h =
      parse-step caps i arg rest (bare-separator arg h)
      ∙ ap (λ s. push_flag caps s (parse_from caps (suc i) rest)) (selection-bare caps i arg rest h)

  pub push-later :
      (s : Option VideoEncoderFlag) (q : VideoEncoderFlag) (flags : List VideoEncoderFlag)
      → last_explicit flags ≡ some q
      → last_explicit (push_flag caps s flags) ≡ some q
  push-later none q flags h = h
  push-later (some f) q flags h = last_explicit-later f q flags h

  nothing_later :
      (s : Option VideoEncoderFlag) (flags : List VideoEncoderFlag)
      → last_explicit (push_flag caps s flags) ≡ none
      → last_explicit flags ≡ none
  nothing_later s flags h = elim (Option-cases (last_explicit flags)) [
    | inl k ↦ k
    | inr (q, k) ↦ absurd (none≢some q (sym h ∙ push-later s q flags k))
  ]

  last_flag-later :
      (s : Option VideoEncoderFlag) (q : VideoEncoderFlag) (flags : List VideoEncoderFlag)
      → last_flag flags ≡ some q
      → last_flag (push_flag caps s flags) ≡ some q
  unfolding last_flag
  last_flag-later none q flags h = h
  last_flag-later (some f) q [] h = absurd (none≢some q h)
  last_flag-later (some f) q (g ∷ flags) h = h

  last_flag-some :
      (f : VideoEncoderFlag) (flags : List VideoEncoderFlag) → last_flag (f ∷ flags) ≡ none → ⊥
  unfolding last_flag
  last_flag-some f [] h = none≢some f (sym h)
  last_flag-some f (g ∷ flags) h = last_flag-some g flags h

  last_flag-first :
      (s : Option VideoEncoderFlag) (flags : List VideoEncoderFlag)
      → last_flag flags ≡ none
      → last_flag (push_flag caps s flags) ≡ s
  unfolding last_flag
  last_flag-first none [] h = refl
  last_flag-first (some f) [] h = refl
  last_flag-first s (g ∷ flags) h = absurd (last_flag-some g flags h)

  module _ (p : VideoEncoderFlag) where
    -- The flag is selected at this distance, and no explicit one comes after it.
    unfoldable pub IsPrimary : ℕ → ℕ → List String → Type 0
    IsPrimary i d [] = ⊥
    IsPrimary i zero (arg ∷ rest) =
        ((arg == "--") ≡ false)
        × (selection caps i arg rest ≡ some p)
        × (last_explicit (parse_from caps (suc i) rest) ≡ none)
    IsPrimary i (suc d) (arg ∷ rest) = ((arg == "--") ≡ false) × IsPrimary (suc i) d rest

    pub IsPrimary-IsChosen :
        (i d : ℕ) (args : List String) → IsPrimary i d args → IsChosen caps p i d args
    unfolding IsPrimary IsChosen
    IsPrimary-IsChosen i d [] c = c
    IsPrimary-IsChosen i zero (arg ∷ rest) c = (c.0, c.1)
    IsPrimary-IsChosen i (suc d) (arg ∷ rest) c = (c.0, IsPrimary-IsChosen (suc i) d rest c.1)

    unfoldable pub Found : ℕ → List String → Type 0
    Found i args = (d : ℕ) × (p.index ≡ i + d) × IsPrimary i d args

    Found-later :
        (i : ℕ) (arg : String) (rest : List String)
        → (arg == "--") ≡ false
        → Found (suc i) rest
        → Found i (arg ∷ rest)
    unfolding Found IsPrimary
    Found-later i arg rest h (d, k, c) = (suc d, omega (arith, k), (h, c))

    Found-here :
        (i : ℕ) (arg : String) (rest : List String) (q : VideoEncoderFlag)
        → (arg == "--") ≡ false
        → selection caps i arg rest ≡ some q
        → last_explicit (parse_from caps (suc i) rest) ≡ none
        → some q ≡ some p
        → Found i (arg ∷ rest)
    unfolding Found IsPrimary
    Found-here i arg rest q h s n same =
        let at_p = s ∙ same in
        (0, omega (arith, (selection-IsSelection caps i arg rest p at_p).index_is), (h, at_p, n))

    stepped :
        (i : ℕ) (arg : String) (rest : List String)
        → (arg == "--") ≡ false
        → last_explicit (parse_from caps i (arg ∷ rest)) ≡ some p
        → last_explicit (push_flag caps (selection caps i arg rest) (parse_from caps (suc i) rest))
          ≡ some p
    stepped i arg rest e h = sym (ap last_explicit (parse-step caps i arg rest e)) ∙ h

    pushed :
        (i : ℕ) (arg : String) (rest : List String) (s : Option VideoEncoderFlag)
        → selection caps i arg rest ≡ s
        → (arg == "--") ≡ false
        → last_explicit (parse_from caps i (arg ∷ rest)) ≡ some p
        → last_explicit (push_flag caps s (parse_from caps (suc i) rest)) ≡ some p
    pushed i arg rest s k e h =
        sym (ap (λ x. last_explicit (push_flag caps x (parse_from caps (suc i) rest))) k)
        ∙ stepped i arg rest e h

    pub explicit-Found :
        (i : ℕ) (args : List String)
        → last_explicit (parse_from caps i args) ≡ some p
        → Found i args
    unfolding parse_from last_explicit
    explicit-Found i [] h = absurd (none≢some p h)
    explicit-Found i (arg ∷ rest) h = elim (Bool-cases (arg == "--")) [
      | inl e ↦ absurd (none≢some p (sym (ap last_explicit (parse-end caps i arg rest e)) ∙ h))
      | inr e ↦ elim (Option-cases (last_explicit (parse_from caps (suc i) rest))) [
        | inr (q, k) ↦ Found-later i arg rest e (
            explicit-Found (suc i) rest
              (k ∙ (sym (push-later (selection caps i arg rest) q _ k) ∙ stepped i arg rest e h)))
        | inl k ↦ elim (Option-cases (selection caps i arg rest)) [
          | inl n ↦ absurd (none≢some p (sym k ∙ pushed i arg rest none n e h))
          | inr (q, s) ↦ elim (Bool-cases q.generic) [
            | inl g ↦ absurd (
                none≢some p (
                  sym (last_explicit-generic q (parse_from caps (suc i) rest) k g)
                  ∙ pushed i arg rest (some q) s e h))
            | inr g ↦ Found-here i arg rest q e s k (
                sym (last_explicit-first q (parse_from caps (suc i) rest) k g)
                ∙ pushed i arg rest (some q) s e h)
          ]
        ]
      ]
    ]

    pub generic-Found :
        (i : ℕ) (args : List String)
        → last_explicit (parse_from caps i args) ≡ none
        → last_flag (parse_from caps i args) ≡ some p
        → Found i args
    unfolding parse_from last_flag
    generic-Found i [] h l = absurd (none≢some p l)
    generic-Found i (arg ∷ rest) h l = elim (Bool-cases (arg == "--")) [
      | inl e ↦ absurd (none≢some p (sym (ap last_flag (parse-end caps i arg rest e)) ∙ l))
      | inr e ↦
          let flags = parse_from caps (suc i) rest in
          let step = parse-step caps i arg rest e in
          let quiet =
            nothing_later (selection caps i arg rest) flags (sym (ap last_explicit step) ∙ h) in
          elim (Option-cases (last_flag flags)) [
            | inr (q, k) ↦ Found-later i arg rest e (
                generic-Found (suc i) rest quiet (
                  k
                  ∙ (sym (last_flag-later (selection caps i arg rest) q flags k)
                      ∙ (sym (ap last_flag step) ∙ l))))
            | inl k ↦
                let s =
                  sym (last_flag-first (selection caps i arg rest) flags k)
                  ∙ (sym (ap last_flag step) ∙ l) in
                Found-here i arg rest p e s quiet refl
          ]
    ]
