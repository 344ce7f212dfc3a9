-- ===== src/Rewrite/Tokens.antt =====
-- pkg/encoder/rewrite/videoencoder.go: what a selected token looks like.
use rffmpeg.Base.{
  ℕ, ◌≡◌, refl, sym, ap, ◌∙◌, subst, String, Bool, true, false, ◌&&◌, Option, none, some, List, [],
  ◌∷◌, ◌==◌, not, ltb, len, slice, starts_with, from, has_part, ◌<>◌, arith, Bool-cases, inl, inr,
}
use mathlib.Core.Option.{some-injective}
use text.Mathlib.TextEquality.{starts_with_iff}
use text.Mathlib.TextPositions.{slice-append_right, len-append}
use rffmpeg.Rewrite.{
  VideoEncoderFlag, HardwareCapabilities, selection, classified, option_value, no_option,
  video_encoder_flag_name, known_video_encoder,
}

-- A dash and what follows the dash make the token again.
pub dash-from : (arg : String) → starts_with arg "-" ≡ true → "-" <> from 1 arg ≡ arg
dash-from arg h =
    let p = (starts_with_iff arg "-").0 h in
    subst (λ a. "-" <> from 1 a ≡ a) p.1
      (ap (λ x. "-" <> x)
        (ap (slice ("-" <> p.0) 1) (len-append "-" p.0) ∙ slice-append_right "-" p.0))

pub none≢some {ℓ} : {A : Type ℓ} (a : A) → none ≡ some a → ⊥
none≢some a h = ground (arith, h)

-- A list with this text in front offers it as the value of an option.
abbrev pub IsValue : String → Type 0
IsValue v = ((v == "") ≡ false) × ((v == "-") ≡ false) × (starts_with v "-" ≡ false)

pub option_value-some :
    (v : String) (rest : List String) → IsValue v → option_value (v ∷ rest) ≡ some v
unfolding option_value
option_value-some v rest (a, b, c) = rw (a, b, c) refl

option_value_cases :
    (rest : List String) (v : String)
    → option_value rest ≡ some v
    → (tail : List String) × (rest ≡ v ∷ tail) × IsValue v
unfolding option_value
option_value_cases [] v h = ground arith
option_value_cases (next ∷ tail) v h = elim (Bool-cases (next == "")) [
  | inl a ↦ ground (arith, h, a)
  | inr a ↦ elim (Bool-cases (next == "-")) [
    | inl b ↦ ground (arith, h, a, b)
    | inr b ↦ elim (Bool-cases (starts_with next "-")) [
      | inl c ↦ ground (arith, h, a, b, c)
      | inr c ↦
          let same : next ≡ v = some-injective next v (ground (arith, h, a, b, c)) in
          (tail, ap (λ x. x ∷ tail) same, subst IsValue same (a, b, c))
    ]
  ]
]

module _ (caps : Option HardwareCapabilities) (i : ℕ) (name : String) where
  -- What is known of the flag that a name and a value make.
  pub record IsClassified (vf : Option (Bool × String)) (value : Option String)
      (p : VideoEncoderFlag) : Type 0 where
    pub index_is : p.index ≡ i
    pub name_is : p.name ≡ name
    pub value_is : value ≡ some p.value
    pub again :
        (v : String)
        → p.generic ≡ false
        → classified caps i name vf (some v) ≡ some (record p { value = v })

  classified-IsClassified :
      (vf : Option (Bool × String)) (value : Option String) (p : VideoEncoderFlag)
      → classified caps i name vf value ≡ some p
      → IsClassified vf value p
  classified-IsClassified none value p h = absurd (none≢some p h)
  classified-IsClassified (some x) none p h = absurd (none≢some p h)
  classified-IsClassified (some (g, sp)) (some v) p h =
      elim (Bool-cases (g && (not (v == "copy") && not (known_video_encoder v caps)))) [
        | inl k ↦ absurd (none≢some p (ground (arith, h, k)))
        | inr k ↦
            let same : flag ≡ p = some-injective flag p (sym (kept k) ∙ h) in
            subst (IsClassified (some (g, sp)) (some v)) same (record {
              index_is = refl;
              name_is = refl;
              value_is = refl;
              again = λ w explicit. rw explicit refl;
            })
      ]
    where
      flag : VideoEncoderFlag
      flag = record { index = i; name = name; specifier = sp; value = v; generic = g }

      kept :
          (g && (not (v == "copy") && not (known_video_encoder v caps))) ≡ false
          → classified caps i name (some (g, sp)) (some v) ≡ some flag
      kept k = rw k refl

-- The token can carry an option: the tests of the loop before it looks at the name.
abbrev pub IsOption : String → Type 0
IsOption arg = (no_option arg ≡ false) × (has_part (from 1 arg) "=" ≡ false)

pub IsOption-dash : (arg : String) → IsOption arg → starts_with arg "-" ≡ true
IsOption-dash arg (h, k) = elim (Bool-cases (starts_with arg "-")) [
  | inl d ↦ d
  | inr d ↦ ground (arith, h, d)
]

module _ (caps : Option HardwareCapabilities) where
  pub selection-option :
      (i : ℕ) (arg : String) (rest : List String)
      → IsOption arg
      → selection caps i arg rest
        ≡ classified caps i (from 1 arg) (video_encoder_flag_name (from 1 arg)) (option_value rest)
  unfolding selection
  selection-option i arg rest (h, k) = rw (h, k) refl

  -- A token without a dash selects nothing.
  pub selection-bare :
      (i : ℕ) (arg : String) (rest : List String)
      → starts_with arg "-" ≡ false
      → selection caps i arg rest ≡ none
  unfolding selection
  selection-bare i arg rest h = elim (Bool-cases (ltb (len arg) 2)) [
    | inl k ↦ rw k refl
    | inr k ↦ rw (k, h) refl
  ]

  -- What is known of a flag that the loop selects at a token.
  pub record IsSelection (i : ℕ) (arg : String) (rest : List String) (p : VideoEncoderFlag)
      : Type 0 where
    pub option : IsOption arg
    pub index_is : p.index ≡ i
    pub name_is : p.name ≡ from 1 arg
    pub tail : List String
    pub rest_is : rest ≡ p.value ∷ tail
    pub value : IsValue p.value
    pub again :
        (v : String) (others : List String)
        → IsValue v
        → p.generic ≡ false
        → selection caps i arg (v ∷ others) ≡ some (record p { value = v })

  pub selection-IsSelection :
      (i : ℕ) (arg : String) (rest : List String) (p : VideoEncoderFlag)
      → selection caps i arg rest ≡ some p
      → IsSelection i arg rest p
  unfolding selection
  selection-IsSelection i arg rest p h = elim (Bool-cases (no_option arg)) [
    | inl a ↦ absurd (none≢some p (ground (arith, h, a)))
    | inr a ↦ elim (Bool-cases (has_part (from 1 arg) "=")) [
      | inl b ↦ absurd (none≢some p (ground (arith, h, a, b)))
      | inr b ↦
          let c =
            classified-IsClassified caps i (from 1 arg) (video_encoder_flag_name (from 1 arg))
              (option_value rest) p (sym (selection-option i arg rest (a, b)) ∙ h) in
          let v = option_value_cases rest p.value c.value_is in
          record {
            option = (a, b);
            index_is = c.index_is;
            name_is = c.name_is;
            tail = v.0;
            rest_is = v.1;
            value = v.2;
            again = λ w others is_value explicit.
                selection-option i arg (w ∷ others) (a, b)
                ∙ (ap (classified caps i (from 1 arg) (video_encoder_flag_name (from 1 arg)))
                      (option_value-some w others is_value)
                    ∙ c.again w explicit);
          }
    ]
  ]

  first_or : String → List String → String
  first_or s [] = s
  first_or s (x ∷ xs) = x

  -- The last token selects nothing, and the token after a selection can be a value.
  pub selection-alone :
      (i : ℕ) (arg : String) (p : VideoEncoderFlag) → selection caps i arg [] ≡ some p → ⊥
  selection-alone i arg p h =
      let s = selection-IsSelection i arg [] p h in ground (arith, s.rest_is)

  pub selection-IsValue :
      (i : ℕ) (arg next : String) (rest : List String) (p : VideoEncoderFlag)
      → selection caps i arg (next ∷ rest) ≡ some p
      → IsValue next
  unfolding first_or
  selection-IsValue i arg next rest p h =
      let s = selection-IsSelection i arg (next ∷ rest) p h in
      subst IsValue (sym (ap (first_or next) s.rest_is)) s.value
