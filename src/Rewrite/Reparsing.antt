-- ===== src/Rewrite/Reparsing.antt =====
-- pkg/encoder/rewrite/videoencoder.go: the replaced arguments, parsed again.
use rffmpeg.Base.{
  ℕ, zero, suc, ◌≡◌, refl, sym, ap, ◌∙◌, subst, String, false, Option, none, some, List, [], ◌∷◌,
  ◌==◌, ◌<>◌, arith, Bool-cases, Option-cases, inl, inr,
}
use rffmpeg.Rewrite.{
  VideoEncoderFlag, HardwareCapabilities, selection, parse_from, push_flag, last_explicit,
  last_flag, primary_video_encoder_flag, parse_video_encoder_flags, replace_primary_video_encoder,
  classified, video_encoder_flag_name, or_flag,
}
use rffmpeg.Rewrite.Tokens.{
  selection-IsSelection, selection-alone, selection-IsValue, none≢some, IsValue, option_value-some,
  selection-option, dash-from, IsOption-dash,
}
use rffmpeg.Rewrite.Lookup.{IsLookup, parse-step}
use rffmpeg.Rewrite.Replacing.{put_tokens, first_token, replaced-put}
use rffmpeg.Rewrite.Primary.{
  IsPrimary, IsPrimary-IsChosen, Found, explicit-Found, generic-Found, parse-bare, push-later,
  last_explicit-first,
}

module _ (caps : Option HardwareCapabilities) (p : VideoEncoderFlag) (enc : String)
    (value : IsValue enc) where
  -- The parser finds the encoder as the last explicit selection.
  abbrev Selects : List VideoEncoderFlag → Type 0
  Selects flags =
      (q : VideoEncoderFlag) × (last_explicit flags ≡ some q)
      × (q.generic ≡ false)
      × (q.value ≡ enc)

  -- At the primary flag the new tokens are an explicit selection of the encoder.
  abbrev Reselects : ℕ → String → List String → Type 0
  Reselects i token rest =
      ((token == "--") ≡ false)
      × (q : VideoEncoderFlag) × (selection caps i token (enc ∷ rest) ≡ some q)
      × (q.generic ≡ false)
      × (q.value ≡ enc)

  reselect-generic : (i : ℕ) (rest : List String) → Reselects i "-c:v" rest
  unfolding video_encoder_flag_name
  reselect-generic i rest = (
    refl,
    _,
    selection-option caps i "-c:v" (enc ∷ rest) (refl, refl)
        ∙ ap (classified caps i "c:v" (some (false, ""))) (option_value-some enc rest value),
    refl,
    refl,
  )

  reselect :
      (i : ℕ) (arg : String) (rest others : List String)
      → (arg == "--") ≡ false
      → selection caps i arg rest ≡ some p
      → Reselects i (first_token p) others
  unfolding first_token
  reselect i arg rest others e s = elim (Bool-cases p.generic) [
    | inl g ↦ simp g (reselect-generic i others)
    | inr g ↦
        let sel = selection-IsSelection caps i arg rest p s in
        let same : "-" <> p.name ≡ arg =
          ap (λ x. "-" <> x) sel.name_is ∙ dash-from arg (IsOption-dash arg sel.option) in
        simp g (
          subst (λ t. Reselects i t others) (sym same)
            (e, record p { value = enc }, sel.again enc others value g, g, refl))
  ]

  put_tokens-Selects :
      (i d : ℕ) (args : List String)
      → IsPrimary caps p i d args
      → Selects (parse_from caps i (put_tokens d (first_token p) enc args))
  unfolding IsPrimary put_tokens
  put_tokens-Selects i d [] c = absurd c
  put_tokens-Selects i zero (arg ∷ []) (e, s, n) = absurd (selection-alone caps i arg p s)
  put_tokens-Selects i zero (arg ∷ (next ∷ rest)) (e, s, n) =
      let (sep, q, again, explicit, v) = reselect i arg (next ∷ rest) rest e s in
      let after = parse_from caps (suc i) (enc ∷ rest) in
      let same : after ≡ parse_from caps (suc i) (next ∷ rest) =
        parse-bare caps (suc i) enc rest value.2
        ∙ sym (parse-bare caps (suc i) next rest (selection-IsValue caps i arg next rest p s).2) in
      let quiet : last_explicit after ≡ none = ap last_explicit same ∙ n in
      (
        q,
        ap last_explicit (
              parse-step caps i (first_token p) (enc ∷ rest) sep
              ∙ ap (λ x. push_flag caps x after) again)
            ∙ last_explicit-first q after quiet explicit,
        explicit,
        v,
      )
  put_tokens-Selects i (suc d) (arg ∷ rest) (e, c) =
      let (q, k, g, v) = put_tokens-Selects (suc i) d rest c in
      (
        q,
        ap last_explicit (parse-step caps i arg (put_tokens d (first_token p) enc rest) e)
            ∙ push-later caps (selection caps i arg (put_tokens d (first_token p) enc rest)) q _ k,
        g,
        v,
      )

or_flag-first :
    (a b : Option VideoEncoderFlag) (q p : VideoEncoderFlag)
    → a ≡ some q
    → or_flag a b ≡ some p
    → a ≡ some p
or_flag-first (some x) b q p k h = h
or_flag-first none b q p k h = absurd (none≢some q k)

or_flag-second :
    (a b : Option VideoEncoderFlag) (p : VideoEncoderFlag)
    → a ≡ none
    → or_flag a b ≡ some p
    → b ≡ some p
or_flag-second none b p k h = h
or_flag-second (some x) b p k h = absurd (none≢some x (sym k))

module _ (caps : Option HardwareCapabilities) (args : List String) (p : VideoEncoderFlag)
    (primary : primary_video_encoder_flag (parse_video_encoder_flags caps args) ≡ some p) where
  primary-Found : Found caps p 0 args
  unfolding parse_video_encoder_flags primary_video_encoder_flag
  primary-Found =
      let flags = parse_from caps 0 args in
      elim (Option-cases (last_explicit flags)) [
        | inl n ↦
            generic-Found caps p 0 args n
              (or_flag-second (last_explicit flags) (last_flag flags) p n primary)
        | inr (q, k) ↦
            explicit-Found caps p 0 args
              (or_flag-first (last_explicit flags) (last_flag flags) q p k primary)
      ]

  everywhere : IsLookup caps (parse_video_encoder_flags caps args) 0 args
  unfolding parse_video_encoder_flags IsLookup
  everywhere j h = refl

  place : IsPrimary caps p 0 p.index args
  unfolding Found
  place =
      let (d, k, c) = primary-Found in
      let at : d ≡ p.index = omega (arith, k) in subst (λ x. IsPrimary caps p 0 x args) at c

  -- Replacing the encoder writes the two tokens of the selection that ffmpeg obeys and leaves all others as they
  -- are. That selection is not the copy directive.
  pub replace_primary_video_encoder-put :
      (enc : String)
      → (p.value == "copy") ≡ false
      → replace_primary_video_encoder args enc caps ≡ put_tokens p.index (first_token p) enc args
  unfolding replace_primary_video_encoder
  replace_primary_video_encoder-put enc not_copy =
      rw (primary, not_copy)
        (replaced-put caps (parse_video_encoder_flags caps args) p enc 0 p.index args (omega arith)
          (IsPrimary-IsChosen caps p 0 p.index args place) everywhere)

  -- The arguments with the encoder replaced select that encoder: parsed again, their primary flag is explicit and
  -- names it. The encoder is a text that an option can take, and the selection replaced is not the copy
  -- directive.
  pub replace_primary_video_encoder-parse :
      (enc : String)
      → (p.value == "copy") ≡ false
      → IsValue enc
      → (q : VideoEncoderFlag) × (primary_video_encoder_flag
            (parse_video_encoder_flags caps (replace_primary_video_encoder args enc caps))
          ≡ some q)
        × (q.generic ≡ false)
        × (q.value ≡ enc)
  unfolding parse_video_encoder_flags primary_video_encoder_flag
  replace_primary_video_encoder-parse enc not_copy value =
      let (q, k, g, v) = put_tokens-Selects caps p enc value 0 p.index args place in
      (q, rw (replace_primary_video_encoder-put enc not_copy, k) refl, g, v)
