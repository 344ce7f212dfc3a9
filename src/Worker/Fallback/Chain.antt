-- ===== src/Worker/Fallback/Chain.antt =====
-- pkg/worker/encoder_fallback.go, GetAlternativeSoftwareEncoder: the chain and the codec families.
use rffmpeg.Base.{
  ◌≡◌, String, false, ◌||◌, Option, none, some, ◌==◌, not, arith, Bool-cases, inl, inr,
}
use rffmpeg.Worker.{GoLibrary}
use rffmpeg.Worker.Fallback.{
  EncoderFallback, get_alternative_software_encoder, same_family, is_cross_format_fallback,
}
use rffmpeg.Worker.Fallback.Tables.{get_encoder_family}

module _ (go : GoLibrary) (f : EncoderFallback) where
  same_family-cross :
      (encoder : String) (found : Option String)
      → (same_family go f encoder found == "") ≡ false
      → is_cross_format_fallback go f encoder (same_family go f encoder found) ≡ false
  unfolding is_cross_format_fallback
  same_family-cross encoder none = λ h. ground (arith, h)
  same_family-cross encoder (some next) = elim (Bool-cases (next == encoder)) [
    | inl a ↦ rw a (λ h. ground (arith, h))
    | inr a ↦
        rw a
          (elim (Bool-cases
            (get_encoder_family go encoder == "" || get_encoder_family go next == "")) [
              | inl b ↦ rw b (λ h. ground (arith, h))
              | inr b ↦
                  rw b
                    (elim (Bool-cases
                      (not (get_encoder_family go encoder == get_encoder_family go next))) [
                        | inl c ↦ rw c (λ h. ground (arith, h))
                        | inr c ↦ rw (c, b) (λ h. c)
                      ])
            ])
  ]

  -- An alternative encoder, where the chain offers one, never leaves the codec family, whatever entries were
  -- added to the chain.
  pub get_alternative_software_encoder-family :
      (encoder : String)
      → (get_alternative_software_encoder go f encoder == "") ≡ false
      → is_cross_format_fallback go f encoder (get_alternative_software_encoder go f encoder)
        ≡ false
  unfolding get_alternative_software_encoder
  get_alternative_software_encoder-family encoder h = same_family-cross encoder _ h
