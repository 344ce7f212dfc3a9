-- ===== src/Worker/Fallback/Software.antt =====
-- pkg/worker/encoder_fallback.go: the encoder that takes over is a software encoder.
use rffmpeg.Base.{
  ◌≡◌, refl, String, Bool, true, false, ◌||◌, Option, none, some, List, [], ◌∷◌, ◌==◌, not, All,
  Bool-cases, inl, inr, ◌⊎◌, arith, eq_iff, if◌then◌else◌,
}
use rffmpeg.Base.Tables.{exists_where}
use rffmpeg.Worker.{GoLibrary}
use rffmpeg.Worker.Errors.Intercepting.{is_hardware_encoder, hardware_suffixes}
use rffmpeg.Worker.Fallback.{
  EncoderFallback, software_or, get_software_encoder, get_alternative_software_encoder, same_family,
  fallback_encoder, is_known_software_encoder, chained, inferred, new_encoder_fallback,
}
use rffmpeg.Worker.Fallback.Tables.{
  entry, is_listed, default_format_encoders_map, default_hardware_to_software_map,
  default_software_fallback_chain, or_later, infer_software_encoder, get_encoder_family,
  infer_software_encoder_from_context, extension_encoder, container_encoder, format_flag_encoder,
}

-- An encoder that the tables have as a software encoder, and that does not have the name of a hardware encoder;
-- or none, "".
pub data IsSoftware (f : EncoderFallback) : String → Type 0 where
  no_encoder : IsSoftware f ""
  software_encoder :
      (encoder : String)
      → is_known_software_encoder f encoder ≡ true
      → is_hardware_encoder encoder ≡ false
      → IsSoftware f encoder

-- The predicate of the entry found, if there is one.
unfoldable Holds : (String → Type 0) → Option String → Type 0
Holds P none = Unit
Holds P (some value) = P value

entry-Holds :
    (P : String → Type 0) (key : String) (table : List (String × String))
    → All (λ row. P row.1) table
    → Holds P (entry key table)
unfolding entry Holds
entry-Holds P key [] a = tt
entry-Holds P key ((k, v) ∷ rest) a = elim (Bool-cases (k == key)) [
  | inl e ↦ rw e a.0
  | inr e ↦ rw e (entry-Holds P key rest a.1)
]

abbrev pub inferable : List String
inferable = "libx264" ∷ "libx265" ∷ "libvpx-vp9" ∷ "libaom-av1" ∷ "libvpx" ∷ []

-- The tables lead to software encoders, and know those that a name or an output can stand for.
pub record IsSoftwareOnly (f : EncoderFallback) : Type 0 where
  pub equivalents : All (λ row. IsSoftware f row.1) f.hardware_to_software
  pub chain : All (λ row. IsSoftware f row.1) f.software_fallback_chain
  pub guesses : All (IsSoftware f) inferable

module _ (f : EncoderFallback) where
  pick-IsSoftware :
      (b : Bool) (x y : String)
      → IsSoftware f x
      → IsSoftware f y
      → IsSoftware f (if b then x else y)
  pick-IsSoftware true x y h k = h
  pick-IsSoftware false x y h k = k

  some-Holds : (x : String) → IsSoftware f x → Holds (IsSoftware f) (some x)
  unfolding Holds
  some-Holds x h = h

  none-Holds : Holds (IsSoftware f) none
  unfolding Holds
  none-Holds = tt

  pick-Holds :
      (b : Bool) (x : String) (y : Option String)
      → IsSoftware f x
      → Holds (IsSoftware f) y
      → Holds (IsSoftware f) (if b then some x else y)
  pick-Holds true x y h k = some-Holds x h
  pick-Holds false x y h k = k

module _ (go : GoLibrary) (f : EncoderFallback) (software : IsSoftwareOnly f) where
  x264-IsSoftware : IsSoftware f "libx264"
  x264-IsSoftware = software.guesses.0

  x265-IsSoftware : IsSoftware f "libx265"
  x265-IsSoftware = software.guesses.1.0

  vp9-IsSoftware : IsSoftware f "libvpx-vp9"
  vp9-IsSoftware = software.guesses.1.1.0

  aom-IsSoftware : IsSoftware f "libaom-av1"
  aom-IsSoftware = software.guesses.1.1.1.0

  vp8-IsSoftware : IsSoftware f "libvpx"
  vp8-IsSoftware = software.guesses.1.1.1.1.0

  infer-IsSoftware : (encoder : String) → IsSoftware f (infer_software_encoder go encoder)
  unfolding infer_software_encoder
  infer-IsSoftware encoder = pick-IsSoftware f _ _ _ x264-IsSoftware (
      pick-IsSoftware f _ _ _ x265-IsSoftware (
        pick-IsSoftware f _ _ _ vp9-IsSoftware (
          pick-IsSoftware f _ _ _ aom-IsSoftware
            (pick-IsSoftware f _ _ _ vp8-IsSoftware no_encoder))))

  -- An encoder inferred from the output or the container format.
  or_later-IsSoftware :
      (found : Option String) (later : String)
      → Holds (IsSoftware f) found
      → IsSoftware f later
      → IsSoftware f (or_later go found later)
  unfolding Holds
  or_later-IsSoftware none later h k = k
  or_later-IsSoftware (some sw) later h k = h

  extension-Holds : (ext : String) → Holds (IsSoftware f) (extension_encoder go ext)
  unfolding extension_encoder
  extension-Holds ext =
      pick-Holds f _ _ _ x264-IsSoftware
        (pick-Holds f _ _ _ vp9-IsSoftware (pick-Holds f _ _ _ vp8-IsSoftware (none-Holds f)))

  container-Holds : (format : String) → Holds (IsSoftware f) (container_encoder go format)
  unfolding container_encoder
  container-Holds format =
      pick-Holds f _ _ _ x264-IsSoftware (pick-Holds f _ _ _ vp9-IsSoftware (none-Holds f))

  format_flag-IsSoftware : (args : List String) → IsSoftware f (format_flag_encoder go args)
  unfolding format_flag_encoder
  format_flag-IsSoftware [] = no_encoder
  format_flag-IsSoftware (arg ∷ []) = no_encoder
  format_flag-IsSoftware (arg ∷ (next ∷ rest)) =
      pick-IsSoftware f _ _ _
        (or_later-IsSoftware _ _ (container-Holds _) (format_flag-IsSoftware (next ∷ rest)))
        (format_flag-IsSoftware (next ∷ rest))

  inferred-IsSoftware :
      (args : List String) (output : String) → IsSoftware f (inferred go f args output)
  unfolding inferred infer_software_encoder_from_context
  inferred-IsSoftware args output = pick-IsSoftware f _ _ _ x264-IsSoftware (
      or_later-IsSoftware (extension_encoder go _) _ (extension-Holds _)
        (format_flag-IsSoftware args))

  -- An equivalent is a software encoder, or the encoder itself.
  software_or-IsSoftware :
      (encoder : String) (found : Option String)
      → Holds (IsSoftware f) found
      → (software_or go f encoder found ≡ encoder) ⊎ IsSoftware f (software_or go f encoder found)
  unfolding Holds
  software_or-IsSoftware encoder (some sw) h = inr h
  software_or-IsSoftware encoder none h = elim (Bool-cases (is_hardware_encoder encoder)) [
    | inl k ↦ inr (rw k (infer-IsSoftware encoder))
    | inr k ↦ inl (rw k refl)
  ]

  get_software_encoder-IsSoftware :
      (encoder : String)
      → (get_software_encoder go f encoder == encoder) ≡ false
      → IsSoftware f (get_software_encoder go f encoder)
  unfolding get_software_encoder
  get_software_encoder-IsSoftware encoder n =
      elim (software_or-IsSoftware encoder _
        (entry-Holds (IsSoftware f) encoder f.hardware_to_software software.equivalents)) [
          | inl e ↦ ground (arith, n, (eq_iff _ encoder).1 e)
          | inr h ↦ h
        ]

  same_family-IsSoftware :
      (encoder : String) (found : Option String)
      → Holds (IsSoftware f) found
      → IsSoftware f (same_family go f encoder found)
  unfolding Holds
  same_family-IsSoftware encoder none h = no_encoder
  same_family-IsSoftware encoder (some next) h =
      pick-IsSoftware f (next == encoder) _ _ no_encoder (
        pick-IsSoftware f (get_encoder_family go encoder == "" || get_encoder_family go next == "")
          _ _ no_encoder
          (pick-IsSoftware f (not (get_encoder_family go encoder == get_encoder_family go next)) _ _
            no_encoder h))

  chained-IsSoftware :
      (encoder : String) (is_fallback : Bool) → IsSoftware f (chained go f encoder is_fallback)
  unfolding chained get_alternative_software_encoder
  chained-IsSoftware encoder is_fallback =
      pick-IsSoftware f _ _ _
        (same_family-IsSoftware encoder _
          (entry-Holds (IsSoftware f) encoder f.software_fallback_chain software.chain))
        no_encoder

  settled-IsSoftware :
      (args : List String) (output : String) (is_fallback : Bool) (current : String) (b : Bool)
      → (get_software_encoder go f current == "" || get_software_encoder go f current == current)
        ≡ b
      → IsSoftware f (
          if b
          then (if is_known_software_encoder f current
              then chained go f current is_fallback
              else inferred go f args output)
          else get_software_encoder go f current)
  settled-IsSoftware args output is_fallback current true e =
      pick-IsSoftware f (is_known_software_encoder f current) _ _
        (chained-IsSoftware current is_fallback) (inferred-IsSoftware args output)
  settled-IsSoftware args output is_fallback current false e =
      get_software_encoder-IsSoftware current (ground (arith, e))

-- No encoder takes over only where none was selected, where the video is copied, or from an encoder that is
-- already a software encoder.
unfoldable pub may_stay : EncoderFallback → String → Bool
may_stay f current = current == "" || (current == "copy" || is_known_software_encoder f current)

module _ (go : GoLibrary) (f : EncoderFallback) where
  inferred_named :
      (args : List String) (output : String) → (inferred go f args output == "") ≡ false
  unfolding inferred
  inferred_named args output = named (infer_software_encoder_from_context go args output)
    where
      named : (sw : String) → ((if sw == "" then "libx264" else sw) == "") ≡ false
      named sw = elim (Bool-cases (sw == "")) [ inl e ↦ rw e refl | inr e ↦ rw (e, e) refl ]

  fallback-may_stay :
      (args : List String) (output : String) (is_fallback : Bool) (current : String)
      → (not (fallback_encoder go f args output is_fallback current == "") || may_stay f current)
        ≡ true
  unfolding fallback_encoder may_stay
  fallback-may_stay args output is_fallback current = ground (arith, inferred_named args output)

module _ (go : GoLibrary) (f : EncoderFallback) (software : IsSoftwareOnly f) where
  -- The encoder that takes over is one that the tables have as a software encoder, and its name is not that of a
  -- hardware encoder, whatever the arguments and the encoder that failed; there is none, "", only where no
  -- encoder was selected, the video is copied, or the encoder that failed is a software encoder of the tables.
  -- The tables lead to such encoders, and know the five that are inferred from names and outputs.
  pub fallback_encoder-IsSoftware :
      (args : List String) (output : String) (is_fallback : Bool) (current : String)
      → IsSoftware f (fallback_encoder go f args output is_fallback current)
        × ((not (fallback_encoder go f args output is_fallback current == "") || may_stay f current)
            ≡ true)
  unfolding fallback_encoder
  fallback_encoder-IsSoftware args output is_fallback current = (
    pick-IsSoftware f (current == "" || current == "copy") _ _ no_encoder
        (settled-IsSoftware go f software args output is_fallback current _ refl),
    fallback-may_stay go f args output is_fallback current,
  )

pub new_encoder_fallback-IsSoftwareOnly : IsSoftwareOnly new_encoder_fallback
unfolding new_encoder_fallback default_hardware_to_software_map default_software_fallback_chain
    is_hardware_encoder hardware_suffixes exists_where is_known_software_encoder is_listed
    default_format_encoders_map
new_encoder_fallback-IsSoftwareOnly = record {
  equivalents = (
    software_encoder _ refl refl,
    (
      software_encoder _ refl refl,
      (
        software_encoder _ refl refl,
        (
          software_encoder _ refl refl,
          (
            software_encoder _ refl refl,
            (
              software_encoder _ refl refl,
              (
                software_encoder _ refl refl,
                (
                  software_encoder _ refl refl,
                  (
                    software_encoder _ refl refl,
                    (
                      software_encoder _ refl refl,
                      (
                        software_encoder _ refl refl,
                        (
                          software_encoder _ refl refl,
                          (
                            software_encoder _ refl refl,
                            (
                              software_encoder _ refl refl,
                              (
                                software_encoder _ refl refl,
                                (
                                  software_encoder _ refl refl,
                                  (
                                    software_encoder _ refl refl,
                                    (
                                      software_encoder _ refl refl,
                                      (software_encoder _ refl refl, tt),
                                    ),
                                  ),
                                ),
                              ),
                            ),
                          ),
                        ),
                      ),
                    ),
                  ),
                ),
              ),
            ),
          ),
        ),
      ),
    ),
  );
  chain = (software_encoder _ refl refl, (software_encoder _ refl refl, tt));
  guesses = (
    software_encoder _ refl refl,
    (
      software_encoder _ refl refl,
      (
        software_encoder _ refl refl,
        (software_encoder _ refl refl, (software_encoder _ refl refl, tt)),
      ),
    ),
  );
}
