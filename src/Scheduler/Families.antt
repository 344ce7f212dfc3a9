-- ===== src/Scheduler/Families.antt =====
-- The encoder tables of pkg/server/scheduler/encoder_fallback.go and the scan of encoder_parser.go.
use rffmpeg.Base.{
  String, true, false, ◌≡◌, refl, Option, none, some, List, [], ◌∷◌, ◌==◌, arith, All, Bool-cases,
  inl, inr, ◌&&◌, ◌||◌, if◌then◌else◌, eq_iff, subst, ◌⊎◌, and_right,
}
use rffmpeg.Base.Tables.{exists_where}
use rffmpeg.Scheduler.Encoders.{
  CodecFamily, h264, hevc, vp9, av1, vp8, mpeg2, mpeg4, GoLibrary, encoder_priority,
  encoder_family_mapping, lookup, get_codec_family, get_compatible_encoders, scan_args,
  scan_decoded, names_video, is_video_encoder, video_encoders, extract_encoder_from_args,
}

module _ (lib : GoLibrary) where
  priority-family :
      (family : CodecFamily)
      → All (λ e. get_codec_family lib e ≡ some family) (encoder_priority family)
  unfolding encoder_priority get_codec_family lookup encoder_family_mapping
  priority-family h264 = (refl, (refl, (refl, (refl, (refl, (refl, (refl, tt)))))))
  priority-family hevc = (refl, (refl, (refl, (refl, (refl, (refl, (refl, tt)))))))
  priority-family vp9 = (refl, (refl, (refl, (refl, (refl, tt)))))
  priority-family av1 = (refl, (refl, (refl, (refl, (refl, (refl, tt))))))
  priority-family vp8 = (refl, (refl, tt))
  priority-family mpeg2 = (refl, (refl, (refl, tt)))
  priority-family mpeg4 = (refl, tt)

  -- Every encoder that the fallback offers for an encoder of a known family is itself of that family.
  pub compatible-family :
      (encoder : String) (family : CodecFamily)
      → get_codec_family lib encoder ≡ some family
      → All (λ e. get_codec_family lib e ≡ some family) (get_compatible_encoders lib encoder)
  unfolding get_compatible_encoders
  compatible-family encoder family h = rw h (priority-family family)

not_copy : is_video_encoder "copy" ≡ false
unfolding is_video_encoder video_encoders exists_where
not_copy = refl

-- A known video encoder is not the copy directive.
video-copy : (name : String) → is_video_encoder name ≡ true → (name == "copy") ≡ false
video-copy name h = elim (Bool-cases (name == "copy")) [
  | inl e ↦
      ground (arith, subst (λ n. is_video_encoder n ≡ true) ((eq_iff name "copy").0 e) h, not_copy)
  | inr e ↦ e
]

scan-copy : (args : List String) → (scan_args args == "copy") ≡ false
unfolding scan_args
scan-copy [] = refl
scan-copy (arg ∷ []) = refl
scan-copy (arg ∷ (next ∷ rest)) = elim (Bool-cases (names_video arg)) [
  | inl e ↦ rw e (not_passed (Bool-cases (next == "copy")))
  | inr e ↦ rw e (
      known (scan-copy (next ∷ rest))
        (Bool-cases ((arg == "-c" || arg == "-codec") && is_video_encoder next)))
]
  where
    not_passed :
        ((next == "copy") ≡ true) ⊎ ((next == "copy") ≡ false)
        → ((if next == "copy" then "" else next) == "copy") ≡ false
    not_passed (inl h) = rw h refl
    not_passed (inr h) = rw h h

    known :
        ((scan_args (next ∷ rest) == "copy") ≡ false)
        → (((arg == "-c" || arg == "-codec") && is_video_encoder next) ≡ true)
          ⊎ (((arg == "-c" || arg == "-codec") && is_video_encoder next) ≡ false)
        → ((if (arg == "-c" || arg == "-codec") && is_video_encoder next
              then next
              else scan_args (next ∷ rest))
            == "copy")
          ≡ false
    known later (inl h) =
        rw h
          (video-copy next (and_right (arg == "-c" || arg == "-codec") (is_video_encoder next) h))
    known later (inr h) = rw h later

module _ (lib : GoLibrary) where
  -- The encoder found in a job's arguments is never the copy directive, whatever option names it.
  pub extract-copy : (args : String) → (extract_encoder_from_args lib args == "copy") ≡ false
  unfolding extract_encoder_from_args
  extract-copy args = decoded (lib.unmarshal args)
    where
      decoded : (o : Option (List String)) → (scan_decoded o == "copy") ≡ false
      decoded none = refl
      decoded (some args) = scan-copy args
