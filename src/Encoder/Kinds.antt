-- ===== src/Encoder/Kinds.antt =====
-- pkg/encoder/types.go and pkg/worker/encoder_fallback.go: the built-in hardware encoders.
use rffmpeg.Base.{◌≡◌, refl, String, true, false, ◌==◌, All, member-All}
use rffmpeg.Base.Tables.{exists_where}
use rffmpeg.Encoder.{codec_format, hardware_encoders, is_hardware, gpu_vendor}
use rffmpeg.Worker.Errors.Intercepting.{is_hardware_encoder, hardware_suffixes}

-- An encoder that is known as hardware everywhere: by its suffix, with a vendor and a codec format.
abbrev pub IsHardware : String → Type 0
IsHardware e =
    (is_hardware_encoder e ≡ true)
    × ((gpu_vendor e == "none") ≡ false)
    × ((codec_format e == "") ≡ false)

hardware_encoders-IsHardware : All IsHardware hardware_encoders
unfolding hardware_encoders is_hardware_encoder hardware_suffixes gpu_vendor codec_format
    exists_where
hardware_encoders-IsHardware = (
  (refl, refl, refl),
  (
    (refl, refl, refl),
    (
      (refl, refl, refl),
      (
        (refl, refl, refl),
        (
          (refl, refl, refl),
          (
            (refl, refl, refl),
            (
              (refl, refl, refl),
              (
                (refl, refl, refl),
                (
                  (refl, refl, refl),
                  (
                    (refl, refl, refl),
                    (
                      (refl, refl, refl),
                      (
                        (refl, refl, refl),
                        (
                          (refl, refl, refl),
                          (
                            (refl, refl, refl),
                            (
                              (refl, refl, refl),
                              ((refl, refl, refl), ((refl, refl, refl), ((refl, refl, refl), tt))),
                            ),
                          ),
                        ),
                      ),
                    ),
                  ),
                ),
              ),
            ),
          ),
        ),
      ),
    ),
  ),
)

-- A built-in hardware encoder is one for the worker's fallback too, and it has a vendor and a codec format.
pub is_hardware-IsHardware : (e : String) → is_hardware e ≡ true → IsHardware e
unfolding is_hardware
is_hardware-IsHardware e h =
    member-All IsHardware hardware_encoders hardware_encoders-IsHardware e h
