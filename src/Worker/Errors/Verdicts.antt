-- ===== src/Worker/Errors/Verdicts.antt =====
-- pkg/worker/error_analyzer.go, Analyze: no failure goes unreported.
use rffmpeg.Base.{
  ℤ, ◌≡◌, refl, String, true, false, Option, none, some, List, ◌==◌, is_zero, is_some, Bool-cases,
  inl, inr,
}
use rffmpeg.Worker.{GoLibrary, ErrorType, Regexp}
use rffmpeg.Worker.Errors.Messages.{CompiledPattern}
use rffmpeg.Worker.Errors.Intercepting.{signal_name, analyze, crash_or, matched_or, first_match}

module _ (go : GoLibrary) (patterns : List CompiledPattern) (stderr : String) (code : ℤ) where
  matched-nonzero :
      (found : Option (ErrorType × Regexp))
      → is_zero code ≡ false
      → is_some (matched_or go found code stderr) ≡ true
  matched-nonzero (some x) h = refl
  matched-nonzero none h = rw h refl

  crash-nonzero :
      (sig : Option String)
      → is_zero code ≡ false
      → is_some (crash_or go sig patterns stderr code) ≡ true
  crash-nonzero (some s) h = refl
  crash-nonzero none h = matched-nonzero (first_match go patterns stderr) h

  -- A run that ends with another exit code than 0 has an error, whatever it printed.
  pub analyze-nonzero : is_zero code ≡ false → is_some (analyze go patterns stderr code) ≡ true
  unfolding analyze
  analyze-nonzero h = elim (Bool-cases (stderr == "")) [
    | inl k ↦ rw (k, h) (crash-nonzero (signal_name code) h)
    | inr k ↦ rw k (crash-nonzero (signal_name code) h)
  ]
