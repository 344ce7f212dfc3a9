-- ===== src/Worker/Execution/Success.antt =====
-- pkg/worker/retry_executor.go and error_interceptor.go: what a call that reports success left behind.
use rffmpeg.Base.{
  ℕ, zero, suc, ◌≡◌, refl, sym, ap, ◌∙◌, subst, ◌++◌, [], ◌∷◌, String, Bool, true, false, ◌&&◌,
  Option, none, some, List, ◌==◌, not, is_zero, arith, Bool-cases, inl, inr, and_left, and_right, ℤ,
}
use rffmpeg.Worker.{GoLibrary, ErrorType, ExecResult, FfmpegError, InterceptedResult}
use rffmpeg.Worker.Errors.Intercepting.{
  intercept_with_encoder, with_error, with_fallback, is_none_text, is_hardware_encoder,
  detect_software_encoder_in_stderr, analyze,
}
use rffmpeg.Worker.Pruning.{get_prune_recommendations}
use rffmpeg.Worker.Retry.{RetryExecutor}
use rffmpeg.Worker.Execution.{
  RetryAuditEntry, RetryResult, Host, judged, validated, intercept, is_local, sized, launch,
  execute_with_retry,
}
use rffmpeg.Worker.Execution.Outcomes.{IsKept, Outcome, succeeded, gave_up}
use rffmpeg.Worker.Execution.Attempts.{execute_with_retry-Outcome}

error-none : (o : Option String) → is_none_text o ≡ true → o ≡ none
error-none none h = refl
error-none (some x) h = ground arith

-- The run ended with exit code 0 and no error.
pub record IsClean (result : ExecResult) : Type 0 where
  pub exit_zero : is_zero result.exit_code ≡ true
  pub no_error : result.error ≡ none

module _ (analyzed : String → ℤ → Option FfmpegError)
    (recommend : ErrorType → String → List String) where
  with_error-IsClean :
      (result : ExecResult) (err : Option FfmpegError)
      → (with_error analyzed recommend result err).is_success ≡ true
      → IsClean result × (err ≡ none)
  with_error-IsClean result none h = (
    record { exit_zero = and_left _ _ h; no_error = error-none result.error (and_right _ _ h) },
    refl,
  )
  with_error-IsClean result (some err) h = ground arith

  with_error-exec_result :
      (result : ExecResult) (err : Option FfmpegError)
      → (with_error analyzed recommend result err).exec_result ≡ result
  with_error-exec_result result none = refl
  with_error-exec_result result (some err) = refl

  with_fallback-accepted :
      (requested : String) (r : InterceptedResult) (actual : Option String)
      → (with_fallback analyzed recommend requested r actual).is_success ≡ true
      → r.is_success ≡ true
  with_fallback-accepted requested r none h = h
  with_fallback-accepted requested r (some actual) h = elim (Bool-cases (actual == requested)) [
    | inl k ↦ ground (arith, h, k)
    | inr k ↦ ground (arith, h, k)
  ]

  with_fallback-exec_result :
      (requested : String) (r : InterceptedResult) (actual : Option String)
      → (with_fallback analyzed recommend requested r actual).exec_result ≡ r.exec_result
  with_fallback-exec_result requested r none = refl
  with_fallback-exec_result requested r (some actual) = elim (Bool-cases (actual == requested)) [
    | inl k ↦ rw k refl
    | inr k ↦ rw k refl
  ]

  intercept-accepted :
      (result : ExecResult) (requested : String)
      → (intercept_with_encoder analyzed recommend result requested).is_success ≡ true
      → IsClean result
        × ((intercept_with_encoder analyzed recommend result requested).exec_result ≡ result)
  unfolding intercept_with_encoder
  intercept-accepted result requested =
      elim (Bool-cases (
        (with_error analyzed recommend result (analyzed result.stderr result.exit_code)).is_success
        && (not (requested == "") && is_hardware_encoder requested))) [
          | inl k ↦ rw k (λ h. (
            (with_error-IsClean result _ (with_fallback-accepted requested _ _ h)).0,
            with_fallback-exec_result requested _ (detect_software_encoder_in_stderr result.stderr)
                ∙ with_error-exec_result result _,
          ))
          | inr k ↦ rw k (λ h. ((with_error-IsClean result _ h).0, with_error-exec_result result _))
        ]

sized-accepted :
    (output : String) (r : InterceptedResult) (size : Option ℕ)
    → (sized output r size).is_success ≡ true
    → (n : ℕ) × (size ≡ some (suc n)) × (sized output r size ≡ r)
sized-accepted output r none h = ground arith
sized-accepted output r (some zero) h = ground arith
sized-accepted output r (some (suc n)) h = (n, refl, refl)

module _ (World : Type 0) (host : Host World) (go : GoLibrary) (e : RetryExecutor) (output : String)
    (network : Bool) where
  validated-sized :
      (r : InterceptedResult) (w : World)
      → (r.is_success && is_local output network) ≡ true
      → validated World host go e output network r w ≡ sized output r (host.stat output w)
  unfolding validated
  validated-sized r w h = simp h refl

  validated-same :
      (r : InterceptedResult) (w : World)
      → (r.is_success && is_local output network) ≡ false
      → validated World host go e output network r w ≡ r
  unfolding validated
  validated-same r w h = simp h refl

  validated-accepted :
      (r : InterceptedResult) (w : World)
      → is_local output network ≡ true
      → (validated World host go e output network r w).is_success ≡ true
      → (n : ℕ) × (host.stat output w ≡ some (suc n))
        × (validated World host go e output network r w ≡ r)
  validated-accepted r w local h = elim (Bool-cases (r.is_success && is_local output network)) [
    | inl k ↦
        let same = validated-sized r w k in
        let found =
          sized-accepted output r (host.stat output w) (sym (ap (λ x. x.is_success) same) ∙ h) in
        (found.0, found.1, same ∙ found.2)
    | inr k ↦
        let accepted = sym (ap (λ x. x.is_success) (validated-same r w k)) ∙ h in
        ground (arith, accepted, local, k)
  ]

  judged-accepted :
      (run : ExecResult × World) (encoder : String)
      → is_local output network ≡ true
      → (judged World host go e output network run encoder).is_success ≡ true
      → (n : ℕ) × (host.stat output run.1 ≡ some (suc n))
        × IsClean run.0
        × ((judged World host go e output network run encoder).exec_result ≡ run.0)
  unfolding judged intercept
  judged-accepted run encoder local h =
      let v = validated-accepted (intercept go e run.0 encoder) run.1 local h in
      let clean =
        intercept-accepted (analyze go e.analyzer) (get_prune_recommendations e.pruner) run.0
          encoder (sym (ap (λ x. x.is_success) v.2) ∙ h) in
      (v.0, v.1, clean.0, ap (λ x. x.exec_result) v.2 ∙ clean.1)

  Nothing : ℕ → List RetryAuditEntry → World → Type 0
  Nothing n trail w = Unit

  Nothing-kept : IsKept World host go e output network Nothing
  unfolding Nothing
  Nothing-kept = record {
    fail_kept = λ n trail w args a number failed t. tt;
    prune_kept = λ n trail w params pause t. tt;
  }

  -- The call ends with this launch of ffmpeg: its run, with exit code 0 and no error, is the result, and its
  -- arguments and its run stand in the last entry of the trail; nothing is done to the host after it, and the
  -- output file is there and not empty.
  pub record IsLastRun (result : RetryResult) (after : World) : Type 0 where
    pub args : List String
    pub before : World
    pub earlier : List RetryAuditEntry
    pub entry : RetryAuditEntry
    pub size : ℕ
    pub returned_run :
        result.final_result ≡ some (launch World host go e output network args before).0
    pub nothing_after : after ≡ (launch World host go e output network args before).1
    pub clean : IsClean (launch World host go e output network args before).0
    pub trail_is : result.audit_trail ≡ earlier ++ (entry ∷ [])
    pub entry_args : entry.args ≡ args
    pub entry_run : entry.exec_result ≡ (launch World host go e output network args before).0
    pub not_empty : host.stat output after ≡ some (suc size)

  -- A call with a local output that reports success did a launch of ffmpeg last, which ended with exit code 0
  -- and no error: it returns that run, has the arguments and the run in the last entry of its trail, and leaves
  -- an output file that is not empty.
  pub execute_with_retry-success :
      (args : List String) (w : World)
      → is_local output network ≡ true
      → (execute_with_retry World host go e output network args w).0.is_successful ≡ true
      → IsLastRun
          (execute_with_retry World host go e output network args w).0
          (execute_with_retry World host go e output network args w).1
  unfolding Nothing
  execute_with_retry-success args w local =
      success (execute_with_retry World host go e output network args w).0
        (execute_with_retry World host go e output network args w).1
        (execute_with_retry-Outcome World host go e output network Nothing Nothing-kept args w tt)
    where
      success :
          (r : RetryResult) (v : World)
          → Outcome World host go e output network Nothing (suc e.config.max_retries) r v
          → r.is_successful ≡ true
          → IsLastRun r v
      success r v (gave_up n le t) h = ground (arith, h, t.failed)
      success r v (succeeded n before world le kept s) h =
          let j =
            judged-accepted s.run s.encoder local
              (sym (ap (λ x. x.is_success) s.verdict_is) ∙ s.accepted) in
          let result = ap (λ x. x.exec_result) s.verdict_is ∙ j.3 ∙ ap (λ x. x.0) s.run_is in
          record {
            args = s.args;
            before = world;
            earlier = before;
            entry = s.entry;
            size = j.0;
            returned_run = s.final_is ∙ ap some result;
            nothing_after = s.world_is ∙ ap (λ x. x.1) s.run_is;
            clean = subst (λ x. IsClean x.0) s.run_is j.2;
            trail_is = s.trail_is;
            entry_args = s.entry_args;
            entry_run = s.entry_run ∙ result;
            not_empty = ap (host.stat output) s.world_is ∙ j.1;
          }
