-- ===== src/Worker/Execution/Cancelled.antt =====
-- pkg/worker/retry_executor.go, ExecuteWithRetry: calls that stop early, at a cancelled context and at an
-- error that no retry can mend.
use rffmpeg.Base.{
  ℕ, zero, suc, ◌≡◌, refl, ◌∙◌, String, Bool, true, false, List, [], Bool-cases, inl, inr, some,
}
use rffmpeg.Worker.{GoLibrary, InterceptedResult, ExecResult}
use rffmpeg.Worker.Retry.{RetryExecutor, exhausted, extract_encoder}
use rffmpeg.Worker.Execution.{
  RetryResult, Host, Progress, broke, launch, fail, judged, gives_up, after_failed_attempt,
  run_attempt, attempts, final_fallback, close, finish, start, execute_with_retry, last_result,
}
use rffmpeg.Worker.Execution.Outcomes.{conclude-failed, failed_progress}

module _ (World : Type 0) (host : Host World) (go : GoLibrary) (e : RetryExecutor) (output : String)
    (network : Bool) where
  attempts-cancelled :
      (left n : ℕ) (p : Progress World)
      → host.cancelled p.world ≡ true
      → attempts World host go e output network left n p ≡ broke p
  unfolding attempts run_attempt
  attempts-cancelled zero n p h = refl
  attempts-cancelled (suc left) n p h = rw h refl

  -- What a failed call without a final fallback returns.
  unfoldable abandoned : Progress World → RetryResult × World
  unfolding close
  abandoned p =
      close World host go e output network
        (record p.result { final_stage = exhausted; final_encoder = p.current_encoder }, p.world)

  finish-cancelled :
      (p : Progress World)
      → host.cancelled p.world ≡ true
      → finish World host go e output network (broke p) ≡ abandoned p
  unfolding finish final_fallback abandoned
  finish-cancelled p h = rw h refl

  finish-disabled :
      (p : Progress World)
      → e.config.enable_software_fallback ≡ false
      → finish World host go e output network (broke p) ≡ abandoned p
  unfolding finish final_fallback abandoned
  finish-disabled p h = elim (Bool-cases (host.cancelled p.world)) [
    | inl k ↦ rw k refl
    | inr k ↦ rw (k, h) refl
  ]

  -- A call whose context is already cancelled runs nothing: the host is as before, no attempt is reported
  -- and the call fails.
  pub execute_with_retry-cancelled :
      (args : List String) (w : World)
      → host.cancelled w ≡ true
      → let end = execute_with_retry World host go e output network args w in
        (end.1 ≡ w)
        × (end.0.total_attempts ≡ 0)
        × (end.0.audit_trail ≡ [])
        × (end.0.is_successful ≡ false)
  unfolding execute_with_retry start abandoned close last_result
  execute_with_retry-cancelled args w h =
      rw
        (
          attempts-cancelled e.config.max_retries 1 (start World host go e output network args w) h,
          finish-cancelled (start World host go e output network args w) h,
        )
        (refl, refl, refl, refl)

  -- What the first attempt leaves behind for the loop, and its verdict.
  abbrev pub first_run : List String → World → ExecResult × World
  first_run args w = launch World host go e output network args w

  abbrev pub first_verdict : List String → World → InterceptedResult
  first_verdict args w =
      judged World host go e output network (first_run args w) (extract_encoder e args)

  run_attempt-gives_up :
      (n : ℕ) (p : Progress World)
      → host.cancelled p.world ≡ false
      → let run = launch World host go e output network p.current_args p.world in
        let r = judged World host go e output network run p.current_encoder in
        r.is_success ≡ false
        → gives_up r.ffmpeg_error ≡ true
        → run_attempt World host go e output network n p
          ≡ broke (failed_progress World host go e output network n r (record p { world = run.1 }))
  unfolding run_attempt after_failed_attempt
  run_attempt-gives_up n p open_context failed h =
      rw open_context (conclude-failed World host go e output network n _ _ failed ∙ rw h refl)

  attempts-gives_up :
      (rounds left : ℕ) (p q : Progress World)
      → rounds ≡ suc left
      → run_attempt World host go e output network 1 p ≡ broke q
      → attempts World host go e output network rounds 1 p ≡ broke q
  unfolding attempts
  attempts-gives_up rounds left p q hr h = rw (hr, h) refl

  -- Where the final fallback is switched off, an error that is not retryable ends the call after its first
  -- attempt: one launch, one reported attempt, and a failure. At least one retry is configured.
  pub execute_with_retry-gives_up :
      (left : ℕ) (args : List String) (w : World)
      → e.config.max_retries ≡ suc left
      → e.config.enable_software_fallback ≡ false
      → host.cancelled w ≡ false
      → (first_verdict args w).is_success ≡ false
      → gives_up (first_verdict args w).ffmpeg_error ≡ true
      → let end = execute_with_retry World host go e output network args w in
        (end.1 ≡ (first_run args w).1)
        × (end.0.total_attempts ≡ 1)
        × (end.0.is_successful ≡ false)
        × (end.0.final_result ≡ some (first_verdict args w).exec_result)
  unfolding execute_with_retry start abandoned close last_result failed_progress fail
  execute_with_retry-gives_up left args w retries disabled open_context failed h =
      let p = start World host go e output network args w in
      rw
        (
          attempts-gives_up e.config.max_retries left p _ retries
              (run_attempt-gives_up 1 p open_context failed h),
          finish-disabled _ disabled,
        )
        (refl, refl, refl, refl)
