-- ===== src/Worker/Execution/Attempts.antt =====
-- pkg/worker/retry_executor.go, ExecuteWithRetry: what each launch of ffmpeg and each pause keep, the whole
-- call keeps.
use rffmpeg.Base.{
  ℕ, zero, suc, ◌+◌, ◌≤◌, ◌≡◌, refl, subst, sym, String, Bool, false, ◌&&◌, Option, none, some,
  List, [], ◌==◌, ltb, not, arith, Bool-cases, inl, inr,
}
use rffmpeg.Worker.{GoLibrary, InterceptedResult, FfmpegError, ExecResult}
use rffmpeg.Worker.Retry.{
  RetryExecutor, determine_stage, Strategy, stage_text, exhausted, software_fallback,
}
use rffmpeg.Worker.Execution.{
  RetryAuditEntry, RetryResult, Host, Progress, Round, returned, broke, again, last_result, launch,
  judged, settle, advance, continue_with, after_failed_attempt, conclude, run_attempt, resume,
  attempts, final_attempt, final_fallback, fallback_attempt, close, finish, start,
  execute_with_retry, gives_up, with_final,
}
use rffmpeg.Worker.Execution.Outcomes.{
  IsKept, IsFailed, IsTracked, Outcome, succeeded, gave_up, Ends, Closed, conclude-returned,
  conclude-failed, succeed-IsSuccess, settle-returned, settle-failed, fail-IsFailed,
  failed_progress,
}

module _ (World : Type 0) (host : Host World) (go : GoLibrary) (e : RetryExecutor) (output : String)
    (network : Bool) (Inv : ℕ → List RetryAuditEntry → World → Type 0)
    (keeps : IsKept World host go e output network Inv) where
  continue-Ends :
      (n : ℕ) (s : Strategy) (p : Progress World)
      → IsTracked World host go e output network Inv (suc n) p
      → Ends World host go e output network Inv
          (suc n)
          (continue_with World host go e output network (suc n) s p)
  unfolding continue_with advance
  continue-Ends n s p t = elim (Bool-cases (stage_text s.next_stage == stage_text exhausted)) [
    | inl h ↦ rw h (suc n, omega arith, t)
    | inr h ↦ rw h (record {
      kept = keeps.prune_kept (suc n) p.result.audit_trail p.world s.pruned_params _ t.kept;
      attempts_are = t.attempts_are;
      failed = t.failed;
    })
  ]

  after_failed_attempt-Ends :
      (n : ℕ) (err : Option FfmpegError) (p : Progress World)
      → IsTracked World host go e output network Inv (suc n) p
      → Ends World host go e output network Inv
          (suc n)
          (after_failed_attempt World host go e output network (suc n) err p)
  unfolding after_failed_attempt
  after_failed_attempt-Ends n err p t = elim (Bool-cases (gives_up err)) [
    | inl h ↦ rw h (suc n, omega arith, t)
    | inr h ↦ rw h (elim (Bool-cases (ltb (suc n) e.config.max_retries)) [
      | inl k ↦ rw k (continue-Ends n _ p t)
      | inr k ↦ rw k t
    ])
  ]

  conclude-Ends :
      (n : ℕ) (r : InterceptedResult) (p : Progress World) (run : ExecResult × World) (w : World)
      → run ≡ launch World host go e output network p.current_args w
      → r ≡ judged World host go e output network run p.current_encoder
      → p.world ≡ run.1
      → Inv n p.result.audit_trail w
      → p.result.is_successful ≡ false
      → Ends World host go e output network Inv
          (suc n)
          (conclude World host go e output network (suc n) r p)
  unfolding failed_progress
  conclude-Ends n r p run w hr hj hw kept failed = elim (Bool-cases r.is_success) [
    | inl h ↦
        subst (Ends World host go e output network Inv (suc n))
          (sym (conclude-returned World host go e output network (suc n) r p h))
          (succeeded n p.result.audit_trail w (omega arith) kept (
            succeed-IsSuccess World host go e output network n n (determine_stage (suc n))
              p.current_args p.current_encoder r p.result w p.world run hr hj h hw refl))
    | inr h ↦
        subst (Ends World host go e output network Inv (suc n))
          (sym (conclude-failed World host go e output network (suc n) r p h))
          (after_failed_attempt-Ends n r.ffmpeg_error
            (failed_progress World host go e output network (suc n) r p)
            (fail-IsFailed World host go e output network Inv keeps n n (determine_stage (suc n))
              p.current_args p.current_encoder r p.result w p.world run hr h hw refl kept failed))
  ]

  run_attempt-Ends :
      (n : ℕ) (p : Progress World)
      → IsTracked World host go e output network Inv n p
      → Ends World host go e output network Inv
          (suc n)
          (run_attempt World host go e output network (suc n) p)
  unfolding run_attempt
  run_attempt-Ends n p t = elim (Bool-cases (host.cancelled p.world)) [
    | inl h ↦ rw h (n, omega arith, t)
    | inr h ↦ rw h (
        conclude-Ends n _ _ (launch World host go e output network p.current_args p.world) p.world
          refl refl refl t.kept t.failed)
  ]

  weaken-Outcome :
      (m n : ℕ) (r : RetryResult) (w : World)
      → m ≤ n
      → Outcome World host go e output network Inv m r w
      → Outcome World host go e output network Inv n r w
  weaken-Outcome m n r w h (succeeded k before world le kept s) =
      succeeded k before world (omega (arith, h, le)) kept s
  weaken-Outcome m n r w h (gave_up k le f) = gave_up k (omega (arith, h, le)) f

  resume-Closed :
      (m n : ℕ) (r : Round World) (next : Progress World → Round World)
      → m ≤ n
      → Ends World host go e output network Inv m r
      → ((p : Progress World)
          → IsTracked World host go e output network Inv m p
          → Closed World host go e output network Inv n (next p))
      → Closed World host go e output network Inv n (resume World host go e output network r next)
  resume-Closed m n (returned r w) next le h k = weaken-Outcome m n r w le h
  resume-Closed m n (broke p) next le h k = (h.0, omega (arith, le, h.1), h.2)
  resume-Closed m n (again p) next le h k = k p h

  attempts-Closed :
      (left n : ℕ) (p : Progress World)
      → IsTracked World host go e output network Inv n p
      → Closed World host go e output network Inv
          (left + n)
          (attempts World host go e output network left (suc n) p)
  unfolding attempts
  attempts-Closed zero n p t = (n, omega arith, t)
  attempts-Closed (suc left) n p t =
      resume-Closed (suc n) (suc left + n) (run_attempt World host go e output network (suc n) p) _
        (omega arith) (run_attempt-Ends n p t)
        (λ q k.
          subst
            (λ b.
              Closed World host go e output network Inv b
                (attempts World host go e output network left (suc (suc n)) q))
            (let le : left + suc n ≡ suc left + n = omega arith in le)
            (attempts-Closed left (suc n) q k))

  abbrev Ending : ℕ → RetryResult × World → Type 0
  Ending bound end = Outcome World host go e output network Inv bound end.0 end.1

  settle-Outcome :
      (n bound : ℕ) (args : List String) (encoder : String) (r : InterceptedResult)
      (result : RetryResult) (w : World) (run : ExecResult × World)
      → suc n ≤ bound
      → run ≡ launch World host go e output network args w
      → r ≡ judged World host go e output network run encoder
      → IsFailed World host go e output network Inv n result w
      → Ending bound (settle World host go e output network args encoder run.1 r result)
  settle-Outcome n bound args encoder r result w run le hr hj t = elim (Bool-cases r.is_success) [
    | inl h ↦
        subst (Ending bound)
          (sym (settle-returned World host go e output network args encoder run.1 r result h))
          (succeeded n result.audit_trail w le t.kept (
            succeed-IsSuccess World host go e output network n result.total_attempts
              software_fallback args encoder r result w run.1 run hr hj h refl t.attempts_are))
    | inr h ↦
        subst (Ending bound)
          (sym (settle-failed World host go e output network args encoder run.1 r result h))
          (gave_up (suc n) le (
            fail-IsFailed World host go e output network Inv keeps n result.total_attempts
              software_fallback args encoder r result w run.1 run hr h refl t.attempts_are t.kept
              t.failed))
  ]

  fallback_attempt-Outcome :
      (n bound : ℕ) (args : Option (List String)) (p : Progress World)
      → suc n ≤ bound
      → IsTracked World host go e output network Inv n p
      → Ending bound (fallback_attempt World host go e output network args p)
  unfolding final_attempt
  fallback_attempt-Outcome n bound none p le t = gave_up n (omega (arith, le)) t
  fallback_attempt-Outcome n bound (some args) p le t =
      settle-Outcome n bound args _ _ _ p.world (launch World host go e output network args p.world)
        le refl refl (record { kept = t.kept; attempts_are = t.attempts_are; failed = t.failed })

  final_fallback-Outcome :
      (n bound : ℕ) (p : Progress World)
      → suc n ≤ bound
      → IsTracked World host go e output network Inv n p
      → Ending bound (final_fallback World host go e output network p)
  unfolding final_fallback
  final_fallback-Outcome n bound p le t = elim (Bool-cases (host.cancelled p.world)) [
    | inl h ↦ rw h (gave_up n (omega (arith, le)) t)
    | inr h ↦
        rw h
          (elim (Bool-cases
            (e.config.enable_software_fallback && not p.result.used_software_encoder)) [
              | inl k ↦ rw k (fallback_attempt-Outcome n bound _ p le t)
              | inr k ↦ rw k (gave_up n (omega (arith, le)) t)
            ])
  ]

  close-Outcome :
      (bound : ℕ) (end : RetryResult × World)
      → Ending bound end
      → Ending bound (close World host go e output network end)
  unfolding close
  close-Outcome bound (r, w) (succeeded n before world le kept s) =
      simp s.successful (succeeded n before world le kept s)
  close-Outcome bound (r, w) (gave_up n le t) =
      simp t.failed (with_final-Outcome (last_result r.audit_trail))
    where
      with_final-Outcome :
          (last : Option ExecResult)
          → Outcome World host go e output network Inv bound
              (with_final World host go e output network r last)
              w
      with_final-Outcome none = gave_up n le t
      with_final-Outcome (some x) =
          gave_up n le (record { kept = t.kept; attempts_are = t.attempts_are; failed = t.failed })

  -- A call makes at most MaxRetries attempts and one more.
  pub execute_with_retry-Outcome :
      (args : List String) (w : World)
      → Inv 0 [] w
      → Ending (suc e.config.max_retries) (execute_with_retry World host go e output network args w)
  unfolding execute_with_retry start finish
  execute_with_retry-Outcome args w base = finished _ (
      attempts-Closed e.config.max_retries 0 (start World host go e output network args w)
        (record { kept = base; attempts_are = refl; failed = refl }))
    where
      finished :
          (end : Round World)
          → Closed World host go e output network Inv (e.config.max_retries + 0) end
          → Ending (suc e.config.max_retries) (finish World host go e output network end)
      finished (returned r v) c = weaken-Outcome _ _ r v (omega arith) c
      finished (again p) c = absurd c
      finished (broke p) (n, le, t) = close-Outcome (suc e.config.max_retries) _ (
          final_fallback-Outcome n (suc e.config.max_retries) _ (omega (arith, le))
            (record { kept = t.kept; attempts_are = t.attempts_are; failed = t.failed }))
