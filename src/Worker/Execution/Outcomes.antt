-- ===== src/Worker/Execution/Outcomes.antt =====
-- pkg/worker/retry_executor.go, ExecuteWithRetry: where a call can end, and the two ways an attempt ends.
use rffmpeg.Base.{
  ℕ, suc, ◌≤◌, ◌≡◌, refl, subst, sym, ap, ◌∙◌, String, Bool, true, false, some, List, [], ◌∷◌, ◌++◌,
}
use rffmpeg.Worker.{GoLibrary, InterceptedResult, ExecResult}
use rffmpeg.Worker.Retry.{RetryExecutor, RetryStage, determine_stage, software_fallback}
use rffmpeg.Worker.Execution.{
  RetryAuditEntry, RetryResult, Host, Progress, Round, returned, broke, again, set_last_pruned,
  launch, judged, settle, succeed, fail, after_failed_attempt, conclude, audit_entry,
}

module _ (World : Type 0) (host : Host World) (go : GoLibrary) (e : RetryExecutor) (output : String)
    (network : Bool) where
  -- A launch and the verdict on it, after `before` of the trail.
  pub record IsSuccess (n : ℕ) (before : List RetryAuditEntry) (world : World)
      (result : RetryResult) (after : World) : Type 0 where
    pub run : ExecResult × World
    pub verdict : InterceptedResult
    pub entry : RetryAuditEntry
    pub args : List String
    pub encoder : String
    pub run_is : run ≡ launch World host go e output network args world
    pub verdict_is : verdict ≡ judged World host go e output network run encoder
    pub accepted : verdict.is_success ≡ true
    pub world_is : after ≡ run.1
    pub numbered : entry.attempt_number ≡ suc n
    pub entry_success : entry.success ≡ true
    pub entry_args : entry.args ≡ args
    pub entry_run : entry.exec_result ≡ verdict.exec_result
    pub trail_is : result.audit_trail ≡ before ++ (entry ∷ [])
    pub attempts_are : result.total_attempts ≡ suc n
    pub successful : result.is_successful ≡ true
    pub final_is : result.final_result ≡ some verdict.exec_result

module _ (World : Type 0) (host : Host World) (go : GoLibrary) (e : RetryExecutor) (output : String)
    (network : Bool) where
  pub succeed-IsSuccess :
      (n m : ℕ) (stage : RetryStage) (args : List String) (encoder : String) (r : InterceptedResult)
      (result : RetryResult) (w after : World) (run : ExecResult × World)
      → run ≡ launch World host go e output network args w
      → r ≡ judged World host go e output network run encoder
      → r.is_success ≡ true
      → after ≡ run.1
      → m ≡ n
      → IsSuccess World host go e output network n result.audit_trail w
          (succeed World host go e output network stage (suc m) args encoder r result)
          after
  unfolding succeed
  succeed-IsSuccess n m stage args encoder r result w after run hr hj h ha hm = record {
    run = run;
    verdict = r;
    entry = audit_entry stage (suc m) args encoder r;
    args = args;
    encoder = encoder;
    run_is = hr;
    verdict_is = hj;
    accepted = h;
    world_is = ha;
    numbered = ap suc hm;
    entry_success = h;
    entry_args = refl;
    entry_run = refl;
    trail_is = refl;
    attempts_are = ap suc hm;
    successful = refl;
    final_is = refl;
  }

  pub conclude-returned :
      (n : ℕ) (r : InterceptedResult) (p : Progress World)
      → r.is_success ≡ true
      → conclude World host go e output network n r p
        ≡ returned
            (succeed World host go e output network
              (determine_stage n)
              n
              p.current_args
              p.current_encoder
              r
              p.result)
            p.world
  unfolding conclude
  conclude-returned n r p h = rw h refl

  unfoldable pub failed_progress : ℕ → InterceptedResult → Progress World → Progress World
  failed_progress n r p = record p {
    result =
        fail World host go e output network (determine_stage n) n p.current_args p.current_encoder r
          p.result;
  }

  pub conclude-failed :
      (n : ℕ) (r : InterceptedResult) (p : Progress World)
      → r.is_success ≡ false
      → conclude World host go e output network n r p
        ≡ after_failed_attempt World host go e output network n r.ffmpeg_error
            (failed_progress n r p)
  unfolding conclude failed_progress
  conclude-failed n r p h = rw h refl

  pub settle-returned :
      (args : List String) (encoder : String) (w : World) (r : InterceptedResult)
      (result : RetryResult)
      → r.is_success ≡ true
      → settle World host go e output network args encoder w r result ≡ (
        succeed World host go e output network software_fallback
            (suc result.total_attempts)
            args
            encoder
            r
            result,
        w,
      )
  unfolding settle
  settle-returned args encoder w r result h = rw h refl

  pub settle-failed :
      (args : List String) (encoder : String) (w : World) (r : InterceptedResult)
      (result : RetryResult)
      → r.is_success ≡ false
      → settle World host go e output network args encoder w r result ≡ (
        fail World host go e output network software_fallback
            (suc result.total_attempts)
            args
            encoder
            r
            result,
        w,
      )
  unfolding settle
  settle-failed args encoder w r result h = rw h refl

-- `Inv n trail world` after `n` failed attempts.
module _ (World : Type 0) (host : Host World) (go : GoLibrary) (e : RetryExecutor) (output : String)
    (network : Bool) (Inv : ℕ → List RetryAuditEntry → World → Type 0) where
  pub record IsKept : Type 0 where
    pub fail_kept :
        (n : ℕ) (trail : List RetryAuditEntry) (w : World) (args : List String)
        (a : RetryAuditEntry)
        → a.attempt_number ≡ suc n
        → a.success ≡ false
        → Inv n trail w
        → Inv (suc n) (trail ++ (a ∷ [])) (launch World host go e output network args w).1
    pub prune_kept :
        (n : ℕ) (trail : List RetryAuditEntry) (w : World) (params : List String) (pause : ℕ)
        → Inv n trail w
        → Inv n (set_last_pruned params trail) (host.wait pause w)

  pub record IsFailed (n : ℕ) (result : RetryResult) (w : World) : Type 0 where
    pub kept : Inv n result.audit_trail w
    pub attempts_are : result.total_attempts ≡ n
    pub failed : result.is_successful ≡ false

  abbrev pub IsTracked : ℕ → Progress World → Type 0
  IsTracked n p = IsFailed n p.result p.world

  -- The outcomes of a call within `bound` attempts.
  pub data Outcome (bound : ℕ) (result : RetryResult) (w : World) : Type 0 where
    succeeded :
        (n : ℕ) (before : List RetryAuditEntry) (world : World)
        → suc n ≤ bound
        → Inv n before world
        → IsSuccess World host go e output network n before world result w
        → Outcome bound result w
    gave_up : (n : ℕ) → n ≤ bound → IsFailed n result w → Outcome bound result w

  abbrev pub Ends : ℕ → Round World → Type 0
  Ends n (returned result w) = Outcome n result w
  Ends n (broke p) = (m : ℕ) × (m ≤ n) × IsTracked m p
  Ends n (again p) = IsTracked n p

  -- After the loop, nothing is to be done again.
  abbrev pub Closed : ℕ → Round World → Type 0
  Closed n (returned result w) = Outcome n result w
  Closed n (broke p) = (m : ℕ) × (m ≤ n) × IsTracked m p
  Closed n (again p) = ⊥

  module _ (keeps : IsKept) where
    pub fail-IsFailed :
        (n m : ℕ) (stage : RetryStage) (args : List String) (encoder : String)
        (r : InterceptedResult) (result : RetryResult) (w after : World) (run : ExecResult × World)
        → run ≡ launch World host go e output network args w
        → r.is_success ≡ false
        → after ≡ run.1
        → m ≡ n
        → Inv n result.audit_trail w
        → result.is_successful ≡ false
        → IsFailed
            (suc n)
            (fail World host go e output network stage (suc m) args encoder r result)
            after
    unfolding fail
    fail-IsFailed n m stage args encoder r result w after run hr h ha hm kept failed = record {
      kept =
          subst
            (λ v.
              Inv (suc n) (result.audit_trail ++ (audit_entry stage (suc m) args encoder r ∷ [])) v)
            (ap (λ x. x.1) (sym hr) ∙ sym ha)
            (keeps.fail_kept n result.audit_trail w args _ (ap suc hm) h kept);
      attempts_are = ap suc hm;
      failed = failed;
    }
