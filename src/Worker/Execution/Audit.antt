-- ===== src/Worker/Execution/Audit.antt =====
-- pkg/worker/retry_executor.go, ExecuteWithRetry: the audit trail of a call, and the launches of ffmpeg that
-- it accounts for.
use rffmpeg.Base.{
  ℕ, suc, ◌+◌, ◌≤◌, ◌≡◌, refl, String, Bool, true, false, List, [], ◌∷◌, ◌++◌, arith, length,
  length-append,
}
use rffmpeg.Worker.{GoLibrary}
use rffmpeg.Worker.Retry.{RetryExecutor}
use rffmpeg.Worker.Execution.{
  RetryAuditEntry, RetryResult, Host, set_last_pruned, launch, clear_stale_output, is_local,
  execute_with_retry,
}
use rffmpeg.Worker.Execution.Outcomes.{IsKept, Outcome, succeeded, gave_up}
use rffmpeg.Worker.Execution.Attempts.{execute_with_retry-Outcome}
use rffmpeg.Base.{Bool-cases, inl, inr}

-- Failures, numbered from k.
abbrev pub FailedFrom : ℕ → List RetryAuditEntry → Type 0
FailedFrom k [] = Unit
FailedFrom k (a ∷ es) = (a.attempt_number ≡ k) × (a.success ≡ false) × FailedFrom (suc k) es

-- Entries numbered from k: the last one succeeded just if `ok`, the others failed.
abbrev pub IsAudit : ℕ → Bool → List RetryAuditEntry → Type 0
IsAudit k ok [] = ok ≡ false
IsAudit k ok (a ∷ []) = (a.attempt_number ≡ k) × (a.success ≡ ok)
IsAudit k ok (a ∷ (b ∷ rest)) =
    (a.attempt_number ≡ k) × (a.success ≡ false) × IsAudit (suc k) ok (b ∷ rest)

FailedFrom-append :
    (k : ℕ) (es : List RetryAuditEntry) (a : RetryAuditEntry)
    → a.attempt_number ≡ length es + k
    → a.success ≡ false
    → FailedFrom k es
    → FailedFrom k (es ++ (a ∷ []))
FailedFrom-append k [] a h f t = (omega (arith, h), f, tt)
FailedFrom-append k (b ∷ es) a h f (t0, t1, t2) =
    (t0, t1, FailedFrom-append (suc k) es a (omega (arith, h)) f t2)

FailedFrom-set_last_pruned :
    (k : ℕ) (params : List String) (es : List RetryAuditEntry)
    → FailedFrom k es
    → FailedFrom k (set_last_pruned params es)
unfolding set_last_pruned
FailedFrom-set_last_pruned k params [] t = tt
FailedFrom-set_last_pruned k params (a ∷ []) t = t
FailedFrom-set_last_pruned k params (a ∷ (b ∷ es)) (t0, t1, t2) =
    (t0, t1, FailedFrom-set_last_pruned (suc k) params (b ∷ es) t2)

length-set_last_pruned :
    (params : List String) (es : List RetryAuditEntry)
    → length (set_last_pruned params es) ≡ length es
unfolding set_last_pruned
length-set_last_pruned params [] = refl
length-set_last_pruned params (a ∷ []) = refl
length-set_last_pruned params (a ∷ (b ∷ es)) = omega (arith, length-set_last_pruned params (b ∷ es))

FailedFrom-IsAudit : (k : ℕ) (es : List RetryAuditEntry) → FailedFrom k es → IsAudit k false es
FailedFrom-IsAudit k [] t = refl
FailedFrom-IsAudit k (a ∷ []) t = (t.0, t.1)
FailedFrom-IsAudit k (a ∷ (b ∷ es)) (t0, t1, t2) = (t0, t1, FailedFrom-IsAudit (suc k) (b ∷ es) t2)

IsAudit-append :
    (k : ℕ) (es : List RetryAuditEntry) (a : RetryAuditEntry)
    → a.attempt_number ≡ length es + k
    → a.success ≡ true
    → FailedFrom k es
    → IsAudit k true (es ++ (a ∷ []))
IsAudit-append k [] a h s t = (omega (arith, h), s)
IsAudit-append k (b ∷ []) a h s (t0, t1, t2) = (t0, t1, (omega (arith, h), s))
IsAudit-append k (b ∷ (c ∷ es)) a h s (t0, t1, t2) =
    (t0, t1, IsAudit-append (suc k) (c ∷ es) a (omega (arith, h)) s t2)

module _ (World : Type 0) (host : Host World) (launches : World → ℕ) where
  -- `launches` counts the runs of ffmpeg, and nothing else adds to it.
  pub record CountsLaunches : Type 0 where
    pub announced : (w : World) → launches (host.announce w) ≡ launches w
    pub executed :
        (args : List String) (w : World) → launches (host.execute args w).1 ≡ suc (launches w)
    pub removed : (path : String) (w : World) → launches (host.remove path w) ≡ launches w
    pub waited : (pause : ℕ) (w : World) → launches (host.wait pause w) ≡ launches w

module _ (World : Type 0) (host : Host World) (go : GoLibrary) (e : RetryExecutor) (output : String)
    (network : Bool) where
  module _ (launches : World → ℕ) (counts : CountsLaunches World host launches) (base : ℕ) where
    abbrev Counted : ℕ → List RetryAuditEntry → World → Type 0
    Counted n trail w = (length trail ≡ n) × FailedFrom 1 trail × (launches w ≡ n + base)

    launches-clear :
        (w : World) → launches (clear_stale_output World host go e output network w) ≡ launches w
    unfolding clear_stale_output
    launches-clear w = elim (Bool-cases (is_local output network)) [
      | inl h ↦ rw h (counts.removed output w)
      | inr h ↦ rw h refl
    ]

    launches-launch :
        (args : List String) (w : World)
        → launches (launch World host go e output network args w).1 ≡ suc (launches w)
    unfolding launch
    launches-launch args w = omega (
      arith,
      counts.executed args (clear_stale_output World host go e output network (host.announce w)),
      launches-clear (host.announce w),
      counts.announced w,
    )

    Counted-kept : IsKept World host go e output network Counted
    Counted-kept = record {
      fail_kept = λ n trail w args a number failed t. (
        omega (arith, length-append trail (a ∷ []), t.0),
        FailedFrom-append 1 trail a (omega (arith, number, t.0)) failed t.1,
        omega (arith, launches-launch args w, t.2),
      );
      prune_kept = λ n trail w params pause t. (
        omega (arith, length-set_last_pruned params trail, t.0),
        FailedFrom-set_last_pruned 1 params trail t.1,
        omega (arith, counts.waited pause w, t.2),
      );
    }

  -- A call launches ffmpeg once for each attempt it reports, at most MaxRetries times and once more, and its
  -- audit trail has one entry for each, numbered from 1: all failed but the last, which succeeded just if
  -- the call did. The counter is one that each run increases by one and nothing else changes.
  pub execute_with_retry-IsAudit :
      (launches : World → ℕ)
      → CountsLaunches World host launches
      → (args : List String) (w : World)
      → let end = execute_with_retry World host go e output network args w in
        (launches end.1 ≡ end.0.total_attempts + launches w)
        × (end.0.total_attempts ≤ suc e.config.max_retries)
        × (length end.0.audit_trail ≡ end.0.total_attempts)
        × IsAudit 1 end.0.is_successful end.0.audit_trail
  execute_with_retry-IsAudit launches counts args w =
      audited (execute_with_retry World host go e output network args w).0
        (execute_with_retry World host go e output network args w).1
        (execute_with_retry-Outcome World host go e output network
          (Counted launches counts (launches w)) (Counted-kept launches counts (launches w)) args w
          (refl, tt, omega arith))
    where
      audited :
          (r : RetryResult) (v : World)
          → Outcome World host go e output network
              (Counted launches counts (launches w))
              (suc e.config.max_retries)
              r
              v
          → (launches v ≡ r.total_attempts + launches w)
            × (r.total_attempts ≤ suc e.config.max_retries)
            × (length r.audit_trail ≡ r.total_attempts)
            × IsAudit 1 r.is_successful r.audit_trail
      audited r v (gave_up n le t) = (
        omega (arith, t.kept.2, t.attempts_are),
        omega (arith, t.attempts_are, le),
        omega (arith, t.kept.0, t.attempts_are),
        rw t.failed (FailedFrom-IsAudit 1 r.audit_trail t.kept.1),
      )
      audited r v (succeeded n before world le kept s) =
          let run_launches : launches v ≡ suc (launches world) =
            rw (s.world_is, s.run_is) (launches-launch launches counts (launches w) s.args world) in
          (
            omega (arith, run_launches, kept.2, s.attempts_are),
            omega (arith, s.attempts_are, le),
            rw s.trail_is
                (omega (arith, length-append before (s.entry ∷ []), kept.0, s.attempts_are)),
            rw (s.successful, s.trail_is)
                (IsAudit-append 1 before s.entry (omega (arith, s.numbered, kept.0)) s.entry_success
                  kept.1),
          )
