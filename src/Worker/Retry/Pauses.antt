-- ===== src/Worker/Retry/Pauses.antt =====
-- pkg/worker/retry_executor.go, applyRetryInterval: the pause before an attempt.
use rffmpeg.Base.{
  ℕ, zero, suc, ◌-◌, ◌*◌, ◌^◌, ◌≤◌, ◌≡◌, sym, subst, ap, ◌∙◌, true, min, ltb, ltb→lt, arith,
  Bool-cases, inl, inr,
}
use native.Mathlib.Nat.{mul_assoc, pow-succ', one-le-pow, mul-le-mul_left}
use rffmpeg.Worker.Retry.{RetryConfig, doubled, retry_interval}

scaled : (n i : ℕ) → i * 2 * 2 ^ n ≡ i * 2 ^ suc n
scaled n i = mul_assoc i 2 (2 ^ n) ∙ ap (λ x. i * x) (sym (pow-succ' 2 n))

scaled-le : (n i : ℕ) → i * 2 ≤ i * 2 ^ suc n
scaled-le n i =
    subst (λ x. i * 2 ≤ x) (scaled n i)
      (let h : i * 2 * 1 ≤ i * 2 * 2 ^ n = mul-le-mul_left (i * 2) (one-le-pow n 2 (omega arith)) in
        omega (arith, h))

doubled-min :
    (limit rounds interval : ℕ)
    → interval ≤ limit
    → doubled limit rounds interval ≡ min (interval * 2 ^ rounds) limit
unfolding doubled
doubled-min limit zero interval h = omega (arith, h)
doubled-min limit (suc rounds) interval h = elim (Bool-cases (ltb limit (interval * 2))) [
  | inl k ↦ rw k (omega (arith, ltb→lt limit (interval * 2) k, scaled-le rounds interval))
  | inr k ↦ rw k (
      doubled-min limit rounds (interval * 2) (ground (arith, k))
      ∙ ap (λ x. min x limit) (scaled rounds interval))
]

-- With backoff, and an initial interval that is no longer than the longest, the pause after an attempt is the
-- initial interval doubled once for each attempt before it, cut off at the longest.
pub retry_interval-min :
    (c : RetryConfig) (attempt : ℕ)
    → c.use_exponential_backoff ≡ true
    → c.initial_interval ≤ c.max_interval
    → retry_interval c attempt ≡ min (c.initial_interval * 2 ^ (attempt - 1)) c.max_interval
unfolding retry_interval
retry_interval-min c attempt backoff h =
    simp backoff (doubled-min c.max_interval (attempt - 1) c.initial_interval h)
