-- ===== src/RateLimit/Laws.antt =====
-- The counts of pkg/server/ratelimit/counter.go stay within the limits and belong to their clients.
use rffmpeg.Base.{
  max, All, ℕ, ◌+◌, ◌-◌, ◌≤◌, String, true, ◌≡◌, refl, ap, ◌∙◌, none, some, List, [], ◌∷◌, ◌==◌,
  arith, leb, if◌then◌else◌, Bool-cases, Option-cases, inl, inr, eq_iff, eq_refl,
}
use rffmpeg.RateLimit.{
  Counter, count_of, client_of, remove, put, client_count, try_increment, register_job, decrement,
  release, decrement_by_job,
}

count-remove :
    (x k : String) (m : List (String × ℕ))
    → count_of x (remove k m) ≡ (if k == x then 0 else count_of x m)
unfolding count_of remove
count-remove x k [] = ground arith
count-remove x k ((k', n) ∷ m) =
    ground (arith, count-remove x k m, eq_iff k' k, eq_iff k x, eq_iff k' x)

count-put :
    (x k : String) (n : ℕ) (m : List (String × ℕ))
    → count_of x (put k n m) ≡ (if k == x then n else count_of x m)
unfolding put count_of
count-put x k n m = ground (arith, count-remove x k m)

client-remove : (job : String) (m : List (String × String)) → client_of job (remove job m) ≡ none
unfolding client_of remove
client-remove job [] = refl
client-remove job ((k, c) ∷ m) = ground (arith, client-remove job m)

try_increment-count :
    (x client : String) (limit : ℕ) (c : Counter)
    → client_count x (try_increment client limit c).0 ≤ max limit (client_count x c)
unfolding client_count try_increment
try_increment-count x client limit c = elim (Bool-cases (leb limit (count_of client c.counts))) [
  | inl e ↦ rw e (omega arith)
  | inr e ↦ rw (e, count-put) (ground (arith, eq_iff client x))
]

decrement-count :
    (x client : String) (c : Counter)
    → client_count x (decrement client c).0
      ≡ (if client == x then client_count x c - 1 else client_count x c)
unfolding client_count decrement
decrement-count x client c = elim (Bool-cases (leb (count_of client c.counts) 1)) [
  | inl e ↦ rw (e, count-remove) (ground (arith, eq_iff client x))
  | inr e ↦ rw (e, count-put) (ground (arith, eq_iff client x))
]

decrement_by_job-le :
    (x job : String) (c : Counter) → client_count x (decrement_by_job job c).0 ≤ client_count x c
unfolding decrement_by_job client_count
decrement_by_job-le x job c = elim (Option-cases (client_of job c.job_client)) [
  | inl e ↦ rw e (omega arith)
  | inr (client, e) ↦
      rw e (
        ground
          (arith, decrement-count x client (record c { job_client = remove job c.job_client })))
]

register_job-count :
    (x client job : String) (c : Counter)
    → client_count x (register_job client job c) ≡ client_count x c
unfolding client_count register_job
register_job-count x client job c = refl

-- What the server does with the counter: it admits a request, notes its job, or releases it.
pub data Use : Type 0 where
  admits : String → ℕ → Use
  registers : String → String → Use
  decrements releases : String → Use

unfoldable pub use_counter : Use → Counter → Counter
unfolding try_increment register_job decrement decrement_by_job
use_counter (admits client limit) c = (try_increment client limit c).0
use_counter (registers client job) c = register_job client job c
use_counter (decrements client) c = (decrement client c).0
use_counter (releases job) c = (decrement_by_job job c).0

unfoldable pub use_all : List Use → Counter → Counter
unfolding use_counter
use_all [] c = c
use_all (u ∷ us) c = use_all us (use_counter u c)

abbrev pub IsWithin : ℕ → Use → Type 0
IsWithin n (admits client limit) = limit ≤ n
IsWithin n _ = Unit

use_counter-count :
    (n : ℕ) (u : Use) (c : Counter) (x : String)
    → IsWithin n u
    → client_count x (use_counter u c) ≤ max n (client_count x c)
unfolding use_counter
use_counter-count n (admits client limit) c x h =
    omega (arith, h, try_increment-count x client limit c)
use_counter-count n (registers client job) c x h = omega (arith, register_job-count x client job c)
use_counter-count n (decrements client) c x h = ground (arith, decrement-count x client c)
use_counter-count n (releases job) c x h = omega (arith, decrement_by_job-le x job c)

-- However requests are admitted, registered and released, no client comes to have more active jobs
-- than the largest limit that an admission was asked to keep, or than it had at the start.
pub use_all-count :
    (n : ℕ) (us : List Use) (c : Counter) (x : String)
    → All (IsWithin n) us
    → client_count x (use_all us c) ≤ max n (client_count x c)
unfolding use_all
use_all-count n [] c x h = omega arith
use_all-count n (u ∷ us) c x h =
    omega (arith, use_counter-count n u c x h.0, use_all-count n us (use_counter u c) x h.1)

decrement-jobs : (client : String) (c : Counter) → (decrement client c).0.job_client ≡ c.job_client
unfolding decrement
decrement-jobs client c = elim (Bool-cases (leb (count_of client c.counts) 1)) [
  | inl e ↦ rw e refl
  | inr e ↦ rw e refl
]

-- A released job has no client any more.
released : (job : String) (c : Counter) → client_of job (decrement_by_job job c).0.job_client ≡ none
unfolding decrement_by_job
released job c = elim (Option-cases (client_of job c.job_client)) [
  | inl e ↦ rw e e
  | inr (client, e) ↦ rw (e, decrement-jobs) (client-remove job c.job_client)
]

-- Releasing a job a second time changes nothing: the slot is given back once.
pub decrement_by_job-twice :
    (job : String) (c : Counter)
    → decrement_by_job job (decrement_by_job job c).0 ≡ ((decrement_by_job job c).0, 0)
unfolding decrement_by_job
decrement_by_job-twice job c = ap (release job (decrement_by_job job c).0) (released job c)

admitted-count :
    (x client : String) (limit : ℕ) (c : Counter)
    → (try_increment client limit c).1.1 ≡ true
    → client_count x (try_increment client limit c).0
      ≡ (if client == x then client_count x c + 1 else client_count x c)
unfolding client_count try_increment
admitted-count x client limit c h = elim (Bool-cases (leb limit (count_of client c.counts))) [
  | inl e ↦ ground (arith, e, h)
  | inr e ↦ rw (e, count-put) (ground (arith, eq_iff client x))
]

client-put :
    (job client : String) (m : List (String × String))
    → client_of job (put job client m) ≡ some client
unfolding put client_of
client-put job client m = rw (eq_refl job) refl

registered-release :
    (client job : String) (c : Counter)
    → decrement_by_job job (register_job client job c)
      ≡ decrement client (record c { job_client = remove job (put job client c.job_client) })
unfolding decrement_by_job register_job
registered-release client job c =
    ap (release job (register_job client job c)) (client-put job client c.job_client)

-- Admitting a request, registering its job and releasing that job gives every client the count it had,
-- where the request was admitted.
pub release-try_increment :
    (x client job : String) (limit : ℕ) (c : Counter)
    → (try_increment client limit c).1.1 ≡ true
    → client_count x
        (decrement_by_job job (register_job client job (try_increment client limit c).0)).0
      ≡ client_count x c
unfolding client_count try_increment
release-try_increment x client job limit c h =
    let c' = (try_increment client limit c).0 in
    ap (λ r. client_count x r.0) (registered-release client job c')
    ∙ decrement-count x client
        (record c' { job_client = remove job (put job client c'.job_client) })
    ∙ back (admitted-count x client limit c h)
  where
    back :
        client_count x (try_increment client limit c).0
          ≡ (if client == x then client_count x c + 1 else client_count x c)
        → (if client == x
            then client_count x (try_increment client limit c).0 - 1
            else client_count x (try_increment client limit c).0)
          ≡ client_count x c
    back a = ground (arith, a)
