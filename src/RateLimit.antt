-- ===== src/RateLimit.antt =====
-- The count of active jobs of each client, in pkg/server/ratelimit/counter.go. Both maps are association
-- lists; each method runs under the mutex, so concurrent calls are an order of calls.
pub mod Laws
use rffmpeg.Base.{
  ℕ, suc, ◌+◌, ◌-◌, String, Bool, Option, none, some, List, [], ◌∷◌, ◌==◌, leb, if◌then◌else◌,
}

-- The operations of Go's maps: lookup with the zero value or with ok, assignment, delete.
unfoldable pub count_of : String → List (String × ℕ) → ℕ
count_of k [] = 0
count_of k ((k', n) ∷ rest) = let later = count_of k rest in if k' == k then n else later

unfoldable pub client_of : String → List (String × String) → Option String
client_of k [] = none
client_of k ((k', c) ∷ rest) = let later = client_of k rest in if k' == k then some c else later

unfoldable pub remove {ℓ} : {A : Type ℓ} → String → List (String × A) → List (String × A)
remove k [] = []
remove k ((k', a) ∷ rest) = let later = remove k rest in if k' == k then later else (k', a) ∷ later

unfoldable pub put {ℓ} : {A : Type ℓ} → String → A → List (String × A) → List (String × A)
unfolding remove
put k a m = (k, a) ∷ remove k m

unfoldable pub sum : List (String × ℕ) → ℕ
sum [] = 0
sum ((k, n) ∷ rest) = n + sum rest

-- InMemoryCounter.
pub record Counter : Type 0 where
  pub counts : List (String × ℕ)
  pub job_client : List (String × String)
  pub rejected : ℕ

unfoldable pub new_in_memory_counter : Counter
new_in_memory_counter = record { counts = []; job_client = []; rejected = 0 }

unfoldable pub client_count : String → Counter → ℕ
unfolding count_of
client_count client c = count_of client c.counts

unfoldable pub total_active : Counter → ℕ
unfolding sum
total_active c = sum c.counts

unfoldable pub try_increment : String → ℕ → Counter → Counter × (ℕ × Bool)
unfolding count_of put
try_increment client limit c =
    let current = count_of client c.counts in
    if leb limit current
    then (record c { rejected = suc c.rejected }, (current, Bool.false))
    else (record c { counts = put client (current + 1) c.counts }, (current + 1, Bool.true))

unfoldable pub register_job : String → String → Counter → Counter
unfolding put
register_job client job c = record c { job_client = put job client c.job_client }

unfoldable pub decrement : String → Counter → Counter × ℕ
unfolding count_of put remove
decrement client c =
    let current = count_of client c.counts in
    if leb current 1
    then (record c { counts = remove client c.counts }, 0)
    else (record c { counts = put client (current - 1) c.counts }, current - 1)

abbrev pub release : String → Counter → Option String → Counter × ℕ
release job c none = (c, 0)
release job c (some client) = decrement client (record c { job_client = remove job c.job_client })

unfoldable pub decrement_by_job : String → Counter → Counter × ℕ
unfolding client_of decrement remove
decrement_by_job job c = release job c (client_of job c.job_client)
