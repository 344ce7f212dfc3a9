-- ===== src/Db/Ranking.antt =====
-- The order of sortWorkersByJobCount in pkg/server/db/workers.go.
use rffmpeg.Base.{
  ℕ, zero, suc, ◌≤◌, Bool, true, false, ◌≡◌, refl, List, [], ◌∷◌, arith, All, Bool-cases, inl, inr,
  length, if◌then◌else◌,
}
use rffmpeg.Base.Tables.{count_where}
use rffmpeg.Db.Workers.{Load, less_loaded, swap_least, sort_rounds, sort_workers_by_job_count}

-- No later row is less loaded than an earlier one.
abbrev pub IsRanked : List Load → Type 0
IsRanked [] = Unit
IsRanked (x ∷ xs) = All (λ y. less_loaded y x ≡ false) xs × IsRanked xs

less_loaded_trans :
    (a b c : Load) → less_loaded a b ≡ false → less_loaded b c ≡ false → less_loaded a c ≡ false
unfolding less_loaded
less_loaded_trans a b c h k = ground arith

less_loaded_asym : (a b : Load) → less_loaded a b ≡ true → less_loaded b a ≡ false
unfolding less_loaded
less_loaded_asym a b h = ground arith

less_loaded_irrefl : (a : Load) → less_loaded a a ≡ false
unfolding less_loaded
less_loaded_irrefl a = ground arith

-- The row kept at the front, and the one put back.
abbrev front : Load → Load → Load
front x least = if less_loaded x least then x else least

abbrev back : Load → Load → Load
back x least = if less_loaded x least then least else x

front-back : (x least : Load) → less_loaded (back x least) (front x least) ≡ false
front-back x least = elim (Bool-cases (less_loaded x least)) [
  | inl e ↦ rw e (less_loaded_asym x least e)
  | inr e ↦ rw e e
]

front-old : (x least : Load) → less_loaded least (front x least) ≡ false
front-old x least = elim (Bool-cases (less_loaded x least)) [
  | inl e ↦ rw e (less_loaded_asym x least e)
  | inr e ↦ rw e (less_loaded_irrefl least)
]

swap_least-first :
    (least : Load) (xs : List Load) → less_loaded least (swap_least least xs).0 ≡ false
unfolding swap_least
swap_least-first least [] = less_loaded_irrefl least
swap_least-first least (x ∷ xs) =
    less_loaded_trans least (front x least) (swap_least (front x least) xs).0 (front-old x least)
      (swap_least-first (front x least) xs)

swap_least-rest :
    (least : Load) (xs : List Load)
    → All (λ y. less_loaded y (swap_least least xs).0 ≡ false) (swap_least least xs).1
unfolding swap_least
swap_least-rest least [] = tt
swap_least-rest least (x ∷ xs) = (
  less_loaded_trans (back x least) (front x least) (swap_least (front x least) xs).0
      (front-back x least) (swap_least-first (front x least) xs),
  swap_least-rest (front x least) xs,
)

swap_least-length : (least : Load) (xs : List Load) → length (swap_least least xs).1 ≡ length xs
unfolding swap_least
swap_least-length least [] = refl
swap_least-length least (x ∷ xs) = omega (arith, swap_least-length (front x least) xs)

module _ {κ} (P : Load → Type κ) where
  front-All : (x least : Load) → P x → P least → P (front x least)
  front-All x least p q = elim (Bool-cases (less_loaded x least)) [
    | inl e ↦ rw e p
    | inr e ↦ rw e q
  ]

  back-All : (x least : Load) → P x → P least → P (back x least)
  back-All x least p q = elim (Bool-cases (less_loaded x least)) [ inl e ↦ rw e q | inr e ↦ rw e p ]

  swap_least-All :
      (least : Load) (xs : List Load)
      → P least
      → All P xs
      → P (swap_least least xs).0 × All P (swap_least least xs).1
  unfolding swap_least
  swap_least-All least [] h a = (h, tt)
  swap_least-All least (x ∷ xs) h a =
      let r = swap_least-All (front x least) xs (front-All x least a.0 h) a.1 in
      (r.0, (back-All x least a.0 h, r.1))

  sort_rounds-All : (rounds : ℕ) (xs : List Load) → All P xs → All P (sort_rounds rounds xs)
  unfolding sort_rounds
  sort_rounds-All rounds [] a = tt
  sort_rounds-All zero (x ∷ xs) a = a
  sort_rounds-All (suc rounds) (x ∷ xs) a =
      let r = swap_least-All x xs a.0 a.1 in (r.0, sort_rounds-All rounds (swap_least x xs).1 r.1)

  pub sort-All : (xs : List Load) → All P xs → All P (sort_workers_by_job_count xs)
  unfolding sort_workers_by_job_count
  sort-All xs a = sort_rounds-All (length xs) xs a

sort_rounds-IsRanked :
    (rounds : ℕ) (xs : List Load) → length xs ≤ rounds → IsRanked (sort_rounds rounds xs)
unfolding sort_rounds
sort_rounds-IsRanked rounds [] h = tt
sort_rounds-IsRanked zero (x ∷ xs) h = ground arith
sort_rounds-IsRanked (suc rounds) (x ∷ xs) h = (
  sort_rounds-All _ rounds (swap_least x xs).1 (swap_least-rest x xs),
  sort_rounds-IsRanked rounds (swap_least x xs).1 (omega (arith, swap_least-length x xs)),
)

-- The same rows, seen by the number that passes any test.
swap_least-count :
    (p : Load → Bool) (least : Load) (xs : List Load)
    → count_where p ((swap_least least xs).0 ∷ (swap_least least xs).1) ≡ count_where p (least ∷ xs)
unfolding swap_least count_where
swap_least-count p least [] = refl
swap_least-count p least (x ∷ xs) = elim (Bool-cases (less_loaded x least)) [
  | inl e ↦ rw e (ground (arith, swap_least-count p x xs))
  | inr e ↦ rw e (ground (arith, swap_least-count p least xs))
]

sort_rounds-count :
    (p : Load → Bool) (rounds : ℕ) (xs : List Load)
    → count_where p (sort_rounds rounds xs) ≡ count_where p xs
unfolding sort_rounds count_where
sort_rounds-count p rounds [] = refl
sort_rounds-count p zero (x ∷ xs) = refl
sort_rounds-count p (suc rounds) (x ∷ xs) =
    ground (arith, swap_least-count p x xs, sort_rounds-count p rounds (swap_least x xs).1)

-- Sorting the candidates puts those with fewer active jobs first, of equals those with fewer completed
-- ones, and for any test the same number of rows passes it before and after.
pub sort-IsRanked :
    (xs : List Load)
    → IsRanked (sort_workers_by_job_count xs)
      × ((p : Load → Bool) → count_where p (sort_workers_by_job_count xs) ≡ count_where p xs)
unfolding sort_workers_by_job_count
sort-IsRanked xs =
    (sort_rounds-IsRanked (length xs) xs (omega arith), λ p. sort_rounds-count p (length xs) xs)
