-- ===== src/Scheduler/Best.antt =====
-- What selectBestWorker of pkg/server/scheduler/scheduler.go picks.
use rffmpeg.Base.{
  Bool, ◌&&◌, ℕ, true, false, ◌≡◌, Option, none, some, List, [], ◌∷◌, arith, All, Bool-cases, inl,
  inr,
}
use rffmpeg.Db.Workers.{Load}
use rffmpeg.Scheduler.Selection.{beats, better, has_capacity, scan_workers}

-- A statement about the row picked, where one is.
abbrev pub OnSome {ℓ κ} : {A : Type ℓ} → (A → Type κ) → Option A → Type κ
OnSome P none = Unit
OnSome P (some a) = P a

-- The row picked is not beaten by this one.
abbrev pub IsUnbeatenBy : Load → Option Load → Type 0
IsUnbeatenBy w none = true ≡ false
IsUnbeatenBy w (some best) = beats w best ≡ false

-- The row beats the one picked, or none is.
abbrev pub wins : Load → Option Load → Bool
wins w none = true
wins w (some best) = beats w best

-- The best of the rows with capacity, and none only where no row has any.
pub record IsBest (default : ℕ) (ws : List Load) (picked : Option Load) : Type 0 where
  pub fits : OnSome (λ w. has_capacity default w ≡ true) picked
  pub unbeaten : All (λ w. (has_capacity default w && wins w picked) ≡ false) ws

beats_asym : (a b : Load) → beats a b ≡ true → beats b a ≡ false
unfolding beats
beats_asym a b h = ground arith

beats_irrefl : (a : Load) → beats a a ≡ false
unfolding beats
beats_irrefl a = ground arith

better-old : (w best : Load) → IsUnbeatenBy best (better w (some best))
better-old w best = elim (Bool-cases (beats w best)) [
  | inl e ↦ rw e (beats_asym w best e)
  | inr e ↦ rw e (beats_irrefl best)
]

-- What holds of every row with capacity holds of the row picked.
pub scan-OnSome {κ} :
    (P : Load → Type κ) (default : ℕ) (best : Option Load) (ws : List Load)
    → OnSome P best
    → All (λ w. has_capacity default w ≡ true → P w) ws
    → OnSome P (scan_workers default best ws)
unfolding scan_workers
scan-OnSome P default best [] h a = h
scan-OnSome P default best (w ∷ ws) h a = elim (Bool-cases (has_capacity default w)) [
  | inl e ↦ rw e (scan-OnSome P default (better w best) ws (step best h (a.0 e)) a.1)
  | inr e ↦ rw e (scan-OnSome P default best ws h a.1)
]
  where
    step : (best : Option Load) → OnSome P best → P w → OnSome P (better w best)
    step none h p = p
    step (some best) h p = elim (Bool-cases (beats w best)) [ inl e ↦ rw e p | inr e ↦ rw e h ]
