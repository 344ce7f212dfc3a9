-- ===== src/Worker/Pruning/Removal.antt =====
-- pkg/worker/param_prune.go, PruneParams: what is left after a removal.
use rffmpeg.Base.{
  ℕ, ◌≡◌, refl, ap, ◌∙◌, String, Bool, true, false, Option, none, some, List, [], ◌∷◌, All, member,
  find?, Bool-cases, inl, inr, arith, subst, eq_iff, ◌==◌, ◌<>◌, is_some, find-before, up_to-before,
}
use rffmpeg.Base.Tables.{exists_where}
use rffmpeg.Worker.Pruning.{is_attached, named_before, value_follows, pruned, prune_params}

-- A token that a removal leaves alone.
abbrev pub IsKeptToken : List String → String → Type 0
IsKeptToken remove arg = (member arg remove ≡ false) × (is_attached remove arg ≡ false)

pruned-kept :
    (remove : List String) (skip : Bool) (args : List String)
    → All (IsKeptToken remove) (pruned remove skip args)
unfolding pruned
pruned-kept remove skip [] = tt
pruned-kept remove true (arg ∷ rest) = pruned-kept remove false rest
pruned-kept remove false (arg ∷ rest) = elim (Bool-cases (member arg remove)) [
  | inl h ↦ rw (h, pruned) (pruned-kept remove (value_follows rest) rest)
  | inr h ↦ rw h (elim (Bool-cases (is_attached remove arg)) [
    | inl k ↦ rw k (pruned-kept remove false rest)
    | inr k ↦ rw k ((h, k), pruned-kept remove false rest)
  ])
]

named_before-nil : (i : Option ℕ) (arg : String) → named_before i [] arg ≡ false
unfolding exists_where
named_before-nil none arg = refl
named_before-nil (some i) arg = refl

All-IsKeptToken : (args : List String) → All (IsKeptToken []) args
unfolding is_attached exists_where
All-IsKeptToken [] = tt
All-IsKeptToken (arg ∷ rest) = ((refl, named_before-nil (find? arg "=") arg), All-IsKeptToken rest)

prune_params-kept :
    (args remove : List String) → All (IsKeptToken remove) (prune_params args remove)
unfolding prune_params
prune_params-kept args [] = All-IsKeptToken args
prune_params-kept args (p ∷ ps) = pruned-kept (p ∷ ps) false args

pruned_same :
    (remove : List String) (args : List String)
    → All (IsKeptToken remove) args
    → pruned remove false args ≡ args
unfolding pruned
pruned_same remove [] k = refl
pruned_same remove (arg ∷ rest) ((h, a), k) =
    rw (h, a) (ap (λ xs. arg ∷ xs) (pruned_same remove rest k))

-- A list in which nothing is to be removed is left as it is, so a second removal changes nothing.
pub prune_params_idem :
    (args remove : List String)
    → prune_params (prune_params args remove) remove ≡ prune_params args remove
unfolding prune_params
prune_params_idem args [] = refl
prune_params_idem args (p ∷ ps) = pruned_same (p ∷ ps) _ (prune_params-kept args (p ∷ ps))

-- A token that is not to be kept is not among kept ones.
kept-absent :
    (remove : List String) (s : String) (args : List String)
    → (IsKeptToken remove s → ⊥)
    → All (IsKeptToken remove) args
    → member s args ≡ false
unfolding exists_where
kept-absent remove s [] n k = refl
kept-absent remove s (arg ∷ rest) n (k, ks) = elim (Bool-cases (arg == s)) [
  | inl e ↦ absurd (n (subst (IsKeptToken remove) ((eq_iff arg s).0 e) k))
  | inr e ↦ rw e (kept-absent remove s rest n ks)
]

named-is_attached :
    (remove : List String) (p v : String)
    → member p remove ≡ true
    → is_some (find? p "=") ≡ false
    → is_attached remove (p <> ("=" <> v)) ≡ true
unfolding is_attached
named-is_attached remove p v h n =
    rw (find-before p v n) (ap (λ s. member s remove) (up_to-before p v) ∙ h)

-- After a removal the parameters removed are gone: none of them is a token of its own, nor with any value
-- attached by "=". The name of a parameter has no "=" in it.
pub prune_params-gone :
    (args remove : List String) (p v : String)
    → member p remove ≡ true
    → is_some (find? p "=") ≡ false
    → (member p (prune_params args remove) ≡ false)
      × (member (p <> ("=" <> v)) (prune_params args remove) ≡ false)
prune_params-gone args remove p v h n = (
  kept-absent remove p _ (λ k. ground (arith, h, k.0)) (prune_params-kept args remove),
  kept-absent remove (p <> ("=" <> v)) _
      (λ k. ground (arith, named-is_attached remove p v h n, k.1)) (prune_params-kept args remove),
)
