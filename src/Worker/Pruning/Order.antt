-- ===== src/Worker/Pruning/Order.antt =====
-- pkg/worker/param_prune.go, PruneParams: a removal only drops tokens.
use rffmpeg.Base.{String, Bool, true, false, List, [], ◌∷◌, member, Bool-cases, inl, inr}
use rffmpeg.Worker.Pruning.{is_attached, value_follows, pruned, prune_params}

-- The first list is the second with some tokens dropped.
pub data IsSublist : List String → List String → Type 0 where
  no_tokens : IsSublist [] []
  keep : (x : String) (xs ys : List String) → IsSublist xs ys → IsSublist (x ∷ xs) (x ∷ ys)
  drop_token : (x : String) (xs ys : List String) → IsSublist xs ys → IsSublist xs (x ∷ ys)

same_tokens : (xs : List String) → IsSublist xs xs
same_tokens [] = no_tokens
same_tokens (x ∷ xs) = keep x xs xs (same_tokens xs)

pruned-IsSublist :
    (remove : List String) (skip : Bool) (args : List String)
    → IsSublist (pruned remove skip args) args
unfolding pruned
pruned-IsSublist remove skip [] = no_tokens
pruned-IsSublist remove true (arg ∷ rest) =
    drop_token arg _ rest (pruned-IsSublist remove false rest)
pruned-IsSublist remove false (arg ∷ rest) = elim (Bool-cases (member arg remove)) [
  | inl h ↦
      rw (h, pruned) (drop_token arg _ rest (pruned-IsSublist remove (value_follows rest) rest))
  | inr h ↦ rw h (elim (Bool-cases (is_attached remove arg)) [
    | inl k ↦ rw k (drop_token arg _ rest (pruned-IsSublist remove false rest))
    | inr k ↦ rw k (keep arg _ rest (pruned-IsSublist remove false rest))
  ])
]

-- A removal keeps the order of the tokens and adds none.
pub prune_params-IsSublist : (args remove : List String) → IsSublist (prune_params args remove) args
unfolding prune_params
prune_params-IsSublist args [] = same_tokens args
prune_params-IsSublist args (p ∷ ps) = pruned-IsSublist (p ∷ ps) false args
