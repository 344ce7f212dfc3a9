-- ===== src/Base/Tables.antt =====
-- The statements of a relational table, a list of rows: SELECT ... WHERE, COUNT(*), EXISTS, ORDER BY
-- and UPDATE ... SET ... WHERE. The row test is the WHERE clause, the row function the SET clause.
use Prim.Native.Nat.{ℕ, suc, ◌+◌, ◌≤◌}
use mathlib.Core.Path.{◌≡◌, refl}
use mathlib.Core.Logic.{inl, inr}
use mathlib.Core.Bool.{Bool, true, false, not, ◌||◌}
use mathlib.Core.Option.{Option, none, some}
use mathlib.Core.List.{List, [], ◌∷◌, ◌++◌, map}
use native.Mathlib.Omega.{arith}
use rffmpeg.Base.Tests.{leb, if◌then◌else◌, Bool-cases}
use rffmpeg.Base.Lists.{All, Extends}

module _ {ℓ} {A : Type ℓ} where
  unfoldable pub select : (A → Bool) → List A → List A
  select p [] = []
  select p (x ∷ xs) = if p x then x ∷ select p xs else select p xs

  unfoldable pub count_where : (A → Bool) → List A → ℕ
  count_where p [] = 0
  count_where p (x ∷ xs) = if p x then suc (count_where p xs) else count_where p xs

  unfoldable pub exists_where : (A → Bool) → List A → Bool
  exists_where p [] = false
  exists_where p (x ∷ xs) = p x || exists_where p xs

  -- The first row of the answer.
  unfoldable pub find_where : (A → Bool) → List A → Option A
  find_where p [] = none
  find_where p (x ∷ xs) = if p x then some x else find_where p xs

  unfoldable pub update_where : (A → Bool) → (A → A) → List A → List A
  update_where g s [] = []
  update_where g s (x ∷ xs) = (if g x then s x else x) ∷ update_where g s xs

  insert_by : (A → ℕ) → A → List A → List A
  insert_by key x [] = x ∷ []
  insert_by key x (y ∷ ys) =
      let rest = y ∷ insert_by key x ys in if leb (key x) (key y) then x ∷ y ∷ ys else rest

  -- ORDER BY key ASC; rows with equal keys stay in table order.
  unfoldable pub order_by : (A → ℕ) → List A → List A
  unfolding insert_by
  order_by key [] = []
  order_by key (x ∷ xs) = insert_by key x (order_by key xs)

module _ {ℓ} {A : Type ℓ} where
  pub count-update-le :
      (p g : A → Bool) (s : A → A) (xs : List A)
      → count_where p (update_where g s xs) ≤ count_where p xs + count_where g xs
  unfolding count_where update_where
  count-update-le p g s [] = omega arith
  count-update-le p g s (x ∷ xs) = ground (arith, count-update-le p g s xs)

  pub count-update_same :
      (p g : A → Bool) (s : A → A)
      → ((x : A) → g x ≡ true → p (s x) ≡ p x)
      → (xs : List A) → count_where p (update_where g s xs) ≡ count_where p xs
  unfolding count_where update_where
  count-update_same p g s h [] = refl
  count-update_same p g s h (x ∷ xs) = ground (arith, h x, count-update_same p g s h xs)

  pub count_mono :
      (p q : A → Bool)
      → ((x : A) → p x ≡ true → q x ≡ true)
      → (xs : List A) → count_where p xs ≤ count_where q xs
  unfolding count_where
  count_mono p q h [] = omega arith
  count_mono p q h (x ∷ xs) = ground (arith, h x, count_mono p q h xs)

  pub count-append :
      (p : A → Bool) (xs ys : List A)
      → count_where p (xs ++ ys) ≡ count_where p xs + count_where p ys
  unfolding count_where
  count-append p [] ys = omega arith
  count-append p (x ∷ xs) ys = ground (arith, count-append p xs ys)

  -- No row matches: nothing is written.
  pub update-none :
      (g : A → Bool) (s : A → A) (xs : List A) → count_where g xs ≡ 0 → update_where g s xs ≡ xs
  unfolding count_where update_where
  update-none g s [] h = refl
  update-none g s (x ∷ xs) h = ground (arith, update-none g s xs)

  pub exists-count : (p : A → Bool) (xs : List A) → exists_where p xs ≡ false → count_where p xs ≡ 0
  unfolding count_where exists_where
  exists-count p [] h = refl
  exists-count p (x ∷ xs) h = ground (arith, exists-count p xs)

module _ {ℓ} {A : Type ℓ} where
  exists-insert_by :
      (q : A → Bool) (key : A → ℕ) (x : A) (xs : List A)
      → exists_where q (insert_by key x xs) ≡ (q x || exists_where q xs)
  unfolding exists_where insert_by
  exists-insert_by q key x [] = refl
  exists-insert_by q key x (y ∷ ys) = ground (arith, exists-insert_by q key x ys)

  -- Ordering the rows finds no more and no fewer.
  pub exists-order_by :
      (q : A → Bool) (key : A → ℕ) (xs : List A)
      → exists_where q (order_by key xs) ≡ exists_where q xs
  unfolding exists_where order_by
  exists-order_by q key [] = refl
  exists-order_by q key (x ∷ xs) =
      ground (arith, exists-insert_by q key x (order_by key xs), exists-order_by q key xs)

  -- A test and its negation select all rows between them.
  pub exists-select-split :
      (q p : A → Bool) (xs : List A)
      → (exists_where q (select (λ x. not (p x)) xs) || exists_where q (select p xs))
        ≡ exists_where q xs
  unfolding exists_where select
  exists-select-split q p [] = refl
  exists-select-split q p (x ∷ xs) = ground (arith, exists-select-split q p xs)

  pub exists_congr :
      (p q : A → Bool)
      → ((x : A) → p x ≡ q x)
      → (xs : List A) → exists_where p xs ≡ exists_where q xs
  unfolding exists_where
  exists_congr p q h [] = refl
  exists_congr p q h (x ∷ xs) = ground (arith, h x, exists_congr p q h xs)

  pub exists-append :
      (q : A → Bool) (xs ys : List A)
      → exists_where q (xs ++ ys) ≡ (exists_where q xs || exists_where q ys)
  unfolding exists_where
  exists-append q [] ys = refl
  exists-append q (x ∷ xs) ys = ground (arith, exists-append q xs ys)

  pub exists-map {κ} :
      {B : Type κ} (q : B → Bool) (f : A → B) (xs : List A)
      → exists_where q (map f xs) ≡ exists_where (λ x. q (f x)) xs
  unfolding exists_where
  exists-map q f [] = refl
  exists-map q f (x ∷ xs) = ground (arith, exists-map q f xs)

module _ {ℓ κ} {A : Type ℓ} (P : A → Type κ) where
  pub All-update :
      (g : A → Bool) (s : A → A)
      → ((x : A) → g x ≡ true → P x → P (s x))
      → (xs : List A) → All P xs
      → All P (update_where g s xs)
  unfolding update_where
  All-update g s h [] a = tt
  All-update g s h (x ∷ xs) a = elim (Bool-cases (g x)) [
    | inl e ↦ rw e (h x e a.0, All-update g s h xs a.1)
    | inr e ↦ rw e (a.0, All-update g s h xs a.1)
  ]

  pub All-select : (p : A → Bool) (xs : List A) → All P xs → All P (select p xs)
  unfolding select
  All-select p [] a = tt
  All-select p (x ∷ xs) a = elim (Bool-cases (p x)) [
    | inl e ↦ rw e (a.0, All-select p xs a.1)
    | inr e ↦ rw e (All-select p xs a.1)
  ]

  -- The rows selected pass the test too.
  pub All-select_pass :
      (p : A → Bool) (xs : List A) → All P xs → All (λ x. P x × (p x ≡ true)) (select p xs)
  unfolding select
  All-select_pass p [] a = tt
  All-select_pass p (x ∷ xs) a = elim (Bool-cases (p x)) [
    | inl e ↦ rw e ((a.0, e), All-select_pass p xs a.1)
    | inr e ↦ rw e (All-select_pass p xs a.1)
  ]

  All-insert_by : (key : A → ℕ) (x : A) (xs : List A) → P x → All P xs → All P (insert_by key x xs)
  unfolding insert_by
  All-insert_by key x [] h a = (h, tt)
  All-insert_by key x (y ∷ ys) h a = elim (Bool-cases (leb (key x) (key y))) [
    | inl e ↦ rw e (h, a)
    | inr e ↦ rw e (a.0, All-insert_by key x ys h a.1)
  ]

  pub All-order_by : (key : A → ℕ) (xs : List A) → All P xs → All P (order_by key xs)
  unfolding order_by
  All-order_by key [] a = tt
  All-order_by key (x ∷ xs) a = All-insert_by key x (order_by key xs) a.0 (All-order_by key xs a.1)

module _ {ℓ} {A : Type ℓ} where
  -- Every selected row passes the test.
  pub select-passes : (p : A → Bool) (xs : List A) → All (λ x. p x ≡ true) (select p xs)
  unfolding select
  select-passes p [] = tt
  select-passes p (x ∷ xs) = elim (Bool-cases (p x)) [
    | inl e ↦ rw e (e, select-passes p xs)
    | inr e ↦ rw e (select-passes p xs)
  ]

module _ {ℓ} {A : Type ℓ} (R : A → A → Type 0) (same : (x : A) → R x x) where
  pub Extends-refl : (xs : List A) → Extends R xs xs
  Extends-refl [] = tt
  Extends-refl (x ∷ xs) = (same x, Extends-refl xs)

  pub Extends-append : (xs ys : List A) → Extends R xs (xs ++ ys)
  Extends-append [] ys = tt
  Extends-append (x ∷ xs) ys = (same x, Extends-append xs ys)

  pub Extends-update :
      (g : A → Bool) (s : A → A)
      → ((x : A) → g x ≡ true → R x (s x))
      → (xs : List A) → Extends R xs (update_where g s xs)
  unfolding update_where
  Extends-update g s h [] = tt
  Extends-update g s h (x ∷ xs) = elim (Bool-cases (g x)) [
    | inl e ↦ rw e (h x e, Extends-update g s h xs)
    | inr e ↦ rw e (same x, Extends-update g s h xs)
  ]

module _ {ℓ} {A : Type ℓ} (R : A → A → Type 0) where
  pub Extends-trans :
      ((x y z : A) → R x y → R y z → R x z)
      → (xs ys zs : List A) → Extends R xs ys
      → Extends R ys zs
      → Extends R xs zs
  Extends-trans t [] ys zs h k = tt
  Extends-trans t (x ∷ xs) [] zs h k = absurd h
  Extends-trans t (x ∷ xs) (y ∷ ys) [] h k = absurd k
  Extends-trans t (x ∷ xs) (y ∷ ys) (z ∷ zs) h k =
      (t x y z h.0 k.0, Extends-trans t xs ys zs h.1 k.1)
