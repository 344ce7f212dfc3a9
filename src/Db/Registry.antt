-- ===== src/Db/Registry.antt =====
-- What a registration leaves in the table of the workers (CreateOrUpdateWorker of
-- pkg/server/db/workers.go).
use rffmpeg.Base.{
  ℕ, ◌+◌, ◌≤◌, String, Bool, true, false, ◌&&◌, ◌||◌, not, ◌≡◌, refl, subst, Option, List, [], ◌∷◌,
  ◌==◌, arith, Bool-cases, inl, inr, eqb, if◌then◌else◌, eq_iff, eq_refl,
}
use rffmpeg.Base.Tables.{
  select, count_where, exists_where, update_where, count-append, exists-append,
}
use rffmpeg.Db.{Database, Worker, is_idle}
use rffmpeg.Db.Identity.{UuidLibrary}
use rffmpeg.Db.Workers.{
  Registration, set_registered, new_worker, residue, registered_id, create_or_update_worker,
}

module _ {ℓ} {A : Type ℓ} where
  exists-update :
      (p q g : A → Bool) (s : A → A)
      → ((x : A) → g x ≡ true → q x ≡ true → p (s x) ≡ true)
      → (xs : List A) → exists_where (λ x. g x && q x) xs ≡ true
      → exists_where p (update_where g s xs) ≡ true
  unfolding exists_where update_where
  exists-update p q g s h [] e = ground (arith, e)
  exists-update p q g s h (x ∷ xs) e = ground (arith, e, h x, exists-update p q g s h xs)

  count-update_kept :
      (p g : A → Bool) (s : A → A)
      → ((x : A) → p (s x) ≡ p x)
      → (xs : List A) → count_where p (update_where g s xs) ≡ count_where p xs
  unfolding count_where update_where
  count-update_kept p g s h [] = refl
  count-update_kept p g s h (x ∷ xs) = ground (arith, h x, count-update_kept p g s h xs)

  count-select-le : (p q : A → Bool) (xs : List A) → count_where p (select q xs) ≤ count_where p xs
  unfolding count_where select
  count-select-le p q [] = omega arith
  count-select-le p q (x ∷ xs) = ground (arith, count-select-le p q xs)

  any-count :
      (p : A → Bool) (xs : List A) → exists_where p xs ≡ true → eqb (count_where p xs) 0 ≡ false
  unfolding exists_where count_where
  any-count p [] e = ground (arith, e)
  any-count p (x ∷ xs) e = ground (arith, e, any-count p xs)

  count-any :
      (p : A → Bool) (xs : List A)
      → eqb (count_where p xs) 0 ≡ false
      → exists_where (λ x. p x && true) xs ≡ true
  unfolding exists_where count_where
  count-any p [] e = ground (arith, e)
  count-any p (x ∷ xs) e = ground (arith, e, count-any p xs)

  part :
      (p q : A → Bool) (xs : List A)
      → exists_where (λ x. p x && q x) xs ≡ true
      → exists_where p xs ≡ true
  unfolding exists_where
  part p q [] e = e
  part p q (x ∷ xs) e = ground (arith, e, part p q xs)

-- No identifier stands in two rows of the table of the workers.
abbrev pub HasKeys : List Worker → Type 0
HasKeys ws = (x : String) → count_where (λ w. w.id == x) ws ≤ 1

or_right : (a b : Bool) → b ≡ true → (a || b) ≡ true
or_right a b h = ground (arith, h)

new-found :
    (now : ℕ) (key : String) (r : Registration)
    → exists_where
        (λ w. (w.id == key) && (is_idle w.status && eqb w.last_heartbeat now))
        (new_worker now key r ∷ [])
      ≡ true
unfolding exists_where new_worker
new-found now key r = ground (arith, eq_refl key)

new-count :
    (now : ℕ) (key x : String) (r : Registration)
    → count_where (λ w. w.id == x) (new_worker now key r ∷ []) ≡ (if key == x then 1 else 0)
unfolding count_where new_worker
new-count now key x r = ground arith

-- One more row of an identifier that has none.
one_more :
    (key x : String) (ws : List Worker)
    → eqb (count_where (λ w. w.id == key) ws) 0 ≡ true
    → count_where (λ w. w.id == x) ws ≤ 1
    → count_where (λ w. w.id == x) ws + (if key == x then 1 else 0) ≤ 1
one_more key x ws e h = elim (Bool-cases (key == x)) [
  | inl b ↦ rw b (
      subst (λ y. count_where (λ (w : Worker). w.id == y) ws + 1 ≤ 1) ((eq_iff key x).0 b)
        (ground (arith, e)))
  | inr b ↦ rw b (omega (arith, h))
]

module _ (u : UuidLibrary) (now : ℕ) (fresh id : String) (r : Registration) (cutoff : Option ℕ)
    (d : Database) where
  -- After a registration the worker has a row that is idle with a heartbeat of this moment.
  pub registered-idle :
      exists_where
        (λ w. (w.id == registered_id u fresh id) && (is_idle w.status && eqb w.last_heartbeat now))
        (create_or_update_worker u now fresh id r cutoff d).workers
      ≡ true
  unfolding create_or_update_worker set_registered new_worker
  registered-idle =
      let key = registered_id u fresh id in
      elim (Bool-cases (eqb (count_where (λ w. w.id == key) d.workers) 0)) [
        | inl e ↦ rw (e, exists-append) (or_right _ _ (new-found now key r))
        | inr e ↦ rw e (
            exists-update _ (λ w. true) (λ w. w.id == key) (set_registered now r)
              (λ w g q. ground (arith, g)) d.workers (count-any _ d.workers e))
      ]

  -- A registration under an identifier whose row has the eviction mark does not lift the mark.
  pub registered-evicted :
      exists_where (λ w. (w.id == registered_id u fresh id) && w.evicted) d.workers ≡ true
      → exists_where
          (λ w. (w.id == registered_id u fresh id) && w.evicted)
          (create_or_update_worker u now fresh id r cutoff d).workers
        ≡ true
  unfolding create_or_update_worker set_registered
  registered-evicted h =
      let key = registered_id u fresh id in
      rw
        (any-count (λ w. w.id == key) d.workers
          (part (λ w. w.id == key) (λ w. w.evicted) d.workers h))
        (exists-update _ (λ w. w.evicted) (λ w. w.id == key) (set_registered now r)
          (λ w g q. ground (arith, g, q)) d.workers h)

  -- A registration brings no identifier into two rows of the table, where none stands in two before.
  pub registered-HasKeys :
      HasKeys d.workers → HasKeys (create_or_update_worker u now fresh id r cutoff d).workers
  unfolding create_or_update_worker set_registered new_worker
  registered-HasKeys h x =
      let key = registered_id u fresh id in
      elim (Bool-cases (eqb (count_where (λ w. w.id == key) d.workers) 0)) [
        | inl e ↦
            rw (e, count-append)
              (omega (
                arith,
                count-select-le (λ w. w.id == x) (λ w. not (residue key r.name cutoff w)) d.workers,
                new-count now key x r,
                one_more key x d.workers e (h x),
              ))
        | inr e ↦ rw (e, count-update_kept) (h x)
      ]
