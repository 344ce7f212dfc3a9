-- ===== src/Db/Chunks.antt =====
-- The chunked UPDATEs of the sweeps (failStarvedJovsChunked and failStuckJovsChunked of
-- pkg/server/db/jobs.go) against one UPDATE over all identifiers.
use rffmpeg.Base.{
  ℕ, zero, suc, ◌-◌, ◌≤◌, ◌<◌, String, Bool, true, false, ◌&&◌, ◌||◌, ◌≡◌, refl, sym, ◌∙◌, ap, ap₂,
  List, [], ◌∷◌, ◌++◌, ◌==◌, arith, if◌then◌else◌, Bool-cases, inl, inr, length, take, drop, map,
}
use rffmpeg.Base.Tables.{select, exists_where, update_where}
use rffmpeg.Protocol.{FailureType}
use rffmpeg.Db.{Job, Worker}
use rffmpeg.Db.Statements.{starved, set_starved, set_stuck}
use rffmpeg.Db.Sweeps.{
  contains, update_chunks, fail_starved_jobs_chunked, fail_stuck_jobs_chunked, still_stuck,
}

contains-take-drop :
    (n : ℕ) (ids : List String) (x : String)
    → contains ids x ≡ (contains (take n ids) x || contains (drop n ids) x)
unfolding contains exists_where
contains-take-drop zero ids x = refl
contains-take-drop (suc n) [] x = refl
contains-take-drop (suc n) (i ∷ is) x = ground (arith, contains-take-drop n is x)

length-drop {ℓ} : {A : Type ℓ} (n : ℕ) (xs : List A) → length (drop n xs) ≡ length xs - n
length-drop zero xs = omega arith
length-drop (suc n) [] = omega arith
length-drop (suc n) (x ∷ xs) = omega (arith, length-drop n xs)

-- Two updates with one SET clause are one, if a row that the first changes is not matched again.
update-update {ℓ} :
    {A : Type ℓ} (p q r : A → Bool) (s : A → A)
    → ((x : A) → p x ≡ true → (q (s x) ≡ false) × (r x ≡ true))
    → ((x : A) → p x ≡ false → q x ≡ r x)
    → (xs : List A) → update_where q s (update_where p s xs) ≡ update_where r s xs
unfolding update_where
update-update p q r s h k [] = refl
update-update p q r s h k (x ∷ xs) = elim (Bool-cases (p x)) [
  | inl e ↦ rw (e, (h x e).0, (h x e).1, update-update p q r s h k xs)
  | inr e ↦ rw (e, k x e, update-update p q r s h k xs)
]

-- A row is found by the first test now or by the second after the update.
exists-update {ℓ} :
    {A : Type ℓ} (p q r g : A → Bool) (s : A → A)
    → ((x : A) → (p x || q (if g x then s x else x)) ≡ r x)
    → (xs : List A)
    → (exists_where p xs || exists_where q (update_where g s xs)) ≡ exists_where r xs
unfolding exists_where update_where
exists-update p q r g s h [] = refl
exists-update p q r g s h (x ∷ xs) = ground (arith, h x, exists-update p q r g s h xs)

contains-append :
    (us vs : List String) (x : String) → contains (us ++ vs) x ≡ (contains us x || contains vs x)
unfolding contains exists_where
contains-append [] vs x = refl
contains-append (a ∷ us) vs x = ground (arith, contains-append us vs x)

-- The identifiers that a statement returns are those of the rows that it matches.
contains-returning :
    (g : Job → Bool) (js : List Job) (x : String)
    → contains (map (λ j. j.id) (select g js)) x ≡ exists_where (λ j. (j.id == x) && g j) js
unfolding contains exists_where select
contains-returning g [] x = refl
contains-returning g (j ∷ js) x = ground (arith, contains-returning g js x)

-- The UPDATE over all the identifiers at once.
abbrev pub listed : (Job → Bool) → List String → Job → Bool
listed g ids j = contains ids j.id && g j

module _ (g : Job → Bool) (s : Job → Job) where
  update-listed_none : (js : List Job) → update_where (listed g []) s js ≡ js
  unfolding update_where contains exists_where
  update-listed_none [] = refl
  update-listed_none (j ∷ js) = ap (◌∷◌ j) (update-listed_none js)

exists-listed_none :
    (g : Job → Bool) (x : String) (js : List Job)
    → exists_where (λ j. (j.id == x) && listed g [] j) js ≡ false
unfolding exists_where contains
exists-listed_none g x [] = refl
exists-listed_none g x (j ∷ js) = ground (arith, exists-listed_none g x js)

module _ (g : Job → Bool) (s : Job → Job) (same_id : (j : Job) → (s j).id ≡ j.id)
    (once : (j : Job) → g j ≡ true → g (s j) ≡ false) where
  -- One chunk and then the rest.
  split_hit :
      (n : ℕ) (ids : List String) (j : Job)
      → listed g (take n ids) j ≡ true
      → (listed g (drop n ids) (s j) ≡ false) × (listed g ids j ≡ true)
  split_hit n ids j h = ground (arith, contains-take-drop n ids j.id, once j)

  split_miss :
      (n : ℕ) (ids : List String) (j : Job)
      → listed g (take n ids) j ≡ false
      → listed g (drop n ids) j ≡ listed g ids j
  split_miss n ids j h = ground (arith, contains-take-drop n ids j.id)

  pub update_chunks-table :
      (fuel size : ℕ) (ids : List String) (js : List Job)
      → 0 < size
      → length ids ≤ fuel
      → (update_chunks fuel size g s ids js).0 ≡ update_where (listed g ids) s js
  unfolding update_chunks
  update_chunks-table fuel size [] js p l = sym (update-listed_none g s js)
  update_chunks-table zero size (i ∷ is) js p l = absurd (omega arith)
  update_chunks-table (suc fuel) size (i ∷ is) js p l =
      update_chunks-table fuel size (drop size (i ∷ is)) _ p
        (omega (arith, length-drop size (i ∷ is)))
      ∙ update-update _ _ _ s (split_hit size (i ∷ is)) (split_miss size (i ∷ is)) js

  split_id :
      (n : ℕ) (ids : List String) (x : String) (j : Job)
      → ((j.id == x) && listed g (take n ids) j
          || (let k = if listed g (take n ids) j then s j else j in
              (k.id == x) && listed g (drop n ids) k))
        ≡ ((j.id == x) && listed g ids j)
  split_id n ids x j = elim (Bool-cases (listed g (take n ids) j)) [
    | inl e ↦ rw e (ground (arith, split_hit n ids j e))
    | inr e ↦ rw e (ground (arith, split_miss n ids j e))
  ]

  pub update_chunks-returns :
      (fuel size : ℕ) (ids : List String) (js : List Job) (x : String)
      → 0 < size
      → length ids ≤ fuel
      → contains (update_chunks fuel size g s ids js).1 x
        ≡ exists_where (λ j. (j.id == x) && listed g ids j) js
  unfolding update_chunks exists_where
  update_chunks-returns fuel size [] js x p l = sym (exists-listed_none g x js)
  update_chunks-returns zero size (i ∷ is) js x p l = absurd (omega arith)
  update_chunks-returns (suc fuel) size (i ∷ is) js x p l =
      contains-append _ _ x
      ∙ ap₂ ◌||◌ (contains-returning _ js x) (
          update_chunks-returns fuel size (drop size (i ∷ is)) _ x p
            (omega (arith, length-drop size (i ∷ is))))
      ∙ exists-update _ _ _ _ s (split_id size (i ∷ is) x) js

starved_once :
    (cutoff now : ℕ) (msg : String) (type : FailureType) (j : Job)
    → starved cutoff j ≡ true
    → starved cutoff (set_starved now msg type j) ≡ false
unfolding starved set_starved
starved_once cutoff now msg type j h = refl

-- Failing starved jobs in chunks of 500 is one update of all listed jobs that are pending, have no
-- owner and were created before the cutoff; and the identifiers returned are exactly those of the
-- rows that it changed.
pub fail_starved-single_update :
    (now : ℕ) (ids : List String) (msg : String) (type : FailureType) (cutoff : ℕ) (js : List Job)
    → ((fail_starved_jobs_chunked now ids msg type cutoff js).0
        ≡ update_where (listed (starved cutoff) ids) (set_starved now msg type) js)
      × ((x : String)
          → contains (fail_starved_jobs_chunked now ids msg type cutoff js).1 x
            ≡ exists_where (λ j. (j.id == x) && listed (starved cutoff) ids j) js)
unfolding fail_starved_jobs_chunked
fail_starved-single_update now ids msg type cutoff js =
    let s = set_starved now msg type in
    let once = starved_once cutoff now msg type in
    (
      update_chunks-table (starved cutoff) s set_starved_id once (length ids) 500 ids js
          (omega arith) (omega arith),
      λ x.
          update_chunks-returns (starved cutoff) s set_starved_id once (length ids) 500 ids js x
            (omega arith) (omega arith),
    )
  where
    set_starved_id : (j : Job) → (set_starved now msg type j).id ≡ j.id
    set_starved_id j = refl

stuck_once :
    (cutoff now : ℕ) (msg : String) (type : FailureType) (crashed : Bool) (ws : List Worker)
    (j : Job)
    → still_stuck cutoff crashed ws j ≡ true
    → still_stuck cutoff crashed ws (set_stuck now msg type j) ≡ false
unfolding still_stuck set_stuck
stuck_once cutoff now msg type true ws j h = refl
stuck_once cutoff now msg type false ws j h = refl

-- Failing stuck jobs in chunks of 500 is one update of all listed jobs that still pass the guard of
-- their class; and the identifiers returned are exactly those of the rows that it changed.
pub fail_stuck-single_update :
    (now cutoff : ℕ) (ids : List String) (msg : String) (type : FailureType) (crashed : Bool)
    (ws : List Worker) (js : List Job)
    → ((fail_stuck_jobs_chunked now cutoff ids msg type crashed ws js).0
        ≡ update_where (listed (still_stuck cutoff crashed ws) ids) (set_stuck now msg type) js)
      × ((x : String)
          → contains (fail_stuck_jobs_chunked now cutoff ids msg type crashed ws js).1 x
            ≡ exists_where (λ j. (j.id == x) && listed (still_stuck cutoff crashed ws) ids j) js)
unfolding fail_stuck_jobs_chunked
fail_stuck-single_update now cutoff ids msg type crashed ws js =
    let g = still_stuck cutoff crashed ws in
    let s = set_stuck now msg type in
    let once = stuck_once cutoff now msg type crashed ws in
    (
      update_chunks-table g s set_stuck_id once (length ids) 500 ids js (omega arith) (omega arith),
      λ x.
          update_chunks-returns g s set_stuck_id once (length ids) 500 ids js x (omega arith)
            (omega arith),
    )
  where
    set_stuck_id : (j : Job) → (set_stuck now msg type j).id ≡ j.id
    set_stuck_id j = refl
