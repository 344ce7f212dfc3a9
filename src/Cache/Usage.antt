-- ===== src/Cache/Usage.antt =====
-- Histories of the tracker in pkg/worker/cache.go, and its choice for eviction.
use rffmpeg.Base.{
  Bool, ℕ, ◌≤◌, String, true, false, ◌≡◌, refl, Option, none, some, List, [], ◌∷◌, arith, All,
  Bool-cases, inl, inr, ◌⊎◌, ltb, if◌then◌else◌,
}
use rffmpeg.Cache.{
  Entry, Tracker, new_lru_tracker, touch, add, remove, oldest, get_lru, first_oldest,
}
use rffmpeg.Cache.Index.{IsIndexed}
use rffmpeg.Cache.Upkeep.{new-IsIndexed}
use rffmpeg.Cache.Agreement.{add-IsIndexed, touch-IsIndexed}
use rffmpeg.Cache.Removal.{remove-IsIndexed}

-- The calls that change the tracker, each with its time.
pub data Usage : Type 0 where
  touches : ℕ → String → Usage
  adds : ℕ → String → ℕ → Usage
  removes : String → Usage

unfoldable pub track : Usage → Tracker → Tracker
unfolding touch add remove
track (touches now key) t = touch now key t
track (adds now key size) t = add now key size t
track (removes key) t = remove key t

unfoldable pub track_all : List Usage → Tracker → Tracker
unfolding track
track_all [] t = t
track_all (u ∷ us) t = track_all us (track u t)

track-IsIndexed : (u : Usage) (t : Tracker) → IsIndexed t → IsIndexed (track u t)
unfolding track
track-IsIndexed (touches now key) t h = touch-IsIndexed now key 0 t h
track-IsIndexed (adds now key size) t h = add-IsIndexed now key size t h
track-IsIndexed (removes key) t h = remove-IsIndexed t h key

track_all-keeps : (us : List Usage) (t : Tracker) → IsIndexed t → IsIndexed (track_all us t)
unfolding track_all
track_all-keeps [] t h = h
track_all-keeps (u ∷ us) t h = track_all-keeps us (track u t) (track-IsIndexed u t h)

-- After any calls on a new tracker, every key of the index has an entry of that key at its position,
-- and every entry's key has the entry's position.
pub track_all-IsIndexed : (us : List Usage) → IsIndexed (track_all us new_lru_tracker)
track_all-IsIndexed us = track_all-keeps us new_lru_tracker new-IsIndexed

-- The oldest of a list is no younger than the start and than each entry.
oldest-first : (best : Entry) (es : List Entry) → (oldest best es).last_used ≤ best.last_used
unfolding oldest
oldest-first best [] = omega arith
oldest-first best (e ∷ es) = elim (Bool-cases (ltb e.last_used best.last_used)) [
  | inl b ↦ rw (b, oldest) (ground (arith, b, oldest-first e es))
  | inr b ↦ rw (b, oldest) (oldest-first best es)
]

oldest-le :
    (best : Entry) (es : List Entry) → All (λ e. (oldest best es).last_used ≤ e.last_used) es
unfolding oldest
oldest-le best [] = tt
oldest-le best (e ∷ es) = (
  first (Bool-cases (ltb e.last_used best.last_used)),
  oldest-le (if ltb e.last_used best.last_used then e else best) es,
)
  where
    first :
        ◌⊎◌ {0, 0} (ltb e.last_used best.last_used ≡ true) (ltb e.last_used best.last_used ≡ false)
        → (oldest (if ltb e.last_used best.last_used then e else best) es).last_used ≤ e.last_used
    first (inl b) = rw b (oldest-first e es)
    first (inr b) = rw b (ground (arith, b, oldest-first best es))

-- The entry is one of these.
abbrev pub IsAmong : Entry → List Entry → Type 0
IsAmong o [] = ⊥
IsAmong o (e ∷ es) = (o ≡ e) ⊎ IsAmong o es

-- An entry among the one kept and the rest is among all of them.
widened :
    (best e o : Entry) (es : List Entry) (b : Bool)
    → IsAmong o ((if b then e else best) ∷ es)
    → IsAmong o (best ∷ e ∷ es)
widened best e o es true h = inr h
widened best e o es false (inl h) = inl h
widened best e o es false (inr h) = inr (inr h)

oldest-IsAmong : (best : Entry) (es : List Entry) → IsAmong (oldest best es) (best ∷ es)
unfolding oldest
oldest-IsAmong best [] = inl refl
oldest-IsAmong best (e ∷ es) =
    let older = ltb e.last_used best.last_used in
    widened best e (oldest (if older then e else best) es) es older
      (oldest-IsAmong (if older then e else best) es)

-- The choice for eviction: none only of an empty tracker, else an entry no younger than any other.
abbrev pub IsOldest : List Entry → Option Entry → Type 0
IsOldest es none = es ≡ []
IsOldest es (some o) = IsAmong o es × All (λ e. o.last_used ≤ e.last_used) es

-- The entry that getLRU answers with is one of the tracked ones and was used no later than any other;
-- it answers with none only where nothing is tracked.
pub get_lru-IsOldest : (t : Tracker) → IsOldest t.entries (get_lru t)
unfolding get_lru
get_lru-IsOldest t = picked t.entries
  where
    picked : (es : List Entry) → IsOldest es (first_oldest es)
    picked [] = refl
    picked (e ∷ es) = (oldest-IsAmong e es, (oldest-first e es, oldest-le e es))
