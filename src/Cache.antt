-- ===== src/Cache.antt =====
-- The tracker of least recently used results in pkg/worker/cache.go (lruTracker): a slice of entries and
-- a map from key to position. Each method runs under the mutex. `now` is time.Now.
pub mod Slots
pub mod Index
pub mod Upkeep
pub mod Agreement
pub mod Removal
pub mod Usage
use rffmpeg.Base.{
  ℕ, zero, suc, ◌+◌, ◌-◌, String, Bool, Option, none, some, List, [], ◌∷◌, ◌++◌, ◌==◌, length, take,
  ltb, eqb, if◌then◌else◌,
}

-- lruEntry.
pub record Entry : Type 0 where
  pub key : String
  pub last_used : ℕ
  pub size : ℕ

-- lruTracker: the map is a function.
pub record Tracker : Type 0 where
  pub entries : List Entry
  pub key_index : String → Option ℕ

-- Reading and writing a slot of a slice.
unfoldable pub slot : ℕ → List Entry → Option Entry
slot i [] = none
slot zero (e ∷ es) = some e
slot (suc i) (e ∷ es) = slot i es

unfoldable pub set_slot : ℕ → Entry → List Entry → List Entry
set_slot i x [] = []
set_slot zero x (e ∷ es) = x ∷ es
set_slot (suc i) x (e ∷ es) = e ∷ set_slot i x es

unfoldable pub assign : String → Option ℕ → (String → Option ℕ) → String → Option ℕ
assign k v m x = if x == k then v else m x

unfoldable pub new_lru_tracker : Tracker
new_lru_tracker = record { entries = []; key_index = λ k. none }

abbrev pub rewritten : ℕ → (Entry → Entry) → Tracker → Option Entry → Tracker
rewritten i f t none = t
rewritten i f t (some e) = record t { entries = set_slot i (f e) t.entries }

-- The write to the fields of entries[idx].
abbrev pub rewrite_slot : ℕ → (Entry → Entry) → Tracker → Tracker
rewrite_slot i f t = rewritten i f t (slot i t.entries)

abbrev pub touched : ℕ → Tracker → Option ℕ → Tracker
touched now t none = t
touched now t (some i) = rewrite_slot i (λ e. record e { last_used = now }) t

unfoldable pub touch : ℕ → String → Tracker → Tracker
unfolding slot set_slot
touch now key t = touched now t (t.key_index key)

abbrev pub added : ℕ → String → ℕ → Tracker → Option ℕ → Tracker
added now key size t (some i) = rewrite_slot i (λ e. record e { last_used = now; size = size }) t
added now key size t none = record {
  entries = t.entries ++ record { key = key; last_used = now; size = size } ∷ [];
  key_index = assign key (some (length t.entries)) t.key_index;
}

unfoldable pub add : ℕ → String → ℕ → Tracker → Tracker
unfolding slot set_slot assign
add now key size t = added now key size t (t.key_index key)

-- The last entry takes the removed one's place, with its position in the map.
abbrev pub moved : ℕ → Tracker → Option Entry → Tracker
moved i t none = t
moved i t (some last) = record {
  entries = set_slot i last t.entries;
  key_index = assign last.key (some i) t.key_index;
}

abbrev pub removed : String → Tracker → Option ℕ → Tracker
removed key t none = t
removed key t (some i) =
    let last = length t.entries - 1 in
    let t' = if eqb i last then t else moved i t (slot last t.entries) in
    record { entries = take last t'.entries; key_index = assign key none t'.key_index }

unfoldable pub remove : String → Tracker → Tracker
unfolding slot set_slot assign
remove key t = removed key t (t.key_index key)

abbrev pub entry_at : Tracker → Option ℕ → Option Entry
entry_at t none = none
entry_at t (some i) = slot i t.entries

unfoldable pub entry_of : String → Tracker → Option Entry
unfolding slot
entry_of key t = entry_at t (t.key_index key)

abbrev pub size_in : Option Entry → Option ℕ
size_in none = none
size_in (some e) = some e.size

unfoldable pub size_of : String → Tracker → Option ℕ
unfolding entry_of
size_of key t = size_in (entry_of key t)

unfoldable pub oldest : Entry → List Entry → Entry
oldest best [] = best
oldest best (e ∷ es) = oldest (if ltb e.last_used best.last_used then e else best) es

abbrev pub first_oldest : List Entry → Option Entry
first_oldest [] = none
first_oldest (e ∷ es) = some (oldest e es)

unfoldable pub get_lru : Tracker → Option Entry
unfolding oldest
get_lru t = first_oldest t.entries

unfoldable pub sum_sizes : List Entry → ℕ
sum_sizes [] = 0
sum_sizes (e ∷ es) = e.size + sum_sizes es

unfoldable pub total_size : Tracker → ℕ
unfolding sum_sizes
total_size t = sum_sizes t.entries
