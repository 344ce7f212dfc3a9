-- ===== src/Tests/Tracking.antt =====
-- The tracker of cached results on a short history.
use rffmpeg.Base.{◌≡◌, refl, List, [], ◌∷◌, ◌==◌, none, some, map, if◌then◌else◌}
use rffmpeg.Cache.{
  Tracker, new_lru_tracker, slot, set_slot, assign, add, remove, touch, entry_of, get_lru,
}
use rffmpeg.Cache.Index.{IsIndexed, entry-remove}
use rffmpeg.Cache.Upkeep.{entry-add, fresh_entry}
use rffmpeg.Cache.Usage.{
  Usage, adds, touches, removes, track, track_all, track_all-IsIndexed, IsOldest, get_lru-IsOldest,
}

abbrev calls : List Usage
calls = adds 1 "a" 10 ∷ adds 2 "b" 20 ∷ adds 3 "c" 30 ∷ touches 4 "a" ∷ removes "b" ∷ []

abbrev tracker : Tracker
tracker = track_all calls new_lru_tracker

-- The last entry has taken the place of the one removed.
leaves_two : map (λ e. e.key) tracker.entries ≡ "a" ∷ "c" ∷ []
unfolding track_all track add touch remove new_lru_tracker slot set_slot assign
leaves_two = refl

track_all-IsIndexed_example : IsIndexed (track_all calls new_lru_tracker)
track_all-IsIndexed_example = track_all-IsIndexed calls

entry-remove_example :
    entry_of "c" (remove "a" tracker) ≡ (if "c" == "a" then none else entry_of "c" tracker)
entry-remove_example = entry-remove tracker (track_all-IsIndexed calls) "a" "c"

entry-add_example :
    entry_of "c" (add 9 "c" 33 tracker)
    ≡ (if "c" == "c" then some (fresh_entry 9 "c" 33) else entry_of "c" tracker)
entry-add_example = entry-add 9 "c" 33 tracker (track_all-IsIndexed calls) "c"

get_lru-IsOldest_example : IsOldest tracker.entries (get_lru tracker)
get_lru-IsOldest_example = get_lru-IsOldest tracker
