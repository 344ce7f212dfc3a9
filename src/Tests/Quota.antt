-- ===== src/Tests/Quota.antt =====
-- The counters of the clients, and the chunked sweeps, at concrete inputs.
use rffmpeg.Base.{◌≤◌, String, true, ◌&&◌, ◌≡◌, refl, List, [], ◌∷◌, ◌==◌, arith, max}
use rffmpeg.Base.Tables.{exists_where, update_where}
use rffmpeg.Protocol.{no_worker_available}
use rffmpeg.Db.Statements.{starved, set_starved}
use rffmpeg.Db.Sweeps.{contains, fail_starved_jobs_chunked}
use rffmpeg.Db.Chunks.{listed, fail_starved-single_update}
use rffmpeg.RateLimit.{new_in_memory_counter, client_count, try_increment, count_of}
use rffmpeg.RateLimit.Laws.{Use, admits, registers, decrements, releases, use_all, use_all-count}
use rffmpeg.Tests.Fixtures.{cluster}

abbrev traffic : List Use
traffic =
    admits "c" 2
    ∷ registers "c" "j1"
    ∷ admits "c" 2
    ∷ admits "c" 2
    ∷ releases "j1"
    ∷ decrements "c"
    ∷ []

use_all-count_example :
    client_count "c" (use_all traffic new_in_memory_counter)
    ≤ max 2 (client_count "c" new_in_memory_counter)
use_all-count_example =
    use_all-count 2 traffic new_in_memory_counter "c"
      (omega arith, (tt, (omega arith, (omega arith, (tt, (tt, tt))))))

admitted : (try_increment "c" 2 new_in_memory_counter).1.1 ≡ true
unfolding try_increment new_in_memory_counter count_of
admitted = refl

fail_starved-single_update_example :
    ((fail_starved_jobs_chunked 200 ("j2" ∷ "j1" ∷ []) "m" no_worker_available 50 cluster.jobs).0
      ≡ update_where
          (listed (starved 50) ("j2" ∷ "j1" ∷ []))
          (set_starved 200 "m" no_worker_available)
          cluster.jobs)
    × ((x : String)
        → contains
            (fail_starved_jobs_chunked 200
              ("j2" ∷ "j1" ∷ [])
              "m"
              no_worker_available
              50
              cluster.jobs).1
            x
          ≡ exists_where
              (λ j. (j.id == x) && listed (starved 50) ("j2" ∷ "j1" ∷ []) j)
              cluster.jobs)
fail_starved-single_update_example =
    fail_starved-single_update 200 ("j2" ∷ "j1" ∷ []) "m" no_worker_available 50 cluster.jobs
