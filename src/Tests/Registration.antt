-- ===== src/Tests/Registration.antt =====
-- A worker registers again.
use rffmpeg.Base.{◌≡◌, refl, [], ◌∷◌, ◌==◌, ◌&&◌, some, true, arith, eq_iff, map}
use rffmpeg.Base.Tables.{exists_where, count_where, select}
use rffmpeg.Db.{Database}
use rffmpeg.Db.Identity.{normalize_worker_id}
use rffmpeg.Db.Workers.{Registration, registered_id, create_or_update_worker, residue, new_worker}
use rffmpeg.Db.Registry.{HasKeys, registered-evicted, registered-HasKeys}
use rffmpeg.Tests.Fixtures.{plain, cluster, worker_a, worker_b}

abbrev again : Registration
again = record { name = "alpha"; encoders = "libx264" ∷ []; details = ""; max_concurrent = 2 }

abbrev marked : Database
marked = record cluster {
  workers = record worker_a { evicted = true; evicted_at = some 5 } ∷ worker_b ∷ [];
}

marked_a :
    exists_where (λ w. (w.id == registered_id plain "f" "a") && w.evicted) marked.workers ≡ true
unfolding exists_where normalize_worker_id
marked_a = refl

cluster-HasKeys : HasKeys cluster.workers
unfolding count_where
cluster-HasKeys x = ground (arith, eq_iff "a" x, eq_iff "b" x, eq_iff "a" "b")

registered-HasKeys_example :
    HasKeys (create_or_update_worker plain 120 "f" "c" again (some 30) cluster).workers
registered-HasKeys_example =
    registered-HasKeys plain 120 "f" "c" again (some 30) cluster cluster-HasKeys

-- The expired row of the same name gives way to the new identifier.
replaces_residue :
    map (λ w. w.id) (create_or_update_worker plain 200 "f" "c" again (some 110) cluster).workers
    ≡ "b" ∷ "c" ∷ []
unfolding create_or_update_worker count_where select residue new_worker normalize_worker_id
replaces_residue = refl

registered-evicted_example :
    exists_where
      (λ w. (w.id == registered_id plain "f" "a") && w.evicted)
      (create_or_update_worker plain 120 "f" "a" again (some 30) marked).workers
    ≡ true
registered-evicted_example = registered-evicted plain 120 "f" "a" again (some 30) marked marked_a
