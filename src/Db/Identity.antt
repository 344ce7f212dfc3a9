-- ===== src/Db/Identity.antt =====
-- NormalizeWorkerID of pkg/server/db/workers.go. Parsing a UUID belongs to github.com/google/uuid and
-- trimming to Go's strings: both are parameters here, with the laws that their documentation gives.
use rffmpeg.Base.{String, ◌≡◌, Option, none, some, Option-cases, inl, inr}

-- `parse` is uuid.Parse followed by String: the canonical text of a UUID, none where Parse fails.
pub record UuidLibrary : Type 0 where
  pub trim_space : String → String
  pub parse : String → Option String

-- The canonical text has no surrounding space and parses to itself; trimming twice is trimming.
pub record UuidLaws (u : UuidLibrary) : Type 0 where
  pub trim_idem : (s : String) → u.trim_space (u.trim_space s) ≡ u.trim_space s
  pub trim-parse : (s p : String) → u.parse s ≡ some p → u.trim_space p ≡ p
  pub parse_idem : (s p : String) → u.parse s ≡ some p → u.parse p ≡ some p

abbrev or_trimmed : Option String → String → String
or_trimmed none s = s
or_trimmed (some p) s = p

module _ (u : UuidLibrary) where
  unfoldable pub normalize_worker_id : String → String
  normalize_worker_id id = or_trimmed (u.parse (u.trim_space id)) (u.trim_space id)

module _ (u : UuidLibrary) (laws : UuidLaws u) where
  -- Normalizing an identifier twice is normalizing it once, for a UUID and for any other text, where
  -- the library's laws hold.
  pub normalize_idem :
      (id : String) → normalize_worker_id u (normalize_worker_id u id) ≡ normalize_worker_id u id
  unfolding normalize_worker_id
  normalize_idem id = elim (Option-cases (u.parse (u.trim_space id))) [
    | inl e ↦ rw (e, laws.trim_idem id, e)
    | inr (p, e) ↦ rw (e, laws.trim-parse _ p e, laws.parse_idem _ p e)
  ]
