-- ===== src/Upload/Sessions.antt =====
-- pkg/server/db/chunk_upload.go: the statements on the tables upload_sessions and upload_chunks. A new
-- identifier is an argument.
use rffmpeg.Base.{
  ℕ, ◌+◌, String, Bool, false, ◌&&◌, ◌||◌, Option, none, some, List, [], ◌∷◌, ◌++◌, ◌==◌, not, ltb,
  eqb, if◌then◌else◌, map,
}
use rffmpeg.Base.Tables.{select, count_where, exists_where, find_where, update_where, order_by}
use rffmpeg.Upload.{
  UploadStatus, in_progress, assembling, completed, expired, cancelled, upload_status_text,
  UploadSession, UploadChunk, UploadTables, IndexJson, has_index,
}

abbrev pub has_status : UploadStatus → UploadSession → Bool
has_status st s = upload_status_text s.status == upload_status_text st

-- WHERE id = ?, and WHERE id = ? AND status = ?
abbrev pub is_session : String → UploadSession → Bool
is_session id s = s.id == id

abbrev pub session_in : String → UploadStatus → UploadSession → Bool
session_in id st s = (s.id == id) && has_status st s

unfoldable pub get_upload_session : String → UploadTables → Option UploadSession
get_upload_session id t = find_where (is_session id) t.sessions

unfoldable pub update_sessions :
    (UploadSession → Bool) → (UploadSession → UploadSession) → UploadTables → UploadTables
update_sessions where_ set t = record t { sessions = update_where where_ set t.sessions }

-- A session lasts a day. The insert fails, none, where the identifier is taken.
unfoldable pub create_upload_session :
    ℕ → String → String → ℕ → ℕ → ℕ → Option String → UploadTables → Option UploadTables
create_upload_session now id filename file_size chunk_size total checksum t =
    if exists_where (is_session id) t.sessions
    then none
    else some (record t {
      sessions =
          t.sessions
          ++ (record {
            id = id;
            filename = filename;
            file_size = file_size;
            chunk_size = chunk_size;
            total_chunks = total;
            uploaded_chunks = "[]";
            file_checksum = checksum;
            file_id = none;
            status = in_progress;
            created_at = now;
            updated_at = now;
            expires_at = some (now + 86400000000000);
          }
              ∷ []);
    })

unfoldable pub set_status : ℕ → UploadStatus → UploadSession → UploadSession
set_status now st s = record s { status = st; updated_at = now }

-- The Boolean is RowsAffected > 0.
unfoldable pub claim_upload_session_assembly : ℕ → String → UploadTables → UploadTables × Bool
claim_upload_session_assembly now id t = (
  update_sessions (session_in id in_progress) (set_status now assembling) t,
  ltb 0 (count_where (session_in id in_progress) t.sessions),
)

unfoldable pub reopen_upload_session : ℕ → String → UploadTables → UploadTables
reopen_upload_session now id t =
    update_sessions (session_in id assembling) (set_status now in_progress) t

unfoldable pub set_completed : ℕ → String → UploadSession → UploadSession
set_completed now file_id s = record s {
  status = completed;
  file_id = some file_id;
  updated_at = now;
}

unfoldable pub complete_upload_session : ℕ → String → String → UploadTables → UploadTables × Bool
complete_upload_session now id file_id t = (
  update_sessions (session_in id assembling) (set_completed now file_id) t,
  ltb 0 (count_where (session_in id assembling) t.sessions),
)

unfoldable pub cancel_upload_session : ℕ → String → UploadTables → UploadTables
cancel_upload_session now id t = update_sessions (is_session id) (set_status now cancelled) t

abbrev pub is_past : ℕ → Option ℕ → Bool
is_past now none = false
is_past now (some expires_at) = ltb expires_at now

unfoldable pub is_overdue : ℕ → UploadSession → Bool
is_overdue now s = (has_status in_progress s || has_status assembling s) && is_past now s.expires_at

unfoldable pub expire_upload_sessions : ℕ → UploadTables → UploadTables
unfolding is_overdue
expire_upload_sessions now t =
    update_sessions (is_overdue now) (λ s. record s { status = expired }) t

unfoldable pub get_expired_upload_session_ids : UploadTables → List String
get_expired_upload_session_ids t = map (λ s. s.id) (select (has_status expired) t.sessions)

-- The chunk rows go with their session, ON DELETE CASCADE.
unfoldable pub delete_upload_session : String → UploadTables → UploadTables
delete_upload_session id t = record {
  sessions = select (λ s. not (is_session id s)) t.sessions;
  chunks = select (λ c. not (c.upload_id == id)) t.chunks;
}

abbrev pub is_chunk : String → ℕ → UploadChunk → Bool
is_chunk upload_id i c = (c.upload_id == upload_id) && eqb c.chunk_index i

-- ON CONFLICT(upload_id, chunk_index) DO NOTHING.
unfoldable pub create_upload_chunk :
    ℕ → String → String → ℕ → ℕ → String → String → UploadTables → UploadTables
create_upload_chunk now id upload_id i size checksum path t =
    if exists_where (is_chunk upload_id i) t.chunks then t else record t {
      chunks =
          t.chunks
          ++ (record {
            id = id;
            upload_id = upload_id;
            chunk_index = i;
            size = size;
            checksum = checksum;
            path = path;
            created_at = now;
          }
              ∷ []);
    }

unfoldable pub get_upload_chunk : String → ℕ → UploadTables → Option UploadChunk
get_upload_chunk upload_id i t = find_where (is_chunk upload_id i) t.chunks

unfoldable pub get_upload_chunks : String → UploadTables → List UploadChunk
get_upload_chunks upload_id t =
    order_by (λ c. c.chunk_index) (select (λ c. c.upload_id == upload_id) t.chunks)

unfoldable pub delete_upload_chunks : String → UploadTables → UploadTables
delete_upload_chunks upload_id t = record t {
  chunks = select (λ c. not (c.upload_id == upload_id)) t.chunks;
}

unfoldable pub chunk_exists : String → ℕ → UploadTables → Bool
chunk_exists upload_id i t = ltb 0 (count_where (is_chunk upload_id i) t.chunks)

-- Where one attempt of UpdateUploadSessionChunks ends: an error, success, or another attempt.
pub data Attempt : Type 0 where
  no_session unreadable : Attempt
  present written conflict : Attempt

-- One attempt: read, then write where the text is still the one that was read. Other writers may come between
-- the two, as `others`.
module _ (json : IndexJson) (now : ℕ) (upload_id : String) (i : ℕ) where
  -- WHERE id = ? AND uploaded_chunks = ?
  abbrev pub unchanged : String → UploadSession → Bool
  unchanged text s = (s.id == upload_id) && (s.uploaded_chunks == text)

  unfoldable pub set_chunks : List ℕ → UploadSession → UploadSession
  set_chunks indices s = record s { uploaded_chunks = json.marshal indices; updated_at = now }

  unfoldable pub write_chunks : String → List ℕ → UploadTables → UploadTables × Attempt
  write_chunks text indices t = (
    update_sessions (unchanged text) (set_chunks indices) t,
    if ltb 0 (count_where (unchanged text) t.sessions) then written else conflict,
  )

  abbrev pub add_index :
      (UploadTables → UploadTables)
      → String
      → Option (List ℕ)
      → UploadTables
      → UploadTables × Attempt
  add_index others text none t = (t, unreadable)
  add_index others text (some indices) t =
      if has_index i indices
      then (t, present)
      else write_chunks text (indices ++ (i ∷ [])) (others t)

  abbrev pub add_to :
      (UploadTables → UploadTables) → Option UploadSession → UploadTables → UploadTables × Attempt
  add_to others none t = (t, no_session)
  add_to others (some s) t = add_index others s.uploaded_chunks (json.unmarshal s.uploaded_chunks) t

  unfoldable pub try_chunk : (UploadTables → UploadTables) → UploadTables → UploadTables × Attempt
  try_chunk others t = add_to others (get_upload_session upload_id t) t

  abbrev pub next_attempt :
      (UploadTables → UploadTables)
      → UploadTables × Attempt
      → (UploadTables → UploadTables × Attempt)
      → UploadTables × Attempt
  next_attempt meanwhile (t, conflict) later = later (meanwhile t)
  next_attempt meanwhile (t, no_session) later = (t, no_session)
  next_attempt meanwhile (t, unreadable) later = (t, unreadable)
  next_attempt meanwhile (t, present) later = (t, present)
  next_attempt meanwhile (t, written) later = (t, written)

  -- An attempt for each entry of `interference`: what other writers do inside the attempt, and during the pause
  -- after it.
  unfoldable pub retry_chunk :
      List ((UploadTables → UploadTables) × (UploadTables → UploadTables))
      → UploadTables
      → UploadTables × Attempt
  unfolding try_chunk
  retry_chunk [] t = (t, conflict)
  retry_chunk ((others, meanwhile) ∷ rest) t =
      next_attempt meanwhile (try_chunk others t) (retry_chunk rest)

-- The three attempts, by what other writers do in each.
pub record Interference : Type 0 where
  pub first : (UploadTables → UploadTables) × (UploadTables → UploadTables)
  pub second : (UploadTables → UploadTables) × (UploadTables → UploadTables)
  pub third : (UploadTables → UploadTables) × (UploadTables → UploadTables)

unfoldable pub update_upload_session_chunks :
    IndexJson → ℕ → String → ℕ → Interference → UploadTables → UploadTables × Attempt
unfolding retry_chunk
update_upload_session_chunks json now upload_id i others t =
    retry_chunk json now upload_id i (others.first ∷ others.second ∷ others.third ∷ []) t
