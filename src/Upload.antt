-- ===== src/Upload.antt =====
-- Chunked uploads: pkg/protocol/chunk_upload.go, the rows of pkg/server/db/chunk_upload.go, and the sizes
-- that pkg/server/handlers/chunk_upload.go computes. A size that is not positive is 0, a time counts
-- nanoseconds.
pub mod Sessions
pub mod Completion
pub mod Lookup
pub mod Claims
pub mod Completing
pub mod Steps
pub mod Repeating
pub mod Exclusive
pub mod Chunking
pub mod Recording
use rffmpeg.Base.{
  ℕ, zero, suc, ◌+◌, ◌-◌, ◌*◌, ◌/◌, ◌%◌, ◌^◌, String, Bool, true, false, ◌&&◌, ◌||◌, Option, none,
  some, List, [], ◌∷◌, ◌==◌, not, ltb, leb, eqb, if◌then◌else◌, length,
}
use rffmpeg.Base.Tables.{exists_where}

pub data UploadStatus : Type 0 where
  in_progress assembling completed expired cancelled : UploadStatus

unfoldable pub upload_status_text : UploadStatus → String
upload_status_text in_progress = "in_progress"
upload_status_text assembling = "assembling"
upload_status_text completed = "completed"
upload_status_text expired = "expired"
upload_status_text cancelled = "cancelled"

-- `uploaded_chunks` is the JSON text of a list of indices.
pub record UploadSession : Type 0 where
  pub id : String
  pub filename : String
  pub file_size : ℕ
  pub chunk_size : ℕ
  pub total_chunks : ℕ
  pub uploaded_chunks : String
  pub file_checksum : Option String
  pub file_id : Option String
  pub status : UploadStatus
  pub created_at : ℕ
  pub updated_at : ℕ
  pub expires_at : Option ℕ

pub record UploadChunk : Type 0 where
  pub id : String
  pub upload_id : String
  pub chunk_index : ℕ
  pub size : ℕ
  pub checksum : String
  pub path : String
  pub created_at : ℕ

pub record UploadTables : Type 0 where
  pub sessions : List UploadSession
  pub chunks : List UploadChunk

-- encoding/json for a list of indices; a text that is no such list is none.
pub record IndexJson : Type 0 where
  pub marshal : List ℕ → String
  pub unmarshal : String → Option (List ℕ)

unfoldable pub max_chunk_size : ℕ
max_chunk_size = 64 * 1024 * 1024

unfoldable pub max_total_chunks : ℕ
max_total_chunks = 2 ^ 20

unfoldable pub default_chunk_size : ℕ
default_chunk_size = 10 * 1024 * 1024

-- The chunk size of a new session: the one asked for, none where it is too large, or the handler's own.
unfoldable pub session_chunk_size : ℕ → ℕ → Option ℕ
session_chunk_size handler zero = some (if eqb handler 0 then default_chunk_size else handler)
session_chunk_size handler (suc asked) =
    if ltb max_chunk_size (suc asked) then none else some (suc asked)

unfoldable pub total_chunks_of : ℕ → ℕ → ℕ
total_chunks_of file chunk = (file / chunk) + (if ltb 0 (file % chunk) then 1 else 0)

-- The chunking of InitChunkUpload, none where it refuses; the client's own count may be missing, 0. A file size
-- that is not positive is refused with the other fields.
abbrev pub checked_chunks : ℕ → ℕ → ℕ → Option (ℕ × ℕ)
checked_chunks file asked_total chunk =
    let total = total_chunks_of file chunk in
    if ltb max_total_chunks total || (ltb 0 asked_total && not (eqb asked_total total))
    then none
    else some (chunk, total)

module _ (file asked_total : ℕ) where
  abbrev pub chunking_with : Option ℕ → Option (ℕ × ℕ)
  chunking_with none = none
  chunking_with (some chunk) = checked_chunks file asked_total chunk

unfoldable pub init_chunking : ℕ → ℕ → ℕ → ℕ → Option (ℕ × ℕ)
unfolding total_chunks_of max_total_chunks
init_chunking handler file asked_chunk asked_total =
    if eqb file 0
    then none
    else chunking_with file asked_total (session_chunk_size handler asked_chunk)

-- expectedChunkSize, none where the session's numbers make no sense.
unfoldable pub expected_chunk_size : UploadSession → ℕ → Option ℕ
expected_chunk_size s i =
    if eqb s.chunk_size 0 || (eqb s.total_chunks 0 || eqb s.file_size 0)
    then none
    else if eqb i (s.total_chunks - 1)
    then (if leb s.file_size (s.chunk_size * (s.total_chunks - 1))
        then none
        else some (s.file_size - s.chunk_size * (s.total_chunks - 1)))
    else some s.chunk_size

abbrev pub has_index : ℕ → List ℕ → Bool
has_index i indices = exists_where (λ x. eqb x i) indices

-- The size that GetUploadProgress reports for the chunks recorded.
unfoldable pub uploaded_size : UploadSession → List ℕ → ℕ
uploaded_size s completed_chunks =
    let n = length completed_chunks in
    if eqb n s.total_chunks
    then s.file_size
    else if ltb 0 n && has_index (s.total_chunks - 1) completed_chunks
    then (if eqb (s.file_size % s.chunk_size) 0
        then s.file_size
        else (n - 1) * s.chunk_size + s.file_size % s.chunk_size)
    else n * s.chunk_size

-- The missing chunks that ResumeChunkUpload lists, with the number of indices that are left.
unfoldable pub missing_from : List ℕ → ℕ → ℕ → List ℕ
missing_from completed_chunks zero i = []
missing_from completed_chunks (suc left) i =
    let later = missing_from completed_chunks left (suc i) in
    if has_index i completed_chunks then later else i ∷ later

unfoldable pub missing_chunks : UploadSession → List ℕ → List ℕ
missing_chunks s completed_chunks = missing_from completed_chunks s.total_chunks 0
