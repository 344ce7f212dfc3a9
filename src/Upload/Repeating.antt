-- ===== src/Upload/Repeating.antt =====
-- pkg/server/handlers/chunk_upload.go, CompleteChunkUpload: a completion that is sent again.
use rffmpeg.Base.{ℕ, ◌≡◌, refl, String, false, ◌==◌}
use rffmpeg.Upload.{UploadTables}
use rffmpeg.Upload.Completion.{OtherWriters, file_uploaded, ChunkStore, complete_chunk_upload}
use rffmpeg.Upload.{IndexJson}
use rffmpeg.Upload.Lookup.{HasFile}
use rffmpeg.Upload.Completing.{LeavesStatus, complete_chunk_upload-HasFile}
use rffmpeg.Upload.Steps.{Steps, HasFile-Steps}

module _ (World : Type 0) (store : ChunkStore World) (upload_id file_id : String) where
  completed-repeats :
      (later : ℕ) (again : String) (others : OtherWriters) (t : UploadTables) (w : World)
      → (file_id == "") ≡ false
      → HasFile upload_id file_id t
      → complete_chunk_upload World store later upload_id again others t w
        ≡ (t, w, file_uploaded file_id)
  unfolding complete_chunk_upload HasFile
  completed-repeats later again others t w n (s, h, k, i) = simp (h, k, i, n) refl

  -- A completion that is sent again after the first was answered with a file, whatever the server has done to
  -- the tables in between by the statements of `Step`, is answered with the same file and changes nothing. Other
  -- writers around the first left the status of the session alone, and the file's identifier is not empty.
  pub complete_chunk_upload-repeats :
      (json : IndexJson) (now later : ℕ) (asked again : String) (others others' : OtherWriters)
      (t t' : UploadTables) (w w' : World)
      → LeavesStatus upload_id others
      → (file_id == "") ≡ false
      → (complete_chunk_upload World store now upload_id asked others t w).2 ≡ file_uploaded file_id
      → Steps json upload_id (complete_chunk_upload World store now upload_id asked others t w).0 t'
      → complete_chunk_upload World store later upload_id again others' t' w'
        ≡ (t', w', file_uploaded file_id)
  complete_chunk_upload-repeats json now later asked again others others' t t' w w' apart n e
        steps =
      completed-repeats later again others' t' w' n (
        HasFile-Steps json upload_id file_id _ t' steps (
          complete_chunk_upload-HasFile World store now upload_id asked others apart t w file_id e))
