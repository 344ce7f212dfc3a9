-- ===== src/Upload/Completion.antt =====
-- pkg/server/handlers/chunk_upload.go: completing, cancelling and expiring an upload. The files of the storage
-- and the table of files are a store with a state of its own; an answer is its HTTP status and message.
use rffmpeg.Base.{
  ℕ, String, Bool, true, false, ◌&&◌, Option, none, some, List, [], ◌∷◌, ◌==◌, not, if◌then◌else◌,
}
use rffmpeg.Upload.{
  UploadStatus, in_progress, assembling, completed, expired, cancelled, UploadSession, UploadTables,
}
use rffmpeg.Upload.Sessions.{
  has_status, get_upload_session, claim_upload_session_assembly, reopen_upload_session,
  complete_upload_session, cancel_upload_session, expire_upload_sessions,
  get_expired_upload_session_ids, delete_upload_session, delete_upload_chunks,
}

pub data Answer : Type 0 where
  file_uploaded : String → Answer
  refused : ℕ → String → Answer

-- What AssembleChunks returns: a temporary file with its size and checksum, an error that the client can repair
-- by sending chunks again, with its message, or another error with its HTTP status and message.
pub data Assembled : Type 0 where
  assembled : String → ℕ → String → Assembled
  chunk_set_error : String → Assembled
  storage_error : ℕ → String → Assembled

pub data FileStat : Type 0 where
  file_present file_missing stat_failed : FileStat

-- `assemble` is AssembleChunks with its arguments, `final_path` GetFilePath, `stat` os.Stat, `rename` os.Rename
-- (false where it fails), `remove` os.Remove, `create_file` the insert into the table of files (false where it
-- fails), `delete_file` DeleteFile, `delete_directory` DeleteChunkDirectory (false where it fails),
-- `equal_fold` strings.EqualFold.
pub record ChunkStore (World : Type 0) : Type 0 where
  pub assemble : String → ℕ → ℕ → ℕ → World → Assembled × World
  pub final_path : String → String
  pub stat : String → World → FileStat
  pub rename : String → String → World → Bool × World
  pub remove : String → World → World
  pub create_file : String → String → ℕ → String → World → Bool × World
  pub delete_file : String → World → World
  pub delete_directory : String → World → Bool × World
  pub equal_fold : String → String → Bool

-- What other requests and other instances of the server do to the tables around a completion: between its
-- read of the session and its claim, and between the claim and the statement that ends it, while the chunks are
-- assembled, published and recorded.
pub record OtherWriters : Type 0 where
  pub before_claim : UploadTables → UploadTables
  pub while_claimed : UploadTables → UploadTables

module _ (World : Type 0) (store : ChunkStore World) where
  -- declaredChecksumMismatch, "" where the checksums agree.
  unfoldable pub declared_checksum_mismatch : String → String → String → String
  declared_checksum_mismatch init_checksum complete_checksum actual =
      if not (init_checksum == "") && not (store.equal_fold init_checksum actual)
      then "Final file checksum mismatch with the checksum declared at init"
      else if not (complete_checksum == "") && not (store.equal_fold complete_checksum actual)
      then "Final file checksum mismatch"
      else ""

  abbrev pub or_empty : Option String → String
  or_empty none = ""
  or_empty (some text) = text

  -- The temporary file under its final name: whether it was published now, none where that failed.
  abbrev pub publish_as : FileStat → String → String → World → Option Bool × World
  publish_as file_present tmp final w = (some false, store.remove tmp w)
  publish_as stat_failed tmp final w = (none, store.remove tmp w)
  publish_as file_missing tmp final w =
      let moved = store.rename tmp final w in
      if moved.0 then (some true, moved.1) else (none, store.remove tmp moved.1)

  unfoldable pub publish : String → String → World → Option Bool × World
  publish tmp final w = publish_as (store.stat final w) tmp final w

  -- The file record and the end of the session, for a file that is in place.
  module _ (now : ℕ) (s : UploadSession) where
    abbrev pub reopened : ℕ → String → UploadTables → World → UploadTables × World × Answer
    reopened code message t w = (reopen_upload_session now s.id t, w, refused code message)

    abbrev pub marked : String → UploadTables × Bool → World → UploadTables × World × Answer
    marked file_id (t, true) w = (t, w, file_uploaded file_id)
    marked file_id (t, false) w = reopened 500 "Failed to complete upload session" t w

    unfoldable pub record_file :
        String → ℕ → Bool → UploadTables → World → UploadTables × World × Answer
    record_file file_id size published t w =
        let created = store.create_file s.filename (store.final_path file_id) size file_id w in
        if created.0
        then marked file_id (complete_upload_session now s.id file_id t) created.1
        else reopened 500 "Failed to create file record" t
            (if published then store.delete_file file_id created.1 else created.1)

    abbrev pub published :
        String → ℕ → Option Bool × World → UploadTables → UploadTables × World × Answer
    published file_id size (none, w) t = reopened 500 "Failed to finalize uploaded file" t w
    published file_id size (some new, w) t = record_file file_id size new t w

    -- The checksum is the identifier of the file.
    unfoldable pub finish_assembly :
        String → String → ℕ → String → UploadTables → World → UploadTables × World × Answer
    finish_assembly asked tmp size checksum t w =
        let mismatch = declared_checksum_mismatch (or_empty s.file_checksum) asked checksum in
        if not (mismatch == "")
        then reopened 400 mismatch t (store.remove tmp w)
        else published checksum size (publish tmp (store.final_path checksum) w) t

    abbrev pub after_assembly :
        String → UploadTables → Assembled × World → UploadTables × World × Answer
    after_assembly asked t (assembled tmp size checksum, w) =
        finish_assembly asked tmp size checksum t w
    after_assembly asked t (chunk_set_error message, w) = reopened 400 message t w
    after_assembly asked t (storage_error code message, w) = reopened code message t w

    abbrev pub already_claimed :
        Option UploadSession → UploadTables → World → UploadTables × World × Answer
    already_claimed none t w =
        (t, w, refused 400 "Upload session is being assembled by another request")
    already_claimed (some current) t w = if_completed current.file_id
      where
        if_completed : Option String → UploadTables × World × Answer
        if_completed none =
            (t, w, refused 400 "Upload session is being assembled by another request")
        if_completed (some file_id) =
            if has_status completed current
            then (t, w, file_uploaded file_id)
            else (t, w, refused 400 "Upload session is being assembled by another request")

    abbrev pub assemble_claimed :
        String → OtherWriters → UploadTables × Bool → World → UploadTables × World × Answer
    assemble_claimed asked others (t, false) w = already_claimed (get_upload_session s.id t) t w
    assemble_claimed asked others (t, true) w =
        after_assembly asked (others.while_claimed t)
          (store.assemble s.id s.total_chunks s.chunk_size s.file_size w)

    unfoldable pub claim_and_assemble :
        String → OtherWriters → UploadTables → World → UploadTables × World × Answer
    claim_and_assemble asked others t w =
        assemble_claimed asked others
          (claim_upload_session_assembly now s.id (others.before_claim t)) w

    abbrev pub repeat_completion :
        Option String → UploadTables → World → UploadTables × World × Answer
    repeat_completion none t w = (t, w, refused 400 "Upload session is already completed")
    repeat_completion (some file_id) t w =
        if not (file_id == "")
        then (t, w, file_uploaded file_id)
        else (t, w, refused 400 "Upload session is already completed")

    abbrev pub complete_by :
        UploadStatus → String → OtherWriters → UploadTables → World → UploadTables × World × Answer
    complete_by completed asked others t w = repeat_completion s.file_id t w
    complete_by assembling asked others t w =
        claim_and_assemble asked others (reopen_upload_session now s.id t) w
    complete_by in_progress asked others t w = claim_and_assemble asked others t w
    complete_by expired asked others t w = (t, w, refused 400 "Upload session is not in progress")
    complete_by cancelled asked others t w = (t, w, refused 400 "Upload session is not in progress")

  abbrev pub complete_found :
      ℕ
      → Option UploadSession
      → String
      → OtherWriters
      → UploadTables
      → World
      → UploadTables × World × Answer
  complete_found now none asked others t w = (t, w, refused 404 "Upload session not found")
  complete_found now (some s) asked others t w = complete_by now s s.status asked others t w

  -- CompleteChunkUpload, behind the token and the JSON body; `asked` is the checksum of the request.
  unfoldable pub complete_chunk_upload :
      ℕ → String → String → OtherWriters → UploadTables → World → UploadTables × World × Answer
  complete_chunk_upload now upload_id asked others t w =
      complete_found now (get_upload_session upload_id t) asked others t w

  -- What runs behind the answer of a completion and of a cancellation.
  unfoldable pub clean_up_chunks : String → UploadTables → World → UploadTables × World
  clean_up_chunks upload_id t w =
      (delete_upload_chunks upload_id t, (store.delete_directory upload_id w).1)

  -- CancelChunkUpload up to its cleanup; the answer is its HTTP status. `others` runs between the read and the
  -- update.
  abbrev pub cancel_found :
      ℕ
      → String
      → Option UploadSession
      → (UploadTables → UploadTables)
      → UploadTables
      → UploadTables × ℕ
  cancel_found now upload_id none others t = (t, 404)
  cancel_found now upload_id (some s) others t =
      if has_status in_progress s
      then (cancel_upload_session now upload_id (others t), 200)
      else (t, 400)

  unfoldable pub cancel_chunk_upload :
      ℕ → String → (UploadTables → UploadTables) → UploadTables → UploadTables × ℕ
  cancel_chunk_upload now upload_id others t =
      cancel_found now upload_id (get_upload_session upload_id t) others t

  unfoldable pub remove_sessions : List String → UploadTables → World → UploadTables × World
  remove_sessions [] t w = (t, w)
  remove_sessions (id ∷ ids) t w =
      let deleted = store.delete_directory id w in
      remove_sessions ids (if deleted.0 then delete_upload_session id t else t) deleted.1

  unfoldable pub cleanup_expired_sessions_once : ℕ → UploadTables → World → UploadTables × World
  unfolding remove_sessions
  cleanup_expired_sessions_once now t w =
      let swept = expire_upload_sessions now t in
      remove_sessions (get_expired_upload_session_ids swept) swept w
