-- ===== src/Upload/Completing.antt =====
-- pkg/server/handlers/chunk_upload.go, CompleteChunkUpload: what a completion leaves behind.
use rffmpeg.Base.{
  ℕ, ◌≡◌, refl, ap, ◌∙◌, subst, ◌⊎◌, String, Bool, Option, none, some, ◌==◌, Bool-cases,
  Option-cases, inl, inr, arith,
}
use rffmpeg.Upload.{
  UploadStatus, in_progress, assembling, completed, expired, cancelled, UploadSession, UploadTables,
}
use rffmpeg.Upload.Sessions.{get_upload_session, reopen_upload_session, complete_upload_session}
use rffmpeg.Upload.Completion.{
  Answer, file_uploaded, refused, Assembled, assembled, chunk_set_error, storage_error, ChunkStore,
  or_empty, declared_checksum_mismatch, reopened, marked, record_file, published, finish_assembly,
  after_assembly, claim_and_assemble, repeat_completion, complete_by, complete_chunk_upload,
}
use rffmpeg.Upload.Completion.{OtherWriters}
use rffmpeg.Base.{sym}
use rffmpeg.Upload.Lookup.{
  IsIn, reopen-IsIn, claimed_tables, claimed_tables-IsIn, claim-first, HasFile,
  completed_tables-HasFile, complete-assembling, session-id,
}

-- What a completion leaves behind: the file that it answers with, or a session to complete again.
unfoldable pub HasEnded : String → UploadTables → Answer → Type 0
HasEnded id t (file_uploaded file_id) = HasFile id file_id t
HasEnded id t (refused code message) = IsIn id in_progress t

-- What other writers do around the completion leaves the status of this session alone.
pub record LeavesStatus (id : String) (others : OtherWriters) : Type 0 where
  pub before_kept :
      (st : UploadStatus) (t : UploadTables) → IsIn id st t → IsIn id st (others.before_claim t)
  pub while_kept :
      (st : UploadStatus) (t : UploadTables) → IsIn id st t → IsIn id st (others.while_claimed t)

module _ (World : Type 0) (store : ChunkStore World) (now : ℕ) (s : UploadSession) where
  abbrev Ends : UploadTables × World × Answer → Type 0
  Ends r = HasEnded s.id r.0 r.2

  reopened-HasEnded :
      (code : ℕ) (message : String) (t : UploadTables) (w : World)
      → IsIn s.id assembling t
      → Ends (reopened World store now s code message t w)
  unfolding HasEnded
  reopened-HasEnded code message t w h = reopen-IsIn now s.id t h

  marked-HasEnded :
      (file_id : String) (t : UploadTables) (w : World)
      → IsIn s.id assembling t
      → Ends (marked World store now s file_id (complete_upload_session now s.id file_id t) w)
  unfolding HasEnded
  marked-HasEnded file_id t w h =
      rw (complete-assembling now s.id file_id t h) (completed_tables-HasFile now s.id file_id t h)

  record_file-HasEnded :
      (file_id : String) (size : ℕ) (new : Bool) (t : UploadTables) (w : World)
      → IsIn s.id assembling t
      → Ends (record_file World store now s file_id size new t w)
  unfolding record_file
  record_file-HasEnded file_id size new t w h =
      elim (Bool-cases (store.create_file s.filename (store.final_path file_id) size file_id w).0) [
        | inl k ↦ rw k (marked-HasEnded file_id t _ h)
        | inr k ↦ rw k (reopened-HasEnded 500 "Failed to create file record" t w h)
      ]

  published-HasEnded :
      (file_id : String) (size : ℕ) (r : Option Bool × World) (t : UploadTables)
      → IsIn s.id assembling t
      → Ends (published World store now s file_id size r t)
  published-HasEnded file_id size (none, w) t h =
      reopened-HasEnded 500 "Failed to finalize uploaded file" t w h
  published-HasEnded file_id size (some new, w) t h = record_file-HasEnded file_id size new t w h

  finish_assembly-HasEnded :
      (asked tmp : String) (size : ℕ) (checksum : String) (t : UploadTables) (w : World)
      → IsIn s.id assembling t
      → Ends (finish_assembly World store now s asked tmp size checksum t w)
  unfolding finish_assembly
  finish_assembly-HasEnded asked tmp size checksum t w h =
      elim (Bool-cases (
        declared_checksum_mismatch World store (or_empty World store s.file_checksum) asked checksum
        == "")) [
          | inl k ↦ rw k (published-HasEnded checksum size _ t h)
          | inr k ↦ rw k (reopened-HasEnded 400 _ t w h)
        ]

  after_assembly-HasEnded :
      (asked : String) (t : UploadTables) (r : Assembled × World)
      → IsIn s.id assembling t
      → Ends (after_assembly World store now s asked t r)
  after_assembly-HasEnded asked t (assembled tmp size checksum, w) h =
      finish_assembly-HasEnded asked tmp size checksum t w h
  after_assembly-HasEnded asked t (chunk_set_error message, w) h =
      reopened-HasEnded 400 message t w h
  after_assembly-HasEnded asked t (storage_error code message, w) h =
      reopened-HasEnded code message t w h

  module _ (others : OtherWriters) (apart : LeavesStatus s.id others) where
    claim_and_assemble-HasEnded :
        (asked : String) (t : UploadTables) (w : World)
        → IsIn s.id in_progress t
        → Ends (claim_and_assemble World store now s asked others t w)
    unfolding claim_and_assemble
    claim_and_assemble-HasEnded asked t w h =
        let free = apart.before_kept in_progress t h in
        rw (claim-first now s.id (others.before_claim t) free) (
          after_assembly-HasEnded asked
            (others.while_claimed (claimed_tables now s.id (others.before_claim t))) _
            (apart.while_kept assembling (claimed_tables now s.id (others.before_claim t))
              (claimed_tables-IsIn now s.id (others.before_claim t) free)))

  -- The status of the row that the handler read.
  module _ (others : OtherWriters) (apart : LeavesStatus s.id others) (asked : String)
      (t : UploadTables) (w : World) (h : get_upload_session s.id t ≡ some s) where
    claimed-HasEnded :
        s.status ≡ in_progress → Ends (claim_and_assemble World store now s asked others t w)
    unfolding IsIn
    claimed-HasEnded k = claim_and_assemble-HasEnded others apart asked t w (s, h, k)

    reclaimed : UploadTables × World × Answer
    reclaimed =
        claim_and_assemble World store now s asked others (reopen_upload_session now s.id t) w

    reclaimed-HasEnded : s.status ≡ assembling → Ends reclaimed
    unfolding IsIn reclaimed
    reclaimed-HasEnded k =
        claim_and_assemble-HasEnded others apart asked (reopen_upload_session now s.id t) w
          (reopen-IsIn now s.id t (s, h, k))

    complete_by-HasEnded :
        (st : UploadStatus)
        → s.status ≡ st
        → (st ≡ in_progress) ⊎ (st ≡ assembling)
        → Ends (complete_by World store now s st asked others t w)
    unfolding reclaimed
    complete_by-HasEnded in_progress k o = claimed-HasEnded k
    complete_by-HasEnded assembling k o = reclaimed-HasEnded k
    complete_by-HasEnded completed k o = ground (arith, o)
    complete_by-HasEnded expired k o = ground (arith, o)
    complete_by-HasEnded cancelled k o = ground (arith, o)

    module _ (file_id : String) where
      Answers : UploadTables × World × Answer → Type 0
      Answers r = r.2 ≡ file_uploaded file_id → HasFile s.id file_id r.0

      answered : (r : UploadTables × World × Answer) → Ends r → Answers r
      unfolding Answers HasEnded
      answered r k e = subst (λ a. HasEnded s.id r.0 a) e k

      repeat_completion-HasFile :
          (o : Option String)
          → s.file_id ≡ o
          → s.status ≡ completed
          → Answers (repeat_completion World store now s o t w)
      unfolding Answers HasFile
      repeat_completion-HasFile none i k = λ e. ground (arith, e)
      repeat_completion-HasFile (some f) i k = elim (Bool-cases (f == "")) [
        | inl b ↦ rw b (λ e. ground (arith, e))
        | inr b ↦ rw b (λ e. (s, h, k, i ∙ ground (arith, e)))
      ]

      complete_by-HasFile :
          (st : UploadStatus)
          → s.status ≡ st
          → Answers (complete_by World store now s st asked others t w)
      unfolding Answers reclaimed
      complete_by-HasFile in_progress k e =
          answered (claim_and_assemble World store now s asked others t w) (claimed-HasEnded k) e
      complete_by-HasFile assembling k e = answered reclaimed (reclaimed-HasEnded k) e
      complete_by-HasFile completed k e = repeat_completion-HasFile s.file_id refl k e
      complete_by-HasFile expired k e = ground (arith, e)
      complete_by-HasFile cancelled k e = ground (arith, e)

module _ (World : Type 0) (store : ChunkStore World) (now : ℕ) (upload_id asked : String)
    (others : OtherWriters) (apart : LeavesStatus upload_id others) (t : UploadTables)
    (w : World) where
  abbrev first_answer : UploadTables × World × Answer
  first_answer = complete_chunk_upload World store now upload_id asked others t w

  own_id :
      (s : UploadSession)
      → get_upload_session upload_id t ≡ some s
      → get_upload_session s.id t ≡ some s
  own_id s h = ap (λ x. get_upload_session x t) (session-id upload_id t s h) ∙ h

  own_apart :
      (s : UploadSession) → get_upload_session upload_id t ≡ some s → LeavesStatus s.id others
  own_apart s h = subst (λ x. LeavesStatus x others) (sym (session-id upload_id t s h)) apart

  pub complete_chunk_upload-HasFile :
      (file_id : String)
      → first_answer.2 ≡ file_uploaded file_id
      → HasFile upload_id file_id first_answer.0
  unfolding complete_chunk_upload Answers
  complete_chunk_upload-HasFile file_id = elim (Option-cases (get_upload_session upload_id t)) [
    | inl h ↦ rw h (λ e. ground (arith, e))
    | inr (s, h) ↦ rw h (
        subst
          (λ x.
            (complete_by World store now s s.status asked others t w).2 ≡ file_uploaded file_id
            → HasFile x file_id (complete_by World store now s s.status asked others t w).0)
          (session-id upload_id t s h)
          (complete_by-HasFile World store now s others (own_apart s h) asked t w (own_id s h)
            file_id s.status refl))
  ]

  -- A completion of a session that is in progress, or that a crashed request left assembling, leaves it completed
  -- with the file that the answer names, or after any refusal in progress, so that it can be completed again.
  -- Other writers may act before the claim and between the claim and the end, as long as they leave the status of
  -- this session alone.
  pub complete_chunk_upload-HasEnded :
      (s : UploadSession)
      → get_upload_session upload_id t ≡ some s
      → (s.status ≡ in_progress) ⊎ (s.status ≡ assembling)
      → HasEnded upload_id
          (complete_chunk_upload World store now upload_id asked others t w).0
          (complete_chunk_upload World store now upload_id asked others t w).2
  unfolding complete_chunk_upload
  complete_chunk_upload-HasEnded s h o = rw h (
      subst
        (λ x.
          HasEnded x (complete_by World store now s s.status asked others t w).0
            (complete_by World store now s s.status asked others t w).2)
        (session-id upload_id t s h)
        (complete_by-HasEnded World store now s others (own_apart s h) asked t w (own_id s h)
          s.status refl o))
