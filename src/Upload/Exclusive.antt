-- ===== src/Upload/Exclusive.antt =====
-- pkg/server/db/chunk_upload.go, ClaimUploadSessionAssembly: a session that was claimed is not claimed again before
-- it is reopened.
use rffmpeg.Base.{
  ℕ, ◌≡◌, refl, sym, subst, String, Bool, true, false, ◌&&◌, ◌==◌, ◌++◌, not, Option, none, some,
  List, [], ◌∷◌, Bool-cases, inl, inr, eq_iff, arith,
}
use rffmpeg.Base.Tables.{count_where, exists_where, find_where, select}
use rffmpeg.Upload.{
  UploadSession, UploadTables, IndexJson, in_progress, assembling, expired, cancelled,
  upload_status_text,
}
use rffmpeg.Upload.Sessions.{
  has_status, is_session, session_in, get_upload_session, update_sessions, set_status,
  set_completed, claim_upload_session_assembly, reopen_upload_session, complete_upload_session,
  create_upload_session, cancel_upload_session, expire_upload_sessions, delete_upload_session,
  write_chunks, set_chunks, create_upload_chunk, delete_upload_chunks, unchanged, is_overdue,
  is_chunk,
}
use rffmpeg.Upload.Steps.{
  Step, step_created, step_claimed, step_reopened, step_completed, step_cancelled, step_expired,
  step_deleted, step_written, step_stored, step_swept, find-append, find-select, other_key,
}
use rffmpeg.Upload.Claims.{IsClosed, IsClosed-update, closed-claim, claim-IsClosed}

-- The statement does not reopen this session.
unfoldable pub IsQuiet :
    (json : IndexJson) (id : String) (t t' : UploadTables) → Step json id t t' → Type 0
IsQuiet json id _ _ (step_reopened now other t) = (id == other) ≡ false
IsQuiet json id _ _ _ = Unit

-- Statements of the server, none of which reopens, cancels or deletes this session.
pub data QuietSteps (json : IndexJson) (id : String) : UploadTables → UploadTables → Type 0 where
  at_rest : (t : UploadTables) → QuietSteps json id t t
  quietly :
      (t t' t'' : UploadTables) (s : Step json id t t')
      → IsQuiet json id t t' s
      → QuietSteps json id t' t''
      → QuietSteps json id t t''

-- A row whose status was just set to another one.
module _ (id : String) where
  with_status-closed :
      (x : UploadSession) → has_status in_progress x ≡ false → session_in id in_progress x ≡ false
  with_status-closed x h = elim (Bool-cases (x.id == id)) [
    | inl b ↦ rw (b, h) refl
    | inr b ↦ rw b refl
  ]

  count-select_zero :
      (q p : UploadSession → Bool) (l : List UploadSession)
      → count_where q l ≡ 0
      → count_where q (select p l) ≡ 0
  unfolding count_where select
  count-select_zero q p [] h = refl
  count-select_zero q p (x ∷ l) h = ground (arith, h, count-select_zero q p l)

  found-exists :
      (l : List UploadSession) (s : UploadSession)
      → find_where (is_session id) l ≡ some s
      → exists_where (is_session id) l ≡ true
  unfolding find_where exists_where
  found-exists [] s h = ground (arith, h)
  found-exists (x ∷ l) s h = ground (arith, h, found-exists l s)

  new_apart :
      (new : String) (l : List UploadSession)
      → exists_where (is_session id) l ≡ true
      → exists_where (is_session new) l ≡ false
      → (new == id) ≡ false
  new_apart new l h n = elim (Bool-cases (new == id)) [
    | inl e ↦
        ground (
          arith,
          n,
          subst (λ x. exists_where (is_session x) l ≡ true) (sym ((eq_iff new id).0 e)) h,
        )
    | inr e ↦ e
  ]

  fresh-closed : (new : String) (b : Bool) → (new == id) ≡ false → ((new == id) && b) ≡ false
  fresh-closed new b h = rw h refl

  append-zero :
      (q : UploadSession → Bool) (l : List UploadSession) (x : UploadSession)
      → count_where q l ≡ 0
      → q x ≡ false
      → count_where q (l ++ (x ∷ [])) ≡ 0
  unfolding count_where
  append-zero q [] x h n = rw n refl
  append-zero q (y ∷ l) x h n = ground (arith, h, append-zero q l x, n)

  IfClosed : Option UploadTables → Type 0
  IfClosed none = Unit
  IfClosed (some t) = IsClosed id t

  create-IfClosed :
      (now : ℕ) (new filename : String) (size chunk total : ℕ) (checksum : Option String)
      (t : UploadTables)
      → IsClosed id t
      → IfClosed (create_upload_session now new filename size chunk total checksum t)
  unfolding IfClosed IsClosed get_upload_session create_upload_session count_where
  create-IfClosed now new filename size chunk total checksum t ((s, h), free) =
      elim (Bool-cases (exists_where (is_session new) t.sessions)) [
        | inl b ↦ rw b tt
        | inr b ↦ rw b (
          (s, find-append id t.sessions _ s h),
          append-zero (session_in id in_progress) t.sessions _ free
              (fresh-closed new _ (new_apart new t.sessions (found-exists t.sessions s h) b)),
        )
      ]

  -- Another session's row is not this one's.
  reopened-closed :
      (other : String) (x : UploadSession)
      → (id == other) ≡ false
      → session_in other assembling x ≡ true
      → (x.id == id) ≡ false
  reopened-closed other x n h = elim (Bool-cases (x.id == id)) [
    | inl e ↦ ground (arith, h, other_key id other x.id n e)
    | inr e ↦ e
  ]

module _ (id : String) where
  stored-IsClosed :
      (now : ℕ) (chunk other : String) (i size : ℕ) (checksum path : String) (t : UploadTables)
      → IsClosed id t
      → IsClosed id (create_upload_chunk now chunk other i size checksum path t)
  unfolding IsClosed get_upload_session create_upload_chunk
  stored-IsClosed now chunk other i size checksum path t c =
      elim (Bool-cases (exists_where (is_chunk other i) t.chunks)) [
        | inl b ↦ rw b c
        | inr b ↦ rw b c
      ]

module _ (json : IndexJson) (id : String) where
  IsClosed-Step :
      (t t' : UploadTables) (s : Step json id t t')
      → IsQuiet json id t t' s
      → IsClosed id t
      → IsClosed id t'
  unfolding IsQuiet IsClosed IfClosed get_upload_session claim_upload_session_assembly
      reopen_upload_session complete_upload_session cancel_upload_session expire_upload_sessions
      delete_upload_session write_chunks delete_upload_chunks update_sessions set_status
      set_completed set_chunks upload_status_text
  IsClosed-Step _ _ (step_created now new filename size chunk total checksum t t' e) q c =
      subst (IfClosed id) e (create-IfClosed id now new filename size chunk total checksum t c)
  IsClosed-Step _ _ (step_claimed now other t) q c =
      IsClosed-update id (session_in other in_progress) (set_status now assembling) (λ x. refl)
        (λ x p f. with_status-closed id (set_status now assembling x) refl) t c
  IsClosed-Step _ _ (step_reopened now other t) q c =
      IsClosed-update id (session_in other assembling) (set_status now in_progress) (λ x. refl)
        (λ x p f. fresh-closed id x.id true (reopened-closed id other x q p)) t c
  IsClosed-Step _ _ (step_completed now other file_id t) q c =
      IsClosed-update id (session_in other assembling) (set_completed now file_id) (λ x. refl)
        (λ x p f. with_status-closed id (set_completed now file_id x) refl) t c
  IsClosed-Step _ _ (step_cancelled now other t n) q c =
      IsClosed-update id (is_session other) (set_status now cancelled) (λ x. refl)
        (λ x p f. with_status-closed id (set_status now cancelled x) refl) t c
  IsClosed-Step _ _ (step_expired now t) q c =
      IsClosed-update id (is_overdue now) (λ x. record x { status = expired }) (λ x. refl)
        (λ x p f. with_status-closed id (record x { status = expired }) refl) t c
  IsClosed-Step _ _ (step_deleted other t n) q ((s, h), free) = (
    (s, find-select id other n t.sessions s h),
    count-select_zero id (session_in id in_progress) (λ x. not (is_session other x)) t.sessions
        free,
  )
  IsClosed-Step _ _ (step_written now other text indices t) q c =
      IsClosed-update id (unchanged json now other 0 text) (set_chunks json now other 0 indices)
        (λ x. refl) (λ x p f. f) t c
  IsClosed-Step _ _ (step_stored now chunk other i size checksum path t) q c =
      stored-IsClosed id now chunk other i size checksum path t c
  IsClosed-Step _ _ (step_swept other t) q c = c

  IsClosed-QuietSteps :
      (t t' : UploadTables) → QuietSteps json id t t' → IsClosed id t → IsClosed id t'
  IsClosed-QuietSteps _ _ (at_rest t) c = c
  IsClosed-QuietSteps _ _ (quietly t t' t'' s q later) c =
      IsClosed-QuietSteps t' t'' later (IsClosed-Step t t' s q c)

  -- After a claim of a session that exists, and any statements of the server that neither reopen, cancel nor
  -- delete it, every further claim is refused and changes no row.
  pub claim_upload_session_assembly-exclusive :
      (now later : ℕ) (s : UploadSession) (t t' : UploadTables)
      → get_upload_session id t ≡ some s
      → QuietSteps json id (claim_upload_session_assembly now id t).0 t'
      → claim_upload_session_assembly later id t' ≡ (t', false)
  claim_upload_session_assembly-exclusive now later s t t' h steps = closed-claim later id t' (
      IsClosed-QuietSteps (claim_upload_session_assembly now id t).0 t' steps
        (claim-IsClosed id now s t h))
