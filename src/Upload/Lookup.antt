-- ===== src/Upload/Lookup.antt =====
-- pkg/server/db/chunk_upload.go: the session that a query finds for an identifier, after the statements that
-- change its status.
use rffmpeg.Base.{
  ℕ, ◌≡◌, refl, ◌∙◌, ◌≤◌, String, Bool, true, some, List, [], ◌∷◌, ltb, if◌then◌else◌, eq_iff,
  eq_refl, arith,
}
use rffmpeg.Base.Tables.{count_where, find_where, update_where}
use rffmpeg.Upload.{
  UploadStatus, in_progress, assembling, completed, upload_status_text, UploadSession, UploadTables,
}
use rffmpeg.Upload.Sessions.{
  is_session, session_in, get_upload_session, update_sessions, set_status, set_completed,
  claim_upload_session_assembly, reopen_upload_session, complete_upload_session,
}

pub find-key :
    (id : String) (l : List UploadSession) (s : UploadSession)
    → find_where (is_session id) l ≡ some s
    → is_session id s ≡ true
unfolding find_where
find-key id [] s h = ground (arith, h)
find-key id (x ∷ l) s h = ground (arith, h, find-key id l s)

-- An update that keeps the identifiers, seen by the row found for an identifier.
module _ (id : String) (p : UploadSession → Bool) (set : UploadSession → UploadSession)
    (keeps : (x : UploadSession) → is_session id (set x) ≡ is_session id x) where
  pub find-update :
      (l : List UploadSession) (s : UploadSession)
      → find_where (is_session id) l ≡ some s
      → find_where (is_session id) (update_where p set l) ≡ some (if p s then set s else s)
  unfolding find_where update_where
  find-update [] s h = ground (arith, h)
  find-update (x ∷ l) s h = ground (arith, h, keeps x, find-update l s)

  found-count :
      (l : List UploadSession) (s : UploadSession)
      → find_where (is_session id) l ≡ some s
      → p s ≡ true
      → 1 ≤ count_where p l
  unfolding find_where count_where
  found-count [] s h k = ground (arith, h)
  found-count (x ∷ l) s h k = ground (arith, h, k, found-count l s)

-- The row that answers for the identifier is in this status.
unfoldable pub IsIn : String → UploadStatus → UploadTables → Type 0
IsIn id st t = (s : UploadSession) × (get_upload_session id t ≡ some s) × (s.status ≡ st)

module _ (now : ℕ) (id : String) (t : UploadTables) where
  pub found-session_in :
      (st : UploadStatus) (s : UploadSession)
      → get_upload_session id t ≡ some s
      → s.status ≡ st
      → session_in id st s ≡ true
  unfolding get_upload_session
  found-session_in st s h k =
      rw (find-key id t.sessions s h, k, eq_refl (upload_status_text st)) refl

  pub set_status-IsIn :
      (old new : UploadStatus)
      → IsIn id old t
      → IsIn id new (update_sessions (session_in id old) (set_status now new) t)
  unfolding IsIn get_upload_session update_sessions set_status
  set_status-IsIn old new (s, h, k) = (
    set_status now new s,
    find-update id (session_in id old) (set_status now new) (λ x. refl) t.sessions s h
        ∙ rw (found-session_in old s h k) refl,
    refl,
  )

  pub in-count :
      (st : UploadStatus) → IsIn id st t → ltb 0 (count_where (session_in id st) t.sessions) ≡ true
  unfolding IsIn get_upload_session set_status
  in-count st (s, h, k) = ground (
    arith,
    found-count id (session_in id st) (set_status now st) (λ x. refl) t.sessions s h
        (found-session_in st s h k),
  )

  pub reopen-IsIn : IsIn id assembling t → IsIn id in_progress (reopen_upload_session now id t)
  unfolding reopen_upload_session
  reopen-IsIn h = set_status-IsIn assembling in_progress h

  pub claimed_tables : UploadTables
  claimed_tables = update_sessions (session_in id in_progress) (set_status now assembling) t

  pub claimed_tables-IsIn : IsIn id in_progress t → IsIn id assembling claimed_tables
  unfolding claimed_tables
  claimed_tables-IsIn h = set_status-IsIn in_progress assembling h

  pub claim-first :
      IsIn id in_progress t → claim_upload_session_assembly now id t ≡ (claimed_tables, true)
  unfolding claim_upload_session_assembly claimed_tables
  claim-first h = rw (in-count in_progress h) refl

-- The upload is complete with this file.
unfoldable pub HasFile : String → String → UploadTables → Type 0
HasFile id file_id t =
    (s : UploadSession) × (get_upload_session id t ≡ some s)
    × (s.status ≡ completed)
    × (s.file_id ≡ some file_id)

module _ (now : ℕ) (id file_id : String) (t : UploadTables) where
  pub completed_tables : UploadTables
  completed_tables = update_sessions (session_in id assembling) (set_completed now file_id) t

  pub completed_tables-HasFile : IsIn id assembling t → HasFile id file_id completed_tables
  unfolding IsIn HasFile completed_tables get_upload_session update_sessions set_completed
  completed_tables-HasFile (s, h, k) = (
    set_completed now file_id s,
    find-update id (session_in id assembling) (set_completed now file_id) (λ x. refl) t.sessions s h
        ∙ rw (found-session_in now id t assembling s h k) refl,
    refl,
    refl,
  )

  pub complete-assembling :
      IsIn id assembling t → complete_upload_session now id file_id t ≡ (completed_tables, true)
  unfolding complete_upload_session completed_tables
  complete-assembling h = rw (in-count now id t assembling h) refl

pub session-id :
    (id : String) (t : UploadTables) (s : UploadSession)
    → get_upload_session id t ≡ some s
    → s.id ≡ id
unfolding get_upload_session
session-id id t s h = (eq_iff s.id id).0 (find-key id t.sessions s h)
