-- ===== src/Upload/Steps.antt =====
-- What the server does to the upload tables while a session is complete, and that the session keeps its file.
use rffmpeg.Base.{
  ℕ, ◌≡◌, refl, sym, ◌∙◌, subst, ◌⊎◌, String, Bool, true, false, Option, none, some, List, [], ◌∷◌,
  ◌==◌, Bool-cases, inl, inr, eq_iff, arith,
}
use rffmpeg.Base.Tables.{find_where}
use rffmpeg.Upload.{
  UploadStatus, in_progress, assembling, completed, expired, cancelled, upload_status_text,
  UploadSession, UploadTables,
}
use rffmpeg.Upload.Sessions.{
  is_session, session_in, get_upload_session, update_sessions, set_status, set_completed,
  claim_upload_session_assembly, reopen_upload_session, complete_upload_session,
}
use rffmpeg.Upload.Sessions.{
  is_chunk, create_upload_session, cancel_upload_session, expire_upload_sessions,
  delete_upload_session, write_chunks, set_chunks, create_upload_chunk, delete_upload_chunks,
  unchanged, is_overdue,
}
use rffmpeg.Base.{◌++◌, not}
use rffmpeg.Base.Tables.{select, exists_where}
use rffmpeg.Upload.{IndexJson}
use rffmpeg.Upload.Lookup.{find-key, find-update, HasFile}

-- What else the server does to the tables between two completions of this upload: every statement but
-- CancelUploadSession on it and the removal of its row. The values of an insert are given as the statement has them.
pub data Step (json : IndexJson) (upload_id : String) : UploadTables → UploadTables → Type 0 where
  step_created :
      (now : ℕ) (id filename : String) (size chunk total : ℕ) (checksum : Option String)
      (t t' : UploadTables)
      → create_upload_session now id filename size chunk total checksum t ≡ some t'
      → Step json upload_id t t'
  step_claimed :
      (now : ℕ) (id : String) (t : UploadTables)
      → Step json upload_id t (claim_upload_session_assembly now id t).0
  step_reopened :
      (now : ℕ) (id : String) (t : UploadTables)
      → Step json upload_id t (reopen_upload_session now id t)
  step_completed :
      (now : ℕ) (id file_id : String) (t : UploadTables)
      → Step json upload_id t (complete_upload_session now id file_id t).0
  step_cancelled :
      (now : ℕ) (id : String) (t : UploadTables)
      → (upload_id == id) ≡ false
      → Step json upload_id t (cancel_upload_session now id t)
  step_expired : (now : ℕ) (t : UploadTables) → Step json upload_id t (expire_upload_sessions now t)
  step_deleted :
      (id : String) (t : UploadTables)
      → (upload_id == id) ≡ false
      → Step json upload_id t (delete_upload_session id t)
  step_written :
      (now : ℕ) (id text : String) (indices : List ℕ) (t : UploadTables)
      → Step json upload_id t (write_chunks json now id 0 text indices t).0
  step_stored :
      (now : ℕ) (chunk id : String) (i size : ℕ) (checksum path : String) (t : UploadTables)
      → Step json upload_id t (create_upload_chunk now chunk id i size checksum path t)
  step_swept : (id : String) (t : UploadTables) → Step json upload_id t (delete_upload_chunks id t)

pub data Steps (json : IndexJson) (upload_id : String) : UploadTables → UploadTables → Type 0 where
  still : (t : UploadTables) → Steps json upload_id t t
  onward :
      (t t' t'' : UploadTables)
      → Step json upload_id t t'
      → Steps json upload_id t' t''
      → Steps json upload_id t t''

-- Another identifier is not that of the row.
pub other_key :
    (id gone key : String) → (id == gone) ≡ false → (key == id) ≡ true → (key == gone) ≡ false
other_key id gone key n e = subst (λ x. (x == gone) ≡ false) (sym ((eq_iff key id).0 e)) n

pub find-append :
    (id : String) (l more : List UploadSession) (s : UploadSession)
    → find_where (is_session id) l ≡ some s
    → find_where (is_session id) (l ++ more) ≡ some s
unfolding find_where
find-append id [] more s h = ground (arith, h)
find-append id (x ∷ l) more s h = ground (arith, h, find-append id l more s)

-- Rows that go, the one found not among them.
pub find-select :
    (id gone : String)
    → (id == gone) ≡ false
    → (l : List UploadSession) (s : UploadSession) → find_where (is_session id) l ≡ some s
    → find_where (is_session id) (select (λ x. not (is_session gone x)) l) ≡ some s
unfolding find_where select
find-select id gone n [] s h = ground (arith, h)
find-select id gone n (x ∷ l) s h = elim (Bool-cases (is_session id x)) [
  | inl e ↦ ground (arith, h, e, other_key id gone x.id n e)
  | inr e ↦ ground (arith, h, e, find-select id gone n l s)
]

module _ (id file_id : String) where
  HasFile-update :
      (p : UploadSession → Bool) (set : UploadSession → UploadSession)
      → ((x : UploadSession) → is_session id (set x) ≡ is_session id x)
      → ((x : UploadSession)
          → is_session id x ≡ true
          → x.status ≡ completed
          → (p x ≡ false) ⊎ (((set x).status ≡ x.status) × ((set x).file_id ≡ x.file_id)))
      → (t : UploadTables) → HasFile id file_id t
      → HasFile id file_id (update_sessions p set t)
  unfolding HasFile get_upload_session update_sessions
  HasFile-update p set keeps safe t (s, h, k, i) = elim (Bool-cases (p s)) [
    | inr b ↦ (s, find-update id p set keeps t.sessions s h ∙ rw b refl, k, i)
    | inl b ↦ elim (safe s (find-key id t.sessions s h) k) [
      | inl c ↦ ground (arith, b, c)
      | inr (c, d) ↦ (set s, find-update id p set keeps t.sessions s h ∙ rw b refl, c ∙ k, d ∙ i)
    ]
  ]

-- A completion sent again, whatever else the server has done since to other rows, answers with the same file.
session_in-completed :
    (id : String) (st : UploadStatus) (x : UploadSession)
    → x.status ≡ completed
    → (upload_status_text completed == upload_status_text st) ≡ false
    → session_in id st x ≡ false
session_in-completed id st x k n = elim (Bool-cases (x.id == id)) [
  | inl b ↦ rw (b, k, n) refl
  | inr b ↦ rw b refl
]

is_overdue-completed :
    (now : ℕ) (x : UploadSession) → x.status ≡ completed → is_overdue now x ≡ false
unfolding is_overdue upload_status_text
is_overdue-completed now x k = rw k refl

module _ (upload_id file_id : String) where
  IfCreated : Option UploadTables → Type 0
  IfCreated none = Unit
  IfCreated (some t) = HasFile upload_id file_id t

  create-IfCreated :
      (now : ℕ) (id filename : String) (size chunk total : ℕ) (checksum : Option String)
      (t : UploadTables)
      → HasFile upload_id file_id t
      → IfCreated (create_upload_session now id filename size chunk total checksum t)
  unfolding IfCreated HasFile get_upload_session create_upload_session
  create-IfCreated now id filename size chunk total checksum t (s, h, k, i) =
      elim (Bool-cases (exists_where (is_session id) t.sessions)) [
        | inl b ↦ rw b tt
        | inr b ↦ rw b (s, find-append upload_id t.sessions _ s h, k, i)
      ]

  created_step :
      (now : ℕ) (id filename : String) (size chunk total : ℕ) (checksum : Option String)
      (t t' : UploadTables)
      → create_upload_session now id filename size chunk total checksum t ≡ some t'
      → HasFile upload_id file_id t
      → HasFile upload_id file_id t'
  unfolding IfCreated
  created_step now id filename size chunk total checksum t t' e f =
      subst IfCreated e (create-IfCreated now id filename size chunk total checksum t f)

  stored_step :
      (now : ℕ) (chunk id : String) (i size : ℕ) (checksum path : String) (t : UploadTables)
      → HasFile upload_id file_id t
      → HasFile upload_id file_id (create_upload_chunk now chunk id i size checksum path t)
  unfolding HasFile get_upload_session create_upload_chunk
  stored_step now chunk id i size checksum path t f =
      elim (Bool-cases (exists_where (is_chunk id i) t.chunks)) [ inl b ↦ rw b f | inr b ↦ rw b f ]

module _ (json : IndexJson) (upload_id file_id : String) where
  HasFile-Step :
      (t t' : UploadTables)
      → Step json upload_id t t'
      → HasFile upload_id file_id t
      → HasFile upload_id file_id t'
  unfolding HasFile get_upload_session create_upload_session claim_upload_session_assembly
      reopen_upload_session complete_upload_session cancel_upload_session expire_upload_sessions
      delete_upload_session write_chunks create_upload_chunk delete_upload_chunks update_sessions
      set_status set_completed set_chunks upload_status_text
  HasFile-Step _ _ (step_created now id filename size chunk total checksum t t' e) f =
      created_step upload_id file_id now id filename size chunk total checksum t t' e f
  HasFile-Step _ _ (step_claimed now id t) f =
      HasFile-update upload_id file_id (session_in id in_progress) (set_status now assembling)
        (λ x. refl) (λ x e k. inl (session_in-completed id in_progress x k refl)) t f
  HasFile-Step _ _ (step_reopened now id t) f =
      HasFile-update upload_id file_id (session_in id assembling) (set_status now in_progress)
        (λ x. refl) (λ x e k. inl (session_in-completed id assembling x k refl)) t f
  HasFile-Step _ _ (step_completed now id other t) f =
      HasFile-update upload_id file_id (session_in id assembling) (set_completed now other)
        (λ x. refl) (λ x e k. inl (session_in-completed id assembling x k refl)) t f
  HasFile-Step _ _ (step_cancelled now id t n) f =
      HasFile-update upload_id file_id (is_session id) (set_status now cancelled) (λ x. refl)
        (λ x e k. inl (other_key upload_id id x.id n e)) t f
  HasFile-Step _ _ (step_expired now t) f =
      HasFile-update upload_id file_id (is_overdue now) (λ x. record x { status = expired })
        (λ x. refl) (λ x e k. inl (is_overdue-completed now x k)) t f
  HasFile-Step _ _ (step_deleted id t n) (s, h, k, i) =
      (s, find-select upload_id id n t.sessions s h, k, i)
  HasFile-Step _ _ (step_written now id text indices t) f =
      HasFile-update upload_id file_id (unchanged json now id 0 text)
        (set_chunks json now id 0 indices) (λ x. refl) (λ x e k. inr (refl, refl)) t f
  HasFile-Step _ _ (step_stored now chunk id i size checksum path t) f =
      stored_step upload_id file_id now chunk id i size checksum path t f
  HasFile-Step _ _ (step_swept id t) f = f

  pub HasFile-Steps :
      (t t' : UploadTables)
      → Steps json upload_id t t'
      → HasFile upload_id file_id t
      → HasFile upload_id file_id t'
  HasFile-Steps _ _ (still t) f = f
  HasFile-Steps _ _ (onward t t' t'' s later) f = HasFile-Steps t' t'' later (HasFile-Step t t' s f)
