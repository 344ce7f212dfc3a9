-- ===== src/Upload/Claims.antt =====
-- pkg/server/db/chunk_upload.go, ClaimUploadSessionAssembly: one request assembles a session.
use rffmpeg.Base.{
  ℕ, ◌≡◌, refl, String, Bool, true, false, ◌==◌, some, arith, List, [], ◌∷◌, Bool-cases, inl, inr,
}
use rffmpeg.Base.Tables.{count_where, update_where, update-none}
use rffmpeg.Upload.{UploadSession, UploadTables, in_progress, assembling, upload_status_text}
use rffmpeg.Upload.Lookup.{find-update}
use rffmpeg.Upload.Sessions.{
  is_session, get_upload_session, session_in, set_status, update_sessions,
  claim_upload_session_assembly,
}

pub claimed-other :
    (now : ℕ) (id : String) (x : UploadSession)
    → session_in id in_progress (set_status now assembling x) ≡ false
unfolding set_status upload_status_text
claimed-other now id x = elim (Bool-cases (x.id == id)) [ inl b ↦ rw b refl | inr b ↦ rw b refl ]

none-in_progress :
    (now : ℕ) (id : String) (l : List UploadSession)
    → count_where
        (session_in id in_progress)
        (update_where (session_in id in_progress) (set_status now assembling) l)
      ≡ 0
unfolding count_where update_where
none-in_progress now id [] = refl
none-in_progress now id (x ∷ l) = elim (Bool-cases (session_in id in_progress x)) [
  | inl b ↦ rw (b, claimed-other now id x) (none-in_progress now id l)
  | inr b ↦ rw (b, b) (none-in_progress now id l)
]

-- A session that exists and of which no row is in progress.
unfoldable pub IsClosed : String → UploadTables → Type 0
IsClosed id t =
    ((s : UploadSession) × (get_upload_session id t ≡ some s))
    × (count_where (session_in id in_progress) t.sessions ≡ 0)

-- The claim of a session that is closed.
pub closed-claim :
    (later : ℕ) (id : String) (t : UploadTables)
    → IsClosed id t
    → claim_upload_session_assembly later id t ≡ (t, false)
unfolding IsClosed claim_upload_session_assembly update_sessions
closed-claim later id t (found, free) =
    rw (free, update-none (session_in id in_progress) (set_status later assembling) t.sessions free)
      refl

module _ (id : String) where
  count-update_zero :
      (p : UploadSession → Bool) (set : UploadSession → UploadSession)
      → ((x : UploadSession)
          → p x ≡ true
          → session_in id in_progress x ≡ false
          → session_in id in_progress (set x) ≡ false)
      → (l : List UploadSession) → count_where (session_in id in_progress) l ≡ 0
      → count_where (session_in id in_progress) (update_where p set l) ≡ 0
  unfolding count_where update_where
  count-update_zero p set safe [] h = refl
  count-update_zero p set safe (x ∷ l) h = elim (Bool-cases (session_in id in_progress x)) [
    | inl b ↦ ground (arith, h, b)
    | inr b ↦ elim (Bool-cases (p x)) [
      | inl c ↦ rw (c, safe x c b) (count-update_zero p set safe l (ground (arith, h, b)))
      | inr c ↦ rw (c, b) (count-update_zero p set safe l (ground (arith, h, b)))
    ]
  ]

  pub IsClosed-update :
      (p : UploadSession → Bool) (set : UploadSession → UploadSession)
      → ((x : UploadSession) → is_session id (set x) ≡ is_session id x)
      → ((x : UploadSession)
          → p x ≡ true
          → session_in id in_progress x ≡ false
          → session_in id in_progress (set x) ≡ false)
      → (t : UploadTables) → IsClosed id t
      → IsClosed id (update_sessions p set t)
  unfolding IsClosed get_upload_session update_sessions
  IsClosed-update p set keeps safe t ((s, h), free) =
      ((_, find-update id p set keeps t.sessions s h), count-update_zero p set safe t.sessions free)

  pub claim-IsClosed :
      (now : ℕ) (s : UploadSession) (t : UploadTables)
      → get_upload_session id t ≡ some s
      → IsClosed id (claim_upload_session_assembly now id t).0
  unfolding IsClosed claim_upload_session_assembly update_sessions get_upload_session set_status
  claim-IsClosed now s t h = (
    (
      _,
      find-update id (session_in id in_progress) (set_status now assembling) (λ x. refl) t.sessions
          s h,
    ),
    none-in_progress now id t.sessions,
  )
