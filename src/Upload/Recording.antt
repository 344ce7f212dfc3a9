-- ===== src/Upload/Recording.antt =====
-- pkg/server/db/chunk_upload.go, UpdateUploadSessionChunks: an attempt that writes loses no index.
use rffmpeg.Base.{
  ℕ, ◌≡◌, refl, sym, ap, ◌∙◌, ◌≤◌, ◌++◌, String, true, Option, none, some, List, [], ◌∷◌, ltb,
  Bool-cases, Option-cases, inl, inr, eq_iff, arith,
}
use mathlib.Core.Option.{some-injective}
use rffmpeg.Base.Tables.{count_where, find_where, count_mono}
use rffmpeg.Upload.{UploadSession, UploadTables, IndexJson, has_index}
use rffmpeg.Upload.Sessions.{
  is_session, get_upload_session, update_sessions, unchanged, set_chunks, write_chunks, written,
  add_index, try_chunk,
}
use rffmpeg.Upload.Lookup.{find-update}

-- The indices that the row of the upload lists.
unfoldable pub HasChunks : IndexJson → String → List ℕ → UploadTables → Type 0
HasChunks json id indices t =
    (s : UploadSession) × (get_upload_session id t ≡ some s)
    × (json.unmarshal s.uploaded_chunks ≡ some indices)

module _ (json : IndexJson) (now : ℕ) (id : String) (i : ℕ) where
  unchanged-key :
      (text : String) (x : UploadSession)
      → unchanged json now id i text x ≡ true
      → is_session id x ≡ true
  unchanged-key text x h = ground (arith, h)

  unchanged-text :
      (text : String) (x : UploadSession)
      → unchanged json now id i text x ≡ true
      → x.uploaded_chunks ≡ text
  unchanged-text text x h = (eq_iff x.uploaded_chunks text).0 (ground (arith, h))

  found-unchanged :
      (text : String) (l : List UploadSession) (s : UploadSession)
      → count_where (is_session id) l ≤ 1
      → ltb 0 (count_where (unchanged json now id i text) l) ≡ true
      → find_where (is_session id) l ≡ some s
      → unchanged json now id i text s ≡ true
  unfolding count_where find_where
  found-unchanged text [] s u c h = ground (arith, h)
  found-unchanged text (x ∷ l) s u c h = elim (Bool-cases (is_session id x)) [
    | inl b ↦ ground (
      arith,
      b,
      u,
      c,
      h,
      count_mono (unchanged json now id i text) (is_session id) (unchanged-key text) l,
    )
    | inr b ↦ ground (arith, b, u, c, h, unchanged-key text x, found-unchanged text l s)
  ]

  -- A write that meets its row.
  write-HasChunks :
      (text : String) (read indices : List ℕ) (t : UploadTables)
      → json.unmarshal (json.marshal (indices ++ (i ∷ []))) ≡ some (indices ++ (i ∷ []))
      → count_where (is_session id) t.sessions ≤ 1
      → json.unmarshal text ≡ some read
      → HasChunks json id indices t
      → (write_chunks json now id i text (read ++ (i ∷ [])) t).1 ≡ written
      → HasChunks json id
          (indices ++ (i ∷ []))
          (write_chunks json now id i text (read ++ (i ∷ [])) t).0
  unfolding HasChunks write_chunks get_upload_session update_sessions set_chunks
  write-HasChunks text read indices t law u r (s, h, k) e =
      let met : unchanged json now id i text s ≡ true =
        found-unchanged text t.sessions s u (ground (arith, e)) h in
      let same : some read ≡ some indices =
        sym r ∙ ap json.unmarshal (sym (unchanged-text text s met)) ∙ k in
      (
        set_chunks json now id i (read ++ (i ∷ [])) s,
        find-update id (unchanged json now id i text) (set_chunks json now id i (read ++ (i ∷ [])))
              (λ x. refl) t.sessions s h
            ∙ rw met refl,
        ap (λ l. json.unmarshal (json.marshal (l ++ (i ∷ [])))) (some-injective read indices same)
            ∙ law,
      )

  add_index-HasChunks :
      (others : UploadTables → UploadTables) (text : String) (o : Option (List ℕ))
      (t : UploadTables) (indices : List ℕ)
      → json.unmarshal (json.marshal (indices ++ (i ∷ []))) ≡ some (indices ++ (i ∷ []))
      → count_where (is_session id) (others t).sessions ≤ 1
      → json.unmarshal text ≡ o
      → HasChunks json id indices (others t)
      → (add_index json now id i others text o t).1 ≡ written
      → HasChunks json id (indices ++ (i ∷ [])) (add_index json now id i others text o t).0
  add_index-HasChunks others text none t indices law u r c = λ e. ground (arith, e)
  add_index-HasChunks others text (some read) t indices law u r c =
      elim (Bool-cases (has_index i read)) [
        | inl b ↦ rw b (λ e. ground (arith, e))
        | inr b ↦ rw b (write-HasChunks text read indices (others t) law u r c)
      ]

  -- An attempt of UpdateUploadSessionChunks that writes adds its index to the indices that the row has when it
  -- writes, whatever other writers did after the read: none is lost. Identifiers are unique, and reading back the
  -- text that is written gives its list.
  pub try_chunk-HasChunks :
      (others : UploadTables → UploadTables) (t : UploadTables) (indices : List ℕ)
      → json.unmarshal (json.marshal (indices ++ (i ∷ []))) ≡ some (indices ++ (i ∷ []))
      → count_where (is_session id) (others t).sessions ≤ 1
      → HasChunks json id indices (others t)
      → (try_chunk json now id i others t).1 ≡ written
      → HasChunks json id (indices ++ (i ∷ [])) (try_chunk json now id i others t).0
  unfolding try_chunk
  try_chunk-HasChunks others t indices law u c = elim (Option-cases (get_upload_session id t)) [
    | inl h ↦ rw h (λ e. ground (arith, e))
    | inr (s, h) ↦ rw h (
        add_index-HasChunks others s.uploaded_chunks (json.unmarshal s.uploaded_chunks) t indices
          law u refl c)
  ]
