-- ===== src/Upload/Chunking.antt =====
-- pkg/server/handlers/chunk_upload.go: the sizes of an upload's chunks.
use rffmpeg.Base.{
  ℕ, zero, suc, ◌+◌, ◌-◌, ◌*◌, ◌/◌, ◌%◌, ◌≤◌, ◌<◌, ◌≡◌, refl, sym, ap, ◌∙◌, subst, Option, none,
  some, ltb, eqb, ◌&&◌, not, if◌then◌else◌, Bool-cases, inl, inr, arith,
}
use native.Mathlib.Nat.{div-add-mod', mod-lt, mul_comm}
use rffmpeg.Upload.{
  UploadSession, total_chunks_of, expected_chunk_size, session_chunk_size, default_chunk_size,
  max_total_chunks, checked_chunks, chunking_with, init_chunking,
}

-- A file of `q` full chunks and `r` bytes more: the number of its last chunk.
IsLast : ℕ → ℕ → ℕ → ℕ → Type 0
IsLast chunk file total n = (total ≡ suc n) × (chunk * n < file) × (file ≤ chunk * n + chunk)

rest-IsLast :
    (chunk q r : ℕ)
    → r < chunk
    → 0 < q * chunk + r
    → (n : ℕ) × IsLast chunk (q * chunk + r) (q + (if ltb 0 r then 1 else 0)) n
unfolding IsLast
rest-IsLast chunk q (suc r) h k =
    (q, (ground arith, omega (arith, mul_comm q chunk), omega (arith, mul_comm q chunk, h)))
rest-IsLast chunk (suc q) zero h k =
    (q, (omega arith, omega (arith, mul_comm q chunk, h), omega (arith, mul_comm q chunk)))
rest-IsLast chunk zero zero h k = ground (arith, k)

total_chunks-IsLast :
    (file chunk : ℕ)
    → 0 < file
    → 0 < chunk
    → (n : ℕ) × IsLast chunk file (total_chunks_of file chunk) n
unfolding total_chunks_of
total_chunks-IsLast file chunk h k =
    subst (λ x. (n : ℕ) × IsLast chunk x (total_chunks_of file chunk) n) (div-add-mod' file chunk)
      (rest-IsLast chunk (file / chunk) (file % chunk) (mod-lt file k)
        (subst (λ x. 0 < x) (sym (div-add-mod' file chunk)) h))

-- The sizes of the first chunks, summed; a chunk without a size counts for nothing.
size_or_zero : Option ℕ → ℕ
size_or_zero none = 0
size_or_zero (some size) = size

unfoldable pub bytes_before : UploadSession → ℕ → ℕ
unfolding size_or_zero
bytes_before s zero = 0
bytes_before s (suc i) = bytes_before s i + size_or_zero (expected_chunk_size s i)

module _ (s : UploadSession) (n : ℕ) (chunk : 0 < s.chunk_size) (file : 0 < s.file_size)
    (h : IsLast s.chunk_size s.file_size s.total_chunks n) where
  expected-last : expected_chunk_size s n ≡ some (s.file_size - s.chunk_size * n)
  unfolding expected_chunk_size IsLast
  expected-last = simp (h.0) (ground (arith, h, chunk, file))

  expected-inner : (i : ℕ) → i < n → expected_chunk_size s i ≡ some s.chunk_size
  unfolding expected_chunk_size IsLast
  expected-inner i k = simp (h.0) (ground (arith, k, h, chunk, file))

  each_sized :
      (i : ℕ)
      → i < s.total_chunks
      → (size : ℕ) × (expected_chunk_size s i ≡ some size) × (0 < size) × (size ≤ s.chunk_size)
  unfolding IsLast
  each_sized i k = elim (Bool-cases (ltb i n)) [
    | inl b ↦ (s.chunk_size, expected-inner i (ground (arith, b)), chunk, omega arith)
    | inr b ↦ (
      s.file_size - s.chunk_size * n,
      subst (λ x. expected_chunk_size s x ≡ some (s.file_size - s.chunk_size * n))
          (ground (arith, b, k, h)) expected-last,
      omega (arith, h),
      omega (arith, h),
    )
  ]

  bytes-inner : (i : ℕ) → i ≤ n → bytes_before s i ≡ s.chunk_size * i
  unfolding bytes_before
  bytes-inner zero k = omega arith
  bytes-inner (suc i) k = rw (expected-inner i k) (omega (arith, bytes-inner i (omega (arith, k))))

  bytes-all : bytes_before s s.total_chunks ≡ s.file_size
  unfolding IsLast bytes_before
  bytes-all =
      ap (bytes_before s) h.0
      ∙ rw expected-last (omega (arith, bytes-inner n (omega arith), h.1, h.2))

-- What InitChunkUpload accepts.
IsChunking : ℕ → ℕ → ℕ → Type 0
IsChunking file chunk total =
    (0 < file) × (0 < chunk) × (total ≡ total_chunks_of file chunk) × (total ≤ max_total_chunks)

session_chunk_size-positive :
    (handler asked chunk : ℕ) → session_chunk_size handler asked ≡ some chunk → 0 < chunk
unfolding session_chunk_size default_chunk_size
session_chunk_size-positive handler zero chunk h = ground (arith, h)
session_chunk_size-positive handler (suc asked) chunk h = ground (arith, h)

IfAccepted : ℕ → Option (ℕ × ℕ) → Type 0
IfAccepted file none = Unit
IfAccepted file (some (chunk, total)) = IsChunking file chunk total

checked-IfAccepted :
    (file asked_total given : ℕ)
    → 0 < file
    → 0 < given
    → IfAccepted file (checked_chunks file asked_total given)
unfolding IfAccepted IsChunking
checked-IfAccepted file asked_total given f g =
    elim (Bool-cases (ltb max_total_chunks (total_chunks_of file given))) [
      | inl b ↦ rw b tt
      | inr b ↦
          elim (Bool-cases
            (ltb 0 asked_total && not (eqb asked_total (total_chunks_of file given)))) [
              | inl c ↦ rw (b, c) tt
              | inr c ↦ rw (b, c) (f, g, refl, ground (arith, b))
            ]
    ]

chunking-IfAccepted :
    (file asked_total : ℕ) (o : Option ℕ)
    → 0 < file
    → ((given : ℕ) → o ≡ some given → 0 < given)
    → IfAccepted file (chunking_with file asked_total o)
unfolding IfAccepted
chunking-IfAccepted file asked_total none f p = tt
chunking-IfAccepted file asked_total (some given) f p =
    checked-IfAccepted file asked_total given f (p given refl)

init_chunking-IfAccepted :
    (handler file asked_chunk asked_total : ℕ)
    → IfAccepted file (init_chunking handler file asked_chunk asked_total)
unfolding init_chunking IfAccepted
init_chunking-IfAccepted handler file asked_chunk asked_total = elim (Bool-cases (eqb file 0)) [
  | inl b ↦ rw b tt
  | inr b ↦ rw b (
      chunking-IfAccepted file asked_total (session_chunk_size handler asked_chunk)
        (ground (arith, b)) (session_chunk_size-positive handler asked_chunk))
]

-- Every chunk of a session with the chunking that InitChunkUpload accepts has a size, at least 1 and at most the
-- chunk size; all together they are the file, and there are at most MaxTotalChunks of them.
pub init_chunking-total :
    (handler asked_chunk asked_total : ℕ) (s : UploadSession) (i : ℕ)
    → init_chunking handler s.file_size asked_chunk asked_total
      ≡ some (s.chunk_size, s.total_chunks)
    → i < s.total_chunks
    → ((size : ℕ) × (expected_chunk_size s i ≡ some size) × (0 < size) × (size ≤ s.chunk_size))
      × (bytes_before s s.total_chunks ≡ s.file_size)
      × (s.total_chunks ≤ max_total_chunks)
unfolding IfAccepted IsChunking
init_chunking-total handler asked_chunk asked_total s i h k =
    let (file, chunk, e, few) =
      subst (IfAccepted s.file_size) h
        (init_chunking-IfAccepted handler s.file_size asked_chunk asked_total) in
    let (n, l) = total_chunks-IsLast s.file_size s.chunk_size file chunk in
    let last = subst (λ x. IsLast s.chunk_size s.file_size x n) (sym e) l in
    (each_sized s n chunk file last i k, bytes-all s n chunk file last, few)
