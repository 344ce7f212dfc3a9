-- ===== src/Tests/Uploads.antt =====
-- A chunked upload of 25 bytes in chunks of 10, completed twice.
use rffmpeg.Base.{ℕ, suc, ◌≡◌, ◌<◌, refl, inl, true, false, none, some, [], ◌∷◌, ◌==◌, arith, ◌≤◌}
use rffmpeg.Base.Tables.{find_where, update_where, count_where}
use rffmpeg.Base.{if◌then◌else◌}
use rffmpeg.Base.Tables.{exists_where}
use rffmpeg.Upload.Sessions.{try_chunk, written, write_chunks, is_session}
use rffmpeg.Upload.{assembling}
use rffmpeg.Upload.Recording.{HasChunks, try_chunk-HasChunks}
use rffmpeg.Upload.{
  in_progress, upload_status_text, UploadSession, UploadTables, IndexJson, expected_chunk_size,
  total_chunks_of, init_chunking, session_chunk_size, max_total_chunks, max_chunk_size,
}
use rffmpeg.Upload.Sessions.{
  get_upload_session, update_sessions, set_status, set_completed, claim_upload_session_assembly,
  complete_upload_session,
}
use rffmpeg.Upload.Completion.{
  ChunkStore, Answer, file_uploaded, assembled, file_missing, declared_checksum_mismatch, publish,
  record_file, finish_assembly, claim_and_assemble, complete_chunk_upload,
}
use rffmpeg.Upload.Exclusive.{
  IsQuiet, QuietSteps, quietly, at_rest, claim_upload_session_assembly-exclusive,
}
use rffmpeg.Upload.Sessions.{expire_upload_sessions}
use rffmpeg.Upload.Steps.{step_expired}
use rffmpeg.Upload.Lookup.{IsIn}
use rffmpeg.Upload.Completion.{OtherWriters}
use rffmpeg.Upload.Sessions.{delete_upload_chunks}
use rffmpeg.Upload.Completing.{LeavesStatus, HasEnded, complete_chunk_upload-HasEnded}
use rffmpeg.Upload.Steps.{Steps, onward, still, step_claimed}
use rffmpeg.Upload.Repeating.{complete_chunk_upload-repeats}
use rffmpeg.Upload.Chunking.{bytes_before, init_chunking-total}

abbrev movie : UploadSession
movie = record {
  id = "u1";
  filename = "movie.mp4";
  file_size = 25;
  chunk_size = 10;
  total_chunks = 3;
  uploaded_chunks = "[0,1,2]";
  file_checksum = some "sha";
  file_id = none;
  status = in_progress;
  created_at = 0;
  updated_at = 0;
  expires_at = some 100;
}

abbrev tables : UploadTables
tables = record { sessions = movie ∷ []; chunks = [] }

abbrev index_json : IndexJson
index_json = record { marshal = λ l. "[]"; unmarshal = λ text. some [] }

-- The world counts the renames.
abbrev chunk_store : ChunkStore ℕ
chunk_store = record {
  assemble = λ id total chunk size w. (assembled "tmp" size "sha", w);
  final_path = λ id. id;
  stat = λ path w. file_missing;
  rename = λ a b w. (true, suc w);
  remove = λ path w. w;
  create_file = λ name path size id w. (true, w);
  delete_file = λ id w. w;
  delete_directory = λ id w. (true, w);
  equal_fold = λ a b. a == b;
}

-- While the chunks are assembled another upload is cleaned up.
abbrev cleaning : OtherWriters
cleaning = record { before_claim = λ t. t; while_claimed = delete_upload_chunks "u2" }

cleaning-LeavesStatus : LeavesStatus "u1" cleaning
unfolding IsIn get_upload_session delete_upload_chunks
cleaning-LeavesStatus = record { before_kept = λ st t h. h; while_kept = λ st t h. h }

abbrev first_end : UploadTables × ℕ × Answer
first_end = complete_chunk_upload ℕ chunk_store 5 "u1" "sha" cleaning tables 0

first-answer : first_end.2 ≡ file_uploaded "sha"
unfolding complete_chunk_upload claim_and_assemble finish_assembly declared_checksum_mismatch
    publish record_file claim_upload_session_assembly complete_upload_session get_upload_session
    update_sessions set_status set_completed upload_status_text find_where update_where count_where
    delete_upload_chunks
first-answer = refl

claimed_again : UploadTables
claimed_again = (claim_upload_session_assembly 6 "u1" first_end.0).0

in_between : Steps index_json "u1" first_end.0 claimed_again
unfolding claimed_again
in_between =
    onward first_end.0 claimed_again claimed_again (step_claimed 6 "u1" first_end.0)
      (still claimed_again)

complete_chunk_upload-repeats_example :
    complete_chunk_upload ℕ chunk_store 7 "u1" "other" cleaning claimed_again 9
    ≡ (claimed_again, 9, file_uploaded "sha")
complete_chunk_upload-repeats_example =
    complete_chunk_upload-repeats ℕ chunk_store "u1" "sha" index_json 5 7 "sha" "other" cleaning
      cleaning tables claimed_again 0 9 cleaning-LeavesStatus refl first-answer in_between

movie-found : get_upload_session "u1" tables ≡ some movie
unfolding get_upload_session find_where
movie-found = refl

complete_chunk_upload-HasEnded_example : HasEnded "u1" first_end.0 first_end.2
complete_chunk_upload-HasEnded_example =
    complete_chunk_upload-HasEnded ℕ chunk_store 5 "u1" "sha" cleaning cleaning-LeavesStatus tables
      0 movie movie-found (inl refl)

movie-accepted : init_chunking 0 25 10 3 ≡ some (10, 3)
unfolding init_chunking session_chunk_size total_chunks_of max_total_chunks max_chunk_size
movie-accepted = refl

init_chunking-total_example :
    ((size : ℕ) × (expected_chunk_size movie 2 ≡ some size) × (0 < size) × (size ≤ 10))
    × (bytes_before movie 3 ≡ 25)
    × (3 ≤ max_total_chunks)
init_chunking-total_example = init_chunking-total 0 10 3 movie 2 movie-accepted (omega arith)

-- The sweep of overdue sessions runs after the claim.
abbrev swept : UploadTables
swept = expire_upload_sessions 7 (claim_upload_session_assembly 5 "u1" tables).0

sweeping : QuietSteps index_json "u1" (claim_upload_session_assembly 5 "u1" tables).0 swept
unfolding IsQuiet
sweeping =
    quietly (claim_upload_session_assembly 5 "u1" tables).0 swept swept
      (step_expired 7 (claim_upload_session_assembly 5 "u1" tables).0) tt (at_rest swept)

claim_upload_session_assembly-exclusive_example :
    claim_upload_session_assembly 8 "u1" swept ≡ (swept, false)
claim_upload_session_assembly-exclusive_example =
    claim_upload_session_assembly-exclusive index_json "u1" 5 8 movie tables swept movie-found
      sweeping

abbrev half : UploadTables
half = record { sessions = record movie { uploaded_chunks = "[0]" } ∷ []; chunks = [] }

abbrev pair_json : IndexJson
pair_json = record {
  marshal = λ l. "[0,1]";
  unmarshal = λ text. if text == "[0]" then some (0 ∷ []) else some (0 ∷ 1 ∷ []);
}

-- Another request claims the session between the read and the write.
abbrev claimed_half : UploadTables → UploadTables
claimed_half t = (claim_upload_session_assembly 6 "u1" t).0

half-written : (try_chunk pair_json 7 "u1" 1 claimed_half half).1 ≡ written
unfolding try_chunk write_chunks get_upload_session claim_upload_session_assembly update_sessions
    set_status upload_status_text find_where update_where count_where exists_where
half-written = refl

half-HasChunks : HasChunks pair_json "u1" (0 ∷ []) (claimed_half half)
unfolding HasChunks get_upload_session claim_upload_session_assembly update_sessions set_status
    upload_status_text find_where update_where
half-HasChunks = (set_status 6 assembling (record movie { uploaded_chunks = "[0]" }), refl, refl)

half_unique : count_where (is_session "u1") (claimed_half half).sessions ≤ 1
unfolding claim_upload_session_assembly update_sessions set_status upload_status_text update_where
    count_where
half_unique = omega arith

try_chunk-HasChunks_example :
    HasChunks pair_json "u1" (0 ∷ 1 ∷ []) (try_chunk pair_json 7 "u1" 1 claimed_half half).0
try_chunk-HasChunks_example =
    try_chunk-HasChunks pair_json 7 "u1" 1 claimed_half half (0 ∷ []) refl half_unique
      half-HasChunks half-written
