-- ===== src/Tests/Uploads.antt =====
-- Examples for aws/s3/internal/transfer/multipart/multipart.go.
use catalyst_forge_libs.Common.{
  ℕ, arith, some, List, [], ◌∷◌, ◌++◌, ◌≡◌, ◌==◌, if◌then◌else◌, Str, codes,
}
use catalyst_forge_libs.Common.Chunks.{chunks, pieces}
use catalyst_forge_libs.S3.Client.{ok, failed}
use catalyst_forge_libs.S3.Multipart.{
  MultipartClient, Schedule, numbers_from, calculate_parts, get_part_size,
}
use catalyst_forge_libs.S3.Multipart.Parts.{numbered_bodies, parts_lem}

-- A service that refuses the second part, and the calls that reach it.
abbrev refusing : MultipartClient (List Str)
refusing = record {
  create_multipart_upload = λ key w. (ok (codes "u"), w ++ codes "create" ∷ []);
  upload_part = λ key upload_id number body w.
      (if number == 2 then failed (codes "refused") else ok (codes "e"), w ++ body ∷ []);
  complete_multipart_upload = λ key upload_id parts w. (ok (codes "e"), w ++ codes "complete" ∷ []);
  abort_multipart_upload = λ key upload_id w. w ++ codes "abort" ∷ [];
}

-- The second part fails, and the upload is aborted before the third one runs.
abbrev calls : List Str
calls = codes "create" ∷ codes "ab" ∷ codes "cd" ∷ codes "abort" ∷ codes "e" ∷ []

abbrev two_read : Schedule
two_read = record { order = λ numbers. numbers; reading = 2 }

parts_lem_example :
    (n : ℕ) × (calculate_parts 5 2 ≡ some n)
    × (numbered_bodies (codes "abcde") (codes "z") 5 2 (numbers_from 1 n)
        ≡ some (codes "ab") ∷ some (codes "cd") ∷ some (codes "e") ∷ [])
unfolding get_part_size chunks pieces
parts_lem_example = parts_lem (codes "abcde") (codes "z") 2 (omega arith) (omega arith)
