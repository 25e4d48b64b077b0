-- ===== src/S3/Multipart/Failure.antt =====
-- What an upload of aws/s3/internal/transfer/multipart/multipart.go that fails leaves behind.
use catalyst_forge_libs.Common.{ℕ, Option, none, some, List, [], ◌++◌, ◌≡◌, Str, take}
use catalyst_forge_libs.S3.Multipart.{
  numbers_from, MultipartClient, Schedule, PartResult, run_parts,
}

abbrev pub bytes_of : Option Str → Str
bytes_of none = []
bytes_of (some bytes) = bytes

module _ {W : Type 0} (client : MultipartClient W) where
  -- Some parts have run, the upload is aborted, and then at most the other parts run.
  abbrev pub IsAborted : Str → Str → Str → Str → ℕ → ℕ → List ℕ → W → Type 0
  IsAborted key upload_id content spare size part_size numbers w' =
      (v : W) × (early : List ℕ) × (late : List ℕ) × (early ++ late ≡ numbers)
      × (w'
          ≡ (run_parts client key upload_id content spare size part_size late
              (client.abort_multipart_upload key upload_id v)).1)

  module _ (schedule : Schedule) (key upload_id content spare : Str) (size part_size num_parts : ℕ)
      (w : W) where
    abbrev ordered : List ℕ
    ordered = schedule.order (numbers_from 1 num_parts)

    abbrev early_run : List PartResult × W
    early_run =
        run_parts client key upload_id content spare size part_size (take schedule.reading ordered)
          w
