-- ===== src/S3/Multipart.antt =====
-- aws/s3/internal/transfer/multipart/multipart.go. Of the requests the key, the upload and the parts are
-- kept. The two sizes are not negative and below 2^63; sums, products and part numbers wrap as the int64 and
-- int32 of the source do, and memory is enough. `spare` is what io.ReadAll leaves in the array behind the
-- data, which a slice expression may reach; data and spare are shorter than 2^63. The goroutines run in the
-- order of a schedule, which also says how many have sent their result when the loop over the results stops
-- at a failure: the others go on after the abort.
pub mod Failure
pub mod Bodies
pub mod Parts
use catalyst_forge_libs.Common.{
  ℕ, zero, suc, ◌+◌, ◌-◌, ◌*◌, ◌/◌, ◌%◌, ◌^◌, Bool, true, false, Option, none, some, List, [], ◌∷◌,
  ◌++◌, Str, length, take, drop, ltb, leb, ◌==◌, ◌&&◌, if◌then◌else◌,
}
use catalyst_forge_libs.Common.Words.{add64, leb_signed}
use catalyst_forge_libs.S3.Client.{Called, ok, failed}

-- A part of CompletedMultipartUpload.
pub record CompletedPart : Type 0 where
  pub part_number : ℕ
  pub etag : Str

pub record MultipartClient (W : Type 0) : Type 0 where
  pub create_multipart_upload : (key : Str) → W → Called Str × W
  pub upload_part : (key upload_id : Str) (part_number : ℕ) (body : Str) → W → Called Str × W
  pub complete_multipart_upload : (key upload_id : Str) → List CompletedPart → W → Called Str × W
  pub abort_multipart_upload : (key upload_id : Str) → W → W

unfoldable pub get_part_size : ℕ → ℕ
get_part_size configured_size = if ltb 0 configured_size then configured_size else 5 * 1024 * 1024

-- The number of parts, `none` where the sum is past the largest int64 and the quotient negative: make panics.
unfoldable pub calculate_parts : ℕ → ℕ → Option ℕ
calculate_parts size part_size =
    let sum = size + part_size - 1 in
    if size == 0
    then some 1
    else if ltb sum (2 ^ 63)
    then some (sum / part_size)
    else if (2 ^ 64 - sum) / part_size == 0
    then some 0
    else none

-- data[low:high] with int64 bit patterns, where the array behind `data` goes on with `spare`; `none` is the
-- panic. A negative bound is larger than any capacity here.
unfoldable pub slice : Str → Str → ℕ → ℕ → Option Str
slice content spare low high =
    if leb low high && leb high (length content + length spare)
    then some (take (high - low) (drop low (content ++ spare)))
    else none

-- int64(partNumber-1) * partSize, with partNumber an int32.
unfoldable pub part_offset : ℕ → ℕ → ℕ
part_offset part_size number =
    let before = (number % 2 ^ 32 + (2 ^ 32 - 1)) % 2 ^ 32 in
    ((if ltb before (2 ^ 31) then before else before + (2 ^ 64 - 2 ^ 32)) * part_size) % 2 ^ 64

-- Where a part ends.
unfoldable pub part_end : ℕ → ℕ → ℕ → ℕ
unfolding add64 leb_signed
part_end offset part_size total_size =
    let sum = add64 offset part_size in if leb_signed sum total_size then sum else total_size

-- The body of a part.
unfoldable pub part_body : Str → Str → ℕ → ℕ → ℕ → Option Str
unfolding slice part_offset part_end
part_body content spare total_size part_size number =
    let offset = part_offset part_size number in
    slice content spare offset (part_end offset part_size total_size)

pub data PartResult : Type 0 where
  uploaded : CompletedPart → ℕ → PartResult
  part_failed : Str → PartResult
  panicked : PartResult

pub data Uploaded : Type 0 where
  done : (key : Str) (size : ℕ) (etag : Str) → Uploaded
  upload_failed : Str → Uploaded
  upload_panicked : Uploaded

-- The numbers of the parts, from one on.
abbrev pub numbers_from : ℕ → ℕ → List ℕ
numbers_from first zero = []
numbers_from first (suc n) = first ∷ numbers_from (suc first) n

pub data Collected : Type 0 where
  collected : List CompletedPart → ℕ → Collected
  first_error : Str → Collected

unfoldable pub find_part : ℕ → List CompletedPart → List CompletedPart
find_part number [] = []
find_part number (p ∷ ps) =
    let rest = find_part number ps in if p.part_number == number then p ∷ [] else rest

-- parts[result.partNumber-1] = ... for every result
unfoldable pub in_order : List ℕ → List CompletedPart → List CompletedPart
unfolding find_part
in_order [] ps = []
in_order (n ∷ numbers) ps = find_part n ps ++ in_order numbers ps

unfoldable pub collect_results : List PartResult → List CompletedPart → ℕ → Collected
collect_results [] ps total = collected ps total
collect_results (uploaded p size ∷ results) ps total =
    collect_results results (ps ++ p ∷ []) (total + size)
collect_results (part_failed e ∷ results) ps total = first_error e
collect_results (panicked ∷ results) ps total = collect_results results ps total

abbrev pub has_panic : List PartResult → Bool
has_panic [] = false
has_panic (panicked ∷ results) = true
has_panic (uploaded p size ∷ results) = has_panic results
has_panic (part_failed e ∷ results) = has_panic results

-- The order in which the goroutines run, and how many have sent their result when the loop over the results
-- returns, if it returns early.
pub record Schedule : Type 0 where
  pub order : List ℕ → List ℕ
  pub reading : ℕ

module _ {W : Type 0} (client : MultipartClient W) where
  unfoldable pub upload_part : Str → Str → Str → Str → ℕ → ℕ → ℕ → W → PartResult × W
  unfolding part_body
  upload_part key upload_id content spare total_size part_size n w =
      let number = n % 2 ^ 32 in
      let offset = part_offset part_size n in
      elim (part_body content spare total_size part_size n) [
        | none ↦ (panicked, w)
        | some body ↦
            let (answer, w') = client.upload_part key upload_id number body w in
            (
              elim answer as (λ _. PartResult) [
                | failed e ↦ part_failed e
                | ok etag ↦
                    uploaded (record { part_number = number; etag = etag })
                      (part_end offset part_size total_size - offset)
              ],
              w',
            )
      ]

  unfoldable pub run_parts : Str → Str → Str → Str → ℕ → ℕ → List ℕ → W → List PartResult × W
  unfolding upload_part
  run_parts key upload_id content spare total_size part_size [] w = ([], w)
  run_parts key upload_id content spare total_size part_size (n ∷ numbers) w =
      let (r, w1) = upload_part key upload_id content spare total_size part_size n w in
      let (rs, w2) = run_parts key upload_id content spare total_size part_size numbers w1 in
      (r ∷ rs, w2)

  -- What follows when every goroutine has run: the results, then the completion or the abort. A panic in a
  -- goroutine ends the program.
  unfoldable pub finish : Str → Str → List ℕ → List PartResult → W → Uploaded × W
  finish key upload_id numbers results w =
      if has_panic results then (upload_panicked, w) else (elim (collect_results results [] 0) [
        | first_error e ↦ (upload_failed e, client.abort_multipart_upload key upload_id w)
        | collected ps total ↦
            let (completed, w') =
              client.complete_multipart_upload key upload_id (in_order numbers ps) w in
            elim completed [
              | failed e ↦ (upload_failed e, client.abort_multipart_upload key upload_id w')
              | ok etag ↦ (done key total etag, w')
            ]
      ])

  -- uploadParts and what its caller does with its error. If one of the results that were read first is a
  -- failure, the abort comes before the other goroutines have run; else it or the completion comes last.
  unfoldable pub upload_parts : Schedule → Str → Str → Str → Str → ℕ → ℕ → ℕ → W → Uploaded × W
  unfolding run_parts collect_results finish
  upload_parts schedule key upload_id content spare size part_size num_parts w =
      let numbers = numbers_from 1 num_parts in
      let late = drop schedule.reading (schedule.order numbers) in
      let (results, w1) =
        run_parts key upload_id content spare size part_size
          (take schedule.reading (schedule.order numbers)) w in
      elim (collect_results results [] 0) [
        | first_error e ↦
            let (more, w2) =
              run_parts key upload_id content spare size part_size late
                (client.abort_multipart_upload key upload_id w1) in
            (if has_panic (results ++ more) then upload_panicked else upload_failed e, w2)
        | collected ps total ↦
            let (more, w2) = run_parts key upload_id content spare size part_size late w1 in
            finish key upload_id numbers (results ++ more) w2
      ]

  unfoldable pub upload : Schedule → Str → Option Str → Str → ℕ → ℕ → W → Uploaded × W
  unfolding upload_parts
  upload schedule key content spare size configured_size w =
      let part_size = get_part_size configured_size in
      let (created, w1) = client.create_multipart_upload key w in
      elim created [
        | failed e ↦ (upload_failed e, w1)
        | ok upload_id ↦ elim (calculate_parts size part_size) [
          | none ↦ (upload_panicked, w1)
          | some num_parts ↦ elim content [
            | none ↦ (upload_failed [], client.abort_multipart_upload key upload_id w1)
            | some bytes ↦
                upload_parts schedule key upload_id bytes spare size part_size num_parts w1
          ]
        ]
      ]
