-- ===== src/S3/Client.antt =====
-- The calls of aws/s3/internal/s3api/s3.go that the synchronisation and the deletions make, as an
-- interface over a state `W`, and what S3 documents of them. A call is on one bucket; an error is its text.
use catalyst_forge_libs.Common.{
  ℕ, ◌<◌, ◌≤◌, length, Bool, Option, none, some, List, [], ◌≡◌, Str, str_eq, some_pass,
  if◌then◌else◌,
}

pub record DeleteFailure : Type 0 where
  pub key : Str
  pub version : Str
  pub code : Str
  pub message : Str

-- The keys that are gone, and the failures of single objects.
pub record DeleteOutput : Type 0 where
  pub deleted : List Str
  pub errors : List DeleteFailure

pub data Called (A : Type 0) : Type 0 where
  ok : A → Called A
  failed : Str → Called A

pub record S3Client (W : Type 0) : Type 0 where
  pub put_object : (key body : Str) → W → Option Str × W
  pub delete_objects : List Str → W → Called DeleteOutput × W

abbrev pub is_among : Str → List Str → Bool
is_among key = some_pass (λ k. str_eq k key)

-- A call of DeleteObjects names at least one key, and at most so many; S3 refuses any other.
abbrev pub delete_limit : ℕ
delete_limit = 1000

-- The client of a bucket in which `object` sees what stands under a key: no put fails, an object that is
-- put is there and every other one stays; and in a call that S3 takes, the objects that are to be deleted
-- are gone, each of them is reported, and every other one stays. Of other calls nothing is said.
pub record IsFaithful {W : Type 0} (client : S3Client W) (object : Str → W → Option Str)
    : Type 0 where
  pub put_succeeds : (key body : Str) (w : W) → (client.put_object key body w).0 ≡ none
  pub object-put :
      (key body k : Str) (w : W)
      → object k (client.put_object key body w).1 ≡ (if str_eq key k then some body else object k w)
  pub delete_succeeds :
      (keys : List Str) (w : W)
      → 0 < length keys
      → length keys ≤ delete_limit
      → (client.delete_objects keys w).0 ≡ ok (record { deleted = keys; errors = [] })
  pub object-delete :
      (keys : List Str) (k : Str) (w : W)
      → 0 < length keys
      → length keys ≤ delete_limit
      → object k (client.delete_objects keys w).1 ≡ (if is_among k keys then none else object k w)
