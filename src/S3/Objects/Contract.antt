-- ===== src/S3/Objects/Contract.antt =====
-- The S3 provider keeps the contract of `Client.Put`.
use go_storage.Prelude.{ℕ, Option, List}
use go_storage.Prelude.Text.{Text}
use go_storage.Storage.Contract.{PutContract}
use go_storage.S3.Api.{Api}
use go_storage.S3.Put.{S3Client}
use go_storage.S3.Put.Contract.{WritesWhole}
use go_storage.S3.Put.Fits.{put_outcome}
use go_storage.S3.Objects.{s3_client}

-- Over requests that write whole objects or nothing, the S3 provider keeps the contract of
-- Client.Put: for every body that is a stream, in a single request or in parts, an error means that
-- nothing is written, and a success that the body ended with io.EOF, that its length is a positive
-- declared size, that the key holds exactly its bytes and the other keys are as they were.
pub s3_client-PutContract :
    {W B : Type 0} {api : Api W B} (c : S3Client) {stored : W → Text → Option (List ℕ)} (tries : ℕ)
    → WritesWhole api c.bucket stored
    → PutContract (s3_client api c tries) stored
unfolding s3_client
s3_client-PutContract c tries whole = record {
  reads_only = λ S r Holds Ended content final ctx key opts s w stream h.
      (put_outcome c whole tries stream ctx key opts s w h).0;
  put_outcome = λ S r Holds Ended content final ctx key opts s w stream h.
      (put_outcome c whole tries stream ctx key opts s w h).1;
}
