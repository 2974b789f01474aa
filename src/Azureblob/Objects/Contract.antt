-- ===== src/Azureblob/Objects/Contract.antt =====
-- The Azure Blob provider keeps the contract of `Client.Put` over an upload that is all or nothing.
use go_storage.Prelude.{
  ℕ, ◌<◌, ◌≡◌, refl, true, Option, List, length, ltb, arith, Bool-cases, ◌⊎◌, inl, inr,
}
use go_storage.Prelude.Int.{ℤ, pos, pos_part}
use go_storage.Prelude.Text.{Text}
use go_storage.Errors.{GoError, sentinel, eof}
use go_storage.Stream.{Reader, IsStream}
use go_storage.LimitReader.{new_limit_reader}
use go_storage.LimitReader.Refinement.{limit_content, limit_trips}
use go_storage.LimitReader.Refinement.Fresh.{fresh_holds, fits_of_eof}
use go_storage.Store.{over_declared}
use go_storage.Storage.{PutOptions, Context}
use go_storage.Storage.Contract.{
  PutOutcome, PutContract, Fitting, Keeps, refused, accepted, undeclared, failure_of,
}
use go_storage.Azureblob.Api.{Properties, Api}
use go_storage.Azureblob.Body.{TrackedReader, tracked_reader, tracking}
use go_storage.Azureblob.Body.Refinement.{sized-IsStream, unsized-IsStream}
use go_storage.Azureblob.Objects.{AzureClient, content_type_of, put, azure_client}

-- What Azure and the SDK promise of a streaming upload: it reads the body, and writes the whole of
-- it or nothing. `stored` gives the bytes at each key of the container.
pub record UploadsWhole {W B : Type 0} (api : Api W B) (stored : W → Text → Option (List ℕ))
    : Type 1 where
  pub upload_reads :
      (S : Type 0) (r : Reader S) (Holds Ended : S → Type 0) (content : S → List ℕ)
      (final : S → GoError) (ctx : Context W) (key : Text) (block concurrency : ℤ)
      (content_type : Text) (s : S) (w : W)
      → IsStream r Holds Ended content final
      → Holds s
      → Holds (api.upload_stream S r ctx key block concurrency content_type s w).1
  pub upload_outcome :
      (S : Type 0) (r : Reader S) (Holds Ended : S → Type 0) (content : S → List ℕ)
      (final : S → GoError) (ctx : Context W) (key : Text) (block concurrency : ℤ)
      (content_type : Text) (s : S) (w : W)
      → IsStream r Holds Ended content final
      → Holds s
      → PutOutcome stored key undeclared
          (content s)
          (final s)
          w
          (failure_of (api.upload_stream S r ctx key block concurrency content_type s w).0)
          (api.upload_stream S r ctx key block concurrency content_type s w).2

module _ {W B S : Type 0} {api : Api W B} {stored : W → Text → Option (List ℕ)} (c : AzureClient)
    (whole : UploadsWhole api stored) {r : Reader S} {Holds Ended : S → Type 0}
    {content : S → List ℕ} {final : S → GoError} (stream : IsStream r Holds Ended content final)
    (ctx : Context W) (key : Text) (opts : PutOptions) (s : S) (w : W) (h : Holds s) where
  abbrev up : (GoError ⊎ Properties) × TrackedReader S × W
  up =
      api.upload_stream (TrackedReader S) (tracked_reader r) ctx key c.block_size c.concurrency
        (content_type_of opts) (tracking s (pos_part opts.size) 0) w

  -- What an upload of the body, through a reader that is a stream, makes of the Put.
  uploaded :
      {BodyHolds BodyEnded : TrackedReader S → Type 0} {body_content : TrackedReader S → List ℕ}
      {body_final : TrackedReader S → GoError}
      → IsStream (tracked_reader r) BodyHolds BodyEnded body_content body_final
      → ((t : TrackedReader S) → BodyHolds t → Holds t.source)
      → BodyHolds (tracking s (pos_part opts.size) 0)
      → (body_final (tracking s (pos_part opts.size) 0) ≡ sentinel eof
          → Fitting content final
              (pos_part opts.size)
              s
              (body_content (tracking s (pos_part opts.size) 0)))
      → Keeps stored Holds content final key opts s w (put api c r ctx key opts s w)
  unfolding put
  uploaded {BodyHolds} {BodyEnded} {body_content} {body_final} body sources start fit =
      go up.0 refl (
        whole.upload_outcome _ _ _ _ _ _ ctx key c.block_size c.concurrency (content_type_of opts)
          (tracking s (pos_part opts.size) 0) w body start)
    where
      after : Holds up.1.source
      after = sources up.1 (
          whole.upload_reads _ _ _ _ _ _ ctx key c.block_size c.concurrency (content_type_of opts)
            (tracking s (pos_part opts.size) 0) w body start)

      go :
          (out : GoError ⊎ Properties)
          → up.0 ≡ out
          → PutOutcome stored key undeclared
              (body_content (tracking s (pos_part opts.size) 0))
              (body_final (tracking s (pos_part opts.size) 0))
              w
              (failure_of out)
              up.2
          → Keeps stored Holds content final key opts s w (put api c r ctx key opts s w)
      go (inl e) q o =
          rw (q, put) (after, refused content final key opts s w _ _ (o.failed (λ z. cc)))
      go (inr p) q o =
          rw (q, put)
            (after, accepted content final key opts s w _ _ _ _ o (λ k. refl) (fit (o.ended refl)))

  put_sized :
      0 < pos_part opts.size
      → Keeps stored Holds content final key opts s w (put api c r ctx key opts s w)
  unfolding new_limit_reader
  put_sized p =
      let fresh =
        new_limit_reader s (pos_part opts.size) true (over_declared (pos (pos_part opts.size))) in
      uploaded
        (sized-IsStream stream (pos_part opts.size) p (limit_trips content final fresh)
          (length (limit_content content final fresh)))
        (λ t k. k.0.1)
        (
          (refl, h),
          λ _. fresh_holds content final s (pos_part opts.size) true _ Holds h,
          omega arith,
        )
        (λ e.
          let fits =
            fits_of_eof content final s (pos_part opts.size) true
              (over_declared (pos (pos_part opts.size))) (λ q. cc) e in
          record {
            whole_body = fits.whole;
            ends_eof = fits.ends_eof;
            declared = λ _. fits.exact_size refl;
          })

  put_unsized :
      pos_part opts.size ≡ 0
      → Keeps stored Holds content final key opts s w (put api c r ctx key opts s w)
  put_unsized z =
      uploaded (unsized-IsStream stream 0 (length (content s))) (λ t k. k.0.1)
        ((z, h), λ _. h, omega arith)
        (λ e. record { whole_body = refl; ends_eof = e; declared = λ p. absurd (omega arith) })

  put_outcome : Keeps stored Holds content final key opts s w (put api c r ctx key opts s w)
  put_outcome = elim (Bool-cases (ltb 0 (pos_part opts.size))) [
    | inl declared ↦ put_sized (ground arith)
    | inr unknown ↦ put_unsized (ground arith)
  ]

-- Over an upload that writes a whole blob or nothing, the Azure Blob provider keeps the contract of
-- Client.Put: for every body that is a stream, an error means that nothing is written, and a
-- success that the body ended with io.EOF, that its length is a positive declared size, that the
-- key holds exactly its bytes and the other keys are as they were.
pub azure_client-PutContract :
    {W B : Type 0} {api : Api W B} (c : AzureClient) {stored : W → Text → Option (List ℕ)}
    → UploadsWhole api stored
    → PutContract (azure_client api c) stored
unfolding azure_client
azure_client-PutContract c whole = record {
  reads_only = λ S r Holds Ended content final ctx key opts s w stream h.
      (put_outcome c whole stream ctx key opts s w h).0;
  put_outcome = λ S r Holds Ended content final ctx key opts s w stream h.
      (put_outcome c whole stream ctx key opts s w h).1;
}
