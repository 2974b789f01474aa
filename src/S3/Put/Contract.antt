-- ===== src/S3/Put/Contract.antt =====
-- s3/objects.go: `Put` keeps the contract of `Client.Put` over requests that are all or nothing.
use go_storage.Prelude.{
  ℕ, ◌+◌, ◌≤◌, ◌≡◌, refl, sym, ◌∙◌, true, Option, none, some, List, [], ◌++◌, length, take,
  take_all, length-take, leb, arith, Bool-cases, Option-cases, ◌⊎◌, inl, inr,
}
use go_storage.Prelude.Int.{ℤ, pos_part}
use go_storage.Prelude.Text.{Text}
use go_storage.Errors.{GoError, sentinel, eof, same_eof}
use go_storage.Stream.{Reader, IsStream}
use go_storage.Stream.Compose.{
  multi_reader, MultiHolds, MultiEnded, multi_content, multi_final, multi_reader-IsStream, ReadUpto,
  read_upto,
}
use go_storage.Storage.{PutOptions, Context}
use go_storage.Storage.Contract.{
  PutOutcome, Fitting, Keeps, refused, accepted, undeclared, failure_of,
}
use go_storage.S3.Api.{Written, Api}
use go_storage.S3.Body.{BodyReader, new_body_reader, body_reader}
use go_storage.S3.Errors.{classify}
use go_storage.S3.Keys.{validate_key}
use go_storage.S3.Put.{
  S3Client, read_body_error, content_type_of, content_length_of, abort_upload, repeated_abort,
  failed_upload, written_object, put_whole, put_parts, decide, put, abort_timeout,
}

-- What S3 and the SDK promise of one bucket: PutObject and an upload write a whole object or
-- nothing, an upload that succeeds has read its body to io.EOF, and the other requests of a Put
-- write nothing. `stored` gives the bytes at each key of the bucket.
pub record WritesWhole {W B : Type 0} (api : Api W B) (bucket : Text)
    (stored : W → Text → Option (List ℕ)) : Type 1 where
  pub put_object_outcome :
      (ctx : Context W) (key : Text) (bytes : List ℕ) (content_type : Text) (w : W)
      → PutOutcome stored key undeclared bytes
          (sentinel eof)
          w
          (failure_of (api.put_object ctx bucket key bytes content_type w).0)
          (api.put_object ctx bucket key bytes content_type w).1
  pub upload_reads :
      (S : Type 0) (r : Reader S) (Holds Ended : S → Type 0) (content : S → List ℕ)
      (final : S → GoError) (ctx : Context W) (key content_type : Text) (size : Option ℤ) (s : S)
      (w : W)
      → IsStream r Holds Ended content final
      → Holds s
      → Holds (api.upload S r ctx bucket key content_type size s w).1
  pub upload_outcome :
      (S : Type 0) (r : Reader S) (Holds Ended : S → Type 0) (content : S → List ℕ)
      (final : S → GoError) (ctx : Context W) (key content_type : Text) (size : Option ℤ) (s : S)
      (w : W)
      → IsStream r Holds Ended content final
      → Holds s
      → PutOutcome stored key undeclared
          (content s)
          (final s)
          w
          (failure_of (api.upload S r ctx bucket key content_type size s w).0)
          (api.upload S r ctx bucket key content_type size s w).2
  pub abort_keeps :
      (ctx : Context W) (key id : Text) (w : W) (k : Text)
      → stored (api.abort ctx bucket key id w).1 k ≡ stored w k
  pub cancel_keeps :
      (d : ℕ) (ctx : Context W) (w : W) (k : Text)
      → stored ((api.detached d ctx).1 w) k ≡ stored w k
  pub head_keeps :
      (ctx : Context W) (key : Text) (w : W) (k : Text)
      → stored (api.head_object ctx bucket key w).1 k ≡ stored w k

module _ {W B : Type 0} {api : Api W B} (c : S3Client) {stored : W → Text → Option (List ℕ)}
    (whole : WritesWhole api c.bucket stored) (ctx : Context W) (key : Text) where
  abort_upload_keeps :
      (id : Text) (w : W) (k : Text) → stored (abort_upload api c ctx key id w).1 k ≡ stored w k
  unfolding abort_upload
  abort_upload_keeps id w k = ground (
    arith,
    whole.abort_keeps (api.detached abort_timeout ctx).0 key id w k,
    whole.cancel_keeps abort_timeout ctx
        (api.abort (api.detached abort_timeout ctx).0 c.bucket key id w).1 k,
  )

  failed_upload_keeps :
      (body_err : Option GoError) (e : GoError) (w : W) (k : Text)
      → stored (failed_upload api c ctx key body_err e w).1 k ≡ stored w k
  unfolding failed_upload repeated_abort
  failed_upload_keeps body_err e w k = abort (api.upload_id e) refl
    where
      abort :
          (id : Option Text)
          → api.upload_id e ≡ id
          → stored (failed_upload api c ctx key body_err e w).1 k ≡ stored w k
      abort none q = ground (arith, q)
      abort (some id) q = ground (arith, q, abort_upload_keeps id w k)

  written_object_keeps :
      (content_type : Text) (size : ℕ) (a : Written) (w : W) (k : Text)
      → stored (written_object api c ctx key content_type size a w).1 k ≡ stored w k
  unfolding written_object
  written_object_keeps content_type size a w k = whole.head_keeps ctx key w k

module _ {W B S : Type 0} {api : Api W B} (c : S3Client) {stored : W → Text → Option (List ℕ)}
    (whole : WritesWhole api c.bucket stored) (tries : ℕ) (r : Reader S) (Holds : S → Type 0)
    (content : S → List ℕ) (final : S → GoError) {BodyHolds BodyEnded : BodyReader S → Type 0}
    {body_content : BodyReader S → List ℕ} {body_final : BodyReader S → GoError}
    (body : IsStream (body_reader tries r) BodyHolds BodyEnded body_content body_final)
    (sources : (b : BodyReader S) → BodyHolds b → Holds b.source) (ctx : Context W) (key : Text)
    (opts : PutOptions) (s : S) where
  whole-Keeps :
      (bytes : List ℕ) (src : BodyReader S) (w : W)
      → BodyHolds src
      → Fitting content final (pos_part opts.size) s bytes
      → Keeps stored Holds content final key opts s w
          (put_whole api c ctx key tries r opts bytes src w)
  unfolding put_whole
  whole-Keeps bytes src w h fit =
      go (api.put_object ctx c.bucket key bytes (content_type_of opts) w).0 refl
        (whole.put_object_outcome ctx key bytes (content_type_of opts) w)
    where
      go :
          (out : GoError ⊎ Written)
          → (api.put_object ctx c.bucket key bytes (content_type_of opts) w).0 ≡ out
          → PutOutcome stored key undeclared bytes
              (sentinel eof)
              w
              (failure_of out)
              (api.put_object ctx c.bucket key bytes (content_type_of opts) w).1
          → Keeps stored Holds content final key opts s w
              (put_whole api c ctx key tries r opts bytes src w)
      go (inl e) q o =
          rw (q, put_whole)
            (sources src h, refused content final key opts s w _ (classify e) (o.failed (λ z. cc)))
      go (inr a) q o =
          rw (q, put_whole)
            (
              sources src h,
              accepted content final key opts s w _ _ bytes (sentinel eof) o
                  (written_object_keeps c whole ctx key (content_type_of opts) src.n a _) fit,
            )

  parts-Keeps :
      (bytes : List ℕ) (src : BodyReader S) (w : W)
      → BodyHolds src
      → (body_final src ≡ sentinel eof
          → Fitting content final (pos_part opts.size) s (bytes ++ body_content src))
      → Keeps stored Holds content final key opts s w
          (put_parts api c ctx key tries r opts bytes src w)
  unfolding put_parts
  parts-Keeps bytes src w h fit =
      go up.0 refl
        (whole.upload_reads _ _ _ _ _ _ ctx key (content_type_of opts) (content_length_of opts.size)
          (bytes, src) w buffered h)
        (whole.upload_outcome _ _ _ _ _ _ ctx key (content_type_of opts)
          (content_length_of opts.size) (bytes, src) w buffered h)
    where
      up : (GoError ⊎ Written) × (List ℕ × BodyReader S) × W
      up =
          api.upload (List ℕ × BodyReader S) (multi_reader (body_reader tries r)) ctx c.bucket key
            (content_type_of opts) (content_length_of opts.size) (bytes, src) w

      buffered :
          IsStream
            (multi_reader (body_reader tries r))
            (MultiHolds BodyHolds BodyEnded body_content body_final)
            (MultiEnded BodyHolds BodyEnded body_content body_final)
            (multi_content BodyHolds BodyEnded body_content body_final)
            (multi_final BodyHolds BodyEnded body_content body_final)
      buffered = multi_reader-IsStream body

      go :
          (out : GoError ⊎ Written)
          → up.0 ≡ out
          → BodyHolds up.1.1
          → PutOutcome stored key undeclared
              (bytes ++ body_content src)
              (body_final src)
              w
              (failure_of out)
              up.2
          → Keeps stored Holds content final key opts s w
              (put_parts api c ctx key tries r opts bytes src w)
      go (inl e) q h' o =
          rw (q, put_parts)
            (
              sources up.1.1 h',
              refused content final key opts s w _ _ (λ k.
                  failed_upload_keeps c whole ctx key up.1.1.err e up.2 k ∙ o.failed (λ z. cc) k),
            )
      go (inr a) q h' o =
          rw (q, put_parts)
            (
              sources up.1.1 h',
              accepted content final key opts s w _ _ (bytes ++ body_content src) (body_final src) o
                  (written_object_keeps c whole ctx key (content_type_of opts) up.1.1.n a _)
                  (fit (o.ended refl)),
            )

  -- Behind the read of a part and one byte.
  decide-Keeps :
      (b : BodyReader S) (w : W)
      → (body_final b ≡ sentinel eof
          → Fitting content final (pos_part opts.size) s (body_content b))
      → (up : ReadUpto body (c.part_size + 2) [] b (c.part_size + 1))
      → Keeps stored Holds content final key opts s w (
          decide api c ctx key tries r opts
            (take (c.part_size + 1) (body_content b))
            up.err
            up.next
            w)
  unfolding decide
  decide-Keeps b w fit up = elim (Option-cases up.err) [
    | inr (e, q) ↦
        rw (q, decide)
          (
            sources up.next up.holds,
            refused content final key opts s w w (read_body_error e) (λ k. refl),
          )
    | inl fine ↦
        elim (Bool-cases (leb (length (take (c.part_size + 1) (body_content b))) c.part_size)) [
          | inl fits ↦
              rw (fine, decide)
                (rw (fits, decide)
                  (whole-Keeps _ up.next w up.holds (rw (all fits) (fit (ends fine fits)))))
          | inr longer ↦
              rw (fine, decide)
                (rw (longer, decide)
                  (parts-Keeps _ up.next w up.holds
                    (λ e. rw (← up.splits) (fit (sym up.keeps ∙ e)))))
        ]
  ]
    where
      short :
          leb (length (take (c.part_size + 1) (body_content b))) c.part_size ≡ true
          → length (body_content b) ≤ c.part_size
      short fits = ground (arith, length-take (c.part_size + 1) (body_content b))

      all :
          leb (length (take (c.part_size + 1) (body_content b))) c.part_size ≡ true
          → take (c.part_size + 1) (body_content b) ≡ body_content b
      all fits = take_all (c.part_size + 1) (body_content b) (omega (arith, short fits))

      ends :
          up.err ≡ none
          → leb (length (take (c.part_size + 1) (body_content b))) c.part_size ≡ true
          → body_final b ≡ sentinel eof
      ends fine fits =
          same_eof (body_final b) (ground (arith, (up.short (omega (arith, short fits))).0, fine))

  -- Put behind the check of the key, for a body reader of either kind.
  pub put-Keeps :
      (w : W)
      → Holds s
      → BodyHolds (new_body_reader s (pos_part opts.size))
      → (body_final (new_body_reader s (pos_part opts.size)) ≡ sentinel eof
          → Fitting content final
              (pos_part opts.size)
              s
              (body_content (new_body_reader s (pos_part opts.size))))
      → Keeps stored Holds content final key opts s w (put api c ctx key tries r opts s w)
  unfolding put
  put-Keeps w h start fit = elim (Option-cases (validate_key key)) [
    | inr (e, q) ↦ rw (q, put) (h, refused content final key opts s w w e (λ k. refl))
    | inl ok ↦
        let up =
          read_upto body (c.part_size + 2) [] (new_body_reader s (pos_part opts.size))
            (c.part_size + 1) start (omega arith) in
        rw (ok, put) (rw up.result (decide-Keeps (new_body_reader s (pos_part opts.size)) w fit up))
  ]
