-- ===== src/S3/Put/Fits.antt =====
-- s3/objects.go: the body reader that `Put` makes, and what its end with io.EOF says of the body.
use go_storage.Prelude.{
  ℕ, suc, ◌<◌, ◌≡◌, refl, ap, ◌∙◌, Bool, Option, List, length, ltb, arith, Bool-cases, inl, inr,
}
use go_storage.Prelude.Int.{pos, pos_part}
use go_storage.Prelude.Text.{Text}
use go_storage.Errors.{GoError, sentinel, eof, same, same_refl}
use go_storage.Stream.{Reader, IsStream}
use go_storage.LimitReader.{new_limit_reader}
use go_storage.LimitReader.Refinement.{limit_content, limit_final, limit_trips}
use go_storage.LimitReader.Refinement.Fresh.{fresh_holds, fits_of_eof}
use go_storage.Store.{over_declared}
use go_storage.Storage.{PutOptions, Context}
use go_storage.S3.Api.{Api}
use go_storage.S3.Body.Refinement.{sized-IsStream, unsized-IsStream}
use go_storage.S3.Put.{S3Client, put}
use go_storage.Storage.Contract.{Fitting, Keeps}
use go_storage.S3.Put.Contract.{WritesWhole, put-Keeps}

module _ {S : Type 0} (content : S → List ℕ) (final : S → GoError) (s : S) (size : ℕ) where
  abbrev pub exact : Bool
  exact = same (final s) (sentinel eof)

  -- A reader of a declared size that ends with io.EOF has given the whole body, of that size.
  sized_fit :
      limit_final content final (new_limit_reader s size exact (over_declared (pos size)))
        ≡ sentinel eof
      → Fitting content final size s
          (limit_content content final (new_limit_reader s size exact (over_declared (pos size))))
  sized_fit e =
      let fits = fits_of_eof content final s size exact (over_declared (pos size)) (λ q. cc) e in
      record {
        whole_body = fits.whole;
        ends_eof = fits.ends_eof;
        declared = λ _.
            fits.exact_size
              (ap (λ x. same x (sentinel eof)) fits.ends_eof ∙ same_refl (sentinel eof));
      }

module _ {W B S : Type 0} {api : Api W B} (c : S3Client) {stored : W → Text → Option (List ℕ)}
    (whole : WritesWhole api c.bucket stored) (tries : ℕ) {r : Reader S} {Holds Ended : S → Type 0}
    {content : S → List ℕ} {final : S → GoError} (stream : IsStream r Holds Ended content final)
    (ctx : Context W) (key : Text) (opts : PutOptions) (s : S) (w : W) (h : Holds s) where
  put_sized :
      0 < pos_part opts.size
      → Keeps stored Holds content final key opts s w (put api c ctx key (suc tries) r opts s w)
  unfolding new_limit_reader
  put_sized p =
      let fresh =
        new_limit_reader s (pos_part opts.size) (exact content final s (pos_part opts.size))
          (over_declared (pos (pos_part opts.size))) in
      put-Keeps c whole (suc tries) r Holds content final
        (sized-IsStream stream tries (pos_part opts.size) p (limit_trips content final fresh)
          (length (limit_content content final fresh)))
        (λ b k. k.0.1) ctx key opts s w h
        ((refl, h), λ _. fresh_holds content final s (pos_part opts.size) _ _ Holds h, omega arith)
        (sized_fit content final s (pos_part opts.size))

  put_unsized :
      pos_part opts.size ≡ 0
      → Keeps stored Holds content final key opts s w (put api c ctx key (suc tries) r opts s w)
  put_unsized z =
      put-Keeps c whole (suc tries) r Holds content final
        (unsized-IsStream stream tries 0 (length (content s))) (λ b k. k.0.1) ctx key opts s w h
        ((z, h), λ _. h, omega arith)
        (λ e. record { whole_body = refl; ends_eof = e; declared = λ p. absurd (omega arith) })

  -- Put of a body that is a stream.
  pub put_outcome :
      Keeps stored Holds content final key opts s w (put api c ctx key (suc tries) r opts s w)
  put_outcome = elim (Bool-cases (ltb 0 (pos_part opts.size))) [
    | inl declared ↦ put_sized (ground arith)
    | inr unknown ↦ put_unsized (ground arith)
  ]
