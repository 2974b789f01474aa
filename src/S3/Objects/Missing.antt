-- ===== src/S3/Objects/Missing.antt =====
-- s3/objects.go: how `Stat` tells a missing object from a missing bucket.
use text.Mathlib.Text.{◌==◌ as str_eq}
use go_storage.Prelude.{◌≡◌, refl, ap, ◌∙◌, true, none, some, inl, arith}
use go_storage.Prelude.Text.{Text}
use go_storage.Errors.{
  GoError, Sentinel, sentinel, errorf, str, wrapped, end, classified, is, same, is_some,
  is-classified, not_found, container_not_found,
}
use go_storage.Storage.{Context}
use go_storage.S3.Api.{Api}
use go_storage.S3.Keys.{validate_key}
use go_storage.S3.Put.{S3Client, error_code}
use go_storage.S3.Objects.{probe, stat, stat_failed}

module _ {W B : Type 0} (api : Api W B) (c : S3Client) (ctx : Context W) where
  -- A bucket that answers NotFound is a missing container.
  probe_missing :
      (w : W) (b : GoError)
      → (api.head_bucket ctx c.bucket w).0 ≡ some b
      → str_eq (error_code b) "NotFound" ≡ true
      → (probe api c ctx w).0 ≡ some (classified container_not_found b)
  unfolding probe
  probe_missing w b q hit = ground (arith, q, hit)

  -- What Stat says behind a NotFound.
  module _ (key : Text) (w : W) (e : GoError) (ok : validate_key key ≡ none)
      (missing : (api.head_object ctx c.bucket key w).0 ≡ inl e)
      (bare : str_eq (error_code e) "NotFound" ≡ true) where
    asked :
        stat api c ctx key w ≡ stat_failed api c ctx key e (api.head_object ctx c.bucket key w).1
    unfolding stat
    asked = rw (ok, stat) (rw missing refl)

    bucket_there :
        (probe api c ctx (api.head_object ctx c.bucket key w).1).0 ≡ none
        → (stat api c ctx key w).1 ≡ some (classified not_found e)
    unfolding stat_failed
    bucket_there there = rw asked (ground (arith, bare, there))

    bucket_failed :
        (p : GoError)
        → (probe api c ctx (api.head_object ctx c.bucket key w).1).0 ≡ some p
        → (stat api c ctx key w).1
          ≡ some (
              errorf "s3: stat %q: object answered 404, bucket check: %w" (str key (wrapped p end)))
    unfolding stat_failed
    bucket_failed p failed = rw asked (ground (arith, bare, failed))

  wrapped_is :
      (key : Text) (p : GoError) (t : Sentinel)
      → is
          (errorf "s3: stat %q: object answered 404, bucket check: %w" (str key (wrapped p end)))
          (sentinel t)
        ≡ is p (sentinel t)
  unfolding is same
  wrapped_is key p t = ground arith

  -- Where HeadObject answers a bare 404, Stat matches ErrNotFound if the check of the bucket
  -- succeeds. If the check fails, Stat matches the package variables that the check's error
  -- matches, and no others; and if the bucket answers a bare 404 too, Stat matches
  -- ErrContainerNotFound.
  pub stat-probe :
      (key : Text) (w w' : W) (e : GoError)
      → validate_key key ≡ none
      → api.head_object ctx c.bucket key w ≡ (inl e, w')
      → str_eq (error_code e) "NotFound" ≡ true
      → ((probe api c ctx w').0 ≡ none
          → is_some (stat api c ctx key w).1 (sentinel not_found) ≡ true)
        × ((p : GoError)
            → (probe api c ctx w').0 ≡ some p
            → (t : Sentinel) → is_some (stat api c ctx key w).1 (sentinel t) ≡ is p (sentinel t))
        × ((b : GoError)
            → (api.head_bucket ctx c.bucket w').0 ≡ some b
            → str_eq (error_code b) "NotFound" ≡ true
            → is_some (stat api c ctx key w).1 (sentinel container_not_found) ≡ true)
  stat-probe key w w' e ok missing bare = (
    λ there.
        rw (bucket_there key w e ok (ap (λ x. x.0) missing) bare (rw missing there))
          ((is-classified not_found e).0),
    failed,
    λ b gone hit.
        failed (classified container_not_found b) (probe_missing w' b gone hit) container_not_found
        ∙ (is-classified container_not_found b).0,
  )
    where
      failed :
          (p : GoError)
          → (probe api c ctx w').0 ≡ some p
          → (t : Sentinel) → is_some (stat api c ctx key w).1 (sentinel t) ≡ is p (sentinel t)
      failed p q t =
          rw (bucket_failed key w e ok (ap (λ x. x.0) missing) bare p (rw missing q))
            (wrapped_is key p t)
