-- ===== src/S3/New.antt =====
-- s3/client.go: `New`, and what it hands to the SDK.
pub mod Usable
use go_storage.Prelude.{
  ℕ, ◌≡◌, ◌≤◌, refl, Bool, true, false, not, ◌&&◌, ◌||◌, Option, none, some, Option-cases,
  Bool-cases, ◌⊎◌, inl, inr, if◌then◌else◌, arith,
}
use go_storage.Prelude.Int.{ℤ, pos, ltb_ℤ, pos_part}
use go_storage.Prelude.Text.{Text, codes, is_empty, text_eq}
use go_storage.Prelude.Assoc.{Assoc, lookup}
use go_storage.Errors.{GoError, errorf, str, wrapped, end, on_success, on_success-inr}
use go_storage.Config.{Config}
use go_storage.Config.Durations.{positive_duration}
use go_storage.S3.Keys.{validate_bucket}
use go_storage.S3.Options.{
  region_option, max_attempts, part_size_option, concurrency_option, read_retries, in_bounds,
  upload_bounds,
}
use go_storage.S3.Put.{S3Client}

-- A `url.URL`, of which the code reads two fields.
pub record Url : Type 0 where
  pub scheme : Text
  pub host : Text

-- What the standard library and the SDK provide: `time.ParseDuration` in nanoseconds, `url.Parse`,
-- and `retry.DefaultMaxAttempts`.
pub record Parsers : Type 0 where
  pub parse_duration : Text → GoError ⊎ ℤ
  pub parse_url : Text → GoError ⊎ Url
  pub default_attempts : ℤ

-- What New sets of the SDK's options. A `try_timeout` of 0 sets no deadline on a try, and an
-- endpoint comes with path-style addresses. The uploader's part size is the client's.
pub record Settings : Type 0 where
  pub region : Text
  pub account : Text
  pub key : Text
  pub attempts : ℤ
  pub try_timeout : ℤ
  pub endpoint : Option Text
  pub path_style : Bool
  pub concurrency : ℤ

abbrev pub bad_try_timeout : Text → GoError
bad_try_timeout v =
    errorf "s3: option %s: %q is not a positive duration" (str (codes "try_timeout") (str v end))

module _ (std : Parsers) where
  unfoldable pub try_timeout_option : Assoc Text → GoError ⊎ ℤ
  unfolding positive_duration
  try_timeout_option options = elim (lookup (codes "try_timeout") options) [
    | none ↦ inr (pos 0)
    | some v ↦ positive_duration (bad_try_timeout v) (std.parse_duration v)
  ]

  unfoldable pub validate_endpoint : Text → Option GoError
  validate_endpoint endpoint = elim (std.parse_url endpoint) [
    | inl e ↦ some (errorf "s3: endpoint %q: %w" (str endpoint (wrapped e end)))
    | inr u ↦
        if not (text_eq u.scheme (codes "http")) && not (text_eq u.scheme (codes "https"))
          || is_empty u.host
        then some (errorf "s3: endpoint %q is not an absolute http or https URL" (str endpoint end))
        else none
  ]

  -- The base endpoint, where the configuration has one.
  unfoldable pub base_endpoint : Text → GoError ⊎ Option Text
  unfolding validate_endpoint
  base_endpoint endpoint =
      if is_empty endpoint
      then inr none
      else elim (validate_endpoint endpoint) [ some e ↦ inl e | none ↦ inr (some endpoint) ]

  -- New behind the checks of the configuration's own fields.
  unfoldable pub configured : Config → GoError ⊎ (S3Client × Settings)
  unfolding try_timeout_option base_endpoint
  configured cfg = on_success (region_option cfg.options) (λ region.
      on_success (max_attempts cfg.options) (λ attempts.
        on_success (part_size_option cfg.options) (λ part_size.
          on_success (try_timeout_option cfg.options) (λ try_timeout.
            on_success (concurrency_option cfg.options) (λ concurrency.
              on_success (base_endpoint cfg.endpoint) (λ endpoint. inr (
                record {
                  bucket = cfg.container;
                  region = region;
                  part_size = pos_part part_size;
                  read_retries = pos_part (read_retries std.default_attempts attempts);
                },
                record {
                  region = region;
                  account = cfg.account;
                  key = cfg.key;
                  attempts = attempts;
                  try_timeout = try_timeout;
                  endpoint = endpoint;
                  path_style = elim endpoint [ none ↦ false | some e ↦ true ];
                  concurrency = concurrency;
                },
              )))))))

  unfoldable pub checked : Config → GoError ⊎ (S3Client × Settings)
  unfolding configured
  checked cfg =
      if is_empty cfg.container
      then inl (errorf "s3: storage container (bucket) required" end)
      else elim (validate_bucket cfg.container) [
        | some e ↦ inl e
        | none ↦
            if is_empty cfg.account
            then inl (errorf "s3: storage account (access key ID) required" end)
            else if is_empty cfg.key
            then inl (errorf "s3: storage key (secret access key) required" end)
            else configured cfg
      ]

  -- `New`; none is the panic on a configuration that was not finalized.
  unfoldable pub new : Config → Option (GoError ⊎ (S3Client × Settings))
  unfolding checked
  new cfg = if not cfg.finalized then none else some (checked cfg)
