-- ===== src/S3/New/Usable.antt =====
-- s3/client.go: what holds of the client that `New` makes.
use go_storage.Prelude.{
  ℕ, ◌≡◌, ◌≤◌, ◌<◌, refl, sym, ap, ◌∙◌, true, false, Option, none, some, Option-cases, Bool-cases,
  ◌⊎◌, inl, inr, arith,
}
use go_storage.Prelude.Int.{ℤ, pos, negsuc, ltb_ℤ, pos_part}
use go_storage.Prelude.Text.{Text, is_empty}
use go_storage.Prelude.Assoc.{Assoc, lookup}
use go_storage.Prelude.Text.{codes}
use go_storage.Errors.{GoError, on_success-inr}
use go_storage.Config.{Config}
use go_storage.Config.Durations.{positive_duration-inr}
use go_storage.S3.Keys.{validate_bucket}
use go_storage.S3.Options.{
  region_option, max_attempts, part_size_option, concurrency_option, in_bounds, upload_bounds,
}
use go_storage.S3.Put.{S3Client}
use go_storage.S3.New.{
  Parsers, Settings, try_timeout_option, validate_endpoint, base_endpoint, configured, checked, new,
  bad_try_timeout,
}

pub record Usable (std : Parsers) (cfg : Config) (c : S3Client) (s : Settings) : Type 0 where
  pub bucket_eq : c.bucket ≡ cfg.container
  pub bucket_accepted : validate_bucket c.bucket ≡ none
  pub has_account : is_empty s.account ≡ false
  pub has_key : is_empty s.key ≡ false
  pub part_least : 5242880 ≤ c.part_size
  pub part_most : c.part_size ≤ 5368709120
  pub concurrency_least : 1 ≤ pos_part s.concurrency
  pub concurrency_most : pos_part s.concurrency ≤ 32
  pub deadline : ltb_ℤ s.try_timeout (pos 0) ≡ false
  pub endpoint_accepted :
      (e : Text) → s.endpoint ≡ some e → (e ≡ cfg.endpoint) × (validate_endpoint std e ≡ none)

within :
    (least most : ℕ) (x : ℤ)
    → in_bounds (pos least) (pos most) (inr x) ≡ true
    → 0 < least
    → (least ≤ pos_part x) × (pos_part x ≤ most)
within least most (pos n) h p = (ground arith, ground arith)
within least most (negsuc n) h p = (ground arith, ground arith)

module _ (std : Parsers) where
  try_timeout_lem :
      (options : Assoc Text) (d : ℤ)
      → try_timeout_option std options ≡ inr d
      → ltb_ℤ d (pos 0) ≡ false
  unfolding try_timeout_option
  try_timeout_lem options d h = elim (Option-cases (lookup (codes "try_timeout") options)) [
    | inl unset ↦ ground (arith, unset, h)
    | inr (v, q) ↦
        positive_duration-inr (bad_try_timeout v) (std.parse_duration v) d
          (rw (q, try_timeout_option) at h)
  ]

  base_endpoint_lem :
      (endpoint : Text) (o : Option Text)
      → base_endpoint std endpoint ≡ inr o
      → (e : Text) → o ≡ some e
      → (e ≡ endpoint) × (validate_endpoint std e ≡ none)
  unfolding base_endpoint
  base_endpoint_lem endpoint o h e q = (ground (arith, h, q), ground (arith, h, q))

  configured_lem :
      (cfg : Config) (c : S3Client) (s : Settings)
      → validate_bucket cfg.container ≡ none
      → is_empty cfg.account ≡ false
      → is_empty cfg.key ≡ false
      → configured std cfg ≡ inr (c, s)
      → Usable std cfg c s
  unfolding configured
  configured_lem cfg c s bucket account key h =
      let (region, _, h1) = on_success-inr (region_option cfg.options) _ _ h in
      let (attempts, _, h2) = on_success-inr (max_attempts cfg.options) _ _ h1 in
      let (part, part_read, h3) = on_success-inr (part_size_option cfg.options) _ _ h2 in
      let (try, try_read, h4) = on_success-inr (try_timeout_option std cfg.options) _ _ h3 in
      let (concurrency, concurrency_read, h5) =
        on_success-inr (concurrency_option cfg.options) _ _ h4 in
      let (endpoint, endpoint_read, made) =
        on_success-inr (base_endpoint std cfg.endpoint) _ _ h5 in
      let bounds = upload_bounds cfg.options in
      let part_in = within 5242880 5368709120 part (rw part_read at bounds.0) (omega arith) in
      let concurrency_in =
        within 1 32 concurrency (rw concurrency_read at bounds.1) (omega arith) in
      let same_client = ap client_of made in
      let same_settings = ap settings_of made in
      record {
        bucket_eq = ap (λ x. x.bucket) (sym same_client);
        bucket_accepted = ap (λ x. validate_bucket x.bucket) (sym same_client) ∙ bucket;
        has_account = ap (λ x. is_empty x.account) (sym same_settings) ∙ account;
        has_key = ap (λ x. is_empty x.key) (sym same_settings) ∙ key;
        part_least = rw (← same_client) part_in.0;
        part_most = rw (← same_client) part_in.1;
        concurrency_least = rw (← same_settings) concurrency_in.0;
        concurrency_most = rw (← same_settings) concurrency_in.1;
        deadline =
            ap (λ x. ltb_ℤ x.try_timeout (pos 0)) (sym same_settings)
            ∙ try_timeout_lem cfg.options try try_read;
        endpoint_accepted = λ e q.
            base_endpoint_lem cfg.endpoint endpoint endpoint_read e
              (ap (λ x. x.endpoint) same_settings ∙ q);
      }
    where
      client_of : GoError ⊎ (S3Client × Settings) → S3Client
      client_of (inl e) = c
      client_of (inr (x, y)) = x

      settings_of : GoError ⊎ (S3Client × Settings) → Settings
      settings_of (inl e) = s
      settings_of (inr (x, y)) = y

  checked_lem :
      (cfg : Config) (c : S3Client) (s : Settings)
      → checked std cfg ≡ inr (c, s)
      → Usable std cfg c s
  unfolding checked
  checked_lem cfg c s h = elim (Bool-cases (is_empty cfg.container)) [
    | inl none_named ↦ absurd (ground (arith, none_named, h))
    | inr named ↦ elim (Option-cases (validate_bucket cfg.container)) [
      | inr (e, refused) ↦ absurd (ground (arith, named, refused, h))
      | inl bucket ↦ elim (Bool-cases (is_empty cfg.account)) [
        | inl no_account ↦ absurd (ground (arith, named, bucket, no_account, h))
        | inr account ↦ elim (Bool-cases (is_empty cfg.key)) [
          | inl no_key ↦ absurd (ground (arith, named, bucket, account, no_key, h))
          | inr key ↦
              configured_lem cfg c s bucket account key
                (rw (named, bucket, account, key, checked) at h)
        ]
      ]
    ]
  ]

  -- New does not panic on a configuration that is finalized. A client that it makes is of the
  -- configuration's bucket, whose name is accepted, with credentials that are not empty, a part
  -- size from 5 MiB to 5 GiB, 1 to 32 workers, a deadline on a try that is not negative, and no
  -- endpoint but the configuration's, which is accepted.
  pub new-Usable :
      (cfg : Config)
      → cfg.finalized ≡ true
      → (r : GoError ⊎ (S3Client × Settings)) × (new std cfg ≡ some r)
        × ((c : S3Client) (s : Settings) → r ≡ inr (c, s) → Usable std cfg c s)
  unfolding new
  new-Usable cfg ready = (checked std cfg, rw (ready, new) refl, λ c s h. checked_lem cfg c s h)
