-- ===== src/Azureblob/New/Usable.antt =====
-- azureblob/client.go: what holds of the client that `New` makes.
use go_storage.Prelude.{
  ℕ, ◌≡◌, ◌≤◌, ◌<◌, ◌∙◌, ◌++◌, refl, ap, true, false, Option, none, some, Option-cases, Bool-cases,
  ◌⊎◌, inl, inr, arith, ◌==◌, if◌then◌else◌,
}
use go_storage.Prelude.Int.{ℤ, pos, negsuc, ltb_ℤ, pos_part}
use go_storage.Prelude.Text.{Text, codes, is_empty}
use go_storage.Prelude.Assoc.{Assoc, lookup}
use go_storage.Errors.{GoError, on_success-inr}
use go_storage.Config.{Config}
use go_storage.Config.Numbers.{parse_int}
use go_storage.Config.Durations.{positive_duration-inr}
use go_storage.Azureblob.Keys.{validate_container}
use go_storage.Azureblob.Options.{
  upload_options, bad_retries, retries_of, max_retries, read_retries, in_bounds,
  in_bounds-upload_options,
}
use go_storage.Azureblob.Objects.{AzureClient}
use go_storage.Azureblob.New.{
  Sdk, Settings, bad_try_timeout, unless_error, try_timeout_option, client_options, opened,
  configured, checked, new,
}

pub record ReadyClient (sdk : Sdk) (cfg : Config) (c : AzureClient) (s : Settings) : Type 0 where
  pub container_accepted : validate_container cfg.container ≡ none
  pub has_account : is_empty s.account ≡ false
  pub has_key : is_empty s.key ≡ false
  pub account_eq : s.account ≡ cfg.account
  pub key_eq : s.key ≡ cfg.key
  pub own_url :
      is_empty cfg.endpoint ≡ true
      → s.container_url
        ≡ sdk.join_paths
            (codes "https://" ++ (cfg.account ++ codes ".blob.core.windows.net/"))
            cfg.container
  pub endpoint_url :
      is_empty cfg.endpoint ≡ false → s.container_url ≡ sdk.join_paths cfg.endpoint cfg.container
  pub credential_accepted : sdk.credential s.account s.key ≡ none
  pub opens : sdk.open_container s ≡ none
  pub block_least : 1048576 ≤ pos_part c.block_size
  pub block_most : pos_part c.block_size ≤ 104857600
  pub concurrency_least : 1 ≤ pos_part c.concurrency
  pub concurrency_most : pos_part c.concurrency ≤ 32
  pub deadline : ltb_ℤ s.try_timeout (pos 0) ≡ false
  pub unset_retries :
      lookup (codes "max_retries") cfg.options ≡ none
      → (s.max_retries ≡ pos 0) × (c.read_retries ≡ pos 3)
  pub set_retries :
      (v : Text)
      → lookup (codes "max_retries") cfg.options ≡ some v
      → (n : ℕ) × (parse_int v ≡ inr (pos n))
        × (n < 2147483648)
        × (c.read_retries ≡ pos n)
        × (n ≡ 0 → s.max_retries ≡ negsuc 0)
        × (0 < n → s.max_retries ≡ pos n)

within :
    (b c : ℤ)
    → in_bounds (inr (b, c)) ≡ true
    → (1048576 ≤ pos_part b) × (pos_part b ≤ 104857600) × (1 ≤ pos_part c) × (pos_part c ≤ 32)
within (pos b) (pos c) h = (ground arith, ground arith, ground arith, ground arith)
within (pos b) (negsuc c) h = absurd (ground (arith, h))
within (negsuc b) c h = absurd (ground (arith, h))

-- A MaxRetries that was read: the number that the option holds, where none is written as -1.
record RetriesRead (read : GoError ⊎ ℤ) (m : ℤ) : Type 0 where
  number : ℕ
  was : read ≡ inr (pos number)
  below : number < 2147483648
  resumes : read_retries m ≡ pos number
  no_retries : number ≡ 0 → m ≡ negsuc 0
  some_retries : 0 < number → m ≡ pos number

retries_of_lem :
    (bad : GoError) (read : GoError ⊎ ℤ) (m : ℤ) → retries_of bad read ≡ inr m → RetriesRead read m
unfolding retries_of read_retries
retries_of_lem bad (inl e) m h = cc
retries_of_lem bad (inr (negsuc n)) m h = cc
retries_of_lem bad (inr (pos n)) m h = record {
  number = n;
  was = refl;
  below = ground (arith, h);
  resumes = rw (← made.1) made.0;
  no_retries = λ z. ground (arith, h, z);
  some_retries = λ z. ground (arith, h, z);
}
  where
    sent : ℤ
    sent = if n == 0 then negsuc 0 else pos n

    made : (read_retries sent ≡ pos n) × (sent ≡ m)
    made = (ground arith, ground (arith, h))

unset_max_retries :
    (options : Assoc Text) (m : ℤ)
    → max_retries options ≡ inr m
    → lookup (codes "max_retries") options ≡ none
    → (m ≡ pos 0) × (read_retries m ≡ pos 3)
unfolding max_retries read_retries
unset_max_retries options m h unset =
    let same : m ≡ pos 0 = ground (arith, h, unset) in (same, rw same refl)

set_max_retries :
    (options : Assoc Text) (m : ℤ) (v : Text)
    → max_retries options ≡ inr m
    → lookup (codes "max_retries") options ≡ some v
    → RetriesRead (parse_int v) m
unfolding max_retries
set_max_retries options m v h found =
    retries_of_lem (bad_retries v) (parse_int v) m (rw (found, max_retries) at h)

unless_error-inr :
    {A : Type 0} (e : Option GoError) (wrap : GoError → GoError) (next : GoError ⊎ A) (a : A)
    → unless_error e wrap next ≡ inr a
    → (e ≡ none) × (next ≡ inr a)
unless_error-inr none wrap next a h = (refl, h)
unless_error-inr (some e) wrap next a h = cc

module _ (sdk : Sdk) where
  try_timeout_lem :
      (options : Assoc Text) (d : ℤ)
      → try_timeout_option sdk options ≡ inr d
      → ltb_ℤ d (pos 0) ≡ false
  unfolding try_timeout_option
  try_timeout_lem options d h = elim (Option-cases (lookup (codes "try_timeout") options)) [
    | inl unset ↦ ground (arith, unset, h)
    | inr (v, q) ↦
        positive_duration-inr (bad_try_timeout v) (sdk.parse_duration v) d
          (rw (q, try_timeout_option) at h)
  ]

  client_options_lem :
      (options : Assoc Text) (m d : ℤ)
      → client_options sdk options ≡ inr (m, d)
      → (ltb_ℤ d (pos 0) ≡ false) × (max_retries options ≡ inr m)
  unfolding client_options
  client_options_lem options m d h =
      let (retries, retries_read, h1) = on_success-inr (max_retries options) _ _ h in
      let (timeout, timeout_read, made) = on_success-inr (try_timeout_option sdk options) _ _ h1 in
      (
        rw (← same_timeout retries timeout made) (try_timeout_lem options timeout timeout_read),
        retries_read ∙ ap inr (same_retries retries timeout made),
      )
    where
      same_timeout : (r t : ℤ) → (let x : GoError ⊎ (ℤ × ℤ) = inr (r, t) in x ≡ inr (m, d)) → t ≡ d
      same_timeout r t q = cc

      same_retries : (r t : ℤ) → (let x : GoError ⊎ (ℤ × ℤ) = inr (r, t) in x ≡ inr (m, d)) → r ≡ m
      same_retries r t q = cc

  opened_lem :
      (cfg : Config) (m d b n : ℤ) (c : AzureClient) (s : Settings)
      → validate_container cfg.container ≡ none
      → is_empty cfg.account ≡ false
      → is_empty cfg.key ≡ false
      → ltb_ℤ d (pos 0) ≡ false
      → max_retries cfg.options ≡ inr m
      → in_bounds (inr (b, n)) ≡ true
      → opened sdk cfg (m, d) (b, n) ≡ inr (c, s)
      → ReadyClient sdk cfg c s
  unfolding opened
  opened_lem cfg m d b n c s container account key timeout retries bounds h =
      let (credential, h1) = unless_error-inr (sdk.credential cfg.account cfg.key) _ _ _ h in
      let (opens, made) = unless_error-inr (sdk.open_container _) _ _ _ h1 in
      rw (← ap second made, ← ap first made)
        (record {
          container_accepted = container;
          has_account = account;
          has_key = key;
          account_eq = refl;
          key_eq = refl;
          own_url = λ q. ground (arith, q);
          endpoint_url = λ q. ground (arith, q);
          credential_accepted = credential;
          opens = opens;
          block_least = (within b n bounds).0;
          block_most = (within b n bounds).1;
          concurrency_least = (within b n bounds).2;
          concurrency_most = (within b n bounds).3;
          deadline = timeout;
          unset_retries = unset_max_retries cfg.options m retries;
          set_retries = λ v found.
              let r = set_max_retries cfg.options m v retries found in
              (r.number, r.was, r.below, r.resumes, r.no_retries, r.some_retries);
        })
    where
      first : GoError ⊎ (AzureClient × Settings) → AzureClient
      first (inl e) = c
      first (inr (x, y)) = x

      second : GoError ⊎ (AzureClient × Settings) → Settings
      second (inl e) = s
      second (inr (x, y)) = y

  configured_lem :
      (cfg : Config) (c : AzureClient) (s : Settings)
      → validate_container cfg.container ≡ none
      → is_empty cfg.account ≡ false
      → is_empty cfg.key ≡ false
      → configured sdk cfg ≡ inr (c, s)
      → ReadyClient sdk cfg c s
  unfolding configured
  configured_lem cfg c s container account key h =
      let ((m, d), retry_read, h1) = on_success-inr (client_options sdk cfg.options) _ _ h in
      let ((b, n), upload_read, made) = on_success-inr (upload_options cfg.options) _ _ h1 in
      opened_lem cfg m d b n c s container account key
        (client_options_lem cfg.options m d retry_read).0
        (client_options_lem cfg.options m d retry_read).1
        (rw upload_read at (in_bounds-upload_options cfg.options)) made

  checked_lem :
      (cfg : Config) (c : AzureClient) (s : Settings)
      → checked sdk cfg ≡ inr (c, s)
      → ReadyClient sdk cfg c s
  unfolding checked
  checked_lem cfg c s h = elim (Bool-cases (is_empty cfg.container)) [
    | inl none_named ↦ absurd (ground (arith, none_named, h))
    | inr named ↦ elim (Option-cases (validate_container cfg.container)) [
      | inr (e, refused) ↦ absurd (ground (arith, named, refused, h))
      | inl container ↦ elim (Bool-cases (is_empty cfg.account)) [
        | inl no_account ↦ absurd (ground (arith, named, container, no_account, h))
        | inr account ↦ elim (Bool-cases (is_empty cfg.key)) [
          | inl no_key ↦ absurd (ground (arith, named, container, account, no_key, h))
          | inr key ↦
              configured_lem cfg c s container account key
                (rw (named, container, account, key, checked) at h)
        ]
      ]
    ]
  ]

  -- New does not panic on a configuration that is finalized. A client that it makes is of a
  -- container whose name is accepted, below the configuration's endpoint, or where that is empty
  -- the account's own, with the configuration's account and key, which are not empty and which the
  -- SDK accepts, blocks of 1 MiB to 100 MiB, 1 to 32 workers, and a deadline on a try that is not
  -- negative. The resumptions of a read are the number that the max_retries option holds, which is
  -- below 2^31, and 3 where it is not set; the retry policy gets that number, -1 for none, and 0
  -- where the option is not set.
  pub new-ReadyClient :
      (cfg : Config)
      → cfg.finalized ≡ true
      → (r : GoError ⊎ (AzureClient × Settings)) × (new sdk cfg ≡ some r)
        × ((c : AzureClient) (s : Settings) → r ≡ inr (c, s) → ReadyClient sdk cfg c s)
  unfolding new
  new-ReadyClient cfg ready =
      (checked sdk cfg, rw (ready, new) refl, λ c s h. checked_lem cfg c s h)
