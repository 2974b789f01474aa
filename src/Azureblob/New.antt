-- ===== src/Azureblob/New.antt =====
-- azureblob/client.go: `New`, and what it hands to the SDK.
pub mod Usable
use go_storage.Prelude.{
  ℕ, Bool, true, false, not, Option, none, some, ◌++◌, ◌⊎◌, inl, inr, if◌then◌else◌,
}
use go_storage.Prelude.Int.{ℤ, pos, ltb_ℤ}
use go_storage.Prelude.Text.{Text, codes, is_empty}
use go_storage.Prelude.Assoc.{Assoc, lookup}
use go_storage.Errors.{GoError, errorf, str, wrapped, end, on_success}
use go_storage.Config.{Config}
use go_storage.Config.Durations.{positive_duration}
use go_storage.Azureblob.Keys.{validate_container}
use go_storage.Azureblob.Options.{upload_options, max_retries, read_retries}
use go_storage.Azureblob.Objects.{AzureClient}

-- What the SDK's retry policy is set to, where 0 stands for the SDK's own default, and what the
-- container's client is opened with.
pub record Settings : Type 0 where
  pub max_retries : ℤ
  pub try_timeout : ℤ
  pub account : Text
  pub key : Text
  pub container_url : Text

-- What the standard library and the SDK provide: `time.ParseDuration` in nanoseconds,
-- `container.NewSharedKeyCredential` and `NewClientWithSharedKeyCredential` as the errors that they
-- return, and `runtime.JoinPaths`.
pub record Sdk : Type 0 where
  pub parse_duration : Text → GoError ⊎ ℤ
  pub credential : Text → Text → Option GoError
  pub join_paths : Text → Text → Text
  pub open_container : Settings → Option GoError

abbrev pub bad_try_timeout : Text → GoError
bad_try_timeout v =
    errorf "azureblob: option %s: %q is not a positive duration"
      (str (codes "try_timeout") (str v end))

abbrev pub service_url : Config → Text
service_url cfg =
    if is_empty cfg.endpoint
    then codes "https://" ++ (cfg.account ++ codes ".blob.core.windows.net/")
    else cfg.endpoint

-- `if err := …; err != nil { return nil, fmt.Errorf(…) }` for a step that only fails or not.
abbrev pub unless_error :
    {A : Type 0} → Option GoError → (GoError → GoError) → GoError ⊎ A → GoError ⊎ A
unless_error none wrap next = next
unless_error (some e) wrap next = inl (wrap e)

module _ (sdk : Sdk) where
  -- The try_timeout that `clientOptions` reads.
  unfoldable pub try_timeout_option : Assoc Text → GoError ⊎ ℤ
  unfolding positive_duration
  try_timeout_option options = elim (lookup (codes "try_timeout") options) [
    | none ↦ inr (pos 0)
    | some v ↦ positive_duration (bad_try_timeout v) (sdk.parse_duration v)
  ]

  -- `clientOptions`
  unfoldable pub client_options : Assoc Text → GoError ⊎ (ℤ × ℤ)
  unfolding try_timeout_option
  client_options options =
      on_success (max_retries options)
        (λ retries. on_success (try_timeout_option options) (λ timeout. inr (retries, timeout)))

  -- New behind the options that it reads.
  unfoldable pub opened : Config → ℤ × ℤ → ℤ × ℤ → GoError ⊎ (AzureClient × Settings)
  opened cfg (retries, timeout) (block_size, concurrency) =
      let settings : Settings = record {
        max_retries = retries;
        try_timeout = timeout;
        account = cfg.account;
        key = cfg.key;
        container_url = sdk.join_paths (service_url cfg) cfg.container;
      } in
      unless_error (sdk.credential cfg.account cfg.key)
        (λ e. errorf "azureblob: shared key credential: %w" (wrapped e end))
        (unless_error (sdk.open_container settings)
          (λ e. errorf "azureblob: container client: %w" (wrapped e end))
          (inr (
            record {
              block_size = block_size;
              concurrency = concurrency;
              read_retries = read_retries retries;
            },
            settings,
          )))

  -- New behind the checks of the configuration's own fields.
  unfoldable pub configured : Config → GoError ⊎ (AzureClient × Settings)
  unfolding client_options opened
  configured cfg =
      on_success (client_options cfg.options)
        (λ retry. on_success (upload_options cfg.options) (λ upload. opened cfg retry upload))

  unfoldable pub checked : Config → GoError ⊎ (AzureClient × Settings)
  unfolding configured
  checked cfg =
      if is_empty cfg.container
      then inl (errorf "azureblob: storage container required" end)
      else elim (validate_container cfg.container) [
        | some e ↦ inl e
        | none ↦
            if is_empty cfg.account
            then inl (errorf "azureblob: storage account required" end)
            else if is_empty cfg.key
            then inl (errorf "azureblob: storage key required" end)
            else configured cfg
      ]

  -- `New`; none is the panic on a configuration that was not finalized.
  unfoldable pub new : Config → Option (GoError ⊎ (AzureClient × Settings))
  unfolding checked
  new cfg = if not cfg.finalized then none else some (checked cfg)
