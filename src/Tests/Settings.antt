-- ===== src/Tests/Settings.antt =====
-- Instances of the theorems about configurations and about the store's other operations.
use go_storage.Prelude.{
  ℕ, Bool, ◌≡◌, refl, true, false, Option, none, some, List, [], ◌∷◌, ◌<◌, arith,
}
use go_storage.Prelude.Int.{ℤ, pos, ltb_ℤ, pos_part}
use go_storage.Prelude.Text.{Text, codes, is_empty, text_eq}
use go_storage.Prelude.Assoc.{lookup, insert, keys, Distinct}
use go_storage.Errors.{GoError, canceled, eof, same, sentinel}
use go_storage.Stream.{Reader, bytes_reader, bytes_reader-IsStream}
use go_storage.Storage.{no_page}
use go_storage.Store.{Store}
use go_storage.Store.Operations.{Contexts, list, invalid_limit, list_cases}
use go_storage.Store.Built.{IsFresh, new-finalize}
use go_storage.Idle.{IdleReader, quiet, new_idle_reader, read_idle}
use go_storage.Idle.Reading.{ReadIdle, IsCancellable, read_all-idle_reader}
use go_storage.Config.{Config, no_env, merge, finalize, apply_options_env}
use go_storage.Config.Final.{IsConcluded, finalize-IsUsable}
use go_storage.Config.Layers.{or_else, lookup-merge}
use go_storage.Config.Options.{Changes, apply_options_env-Changes}
use go_storage.Fake.{Fake, fake_client}
use go_storage.Tests.{toy_digest, caps, background, small_store, no_list_options, empty_fake}

-- A configuration with a container and one option.
abbrev plain : Config
plain = record {
  endpoint = [];
  container = codes "bin";
  account = [];
  key = [];
  options = (codes "region", codes "here") ∷ [];
  max_object_size = pos 3;
  list_page_size = pos 0;
  request_timeout = none;
  read_idle_timeout = none;
  env = no_env;
  finalized = false;
}

abbrev no_names : Text → List Text → Text
no_names prefix parts = []

abbrev unset : Text → Text
unset name = []

abbrev keep_timeout : Option ℤ → Text → Option ℤ × Option GoError
keep_timeout t name = (t, none)

plain_accepted : (finalize no_names unset [] keep_timeout [] plain).1 ≡ none
unfolding finalize is_empty
plain_accepted = refl

finalize-IsUsable_example :
    IsConcluded no_names unset [] keep_timeout (finalize no_names unset [] keep_timeout [] plain)
finalize-IsUsable_example = finalize-IsUsable no_names unset [] keep_timeout [] plain

new-finalize_example :
    (st : Store) × IsFresh
      (fake_client toy_digest 9 caps)
      (finalize no_names unset [] keep_timeout [] plain).0
      st
new-finalize_example =
    new-finalize (fake_client toy_digest 9 caps) no_names unset [] keep_timeout [] plain
      plain_accepted

merged-Distinct : Distinct (keys (merge plain plain).options)
unfolding merge insert text_eq
merged-Distinct = (tt, tt)

lookup-merge_example :
    (lookup (codes "region") (merge plain plain).options
      ≡ or_else (lookup (codes "region") plain.options) (lookup (codes "region") plain.options))
    × (lookup (codes "region") (merge (merge plain plain) plain).options
        ≡ lookup (codes "region") (merge plain (merge plain plain)).options)
lookup-merge_example =
    lookup-merge plain plain plain (codes "region") (tt, tt) (tt, tt) merged-Distinct

abbrev variables : List Text
variables = codes "BIN_STORAGE_OPTIONS_REGION=there" ∷ codes "PATH=x" ∷ []

abbrev named : Config
named = record plain { env = record no_env { options = codes "BIN_STORAGE_OPTIONS" } }

apply_options_env-Changes_example :
    Changes (codes "region") named.options (apply_options_env variables named).options
    × (is_empty named.env.options ≡ true → apply_options_env variables named ≡ named)
apply_options_env-Changes_example = apply_options_env-Changes variables named (codes "region")

abbrev contexts : Contexts Fake
contexts = record {
  background = background;
  with_timeout = λ n ctx. (ctx, λ w. w);
  with_cancel = λ ctx. (ctx, λ w. w);
}

list_cases_example :
    (ltb_ℤ (pos 0) (pos 0) ≡ true
      → list contexts
          (fake_client toy_digest 9 caps)
          small_store
          background
          no_list_options
          empty_fake
        ≡ (no_page, some (invalid_limit (pos 0)), empty_fake))
    × (ltb_ℤ (pos 0) (pos 0) ≡ false
        → (limit : ℤ) × (list contexts
              (fake_client toy_digest 9 caps)
              small_store
              background
              no_list_options
              empty_fake
            ≡ (fake_client toy_digest 9 caps).list background
                (record no_list_options { limit = limit })
                empty_fake)
          × (ltb_ℤ limit (pos 0) ≡ false)
          × (pos_part no_list_options.limit ≡ 0 → limit ≡ pos 2)
          × (0 < pos_part no_list_options.limit → limit ≡ pos 0))
list_cases_example =
    list_cases contexts (fake_client toy_digest 9 caps) small_store background no_list_options
      empty_fake refl refl

-- A body of a few bytes, which a cancelled request gives no more of.
abbrev cancellable : Bool → Reader (List ℕ)
cancellable false = bytes_reader
cancellable true = record { read = λ s n. ([], some (sentinel canceled), s) }

cancellable-IsCancellable :
    IsCancellable cancellable (λ s. Unit {0}) (λ s. s ≡ []) (λ s. s) (λ s. sentinel eof)
unfolding same
cancellable-IsCancellable = record {
  live = bytes_reader-IsStream;
  cut = λ s _. record { holds = tt; splits = refl; keeps = refl; ends = λ e. cc; moves = λ e. cc };
}

-- The second read is cut off by its own timer.
abbrev stalling : IdleReader (List ℕ)
stalling =
    new_idle_reader (1 ∷ 2 ∷ []) 30 (
      quiet
      ∷ record { early = false; within = false; expires = true; runs = true; cut = true }
      ∷ [])

read_all-idle_reader_example : ReadIdle cancellable-IsCancellable 9 [] stalling
read_all-idle_reader_example =
    read_all-idle_reader cancellable-IsCancellable 9 [] stalling tt refl body_short
  where
    body_short : 2 < 9
    body_short = omega arith

-- A timer that expires as a read returns, and whose function runs in the next read: that read's own
-- timer does not expire, and the cancellation is passed on as it is.
late_cancellation :
    let first =
      read_idle cancellable
        (new_idle_reader (1 ∷ 2 ∷ []) 30 (
          record { early = false; within = false; expires = true; runs = false; cut = false }
          ∷ record { early = false; within = true; expires = false; runs = false; cut = true }
          ∷ []))
        1 in
    (read_idle cancellable first.2 1).1 ≡ some (sentinel canceled)
unfolding read_idle same
late_cancellation = refl
