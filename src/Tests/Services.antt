-- ===== src/Tests/Services.antt =====
-- Instances of the theorems about the providers' operations, over the service in memory.
use text.Mathlib.Text.{◌==◌ as str_eq}
use go_storage.Prelude.{ℕ, ◌≡◌, refl, true, none, some, List, [], ◌∷◌, ◌⊎◌, inl, inr, arith}
use go_storage.Prelude.Int.{pos}
use go_storage.Prelude.Text.{codes, is_empty, text_eq}
use go_storage.Prelude.Assoc.{lookup}
use go_storage.Prelude.Utf8.{valid_from}
use go_storage.Errors.{
  GoError, Sentinel, sentinel, foreign, end, is, is_some, not_found, container_not_found,
}
use go_storage.Errors.Classes.{answer}
use go_storage.Storage.Contract.{PutContract}
use go_storage.Config.{Config, no_env}
use go_storage.S3.Keys.{validate_key}
use go_storage.S3.Put.{S3Client, error_code}
use go_storage.S3.Resume.{ResumingBody, get}
use go_storage.S3.Resume.Whole.{GetRead, read_all-get}
use go_storage.S3.Objects.{s3_client, stat, probe}
use go_storage.S3.Objects.Contract.{s3_client-PutContract}
use go_storage.S3.Objects.Missing.{stat-probe}
use go_storage.S3.New.{Parsers, Settings, new}
use go_storage.S3.New.Usable.{Usable, new-Usable}
use go_storage.Azureblob.Api.{Properties, Api as AzureApi}
use go_storage.Azureblob.Objects.{AzureClient, azure_client}
use go_storage.Azureblob.Objects.Contract.{UploadsWhole, azure_client-PutContract}
use go_storage.Azureblob.New.{Sdk, Settings as AzureSettings, new as new_azure}
use go_storage.Azureblob.New.Usable.{ReadyClient, new-ReadyClient}
use go_storage.Tests.{background, key_a}
use go_storage.Tests.Memory.{
  Memory, held, head_of, bare_404, memory_api, memory-WritesWhole, memory-ServesVersion, upload_all,
  upload_all_lem,
}

abbrev client : S3Client
client = record { bucket = codes "bin"; region = codes "here"; part_size = 4; read_retries = 1 }

s3_client-PutContract_example : PutContract (s3_client memory_api client 2) held
s3_client-PutContract_example = s3_client-PutContract client 2 (memory-WritesWhole (codes "bin"))

abbrev body : List ℕ
body = 7 ∷ 8 ∷ 9 ∷ []

key_accepted : validate_key key_a ≡ none
unfolding validate_key is_empty valid_from
key_accepted = refl

-- The bucket with that body.
abbrev kept : Memory
kept = (key_a, body) ∷ []

read_all-get_example :
    ((get memory_api client background key_a kept).1 ≡ none)
    × ((b : ResumingBody (List ℕ × ℕ)) × ((get memory_api client background key_a kept).0.body
          ≡ some b)
        × GetRead memory_api client background key_a body 4 b
            (get memory_api client background key_a kept).2)
unfolding lookup text_eq
read_all-get_example =
    read_all-get client background (memory-ServesVersion (codes "bin") key_a body) 4 kept
      (record { head = head_of body; content_range = none; body = (body, 2) }) key_accepted refl
      refl tt refl (omega arith)

bare : str_eq (error_code bare_404) "NotFound" ≡ true
unfolding error_code answer
bare = refl

nothing_there : memory_api.head_object background (codes "bin") key_a [] ≡ (inl bare_404, [])
unfolding lookup
nothing_there = refl

stat-probe_example :
    ((probe memory_api client background []).0 ≡ none
      → is_some (stat memory_api client background key_a []).1 (sentinel not_found) ≡ true)
    × ((p : GoError)
        → (probe memory_api client background []).0 ≡ some p
        → (t : Sentinel)
        → is_some (stat memory_api client background key_a []).1 (sentinel t) ≡ is p (sentinel t))
    × ((b : GoError)
        → (memory_api.head_bucket background (codes "bin") []).0 ≡ some b
        → str_eq (error_code b) "NotFound" ≡ true
        → is_some (stat memory_api client background key_a []).1 (sentinel container_not_found)
          ≡ true)
stat-probe_example =
    stat-probe memory_api client background key_a [] [] bare_404 key_accepted nothing_there bare

abbrev properties : Properties
properties = record {
  etag = some (codes "0x1");
  content_length = none;
  content_type = none;
  last_modified = none;
}

-- The service in memory behind the other SDK.
abbrev blob_api : AzureApi Memory (List ℕ × ℕ)
blob_api = record {
  upload_stream = λ S r ctx key block workers t s m. upload_all properties r key s m;
  download_stream = λ ctx key m. (inl bare_404, m);
  retry_reader = λ ctx n b. b;
  get_properties = λ ctx key m. (inl bare_404, m);
  delete_blob = λ ctx key m. (none, m);
  next_page = λ ctx req m. (inl bare_404, m);
  create = λ ctx m. (none, m);
  container_properties = λ ctx m. (none, m);
  body = memory_api.body;
}

blob-UploadsWhole : UploadsWhole blob_api held
blob-UploadsWhole = record {
  upload_reads = λ S r Holds Ended content final ctx key block workers t s m stream h.
      (upload_all_lem properties stream key s m h).0;
  upload_outcome = λ S r Holds Ended content final ctx key block workers t s m stream h.
      (upload_all_lem properties stream key s m h).1;
}

abbrev blobs : AzureClient
blobs = record { block_size = pos 4; concurrency = pos 1; read_retries = pos 3 }

azure_client-PutContract_example : PutContract (azure_client blob_api blobs) held
azure_client-PutContract_example = azure_client-PutContract blobs blob-UploadsWhole

-- A finalized configuration.
abbrev finalized_config : Config
finalized_config = record {
  endpoint = [];
  container = codes "bin";
  account = codes "me";
  key = codes "secret";
  options = (codes "concurrency", codes "8") ∷ [];
  max_object_size = pos 0;
  list_page_size = pos 0;
  request_timeout = none;
  read_idle_timeout = none;
  env = no_env;
  finalized = true;
}

abbrev parsers : Parsers
parsers = record {
  parse_duration = λ t. inr (pos 5);
  parse_url = λ t. inl (foreign 5 end);
  default_attempts = pos 3;
}

new-Usable_example :
    (r : GoError ⊎ (S3Client × Settings)) × (new parsers finalized_config ≡ some r)
    × ((c : S3Client) (s : Settings) → r ≡ inr (c, s) → Usable parsers finalized_config c s)
new-Usable_example = new-Usable parsers finalized_config refl

abbrev sdk : Sdk
sdk = record {
  parse_duration = λ t. inr (pos 5);
  credential = λ account key. none;
  join_paths = λ a b. a;
  open_container = λ s. none;
}

new-ReadyClient_example :
    (r : GoError ⊎ (AzureClient × AzureSettings)) × (new_azure sdk finalized_config ≡ some r)
    × ((c : AzureClient) (s : AzureSettings)
        → r ≡ inr (c, s)
        → ReadyClient sdk finalized_config c s)
new-ReadyClient_example = new-ReadyClient sdk finalized_config refl
