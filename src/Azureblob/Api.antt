-- ===== src/Azureblob/Api.antt =====
-- What azureblob/objects.go and azureblob/client.go use of the Azure SDK, as an interface: the
-- requests of a container's clients, the streaming upload, and the retry reader of a download.
use go_storage.Prelude.{ℕ, Option, List, ◌⊎◌}
use go_storage.Prelude.Int.{ℤ}
use go_storage.Prelude.Text.{Text}
use go_storage.Errors.{GoError}
use go_storage.Stream.{Reader}
use go_storage.Storage.{Time, Context}

-- What an answer, or an item of a listing, says of a blob.
pub record Properties : Type 0 where
  pub etag : Option Text
  pub content_length : Option ℤ
  pub content_type : Option Text
  pub last_modified : Option Time

pub record Download (B : Type 0) : Type 0 where
  pub properties : Properties
  pub body : Option B

pub record BlobItem : Type 0 where
  pub name : Option Text
  pub properties : Option Properties

-- `items` is the answer's segment, where it has one; an item may be nil.
pub record BlobPage : Type 0 where
  pub next_marker : Option Text
  pub items : Option (List (Option BlobItem))

pub record BlobRequest : Type 0 where
  pub prefix : Option Text
  pub marker : Option Text
  pub max_results : Option ℕ

-- An upload takes the block size, the concurrency and the content type, and reads its body to the
-- state that it gives back. `retry_reader` is `NewRetryReader` with a number of retries; `B` stands
-- for the bodies, its own included.
pub record Api (W B : Type 0) : Type 1 where
  pub upload_stream :
      (S : Type 0)
      → Reader S
      → Context W
      → Text
      → ℤ
      → ℤ
      → Text
      → S
      → W
      → (GoError ⊎ Properties) × S × W
  pub download_stream : Context W → Text → W → (GoError ⊎ Download B) × W
  pub retry_reader : Context W → ℤ → B → B
  pub get_properties : Context W → Text → W → (GoError ⊎ Properties) × W
  pub delete_blob : Context W → Text → W → Option GoError × W
  pub next_page : Context W → BlobRequest → W → (GoError ⊎ BlobPage) × W
  pub create : Context W → W → Option GoError × W
  pub container_properties : Context W → W → Option GoError × W
  pub body : Reader B
