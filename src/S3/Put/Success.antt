-- ===== src/S3/Put/Success.antt =====
-- s3/objects.go: a `Put` of a body that fits into one part succeeds where its request does.
use go_storage.Prelude.{ℕ, ◌≡◌, Option, none, List, length, inr}
use go_storage.Prelude.Int.{pos}
use go_storage.Prelude.Text.{Text}
use go_storage.Errors.{GoError}
use go_storage.Stream.{Reader}
use go_storage.Storage.{Object, PutOptions, Context}
use go_storage.S3.Api.{Written, Api}
use go_storage.S3.Put.{S3Client, entity_tag, content_type_of}

-- What a Put that succeeds reports of a body of `size` bytes that a request has answered.
pub record Reports (key : Text) (opts : PutOptions) (size : ℕ) (a : Written) (obj : Object)
    (err : Option GoError) : Type 0 where
  pub succeeds : err ≡ none
  pub key_eq : obj.key ≡ key
  pub size_eq : obj.size ≡ pos size
  pub content_type_eq : obj.content_type ≡ content_type_of opts
  pub etag_eq : obj.etag ≡ entity_tag a.etag

module _ {W B S : Type 0} (api : Api W B) (c : S3Client) (ctx : Context W) (key : Text) (tries : ℕ)
    (r : Reader S) (opts : PutOptions) (bytes : List ℕ) (w : W) (a : Written)
    (answered : (api.put_object ctx c.bucket key bytes (content_type_of opts) w).0 ≡ inr a) where
  abbrev Reported : Object × Option GoError × S × W → Type 0
  Reported out = Reports key opts (length bytes) a out.0 out.1
