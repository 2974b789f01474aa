-- ===== src/S3/Api.antt =====
-- What s3/objects.go and s3/client.go use of the AWS SDK, as an interface: the requests of
-- awss3.Client, transfermanager's upload, and the detached context of the standard library.
use go_storage.Prelude.{ℕ, Bool, Option, none, some, List, [], ◌⊎◌}
use go_storage.Prelude.Int.{ℤ, pos}
use go_storage.Prelude.Text.{Text}
use go_storage.Errors.{GoError}
use go_storage.Stream.{Reader}
use go_storage.Storage.{Time, zero_time, Context}

-- The answer of a write: its ETag, and what `awsmiddleware.GetServerTime` finds in its metadata.
pub record Written : Type 0 where
  pub etag : Option Text
  pub date : Option Time

pub record Head : Type 0 where
  pub etag : Option Text
  pub content_length : Option ℤ
  pub content_type : Option Text
  pub last_modified : Option Time

-- The answer of a GetObject; `B` stands for the answers' bodies.
pub record Answer (B : Type 0) : Type 0 where
  pub head : Head
  pub content_range : Option Text
  pub body : B

pub record Item : Type 0 where
  pub key : Option Text
  pub size : Option ℤ
  pub etag : Option Text
  pub last_modified : Option Time

pub record Listing : Type 0 where
  pub is_truncated : Option Bool
  pub next : Option Text
  pub contents : List Item

pub record ListRequest : Type 0 where
  pub prefix : Option Text
  pub token : Option Text
  pub max_keys : Option ℕ

-- Every request takes the bucket's name. An upload reads its body to the state that it gives back;
-- `upload_id` is what `errors.AsType[transfermanager.MultipartUploadError]` finds in an error.
-- `detached` is `context.WithTimeout(context.WithoutCancel(ctx), d)`, of `d` nanoseconds.
pub record Api (W B : Type 0) : Type 1 where
  pub put_object : Context W → Text → Text → List ℕ → Text → W → (GoError ⊎ Written) × W
  pub upload :
      (S : Type 0)
      → Reader S
      → Context W
      → Text
      → Text
      → Text
      → Option ℤ
      → S
      → W
      → (GoError ⊎ Written) × S × W
  pub upload_id : GoError → Option Text
  pub abort : Context W → Text → Text → Text → W → Option GoError × W
  pub detached : ℕ → Context W → Context W × (W → W)
  pub head_object : Context W → Text → Text → W → (GoError ⊎ Head) × W
  pub get_object :
      Context W → Text → Text → Option Text → Option Text → W → (GoError ⊎ Answer B) × W
  pub delete_object : Context W → Text → Text → W → Option GoError × W
  pub list_objects : Context W → Text → ListRequest → W → (GoError ⊎ Listing) × W
  pub create_bucket : Context W → Text → Option Text → W → Option GoError × W
  pub head_bucket : Context W → Text → W → Option GoError × W
  pub body : Reader B
  pub close_body : B → W → Option GoError × W

-- `aws.ToString`, `aws.ToInt64` and `aws.ToTime`: what a pointer points to, or the zero value.
abbrev pub to_string : Option Text → Text
to_string none = []
to_string (some s) = s

abbrev pub to_int : Option ℤ → ℤ
to_int none = pos 0
to_int (some n) = n

abbrev pub to_time : Option Time → Time
to_time none = zero_time
to_time (some t) = t
