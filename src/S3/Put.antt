-- ===== src/S3/Put.antt =====
-- s3/objects.go: `Put`, with the multipart upload that failed and its abort.
pub mod Contract
pub mod Fits
pub mod Success
use text.Mathlib.Text.{◌==◌ as str_eq}
use go_storage.Prelude.{
  ℕ, ◌+◌, Bool, true, false, not, ◌&&◌, ◌||◌, Option, none, some, List, [], ◌∷◌, ◌++◌, String,
  length, leb, if◌then◌else◌, ◌⊎◌, inl, inr,
}
use go_storage.Prelude.Int.{ℤ, pos, ltb_ℤ, pos_part}
use go_storage.Prelude.Text.{Text, codes, is_empty, has_prefix, text_eq}
use go_storage.Errors.{GoError, errorf, foreign, shown, wrapped, end}
use go_storage.Errors.Classes.{answer}
use go_storage.Stream.{Reader, read_all}
use go_storage.Stream.Compose.{limited_to, multi_reader}
use go_storage.Storage.{Time, utc, zero_time, Object, no_object, PutOptions, Context}
use go_storage.S3.Api.{Written, Head, Api, to_string, to_time}
use go_storage.S3.Body.{BodyReader, new_body_reader, body_reader}
use go_storage.S3.Errors.{classify}
use go_storage.S3.Keys.{validate_key}

-- The source's `Client`, without the SDK's clients, which are the `Api` beside it. `part_size` and
-- `read_retries` are not negative where `New` makes one.
pub record S3Client : Type 0 where
  pub bucket : Text
  pub region : Text
  pub part_size : ℕ
  pub read_retries : ℕ

abbrev pub default_content_type : Text
default_content_type = codes "application/octet-stream"

abbrev pub content_type_of : PutOptions → Text
content_type_of opts =
    if is_empty opts.content_type then default_content_type else opts.content_type

-- `errorCode` of an error that is not nil.
unfoldable pub error_code : GoError → String
error_code e = elim (answer e) [ none ↦ "" | some (status, code) ↦ code ]

unfoldable pub entity_tag : Option Text → Text
entity_tag e =
    let s = to_string e in
    if is_empty s || (has_prefix s (codes "\"") || has_prefix s (codes "W/\""))
    then s
    else codes "\"" ++ (s ++ codes "\"")

-- 30 seconds.
abbrev pub abort_timeout : ℕ
abort_timeout = 30000000000

abbrev pub read_body_error : GoError → GoError
read_body_error e = errorf "s3: read body: %w" (wrapped e end)

-- Stands for a body whose reads neither give bytes nor end.
abbrev pub unread : GoError
unread = foreign 0 end

-- The time that Put reports, from the HeadObject behind the write and the write's own answer.
unfoldable pub modified_at : GoError ⊎ Head → Text → Option Time → Time
unfolding entity_tag
modified_at (inl e) tag date = elim date [ none ↦ zero_time | some d ↦ utc d ]
modified_at (inr head) tag date =
    if text_eq (entity_tag head.etag) tag
    then utc (to_time head.last_modified)
    else elim date [ none ↦ zero_time | some d ↦ utc d ]

-- Whether a body of no declared size, or of one, tells the upload its length.
abbrev pub content_length_of : ℤ → Option ℤ
content_length_of size = if ltb_ℤ (pos 0) size then some size else none

module _ {W B : Type 0} (api : Api W B) (c : S3Client) (ctx : Context W) (key : Text) where
  -- `abortUpload`
  unfoldable pub abort_upload : Text → W → Option GoError × W
  unfolding error_code
  abort_upload id w =
      let (ctx', cancel) = api.detached abort_timeout ctx in
      let (err, w') = api.abort ctx' c.bucket key id w in
      elim err [
        | none ↦ (none, cancel w')
        | some e ↦
            if str_eq (error_code e) "NoSuchUpload"
            then (none, cancel w')
            else (some (classify e), cancel w')
      ]

  -- The abort that `failedUpload` sends, where the error names an upload.
  unfoldable pub repeated_abort : GoError → W → Option GoError × W
  repeated_abort err w = elim (api.upload_id err) [
    | none ↦ (none, w)
    | some id ↦ if is_empty id then (none, w) else abort_upload id w
  ]

  -- `failedUpload`, for what the body's reader has recorded.
  unfoldable pub failed_upload : Option GoError → GoError → W → GoError × W
  unfolding repeated_abort
  failed_upload body_err err w =
      let (abort_err, w') = repeated_abort err w in
      let reported : GoError = elim body_err [
        | some e ↦ read_body_error e
        | none ↦ errorf "s3: %w" (wrapped (classify err) end)
      ] in
      elim abort_err [
        | none ↦ (reported, w')
        | some a ↦ (
          errorf "%w (abort of multipart upload failed, parts may remain: %v)"
              (wrapped reported (shown a end)),
          w',
        )
      ]

  -- Behind a write: the HeadObject and the Object that Put returns.
  unfoldable pub written_object : Text → ℕ → Written → W → Object × W
  unfolding modified_at
  written_object content_type size a w =
      let (head, w') = api.head_object ctx c.bucket key w in
      (
        record {
          key = key;
          size = pos size;
          content_type = content_type;
          etag = entity_tag a.etag;
          modified_at = modified_at head (entity_tag a.etag) a.date;
        },
        w',
      )

  module _ {S : Type 0} (tries : ℕ) (r : Reader S) (opts : PutOptions) where
    -- A body that fits into one part.
    unfoldable pub put_whole : List ℕ → BodyReader S → W → Object × Option GoError × S × W
    unfolding written_object
    put_whole bytes src w =
        let (out, w') = api.put_object ctx c.bucket key bytes (content_type_of opts) w in
        elim out [
          | inl e ↦ (no_object, some (classify e), src.source, w')
          | inr a ↦
              (let (obj, w2) = written_object (content_type_of opts) src.n a w' in
                (obj, none, src.source, w2))
        ]

    -- A longer one: what was read of it, then the rest.
    unfoldable pub put_parts : List ℕ → BodyReader S → W → Object × Option GoError × S × W
    unfolding written_object failed_upload
    put_parts bytes src w =
        let (out, (_, src'), w') =
          api.upload (List ℕ × BodyReader S) (multi_reader (body_reader tries r)) ctx c.bucket key
            (content_type_of opts) (content_length_of opts.size) (bytes, src) w in
        elim out [
          | inl e ↦
              (let (err, w2) = failed_upload src'.err e w' in
                (no_object, some err, src'.source, w2))
          | inr a ↦
              (let (obj, w2) = written_object (content_type_of opts) src'.n a w' in
                (obj, none, src'.source, w2))
        ]

    -- Behind the read of at most a part and one byte.
    unfoldable pub decide :
        List ℕ → Option GoError → BodyReader S → W → Object × Option GoError × S × W
    unfolding put_whole put_parts
    decide bytes (some e) src w = (no_object, some (read_body_error e), src.source, w)
    decide bytes none src w =
        if leb (length bytes) c.part_size then put_whole bytes src w else put_parts bytes src w

    -- `Put`. `buf.ReadFrom` reads at most a part and one byte, each read at least one: `part_size +
    -- 2` is fuel enough.
    unfoldable pub put : S → W → Object × Option GoError × S × W
    unfolding decide
    put s w = elim (validate_key key) [
      | some e ↦ (no_object, some e, s, w)
      | none ↦
          elim (read_all (limited_to (body_reader tries r)) (c.part_size + 2) []
            (new_body_reader s (pos_part opts.size), c.part_size + 1)) [
              | none ↦ (no_object, some (read_body_error unread), s, w)
              | some (bytes, err, (src, rest)) ↦ decide bytes err src w
            ]
    ]
