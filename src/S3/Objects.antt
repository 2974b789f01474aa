-- ===== src/S3/Objects.antt =====
-- s3/objects.go and s3/client.go: the operations other than Put and Get, and the provider as a
-- `Client`.
pub mod Contract
pub mod Missing
use text.Mathlib.Text.{◌==◌ as str_eq}
use go_storage.Prelude.{
  String, ℕ, zero, suc, ◌+◌, ◌*◌, ◌/◌, Bool, true, false, not, Option, none, some, List, [], ◌∷◌,
  min, if◌then◌else◌, ◌⊎◌, inl, inr, length,
}
use go_storage.Prelude.Int.{ℤ, pos, ltb_ℤ, pos_part}
use go_storage.Prelude.Text.{Text, codes, is_empty, text_eq}
use go_storage.Errors.{
  GoError, sentinel, errorf, str, wrapped, end, classified, not_found, container_not_found,
}
use go_storage.Stream.{Reader}
use go_storage.Storage.{
  Time, utc, Object, no_object, PutOptions, ListOptions, Page, no_page, Capabilities, Context,
  Client,
}
use go_storage.S3.Api.{Head, Item, Listing, ListRequest, Api, to_string, to_int, to_time}
use go_storage.S3.Errors.{classify}
use go_storage.S3.Keys.{validate_key}
use go_storage.S3.Options.{default_region}
use go_storage.S3.Put.{S3Client, error_code, entity_tag, put}
use go_storage.S3.Resume.{ResumingBody, get}

-- `classify` of an error that may be nil.
abbrev pub classify_some : Option GoError → Option GoError
classify_some none = none
classify_some (some e) = some (classify e)

-- `errorCode(err) == code`, where the error may be nil.
abbrev pub has_code : Option GoError → String → Bool
has_code none code = false
has_code (some e) code = str_eq (error_code e) code

-- `t.Truncate(time.Second)`
abbrev pub whole_seconds : Time → Time
whole_seconds t = record t { instant = t.instant / 1000000000 * 1000000000 }

-- The largest int32.
abbrev pub int32_max : ℕ
int32_max = 2147483647

-- The request of a List.
unfoldable pub list_request : ListOptions → ListRequest
list_request opts = record {
  prefix = if is_empty opts.prefix then none else some opts.prefix;
  token = if is_empty opts.token then none else some opts.token;
  max_keys = if ltb_ℤ (pos 0) opts.limit then some (min (pos_part opts.limit) int32_max) else none;
}

unfoldable pub listed : List Item → List Object
unfolding entity_tag
listed [] = []
listed (i ∷ is) = elim i.key [
  | none ↦ listed is
  | some k ↦
      record {
        key = k;
        size = to_int i.size;
        content_type = [];
        etag = entity_tag i.etag;
        modified_at = whole_seconds (utc (to_time i.last_modified));
      }
      ∷ listed is
]

-- The Object that Stat makes of an answer.
unfoldable pub object_of_head : Text → Head → Object
unfolding entity_tag
object_of_head key head = record {
  key = key;
  size = to_int head.content_length;
  content_type = to_string head.content_type;
  etag = entity_tag head.etag;
  modified_at = utc (to_time head.last_modified);
}

abbrev pub key_rules : Capabilities
key_rules = record { max_key_length = 1024; validate_key = some validate_key }

module _ {W B : Type 0} (api : Api W B) (c : S3Client) where
  -- `Probe`
  unfoldable pub probe : Context W → W → Option GoError × W
  probe ctx w =
      let (err, w') = api.head_bucket ctx c.bucket w in
      elim err [
        | none ↦ (none, w')
        | some e ↦
            if str_eq (error_code e) "NotFound"
            then (some (classified container_not_found e), w')
            else (some (classify e), w')
      ]

  -- What Stat makes of an error of its HeadObject.
  unfoldable pub stat_failed : Context W → Text → GoError → W → Object × Option GoError × W
  unfolding probe
  stat_failed ctx key e w =
      let (probe_err, w') = probe ctx w in
      if not (str_eq (error_code e) "NotFound")
      then (no_object, some (classify e), w)
      else elim probe_err [
        | some p ↦ (
          no_object,
          some (
              errorf "s3: stat %q: object answered 404, bucket check: %w"
                (str key (wrapped p end))),
          w',
        )
        | none ↦ (no_object, some (classified not_found e), w')
      ]

  -- `Stat`
  unfoldable pub stat : Context W → Text → W → Object × Option GoError × W
  unfolding stat_failed object_of_head
  stat ctx key w = elim (validate_key key) [
    | some e ↦ (no_object, some e, w)
    | none ↦
        (let (out, w') = api.head_object ctx c.bucket key w in
          elim out [
            | inl e ↦ stat_failed ctx key e w'
            | inr head ↦ (object_of_head key head, none, w')
          ])
  ]

  -- `Delete`
  unfoldable pub delete : Context W → Text → W → Option GoError × W
  delete ctx key w = elim (validate_key key) [
    | some e ↦ (some e, w)
    | none ↦
        (let (err, w') = api.delete_object ctx c.bucket key w in
          if has_code err "NoSuchKey" then (none, w') else (classify_some err, w'))
  ]

  -- `List`
  unfoldable pub list : Context W → ListOptions → W → Page × Option GoError × W
  unfolding list_request listed
  list ctx opts w =
      let (out, w') = api.list_objects ctx c.bucket (list_request opts) w in
      elim out [
        | inl e ↦ (no_page, some (classify e), w')
        | inr page ↦ (
          record {
            objects = listed page.contents;
            next = elim page.is_truncated [
              | none ↦ []
              | some truncated ↦ if truncated then to_string page.next else []
            ];
          },
          none,
          w',
        )
      ]

  -- `EnsureContainer`, behind an error of its CreateBucket.
  unfoldable pub create_failed : Context W → GoError → W → Option GoError × W
  unfolding probe
  create_failed ctx e w =
      let (probe_err, w') = probe ctx w in
      if str_eq (error_code e) "BucketAlreadyOwnedByYou"
      then (none, w)
      else if str_eq (error_code e) "BucketAlreadyExists"
      then elim probe_err [
        | some p ↦
            (some (errorf "%w (probe after it: %w)" (wrapped (classify e) (wrapped p end))), w')
        | none ↦ (none, w')
      ]
      else (some (classify e), w)

  -- `EnsureContainer`
  unfoldable pub ensure_container : Context W → W → Option GoError × W
  unfolding create_failed
  ensure_container ctx w =
      let (err, w') =
        api.create_bucket ctx c.bucket
          (if text_eq c.region default_region then none else some c.region) w in
      elim err [ none ↦ (none, w') | some e ↦ create_failed ctx e w' ]

  -- The provider as a client of the standard tier; `tries` bounds the reads of one byte at the end
  -- of a body of a declared size.
  unfoldable pub s3_client : ℕ → Client W (ResumingBody B)
  unfolding put get stat delete list ensure_container probe
  s3_client tries = record {
    put = λ S r ctx key opts s w. put api c ctx key (suc tries) r opts s w;
    get = λ ctx key w. get api c ctx key w;
    stat = stat;
    delete = delete;
    list = list;
    ensure_container = ensure_container;
    probe = probe;
    capabilities = key_rules;
    close = none;
  }
