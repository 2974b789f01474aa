-- ===== src/Azureblob/Objects.antt =====
-- azureblob/objects.go and azureblob/client.go: the operations of the provider, and it as a
-- `Client`.
pub mod Contract
use text.Mathlib.Text.{◌==◌ as str_eq}
use go_storage.Prelude.{
  ℕ, String, Bool, true, false, ◌||◌, ◌==◌, ◌&&◌, Option, none, some, List, [], ◌∷◌, ◌++◌, min,
  if◌then◌else◌, ◌⊎◌, inl, inr,
}
use go_storage.Prelude.Int.{ℤ, pos, negsuc, ltb_ℤ, pos_part}
use go_storage.Prelude.Text.{Text, codes, is_empty, has_prefix}
use go_storage.Errors.{GoError, sentinel, errorf, wrapped, end, eof, same}
use go_storage.Errors.Classes.{answer}
use go_storage.Stream.{Reader}
use go_storage.Storage.{
  Time, utc, zero_time, Object, no_object, Blob, no_blob, PutOptions, ListOptions, Page, no_page,
  Capabilities, Context, Client,
}
use go_storage.Config.{is_zero}
use go_storage.Azureblob.Api.{Properties, Download, BlobItem, BlobPage, BlobRequest, Api}
use go_storage.Azureblob.Body.{TrackedReader, tracked_reader, tracking}
use go_storage.Azureblob.Errors.{classify, classify_read}
use go_storage.Azureblob.Keys.{validate_key}

-- The source's `Client`, without the SDK's container client, which is the `Api` beside it.
pub record AzureClient : Type 0 where
  pub block_size : ℤ
  pub concurrency : ℤ
  pub read_retries : ℤ

abbrev pub default_content_type : Text
default_content_type = codes "application/octet-stream"

abbrev pub content_type_of : PutOptions → Text
content_type_of opts =
    if is_empty opts.content_type then default_content_type else opts.content_type

-- `deref` of the three types that it is used at.
abbrev pub deref_text : Option Text → Text
deref_text none = []
deref_text (some s) = s

abbrev pub deref_int : Option ℤ → ℤ
deref_int none = pos 0
deref_int (some n) = n

abbrev pub deref_time : Option Time → Time
deref_time none = zero_time
deref_time (some t) = t

unfoldable pub entity_tag : Option Text → Text
entity_tag none = []
entity_tag (some s) =
    if is_empty s || (has_prefix s (codes "\"") || has_prefix s (codes "W/\""))
    then s
    else codes "\"" ++ (s ++ codes "\"")

unfoldable pub modified_at : Option Time → Time
modified_at t = utc (deref_time t)

-- `bloberror.HasCode`, where the error may be nil.
unfoldable pub has_code : Option GoError → String → Bool
has_code none code = false
has_code (some e) code = elim (answer e) [ none ↦ false | some (status, c) ↦ str_eq c code ]

abbrev pub classify_some : Option GoError → Option GoError
classify_some none = none
classify_some (some e) = some (classify e)

abbrev pub read_body_error : GoError → GoError
read_body_error e = errorf "azureblob: read body: %w" (wrapped e end)

-- The error of a failed upload, by what the body's reader has recorded.
abbrev pub upload_failed : Option GoError → GoError → GoError
upload_failed none e = classify e
upload_failed (some x) e = read_body_error x

-- The Object that Get and Stat make of an answer.
unfoldable pub object_of : Text → Properties → Object
unfolding entity_tag modified_at
object_of key p = record {
  key = key;
  size = deref_int p.content_length;
  content_type = deref_text p.content_type;
  etag = entity_tag p.etag;
  modified_at = modified_at p.last_modified;
}

abbrev pub bare_object : Text → Object
bare_object key = record no_object { key = key }

-- The Objects of a listing.
unfoldable pub listed : List (Option BlobItem) → List Object
unfolding object_of
listed [] = []
listed (none ∷ items) = listed items
listed (some item ∷ items) = elim item.name [
  | none ↦ listed items
  | some name ↦
      (elim item.properties [ none ↦ bare_object name | some p ↦ object_of name p ]) ∷ listed items
]

-- The largest int32.
abbrev pub int32_max : ℕ
int32_max = 2147483647

unfoldable pub list_request : ListOptions → BlobRequest
list_request opts = record {
  prefix = if is_empty opts.prefix then none else some opts.prefix;
  marker = if is_empty opts.token then none else some opts.token;
  max_results =
      if ltb_ℤ (pos 0) opts.limit then some (min (pos_part opts.limit) int32_max) else none;
}

abbrev pub key_rules : Capabilities
key_rules = record { max_key_length = 1024; validate_key = some validate_key }

module _ {W B : Type 0} (api : Api W B) (c : AzureClient) where
  -- `Put`
  module _ {S : Type 0} (r : Reader S) (ctx : Context W) (key : Text) (opts : PutOptions) where
    unfoldable pub put : S → W → Object × Option GoError × S × W
    unfolding entity_tag modified_at
    put s w =
        let (out, t, w') =
          api.upload_stream (TrackedReader S) (tracked_reader r) ctx key c.block_size c.concurrency
            (content_type_of opts) (tracking s (pos_part opts.size) 0) w in
        elim out [
          | inl e ↦ (no_object, some (upload_failed t.err e), t.source, w')
          | inr p ↦ (
            record {
              key = key;
              size = pos t.n;
              content_type = content_type_of opts;
              etag = entity_tag p.etag;
              modified_at = modified_at p.last_modified;
            },
            none,
            t.source,
            w',
          )
        ]

  -- `classifiedBody` over a body.
  unfoldable pub read_classified : B → ℕ → List ℕ × Option GoError × B
  read_classified b n =
      let (bs, e, b') = api.body.read b n in
      elim e [
        | none ↦ (bs, none, b')
        | some x ↦
            if same x (sentinel eof) then (bs, some x, b') else (bs, some (classify_read x), b')
      ]

  -- `resuming`
  unfoldable pub resuming : Context W → B → B
  resuming ctx b = if is_zero c.read_retries then b else api.retry_reader ctx c.read_retries b

  -- `Get`; the body that it gives is read by `read_classified`.
  unfoldable pub get : Context W → Text → W → Blob B × Option GoError × W
  unfolding object_of resuming
  get ctx key w =
      let (out, w') = api.download_stream ctx key w in
      elim out [
        | inl e ↦ (no_blob, some (classify e), w')
        | inr d ↦ elim d.body [
          | none ↦ (no_blob, some (errorf "azureblob: get blob returned no body" end), w')
          | some b ↦ (
            record { object = object_of key d.properties; body = some (resuming ctx b) },
            none,
            w',
          )
        ]
      ]

  -- `Stat`
  unfoldable pub stat : Context W → Text → W → Object × Option GoError × W
  unfolding object_of
  stat ctx key w =
      let (out, w') = api.get_properties ctx key w in
      elim out [ inl e ↦ (no_object, some (classify e), w') | inr p ↦ (object_of key p, none, w') ]

  -- `Delete`
  unfoldable pub delete : Context W → Text → W → Option GoError × W
  unfolding has_code
  delete ctx key w =
      let (err, w') = api.delete_blob ctx key w in
      if has_code err "BlobNotFound" then (none, w') else (classify_some err, w')

  -- `List`
  unfoldable pub list : Context W → ListOptions → W → Page × Option GoError × W
  unfolding list_request listed
  list ctx opts w =
      let (out, w') = api.next_page ctx (list_request opts) w in
      elim out [
        | inl e ↦ (no_page, some (classify e), w')
        | inr page ↦ (
          record {
            objects = elim page.items [ none ↦ [] | some items ↦ listed items ];
            next = deref_text page.next_marker;
          },
          none,
          w',
        )
      ]

  -- `EnsureContainer`
  unfoldable pub ensure_container : Context W → W → Option GoError × W
  unfolding has_code
  ensure_container ctx w =
      let (err, w') = api.create ctx w in
      if has_code err "ContainerAlreadyExists" then (none, w') else (classify_some err, w')

  -- `Probe`
  unfoldable pub probe : Context W → W → Option GoError × W
  probe ctx w = let (err, w') = api.container_properties ctx w in (classify_some err, w')

  -- The provider as a client of the standard tier.
  unfoldable pub azure_client : Client W B
  unfolding put get stat delete list ensure_container probe
  azure_client = record {
    put = λ S r ctx key opts s w. put r ctx key opts s w;
    get = get;
    stat = stat;
    delete = delete;
    list = list;
    ensure_container = ensure_container;
    probe = probe;
    capabilities = key_rules;
    close = none;
  }
