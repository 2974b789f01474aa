-- ===== src/Fake.antt =====
-- storagetest/fake.go: `Fake`, the in-memory client, as functions of its state. Each method runs
-- as one step: the atomics and the mutex are not modelled.
pub mod Contract
pub mod Paging
pub mod Listing
pub mod Invariant
pub mod Agreement
pub mod Shown
pub mod UnderStore
pub mod Options
use go_storage.Prelude.{
  ℕ, zero, suc, ◌+◌, Bool, true, false, not, ◌&&◌, Option, none, some, List, [], ◌∷◌, ◌++◌, length,
  ltb, ◌==◌, keep, if◌then◌else◌,
}
use go_storage.Prelude.Int.{ℤ, pos, ltb_ℤ, pos_part}
use go_storage.Prelude.Text.{Text, codes, is_empty, has_prefix, text_lt}
use go_storage.Prelude.Assoc.{Assoc, lookup, insert, delete, keys}
use go_storage.Errors.{
  GoError, sentinel, errorf, int, wrapped, end, classified, unavailable, down, container_not_found,
  no_such_container, not_found, no_such_key, unexpected_eof,
}
use go_storage.Stream.{Reader, read_all}
use go_storage.Storage.{
  Time, utc, Object, no_object, Blob, no_blob, PutOptions, ListOptions, Page, no_page, Capabilities,
  Context, Client,
}

-- The source's `object`.
pub record Stored : Type 0 where
  pub meta : Object
  pub contents : List ℕ

-- `now` is what the Fake's clock says at the next call; a deadline is none where the context that
-- was received had none, so it stands for the source's deadline and bounded flag.
pub record Fake : Type 0 where
  pub is_down : Bool
  pub has_container : Bool
  pub puts : ℕ
  pub ensures : ℕ
  pub probes : ℕ
  pub now : Time
  pub page_size : ℕ
  pub caps : Capabilities
  pub objects : Assoc Stored
  pub put_err : Option GoError
  pub last_put_opts : PutOptions
  pub last_put_consumed : ℕ
  pub last_ensure_deadline : Option ℕ
  pub last_probe_deadline : Option ℕ
  pub last_list_opts : ListOptions

abbrev pub default_content_type : Text
default_content_type = codes "application/octet-stream"

abbrev pub outage : GoError
outage = classified unavailable (sentinel down)

abbrev pub missing_container : GoError
missing_container = classified container_not_found (sentinel no_such_container)

abbrev pub missing_key : GoError
missing_key = classified not_found (sentinel no_such_key)

-- The outage and the container, which every object operation consults in this order.
unfoldable pub gate : Fake → Option GoError
gate f =
    if f.is_down then some outage else if not f.has_container then some missing_container else none

pub set_down : Bool → Fake → Fake
set_down d f = record f { is_down = d }

pub fail_put : Option GoError → Fake → Fake
fail_put e f = record f { put_err = e }

pub drop_container : Fake → Fake
drop_container f = record f { has_container = false; objects = [] }

-- The errors of a Put whose body was read to its end.
unfoldable pub size_mismatch : ℕ → ℕ → Option GoError
size_mismatch n size =
    if not (ltb 0 size)
    then none
    else if n == size
    then none
    else if ltb n size
    then some (
        errorf "fake put: body ended after %d bytes, short of the declared size (%d bytes): %w"
          (int (pos n) (int (pos size) (wrapped (sentinel unexpected_eof) end))))
    else some (
        errorf "fake put: body is %d bytes, longer than the declared size (%d bytes)"
          (int (pos n) (int (pos size) end)))

abbrev pub fake_put_error : GoError → GoError
fake_put_error e = errorf "fake put: %w" (wrapped e end)

-- `digest` is the hexadecimal SHA-256 sum of the contents, which the standard library computes.
module _ (digest : List ℕ → Text) where
  unfoldable pub object_of : Text → PutOptions → List ℕ → Time → Stored
  unfolding utc
  object_of key opts bytes now = record {
    meta = record {
      key = key;
      size = pos (length bytes);
      content_type = if is_empty opts.content_type then default_content_type else opts.content_type;
      etag = codes "\"" ++ (digest bytes ++ codes "\"");
      modified_at = utc now;
    };
    contents = bytes;
  }

  -- What a Put does with the bytes that it read and the error of reading them.
  unfoldable pub store_put :
      Text → PutOptions → List ℕ → Option GoError → Fake → Object × Option GoError × Fake
  unfolding gate size_mismatch object_of
  store_put key opts bytes read_err f =
      let g = record f {
        puts = f.puts + 1;
        last_put_opts = opts;
        last_put_consumed = length bytes;
      } in
      elim (gate f) [
        | some e ↦ (no_object, some e, g)
        | none ↦ elim read_err [
          | some e ↦ (no_object, some (fake_put_error e), g)
          | none ↦ elim (size_mismatch (length bytes) (pos_part opts.size)) [
            | some e ↦ (no_object, some e, g)
            | none ↦ elim f.put_err [
              | some e ↦ (no_object, some (fake_put_error e), g)
              | none ↦ (
                (object_of key opts bytes f.now).meta,
                none,
                record g { objects = insert key (object_of key opts bytes f.now) g.objects },
              )
            ]
          ]
        ]
      ]

  -- `fuel` bounds the reads of `io.ReadAll`. A Put whose reading does not end within it does not
  -- return; it stands here as a failed Put that has changed nothing.
  unfoldable pub put :
      (S : Type 0)
      → ℕ
      → Reader S
      → Text
      → PutOptions
      → S
      → Fake
      → Object × Option GoError × S × Fake
  unfolding store_put
  put S fuel r key opts s f = elim (read_all r fuel [] s) [
    | none ↦ (no_object, some outage, s, f)
    | some (bytes, read_err, s') ↦
        let (obj, err, f') = store_put key opts bytes read_err f in (obj, err, s', f')
  ]

-- The body is what is left of a copy of the contents.
unfoldable pub get : Text → Fake → Blob (List ℕ) × Option GoError × Fake
unfolding gate
get key f = elim (gate f) [
  | some e ↦ (no_blob, some e, f)
  | none ↦ elim (lookup key f.objects) [
    | none ↦ (no_blob, some missing_key, f)
    | some o ↦ (record { object = o.meta; body = some o.contents }, none, f)
  ]
]

unfoldable pub stat : Text → Fake → Object × Option GoError × Fake
unfolding gate
stat key f = elim (gate f) [
  | some e ↦ (no_object, some e, f)
  | none ↦ elim (lookup key f.objects) [
    | none ↦ (no_object, some missing_key, f)
    | some o ↦ (o.meta, none, f)
  ]
]

unfoldable pub remove : Text → Fake → Option GoError × Fake
unfolding gate
remove key f = elim (gate f) [
  | some e ↦ (some e, f)
  | none ↦ (none, record f { objects = delete key f.objects })
]

-- `slices.Sort`.
pub insert_sorted : Text → List Text → List Text
insert_sorted k [] = k ∷ []
insert_sorted k (j ∷ ks) = if text_lt j k then j ∷ insert_sorted k ks else k ∷ j ∷ ks

pub sort : List Text → List Text
unfolding insert_sorted
sort [] = []
sort (k ∷ ks) = insert_sorted k (sort ks)

pub is_selected : Text → Text → Text → Bool
is_selected prefix token key = has_prefix key prefix && text_lt token key

pub meta_at : Assoc Stored → Text → Object
meta_at m k = elim (lookup k m) [ none ↦ no_object | some o ↦ o.meta ]

-- The loop over the sorted keys: `i` keys have gone onto the page, the last of them `prev`.
pub fill_page : Assoc Stored → ℕ → ℕ → Text → List Text → Page
unfolding meta_at
fill_page m limit i prev [] = no_page
fill_page m limit i prev (k ∷ ks) =
    let rest = fill_page m limit (i + 1) k ks in
    if i == limit
    then record { objects = []; next = prev }
    else record { objects = meta_at m k ∷ rest.objects; next = rest.next }

pub list_limit : ℤ → ℕ → ℕ
list_limit limit page_size = if ltb_ℤ (pos 0) limit then pos_part limit else page_size

unfoldable pub list : ListOptions → Fake → Page × Option GoError × Fake
unfolding gate fill_page list_limit is_selected sort
list opts f = elim (gate f) [
  | some e ↦ (no_page, some e, f)
  | none ↦ (
    fill_page f.objects (list_limit opts.limit f.page_size) 0 []
        (sort (keep (is_selected opts.prefix opts.token) (keys f.objects))),
    none,
    record f { last_list_opts = opts },
  )
]

unfoldable pub ensure_container : Option ℕ → Fake → Option GoError × Fake
ensure_container deadline f =
    let g = record f { ensures = f.ensures + 1; last_ensure_deadline = deadline } in
    if f.is_down then (some outage, g) else (none, record g { has_container = true })

unfoldable pub probe : Option ℕ → Fake → Option GoError × Fake
unfolding gate
probe deadline f = (gate f, record f { probes = f.probes + 1; last_probe_deadline = deadline })

-- The Fake as a client; it does not implement io.Closer. `caps` is the Fake's, which no call
-- changes.
unfoldable pub fake_client : (List ℕ → Text) → ℕ → Capabilities → Client Fake (List ℕ)
fake_client digest fuel caps = record {
  put = λ S r ctx key opts s f. put digest S fuel r key opts s f;
  get = λ ctx key f. get key f;
  stat = λ ctx key f. stat key f;
  delete = λ ctx key f. remove key f;
  list = λ ctx opts f. list opts f;
  ensure_container = λ ctx f. ensure_container ctx.deadline f;
  probe = λ ctx f. probe ctx.deadline f;
  capabilities = caps;
  close = none;
}
