-- ===== src/Suite/Passes.antt =====
-- The Fake and the checks of storagetest/suite.go that put a body and read it back.
use go_storage.Prelude.{
  ℕ, ◌<◌, ◌≡◌, ◌≢◌, refl, ap, ◌∙◌, String, true, false, Option, none, some, List, [], ◌∷◌, ◌++◌,
  length, length-append, arith,
}
use go_storage.Prelude.Int.{pos, pos_part}
use go_storage.Prelude.Text.{Text, codes, is_empty, has_prefix, text_eq_refl}
use go_storage.Errors.{GoError, sentinel, eof, same}
use go_storage.Stream.{
  Reader, IsStream, read_all, read_all_lem, read_outcome, bytes_reader, bytes_reader-IsStream,
}
use go_storage.Storage.{Blob, utc, Object, PutOptions, Capabilities, Context}
use go_storage.Fake.{Fake, gate, store_put, object_of, size_mismatch, fake_client}
use go_storage.Fake.{get as fake_get, stat as fake_stat, put as fake_put}
use go_storage.Fake.Agreement.{Shows, store_put-Shows}
use go_storage.Suite.{
  report, get, drained, stat, put, want_content, check_content, Test, and_then, want, ends_in,
  is_entity_tag, want_etag, want_time, want_object, same_int, want_got,
}

ends_in_append : (b x : ℕ) (t : Text) → ends_in b (x ∷ (t ++ (b ∷ []))) ≡ true
unfolding ends_in
ends_in_append b x [] = ground arith
ends_in_append b x (y ∷ t) = ends_in_append b y t

-- The Fake's ETags are entity tags.
quoted : (t : Text) → is_entity_tag (codes "\"" ++ (t ++ codes "\"")) ≡ true
unfolding is_entity_tag has_prefix
quoted t = ground (arith, length-append t (codes "\""), ends_in_append 34 34 t)

same_int_refl : (n : ℕ) → same_int (pos n) (pos n) ≡ true
same_int_refl n = ground arith

etag_wanted :
    (obj : Object)
    → is_empty obj.etag ≡ false
    → is_entity_tag obj.etag ≡ true
    → want_etag obj obj ≡ []
unfolding want_etag want
etag_wanted obj e q = ground (arith, e, q, text_eq_refl obj.etag)

time_wanted :
    (obj : Object) → obj.modified_at.instant ≢ 0 → obj.modified_at.zone ≡ 0 → want_time obj obj ≡ []
unfolding want_time want
time_wanted obj set z = ground (arith, set, z)

-- What the suite wants of an Object holds of one with a size, an entity tag, and a time in UTC.
wanted :
    (obj : Object) (n : ℕ)
    → obj.size ≡ pos n
    → is_empty obj.etag ≡ false
    → is_entity_tag obj.etag ≡ true
    → obj.modified_at.instant ≢ 0
    → obj.modified_at.zone ≡ 0
    → want_object obj obj obj.key (pos n) obj.content_type ≡ []
unfolding want_object want
wanted obj n size full tag set zone =
    rw
      (
        text_eq_refl obj.key,
        size,
        same_int_refl n,
        text_eq_refl obj.content_type,
        etag_wanted obj full tag,
      )
      (time_wanted obj set zone)

-- A step that passes goes on.
pub went_on :
    {W A C : Type 0} (t : Test W A) (next : A → Test W C) {s s' : W × List Text} {a : A}
    {out : Option C × List String × (W × List Text)}
    → t s ≡ (some a, [], s')
    → next a s' ≡ out
    → and_then t next s ≡ out
unfolding and_then
went_on t next e go_on =
    ap
      (λ x. (elim x.0 [
        | none ↦ (none, x.1, x.2)
        | some b ↦ (let (v, gs, s2) = next b x.2 in (v, x.1 ++ gs, s2))
      ]))
      e
    ∙ go_on

pub reported :
    {W C : Type 0} {fs : List String} (next : Unit {0} → Test W C) {s : W × List Text}
    {out : Option C × List String × (W × List Text)}
    → fs ≡ []
    → next tt s ≡ out
    → and_then (report fs) next s ≡ out
unfolding and_then
reported next e go_on = rw e go_on

fake_get_keeps : (key : Text) (f : Fake) → (fake_get key f).2 ≡ f
unfolding fake_get
fake_get_keeps key f = ground arith

fake_stat_keeps : (key : Text) (f : Fake) → (fake_stat key f).2 ≡ f
unfolding fake_stat
fake_stat_keeps key f = ground arith

-- `Close` of a body of the Fake.
abbrev pub close_bytes : List ℕ → Fake → Option GoError × Fake
close_bytes b f = (none, f)

bytes_read :
    (fuel : ℕ) (bytes : List ℕ)
    → length bytes < fuel
    → read_all bytes_reader fuel [] bytes ≡ some (bytes, none, [])
unfolding same
bytes_read fuel bytes lt =
    let (left, _, ended, e) = read_all_lem bytes_reader bytes_reader-IsStream fuel [] bytes tt lt in
    e ∙ ap (λ l. some (bytes, none, l)) ended

module _ (digest : List ℕ → Text) (fuel : ℕ) (caps : Capabilities) (ctx : Context Fake)
    (key : Text) where
  module _ (f : Fake) (cleanup : List Text) (obj : Object) (bytes : List ℕ)
      (shows : Shows f key obj bytes) where
    get_shows :
        length bytes < fuel
        → get (fake_client digest fuel caps) ctx bytes_reader close_bytes fuel key (f, cleanup)
          ≡ (some (bytes, obj), [], (f, cleanup))
    unfolding get drained fake_client
    get_shows lt =
        rw (shows.get_ok, get)
          (rw (shows.by_get, get)
            (rw (bytes_read fuel bytes lt, drained)
              (rw (fake_get_keeps key f) (
                ap (λ (b : Blob (List ℕ)). (some (bytes, b.object), [], (f, cleanup)))
                  shows.by_get))))

    stat_shows :
        stat (fake_client digest fuel caps) ctx bytes_reader close_bytes fuel key (f, cleanup)
        ≡ (some obj, [], (f, cleanup))
    unfolding stat fake_client
    stat_shows = rw (shows.stat_ok, stat) (rw (shows.by_stat, fake_stat_keeps key f) refl)

  same_bytes :
      (f : Fake) (cleanup : List Text) (obj : Object) (bytes : List ℕ)
      → want_object obj obj key (pos (length bytes)) obj.content_type ≡ []
      → want_got
          (fake_client digest fuel caps)
          ctx
          bytes_reader
          close_bytes
          fuel
          obj
          key
          bytes
          obj.content_type
          (bytes, obj)
        ≡ []
  unfolding want_got want
  same_bytes f cleanup obj bytes fine = rw (text_eq_refl bytes) fine

  -- Behind the Put.
  shown_content :
      (f : Fake) (cleanup : List Text) (obj : Object) (bytes : List ℕ)
      → Shows f key obj bytes
      → length bytes < fuel
      → want_object obj obj key (pos (length bytes)) obj.content_type ≡ []
      → want_content
          (fake_client digest fuel caps)
          ctx
          bytes_reader
          close_bytes
          fuel
          key
          obj
          bytes
          obj.content_type
          (f, cleanup)
        ≡ (some tt, [], (f, cleanup))
  unfolding want_content
  shown_content f cleanup obj bytes shows lt fine = reported _ fine (
      went_on _ _ (get_shows f cleanup obj bytes shows lt) (
        reported _ (same_bytes f cleanup obj bytes fine) (
          went_on _ _ (stat_shows f cleanup obj bytes shows)
            (ap (λ fs. (some tt, fs, (f, cleanup))) fine))))

  module _ (opts : PutOptions) (bytes : List ℕ) (f : Fake) (up : gate f ≡ none)
      (accepts : f.put_err ≡ none)
      (fits : size_mismatch (length bytes) (pos_part opts.size) ≡ none) where
    stored_object :
        (store_put digest key opts bytes none f).0 ≡ (object_of digest key opts bytes f.now).meta
    unfolding store_put
    stored_object = ground (arith, up, accepts, fits)

    pub stored_ok : (store_put digest key opts bytes none f).1 ≡ none
    unfolding store_put
    stored_ok = ground (arith, up, accepts, fits)

    stored_wanted :
        f.now.instant ≢ 0
        → let obj = (store_put digest key opts bytes none f).0 in
          want_object obj obj key (pos (length bytes)) obj.content_type ≡ []
    unfolding object_of utc is_empty
    stored_wanted set = rw stored_object (
        wanted (object_of digest key opts bytes f.now).meta (length bytes) refl refl
          (quoted (digest bytes)) set refl)

  module _ {S : Type 0} {r : Reader S} {Holds Ended : S → Type 0} {content : S → List ℕ}
      {final : S → GoError} (stream : IsStream r Holds Ended content final) (opts : PutOptions)
      (f : Fake) (cleanup : List Text) (s : S) (h : Holds s) (ends : final s ≡ sentinel eof)
      (lt : length (content s) < fuel) where
    body_read : (s' : S) × (read_all r fuel [] s ≡ some (content s, none, s'))
    unfolding same
    body_read =
        let (s', _, _, e) = read_all_lem r stream fuel [] s h lt in
        (s', e ∙ ap (λ x. some (content s, read_outcome x, s')) ends)

    fake_put_stored :
        (store_put digest key opts (content s) none f).1 ≡ none
        → fake_put digest S fuel r key opts s f ≡ (
          (store_put digest key opts (content s) none f).0,
          none,
          body_read.0,
          (store_put digest key opts (content s) none f).2,
        )
    unfolding fake_put
    fake_put_stored ok =
        rw (body_read.1, fake_put)
          (ap
            (λ e. (
              (store_put digest key opts (content s) none f).0,
              e,
              body_read.0,
              (store_put digest key opts (content s) none f).2,
            ))
            ok)

    pub put_stored :
        (store_put digest key opts (content s) none f).1 ≡ none
        → put
            (fake_client digest fuel caps)
            ctx
            bytes_reader
            close_bytes
            fuel
            r
            key
            opts
            s
            (f, cleanup)
          ≡ (
            some (store_put digest key opts (content s) none f).0,
            [],
            ((store_put digest key opts (content s) none f).2, key ∷ cleanup),
          )
    unfolding put fake_client
    put_stored ok =
        ap
          (λ (x : Object × Option GoError × S × Fake). (elim x.1 [
            | some e ↦ (none, "Put(%q): %v" ∷ [], (x.3, key ∷ cleanup))
            | none ↦ (some x.0, [], (x.3, key ∷ cleanup))
          ]))
          (fake_put_stored ok)

    -- The checks of the suite that put a body and read it back pass over a Fake that is up, has its
    -- container and takes the Put, for every body that is a stream and ends with io.EOF, of no
    -- declared size or of its own, with fuel above its length, where the Fake's clock is not at the
    -- zero time and the content type that the check expects is the one that the Fake records: no
    -- failure is reported, the Fake is as the Put left it, and the key is noted for the cleanup.
    pub check_content_passes :
        gate f ≡ none
        → f.put_err ≡ none
        → size_mismatch (length (content s)) (pos_part opts.size) ≡ none
        → f.now.instant ≢ 0
        → check_content
            (fake_client digest fuel caps)
            ctx
            bytes_reader
            close_bytes
            fuel
            r
            key
            opts
            s
            (content s)
            (object_of digest key opts (content s) f.now).meta.content_type
            (f, cleanup)
          ≡ (some tt, [], ((store_put digest key opts (content s) none f).2, key ∷ cleanup))
    unfolding check_content
    check_content_passes up accepts fits set =
        went_on _ _ (put_stored (stored_ok opts (content s) f up accepts fits)) (
          rw
            (← ap (λ (o : Object). o.content_type)
              (stored_object opts (content s) f up accepts fits))
            (shown_content _ (key ∷ cleanup) _ (content s)
              (store_put-Shows digest key opts (content s) none f
                (stored_ok opts (content s) f up accepts fits))
              lt (stored_wanted opts (content s) f up accepts fits set)))
