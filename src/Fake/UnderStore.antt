-- ===== src/Fake/UnderStore.antt =====
-- A store over the Fake: which Puts of a body of undeclared size succeed, and with which error the
-- others fail.
use go_storage.Prelude.{
  ℕ, ◌≤◌, ◌<◌, ◌≡◌, sym, subst, ◌∙◌, true, false, List, [], length, take, take_all, Option, none,
  some, arith,
}
use go_storage.Prelude.Int.{pos, pos_part}
use go_storage.Prelude.Text.{Text}
use go_storage.Errors.{GoError, sentinel, eof, same, is, is_some, too_large}
use go_storage.Stream.{Reader, IsStream, read_all, read_outcome, finished}
use go_storage.LimitReader.{LimitReader, limit_reader}
use go_storage.LimitReader.Refinement.{trips, limit_end}
use go_storage.LimitReader.Refinement.Fresh.{read_all-limit_reader}
use go_storage.Storage.{Object, PutOptions, Context, Capabilities}
use go_storage.Store.{Store, put, send, bounding, bounded_result, over_bound, check_key}
use go_storage.Fake.{Fake, gate, store_put, fake_client, size_mismatch}
use go_storage.Fake
use go_storage.Fake.{object_of, fake_put_error}
use go_storage.Fake.Contract.{contents_at}
use go_storage.Prelude.Text.{text_eq_refl}
use go_storage.Prelude.Assoc.{lookup-insert}

-- A store that accepts a Put of undeclared size at a key, over a Fake that accepts Puts.
pub record Accepts (digest : List ℕ → Text) (st : Store) (caps : Capabilities) (key : Text)
    (opts : PutOptions) (f : Fake) : Type 0 where
  pub up : st.started ≡ true
  pub key_ok : check_key caps key ≡ none
  pub undeclared : opts.size ≡ pos 0
  pub bounded : 0 < pos_part st.max_object_size
  pub fake_up : gate f ≡ none
  pub no_put_err : f.put_err ≡ none

module _ (digest : List ℕ → Text) (key : Text) (opts : PutOptions) (bytes : List ℕ) (f : Fake)
    (up : gate f ≡ none) where
  store_put_ok :
      opts.size ≡ pos 0
      → f.put_err ≡ none
      → ((store_put digest key opts bytes none f).1 ≡ none)
        × (contents_at (store_put digest key opts bytes none f).2 key ≡ some bytes)
  unfolding store_put contents_at object_of size_mismatch
  store_put_ok z e = (
    ground (arith, up, z),
    ground (
      arith,
      up,
      z,
      lookup-insert key key (object_of digest key opts bytes f.now) f.objects,
      text_eq_refl key,
    ),
  )

  store_put_err :
      (e : GoError)
      → ((store_put digest key opts bytes (some e) f).1 ≡ some (fake_put_error e))
        × ((store_put digest key opts bytes (some e) f).2.objects ≡ f.objects)
  unfolding store_put
  store_put_err e = (ground (arith, up), ground (arith, up))

-- The bound's failure of a body, with the provider's error behind it.
over_bound_result :
    {S : Type 0} (l : LimitReader S) (obj : Object) (p : GoError)
    → l.tripped ≡ true
    → is_some (bounded_result l obj (some p)).1 (sentinel too_large) ≡ true
unfolding bounded_result is same
over_bound_result l obj p t = ground (arith, t)

module _ {S : Type 0} {r : Reader S} {Holds Ended : S → Type 0} {content : S → List ℕ}
    {final : S → GoError} (stream : IsStream r Holds Ended content final) (digest : List ℕ → Text)
    (fuel : ℕ) (st : Store) (caps : Capabilities) (ctx : Context Fake) (key : Text)
    (opts : PutOptions) (s : S) (f : Fake) (h : Holds s) (eof_ends : final s ≡ sentinel eof)
    (enough : length (content s) < fuel) (a : Accepts digest st caps key opts f) where
  abbrev bound : ℕ
  bound = pos_part st.max_object_size

  abbrev out : Object × Option GoError × S × Fake
  out = put (fake_client digest fuel caps) r ctx key opts st s f

  all :
      (l : LimitReader S) × (read_all (limit_reader r) fuel [] (bounding st.max_object_size s)
        ≡ finished
            (limit_reader r)
            (take bound (content s))
            (limit_end (length (content s)) bound false (over_bound st.max_object_size) (final s))
            l)
      × (l.tripped ≡ trips (length (content s)) bound false (final s))
  all =
      read_all-limit_reader content final s bound false (over_bound st.max_object_size) stream fuel
        h enough

  sent : out ≡ send (fake_client digest fuel caps) r ctx key opts st.max_object_size true false s f
  unfolding put fake_client
  sent = ground (arith, a.up, a.key_ok, a.undeclared, a.bounded)

  -- What the send comes to, from what reading the bounded body gives.
  stored_from :
      (l : LimitReader S) (bytes : List ℕ) (e : GoError)
      → read_all (limit_reader r) fuel [] (bounding st.max_object_size s)
        ≡ finished (limit_reader r) bytes e l
      → let o = store_put digest key opts bytes (read_outcome e) f in
        out ≡ ((bounded_result l o.0 o.1).0, (bounded_result l o.0 o.1).1, l.source, o.2)
  unfolding send fake_client Fake.put
  stored_from l bytes e q = sent ∙ rw (q, Fake.put)

  -- A body of undeclared size, within the bound, that ends with io.EOF is stored whole, with fuel
  -- above its length, where the store accepts the key and the Fake accepts Puts.
  pub put_within :
      length (content s) ≤ bound → (out.1 ≡ none) × (contents_at out.3 key ≡ some (content s))
  unfolding trips limit_end same bounded_result
  put_within le =
      let (l, e, t) = all in
      let o = store_put_ok digest key opts (content s) f a.fake_up a.undeclared a.no_put_err in
      subst IsWhole (sym (stored_from l (content s) (sentinel eof) (e ∙ whole l le)))
        (ground (arith, o, t, eof_ends))
    where
      IsWhole : Object × Option GoError × S × Fake → Type 0
      IsWhole x = (x.1 ≡ none) × (contents_at x.3 key ≡ some (content s))

      whole :
          (l : LimitReader S)
          → length (content s) ≤ bound
          → finished
              (limit_reader r)
              (take bound (content s))
              (limit_end (length (content s)) bound false (over_bound st.max_object_size) (final s))
              l
            ≡ finished (limit_reader r) (content s) (sentinel eof) l
      whole l le = rw (take_all bound (content s) le) (ground (arith, eof_ends))

  -- With fuel above its length, a body of undeclared size past the bound that ends with io.EOF
  -- fails with an error that matches ErrTooLarge, and the Fake's objects are as they were, where
  -- the store accepts the key and the Fake accepts Puts.
  pub put_past_bound :
      bound < length (content s)
      → (is_some out.1 (sentinel too_large) ≡ true) × (out.3.objects ≡ f.objects)
  unfolding trips limit_end same
  put_past_bound lt =
      let (l, e, t) = all in
      let o =
        store_put_err digest key opts (take bound (content s)) f a.fake_up
          (over_bound st.max_object_size) in
      subst IsRefused
        (sym
          (stored_from l (take bound (content s)) (over_bound st.max_object_size) (e ∙ cut l lt)))
        (rw o.0 (over_bound_result l _ _ (ground (arith, t))), o.1)
    where
      IsRefused : Object × Option GoError × S × Fake → Type 0
      IsRefused x = (is_some x.1 (sentinel too_large) ≡ true) × (x.3.objects ≡ f.objects)

      cut :
          (l : LimitReader S)
          → bound < length (content s)
          → finished
              (limit_reader r)
              (take bound (content s))
              (limit_end (length (content s)) bound false (over_bound st.max_object_size) (final s))
              l
            ≡ finished (limit_reader r) (take bound (content s)) (over_bound st.max_object_size) l
      cut l lt = ground arith
