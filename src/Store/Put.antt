-- ===== src/Store/Put.antt =====
-- Put of a store over a provider that keeps the contract.
use go_storage.Prelude.{
  ℕ, ◌≤◌, ◌<◌, ◌≡◌, ◌≢◌, refl, sym, subst, ◌&&◌, ◌∙◌, Bool, true, false, Option, none, some, List,
  length, arith, Bool-cases, Option-cases, inl, inr,
}
use go_storage.Prelude.Int.{ℤ, pos, ltb_ℤ, pos_part}
use go_storage.Prelude.Text.{Text}
use go_storage.Errors.{GoError, sentinel, eof, not_ready}
use go_storage.Stream.{Reader, IsStream}
use go_storage.LimitReader.{LimitReader, new_limit_reader, limit_reader}
use go_storage.LimitReader.Refinement.{limit_content, limit_final, limit_trips, LimitEnded}
use go_storage.LimitReader.Refinement.Fresh.{
  fresh_holds, fresh-IsStream, AfterFresh, Fits, fits_of_eof, untripped_lem,
}
use go_storage.Storage.{Object, no_object, PutOptions, Context, Client}
use go_storage.Storage.Contract.{PutOutcome, PutContract}
use go_storage.Store.{
  Store, put, send, bounding, sizing, bounded_result, sized_result, both_result, read_failure,
  check_key, invalid_size, declared_too_large, over_bound, over_declared,
}

module _ {S : Type 0} (b : LimitReader S) (obj : Object) where
  -- The store turns no failure of the provider into a success, and no success of the provider into
  -- a failure where no reader has tripped.
  bounded_nil : (err : Option GoError) → (bounded_result b obj err).1 ≡ none → err ≡ none
  unfolding bounded_result
  bounded_nil err e = ground arith

  sized_nil : (err : Option GoError) → (sized_result b obj err).1 ≡ none → err ≡ none
  unfolding sized_result read_failure
  sized_nil err e = ground arith

  bounded_keep : (err : Option GoError) → b.tripped ≡ false → (bounded_result b obj err).1 ≡ err
  unfolding bounded_result
  bounded_keep err t = ground arith

  sized_keep : (err : Option GoError) → b.tripped ≡ false → (sized_result b obj err).1 ≡ err
  unfolding sized_result
  sized_keep err t = ground arith

module _ {S : Type 0} (z : LimitReader (LimitReader S)) (obj : Object) where
  both_nil :
      (err : Option GoError) → (both_result z obj err).1 ≡ none → (sized_result z obj err).1 ≡ none
  unfolding both_result
  both_nil err e = ground (arith)

  both_keep :
      (err : Option GoError)
      → z.source.tripped ≡ false
      → (both_result z obj err).1 ≡ (sized_result z obj err).1
  unfolding both_result
  both_keep err t = ground arith

-- One limit reader between the store and what it hands on: an outcome of the reader is one of the
-- body behind it.
module _ {W S : Type 0} {stored : W → Text → Option (List ℕ)} {key : Text} {opts : PutOptions}
    {w w' : W} (content : S → List ℕ) (final : S → GoError) (s : S) (limit : ℕ) (exact : Bool)
    (long : GoError) (proper : long ≢ sentinel eof) {Holds : S → Type 0} {l : LimitReader S}
    (after : AfterFresh content final s limit exact long Holds l) where
  limited_fits :
      {err : Option GoError}
      → PutOutcome stored key opts
          (limit_content content final (new_limit_reader s limit exact long))
          (limit_final content final (new_limit_reader s limit exact long))
          w
          err
          w'
      → err ≡ none
      → Fits content final s limit exact long
  limited_fits o e = fits_of_eof content final s limit exact long proper (o.ended e)

  limited_outcome :
      (err err' : Option GoError)
      → (err' ≡ none → err ≡ none)
      → (l.tripped ≡ false → err' ≡ err)
      → PutOutcome stored key opts
          (limit_content content final (new_limit_reader s limit exact long))
          (limit_final content final (new_limit_reader s limit exact long))
          w
          err
          w'
      → PutOutcome stored key opts (content s) (final s) w err' w'
  limited_outcome err err' nil keep o = record {
    failed = λ bad. o.failed (λ e. bad (keep (clean e) ∙ e));
    ended = λ e. (limited_fits o (nil e)).ends_eof;
    written = λ e. rw (← (limited_fits o (nil e)).whole) (o.written (nil e));
    sized = λ e p. rw (← (limited_fits o (nil e)).whole) (o.sized (nil e) p);
    others = λ e. o.others (nil e);
  }
    where
      clean : err ≡ none → l.tripped ≡ false
      clean e = untripped_lem content final Holds _ l after (limited_fits o e).untripped

-- A Put through one limit reader.
module _ {W B S : Type 0} {stored : W → Text → Option (List ℕ)} {c : Client W B} {r : Reader S}
    {Holds Ended : S → Type 0} {content : S → List ℕ} {final : S → GoError}
    (keeps : PutContract c stored) (stream : IsStream r Holds Ended content final) (ctx : Context W)
    (key : Text) (opts : PutOptions) (s : S) (w : W) (h : Holds s) (limit : ℕ) (exact : Bool)
    (long : GoError) where
  abbrev out : Object × Option GoError × LimitReader S × W
  out = c.put (LimitReader S) (limit_reader r) ctx key opts (new_limit_reader s limit exact long) w

  after_put : AfterFresh content final s limit exact long Holds out.2
  after_put =
      keeps.reads_only _ _ _ _ _ _ ctx key opts _ w
        (fresh-IsStream content final s limit exact long stream)
        (fresh_holds content final s limit exact long Holds h)

  limited_put :
      PutOutcome stored key opts
        (limit_content content final (new_limit_reader s limit exact long))
        (limit_final content final (new_limit_reader s limit exact long))
        w
        out.1
        out.3
  limited_put =
      keeps.put_outcome _ _ _ _ _ _ ctx key opts _ w
        (fresh-IsStream content final s limit exact long stream)
        (fresh_holds content final s limit exact long Holds h)

-- Through the readers that the two flags ask for, in each of the four ways.
module _ {W B S : Type 0} {stored : W → Text → Option (List ℕ)} {c : Client W B} {r : Reader S}
    {Holds Ended : S → Type 0} {content : S → List ℕ} {final : S → GoError}
    (keeps : PutContract c stored) (stream : IsStream r Holds Ended content final) (ctx : Context W)
    (key : Text) (opts : PutOptions) (bound : ℤ) (s : S) (w : W) (h : Holds s) where
  abbrev SendOutcome : Bool → Bool → Type 0
  SendOutcome b z =
      PutOutcome stored key opts (content s) (final s) w (send c r ctx key opts bound b z s w).1
        (send c r ctx key opts bound b z s w).3
      × (b ≡ true
          → (send c r ctx key opts bound b z s w).1 ≡ none
          → length (content s) ≤ pos_part bound)

  send_plain : SendOutcome false false
  unfolding send
  send_plain = (keeps.put_outcome S r Holds Ended content final ctx key opts s w stream h, λ e. cc)

  send_sized : SendOutcome false true
  unfolding send
  send_sized = (
    limited_outcome content final s (pos_part opts.size) true (over_declared opts.size) (λ e. cc)
        (after_put keeps stream ctx key opts s w h (pos_part opts.size) true
          (over_declared opts.size))
        _ _ (sized_nil o.2 o.0 o.1) (sized_keep o.2 o.0 o.1)
        (limited_put keeps stream ctx key opts s w h (pos_part opts.size) true
          (over_declared opts.size)),
    λ e. cc,
  )
    where
      o : Object × Option GoError × LimitReader S × W
      o = c.put (LimitReader S) (limit_reader r) ctx key opts (sizing opts.size s) w

  -- A provider's outcome on the bounded reader is one on the body, of a size within the bound.
  bounded_outcome :
      {l : LimitReader S} {w' : W} (err err' : Option GoError)
      → AfterFresh content final s (pos_part bound) false (over_bound bound) Holds l
      → (err' ≡ none → err ≡ none)
      → (l.tripped ≡ false → err' ≡ err)
      → PutOutcome stored key opts
          (limit_content content final (bounding bound s))
          (limit_final content final (bounding bound s))
          w
          err
          w'
      → PutOutcome stored key opts (content s) (final s) w err' w'
        × (err' ≡ none → length (content s) ≤ pos_part bound)
  bounded_outcome err err' after nil keep o = (
    limited_outcome content final s (pos_part bound) false (over_bound bound) (λ e. cc) after err
        err' nil keep o,
    λ e.
        (limited_fits content final s (pos_part bound) false (over_bound bound) (λ e. cc) after o
          (nil e)).short_enough,
  )

  send_bounded : SendOutcome true false
  unfolding send
  send_bounded =
      let (a, b) =
        bounded_outcome _ _
          (after_put keeps stream ctx key opts s w h (pos_part bound) false (over_bound bound))
          (bounded_nil o.2 o.0 o.1) (bounded_keep o.2 o.0 o.1)
          (limited_put keeps stream ctx key opts s w h (pos_part bound) false (over_bound bound)) in
      (a, λ _. b)
    where
      o : Object × Option GoError × LimitReader S × W
      o = c.put (LimitReader S) (limit_reader r) ctx key opts (bounding bound s) w

  send_both : SendOutcome true true
  unfolding send
  send_both =
      let (a, b) =
        bounded_outcome _ _ after.source_holds (both_nil o.2 o.0 o.1) (both_keep o.2 o.0 o.1) (
          limited_outcome (limit_content content final) (limit_final content final)
            (bounding bound s) (pos_part opts.size) true (over_declared opts.size) (λ e. cc) after _
            _ (sized_nil o.2 o.0 o.1) (sized_keep o.2 o.0 o.1)
            (limited_put keeps inner ctx key opts (bounding bound s) w ready (pos_part opts.size)
              true (over_declared opts.size))) in
      (a, λ _. b)
    where
      o : Object × Option GoError × LimitReader (LimitReader S) × W
      o =
          c.put (LimitReader (LimitReader S)) (limit_reader (limit_reader r)) ctx key opts
            (sizing opts.size (bounding bound s)) w

      ready :
          AfterFresh content final s
            (pos_part bound)
            false
            (over_bound bound)
            Holds
            (bounding bound s)
      ready = fresh_holds content final s (pos_part bound) false (over_bound bound) Holds h

      inner :
          IsStream
            (limit_reader r)
            (AfterFresh content final s (pos_part bound) false (over_bound bound) Holds)
            (LimitEnded content final Ended (limit_trips content final (bounding bound s)))
            (limit_content content final)
            (limit_final content final)
      inner = fresh-IsStream content final s (pos_part bound) false (over_bound bound) stream

      after :
          AfterFresh
            (limit_content content final)
            (limit_final content final)
            (bounding bound s)
            (pos_part opts.size)
            true
            (over_declared opts.size)
            (AfterFresh content final s (pos_part bound) false (over_bound bound) Holds)
            o.2
      after =
          after_put keeps inner ctx key opts (bounding bound s) w ready (pos_part opts.size) true
            (over_declared opts.size)

  send_outcome : (b z : Bool) → SendOutcome b z
  send_outcome false false = send_plain
  send_outcome false true = send_sized
  send_outcome true false = send_bounded
  send_outcome true true = send_both

-- What a Put of a store does to the world, with what its success says.
pub record StorePut {W B : Type 0} (c : Client W B) (stored : W → Text → Option (List ℕ))
    (st : Store) (key : Text) (opts : PutOptions) (bytes : List ℕ) (last : GoError) (w : W)
    (err : Option GoError) (w' : W) : Type 0 where
  pub outcome : PutOutcome stored key opts bytes last w err w'
  pub ready : err ≡ none → st.started ≡ true
  pub key_accepted : err ≡ none → check_key c.capabilities key ≡ none
  pub size_not_negative : err ≡ none → ltb_ℤ opts.size (pos 0) ≡ false
  pub within_bound :
      err ≡ none → 0 < pos_part st.max_object_size → length bytes ≤ pos_part st.max_object_size

module _ {W B S : Type 0} {stored : W → Text → Option (List ℕ)} {c : Client W B} {r : Reader S}
    {Holds Ended : S → Type 0} {content : S → List ℕ} {final : S → GoError}
    (keeps : PutContract c stored) (stream : IsStream r Holds Ended content final) (st : Store)
    (ctx : Context W) (key : Text) (opts : PutOptions) (s : S) (w : W) (h : Holds s) where
  refused : (e : GoError) → StorePut c stored st key opts (content s) (final s) w (some e) w
  refused e = record {
    outcome = record {
      failed = λ _ k. refl;
      ended = λ q. cc;
      written = λ q. cc;
      sized = λ q. cc;
      others = λ q. cc;
    };
    ready = λ q. cc;
    key_accepted = λ q. cc;
    size_not_negative = λ q. cc;
    within_bound = λ q. cc;
  }

  abbrev attempt : Object × Option GoError × S × W
  attempt = put c r ctx key opts st s w

  abbrev Keeps : Object × Option GoError × S × W → Type 0
  Keeps out = StorePut c stored st key opts (content s) (final s) w out.1 out.3

  refused_at : (e : GoError) → attempt ≡ (no_object, some e, s, w) → Keeps attempt
  refused_at e q = subst Keeps (sym q) (refused e)

  -- Behind the guards Put is what the readers and the provider make of it.
  sent :
      (b z : Bool)
      → ltb_ℤ (pos 0) st.max_object_size ≡ b
      → st.started ≡ true
      → check_key c.capabilities key ≡ none
      → ltb_ℤ opts.size (pos 0) ≡ false
      → Keeps (send c r ctx key opts st.max_object_size b z s w)
  sent b z eb up ok neg =
      let (o, within) = send_outcome keeps stream ctx key opts st.max_object_size s w h b z in
      record {
        outcome = o;
        ready = λ _. up;
        key_accepted = λ _. ok;
        size_not_negative = λ _. neg;
        within_bound = λ e p. within (ground arith) e;
      }

  guarded : st.started ≡ true → check_key c.capabilities key ≡ none → Keeps attempt
  unfolding put
  guarded up ok = elim (Bool-cases (ltb_ℤ opts.size (pos 0))) [
    | inl neg ↦ refused_at (invalid_size opts.size) (ground arith)
    | inr neg ↦
        elim (Bool-cases (ltb_ℤ (pos 0) st.max_object_size && ltb_ℤ st.max_object_size opts.size)) [
          | inl over ↦ refused_at (declared_too_large opts.size st.max_object_size) (ground arith)
          | inr fine ↦ subst Keeps (sym (through neg fine)) (sent _ _ refl up ok neg)
        ]
  ]
    where
      through :
          ltb_ℤ opts.size (pos 0) ≡ false
          → (ltb_ℤ (pos 0) st.max_object_size && ltb_ℤ st.max_object_size opts.size) ≡ false
          → attempt
            ≡ send c r ctx key opts st.max_object_size
                (ltb_ℤ (pos 0) st.max_object_size)
                (ltb_ℤ (pos 0) opts.size)
                s
                w
      through neg fine = ground arith

  -- Over a provider that keeps the contract, a store's Put is all or nothing. On an error, the
  -- store's own refusals included, nothing is written. On success the store is started, the
  -- provider's ValidateKey accepts the key, the declared size is not negative, and equals the
  -- body's length if it is positive, the body ended with io.EOF, is within a positive bound and
  -- stands whole at the key, and the other keys are as they were.
  pub put_all_or_nothing :
      StorePut c stored st key opts
        (content s)
        (final s)
        w
        (put c r ctx key opts st s w).1
        (put c r ctx key opts st s w).3
  unfolding put
  put_all_or_nothing = elim (Bool-cases st.started) [
    | inr down ↦ refused_at (sentinel not_ready) (ground arith)
    | inl up ↦ elim (Option-cases (check_key c.capabilities key)) [
      | inl ok ↦ guarded up ok
      | inr (e, bad) ↦ refused_at e (ground arith)
    ]
  ]
