-- ===== src/S3/Body/Steps.antt =====
-- s3/objects.go: one read of `bodyReader` beside one of the store's `limitReader`.
use go_storage.Prelude.{
  ℕ, suc, ◌+◌, ◌-◌, ◌<◌, ◌≡◌, refl, sym, ap, ◌∙◌, Bool, true, false, Option, none, some, Bool-cases,
  inl, inr, List, [], ◌∷◌, length, min, leb, arith,
}
use go_storage.Prelude.Int.{pos}
use go_storage.Errors.{GoError, sentinel, eof, same, same_eof, is, is_refl}
use go_storage.Stream.{Reader}
use go_storage.Stream.Sticky.{Follows}
use go_storage.LimitReader.{LimitReader, read_limited, probed, passed, ends_short, short_body}
use go_storage.Store.{over_declared}
use go_storage.S3.Body.{BodyReader, read_at_least_one, body_probe, body_error, body_end, read_body}

short_differs : (n size : ℕ) → same (short_body n size) (sentinel eof) ≡ false
unfolding same
short_differs n size = refl

module _ {S : Type 0} where
  -- A reader without a failure.
  abbrev going : S → ℕ → ℕ → BodyReader S
  going s size n = record { source = s; size = size; n = n; err = none }

  -- The limit reader of the same body; `exact` says that the body ends with io.EOF itself.
  abbrev limiting : Bool → S → ℕ → ℕ → LimitReader S
  limiting exact s size n = record {
    source = s;
    limit = size;
    read = n;
    exact = exact;
    long = over_declared (pos size);
    err = none;
    tripped = false;
  }

  -- One try is enough where a read makes progress.
  pub read_at_least_one_lem :
      (tries : ℕ) (r : Reader S) (s : S)
      → ((r.read s 1).1 ≡ none → 0 < length (r.read s 1).0)
      → ((read_at_least_one (suc tries) r s).0 ≡ (r.read s 1).0)
        × ((read_at_least_one (suc tries) r s).2 ≡ (r.read s 1).2)
        × ((r.read s 1).0 ≡ [] → (read_at_least_one (suc tries) r s).1 ≡ (r.read s 1).1)
  unfolding read_at_least_one
  read_at_least_one_lem tries r s moves =
      (ground (arith, moves), ground (arith, moves), λ q. ground (arith, moves, q))

  module _ (size : ℕ) (final : S → GoError) (Holds : S → Type 0) where
    -- Also behind a failure the body that the reader holds is well.
    abbrev pub WellSized : BodyReader S → Type 0
    WellSized b = (b.size ≡ size) × Holds b.source

    abbrev pub view : BodyReader S → LimitReader S
    view b = limiting (same (final b.source) (sentinel eof)) b.source b.size b.n

    view_eq :
        (b : BodyReader S) (s : S) (n : ℕ)
        → final s ≡ final b.source
        → view (record b { source = s; n = n }) ≡ record (view b) { source = s; read = n }
    view_eq b s n f = rw f refl

    pub probe-Follows :
        (b : BodyReader S) (s : S) (bs : List ℕ) (e e' : Option GoError)
        → WellSized b
        → Holds s
        → b.err ≡ none
        → final s ≡ final b.source
        → (bs ≡ [] → e ≡ e')
        → Follows WellSized view
            (λ b. b.err)
            (λ b. b.n)
            b
            (body_probe (record b { source = s }) bs e)
            (probed (record (view b) { source = s }) bs e')
    unfolding body_probe probed
    probe-Follows b s (x ∷ xs) e e' z h k f g = record {
      good = (z.0, h);
      bytes = refl;
      errs = refl;
      counts = omega arith;
      live = λ q. cc;
      dead = λ x q. q;
    }
    probe-Follows b s [] none e' z h k f g = record {
      good = (z.0, h);
      bytes = refl;
      errs = g refl;
      counts = omega arith;
      live = λ q. view_eq b s b.n f;
      dead = λ x q. cc;
    }
    probe-Follows b s [] (some e) e' z h k f g = elim (Bool-cases (same e (sentinel eof))) [
      | inl last ↦
          rw (last, body_probe)
            (record {
              good = (z.0, h);
              bytes = refl;
              errs = ap some (sym (same_eof e last)) ∙ g refl;
              counts = omega arith;
              live = λ q. view_eq b s b.n f;
              dead = λ x q. cc;
            })
      | inr fails ↦
          rw (fails, body_probe)
            (record {
              good = (z.0, h);
              bytes = refl;
              errs = g refl;
              counts = omega arith;
              live = λ q. cc;
              dead = λ x q. sym (g refl) ∙ q;
            })
    ]

    -- The error of a read below the size is the one that the limit reader makes of it.
    passed_lem :
        (b : BodyReader S) (s : S) (n : ℕ) (bs : List ℕ) (e : GoError)
        → 0 < b.size
        → same e (sentinel eof) ≡ same (final b.source) (sentinel eof)
        → let l = record (view b) { source = s; read = n } in
          ((passed l bs (some e)).0 ≡ bs)
          × ((passed l bs (some e)).1 ≡ some (body_error (record b { source = s; n = n }) e))
          × (same (body_error (record b { source = s; n = n }) e) (sentinel eof) ≡ true
              → (passed l bs (some e)).2 ≡ l)
    unfolding passed ends_short body_error
    passed_lem b s n bs e p f = elim (Bool-cases (same e (sentinel eof))) [
      | inl last ↦ (
        ground (arith, is_of_eof last),
        ground (arith, is_of_eof last),
        λ q. ground (arith, is_of_eof last, short_differs n b.size, last, f, q, p),
      )
      | inr fails ↦ (ground arith, ground arith, λ q. ground arith)
    ]
      where
        is_of_eof : same e (sentinel eof) ≡ true → is e (sentinel eof) ≡ true
        is_of_eof last = rw (same_eof e last) (is_refl (sentinel eof))

    passed-none : (l : LimitReader S) (bs : List ℕ) → passed l bs none ≡ (bs, none, l)
    unfolding passed ends_short
    passed-none l bs = ground arith

    pub end-Follows :
        (b : BodyReader S) (s : S) (bs : List ℕ) (e : Option GoError)
        → WellSized b
        → Holds s
        → b.err ≡ none
        → 0 < b.size
        → final s ≡ final b.source
        → ((x : GoError) → e ≡ some x → x ≡ final b.source)
        → Follows WellSized view
            (λ b. b.err)
            (λ b. b.n)
            b
            (body_end (record b { source = s; n = b.n + length bs }) bs e)
            (passed (record (view b) { source = s; read = b.n + length bs }) bs e)
    unfolding body_end
    end-Follows b s bs none z h k p f g =
        rw (passed-none (record (view b) { source = s; read = b.n + length bs }) bs) (record {
          good = (z.0, h);
          bytes = refl;
          errs = refl;
          counts = refl;
          live = λ q. view_eq b s (b.n + length bs) f;
          dead = λ x q. cc;
        })
    end-Follows b s bs (some e) z h k p f g =
        let (same_bytes, error, stays) =
          passed_lem b s (b.n + length bs) bs e p (ap (λ x. same x (sentinel eof)) (g e refl)) in
        elim (Bool-cases
          (same (body_error (record b { source = s; n = b.n + length bs }) e) (sentinel eof))) [
            | inl last ↦
                rw (last, body_end)
                  (record {
                    good = (z.0, h);
                    bytes = sym same_bytes;
                    errs = sym error;
                    counts = refl;
                    live = λ q. view_eq b s (b.n + length bs) f ∙ sym (stays last);
                    dead = λ x q. cc;
                  })
            | inr fails ↦
                rw (fails, body_end)
                  (record {
                    good = (z.0, h);
                    bytes = sym same_bytes;
                    errs = sym error;
                    counts = refl;
                    live = λ q. cc;
                    dead = λ x q. error ∙ q;
                  })
          ]

  pub body_error_unsized : (b : BodyReader S) (e : GoError) → b.size ≡ 0 → body_error b e ≡ e
  unfolding body_error
  body_error_unsized b e z = ground (arith, z)

  module _ (tries : ℕ) (r : Reader S) (b : BodyReader S) (room : ℕ) (k : b.err ≡ none) where
    pub at_size :
        0 < b.size
        → leb b.size b.n ≡ true
        → let x = read_at_least_one tries r b.source in
          read_body tries r b room ≡ body_probe (record b { source = x.2 }) x.0 x.1
    unfolding read_body
    at_size p full = ground (arith, k, p, full)

    pub below_size :
        0 < b.size
        → leb b.size b.n ≡ false
        → let x = r.read b.source (min room (b.size - b.n)) in
          read_body tries r b room
          ≡ body_end (record b { source = x.2; n = b.n + length x.0 }) x.0 x.1
    unfolding read_body
    below_size p free = ground (arith, k, p, free)

    pub unsized :
        b.size ≡ 0
        → let x = r.read b.source room in
          read_body tries r b room
          ≡ body_end (record b { source = x.2; n = b.n + length x.0 }) x.0 x.1
    unfolding read_body
    unsized z = ground (arith, k, z)

  module _ (r : Reader S) (l : LimitReader S) (room : ℕ) (live : l.tripped ≡ false) where
    pub limited_at :
        leb l.limit l.read ≡ true
        → let x = r.read l.source 1 in
          read_limited r l room ≡ probed (record l { source = x.2 }) x.0 x.1
    unfolding read_limited
    limited_at full = ground (arith, live, full)

    pub limited_below :
        leb l.limit l.read ≡ false
        → let x = r.read l.source (min room (l.limit - l.read)) in
          read_limited r l room
          ≡ passed (record l { source = x.2; read = l.read + length x.0 }) x.0 x.1
    unfolding read_limited
    limited_below free = ground (arith, live, free)
