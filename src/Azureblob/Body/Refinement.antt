-- ===== src/Azureblob/Body/Refinement.antt =====
-- `trackedReader` over a stream is a stream: of a declared size as the store's `limitReader`,
-- otherwise as its body.
use go_storage.Prelude.{
  ℕ, ◌+◌, ◌-◌, ◌<◌, ◌≡◌, refl, Bool, true, false, Option, none, some, Bool-cases, inl, inr, List,
  [], ◌∷◌, length, min, ltb, leb, arith,
}
use go_storage.Errors.{GoError, sentinel, eof, is}
use go_storage.Stream.{Reader, IsStream}
use go_storage.Stream.Sticky.{
  Follows, StickyHolds, StickyEnded, sticky_content, sticky_final, sticky-IsStream,
}
use go_storage.LimitReader.{LimitReader, read_limited, probed, passed, ends_short}
use go_storage.LimitReader.Refinement.{
  LimitHolds, LimitEnded, limit_content, limit_final, limit_reader-IsStream,
}
use go_storage.Azureblob.Body.{
  TrackedReader, tracked_probe, tracked_end, read_tracked, tracked_reader, limiting,
}

module _ {S : Type 0} (size : ℕ) (Holds : S → Type 0) where
  -- Also behind a failure the body that the reader holds is well.
  abbrev pub WellSized : TrackedReader S → Type 0
  WellSized t = (t.size ≡ size) × Holds t.source

  -- One read beside one of the limit reader, or of the body.
  abbrev TrackedFollows :
      {B : Type 0}
      → (TrackedReader S → B)
      → TrackedReader S
      → List ℕ × Option GoError × TrackedReader S
      → List ℕ × Option GoError × B
      → Type 0
  TrackedFollows view = Follows WellSized view (λ t. t.err) (λ t. t.n)

abbrev pub limit_view : {S : Type 0} → TrackedReader S → LimitReader S
limit_view t = limiting t.source t.size t.n

module _ {S : Type 0} (size : ℕ) (Holds : S → Type 0) where
  probe-Follows :
      (t : TrackedReader S) (s : S) (bs : List ℕ) (e : Option GoError)
      → WellSized size Holds t
      → Holds s
      → t.err ≡ none
      → TrackedFollows size Holds limit_view t
          (tracked_probe (record t { source = s }) bs e)
          (probed (record (limit_view t) { source = s }) bs e)
  unfolding tracked_probe probed
  probe-Follows t s (x ∷ xs) e z h k = record {
    good = (z.0, h);
    bytes = refl;
    errs = refl;
    counts = omega arith;
    live = λ q. cc;
    dead = λ x q. q;
  }
  probe-Follows t s [] none z h k = record {
    good = (z.0, h);
    bytes = refl;
    errs = refl;
    counts = omega arith;
    live = λ q. refl;
    dead = λ x q. cc;
  }
  probe-Follows t s [] (some e) z h k = elim (Bool-cases (is e (sentinel eof))) [
    | inl last ↦
        rw (last, tracked_probe)
          (record {
            good = (z.0, h);
            bytes = refl;
            errs = refl;
            counts = omega arith;
            live = λ q. refl;
            dead = λ x q. cc;
          })
    | inr fails ↦
        rw (fails, tracked_probe)
          (record {
            good = (z.0, h);
            bytes = refl;
            errs = refl;
            counts = omega arith;
            live = λ q. cc;
            dead = λ x q. q;
          })
  ]

  end-Follows :
      (t : TrackedReader S) (s : S) (bs : List ℕ) (e : Option GoError)
      → WellSized size Holds t
      → Holds s
      → t.err ≡ none
      → 0 < t.size
      → TrackedFollows size Holds limit_view t
          (tracked_end (record t { source = s; n = t.n + length bs }) bs e)
          (passed (record (limit_view t) { source = s; read = t.n + length bs }) bs e)
  unfolding tracked_end passed ends_short
  end-Follows t s bs none z h k p = record {
    good = (z.0, h);
    bytes = refl;
    errs = refl;
    counts = refl;
    live = λ q. refl;
    dead = λ x q. cc;
  }
  end-Follows t s bs (some e) z h k p = elim (Bool-cases (is e (sentinel eof))) [
    | inr fails ↦
        rw (fails, tracked_end, passed)
          (record {
            good = (z.0, h);
            bytes = refl;
            errs = refl;
            counts = refl;
            live = λ q. cc;
            dead = λ x q. q;
          })
    | inl last ↦ elim (Bool-cases (ltb (t.n + length bs) t.size)) [
      | inl short ↦
          rw (last, short, positive, tracked_end, passed)
            (record {
              good = (z.0, h);
              bytes = refl;
              errs = refl;
              counts = refl;
              live = λ q. cc;
              dead = λ x q. q;
            })
      | inr reached ↦
          rw (last, reached, positive, tracked_end, passed)
            (record {
              good = (z.0, h);
              bytes = refl;
              errs = refl;
              counts = refl;
              live = λ q. refl;
              dead = λ x q. cc;
            })
    ]
  ]
    where
      positive : ltb 0 t.size ≡ true
      positive = ground (arith, p)

  plain-Follows :
      (t : TrackedReader S) (s : S) (bs : List ℕ) (e : Option GoError)
      → WellSized size Holds t
      → Holds s
      → t.err ≡ none
      → t.size ≡ 0
      → TrackedFollows size Holds
          (λ t. t.source)
          t
          (tracked_end (record t { source = s; n = t.n + length bs }) bs e)
          (bs, e, s)
  unfolding tracked_end
  plain-Follows t s bs none z h k p = record {
    good = (z.0, h);
    bytes = refl;
    errs = refl;
    counts = refl;
    live = λ q. refl;
    dead = λ x q. cc;
  }
  plain-Follows t s bs (some e) z h k p = elim (Bool-cases (is e (sentinel eof))) [
    | inr fails ↦
        rw (fails, tracked_end)
          (record {
            good = (z.0, h);
            bytes = refl;
            errs = refl;
            counts = refl;
            live = λ q. cc;
            dead = λ x q. q;
          })
    | inl last ↦
        rw (last, unknown, tracked_end)
          (record {
            good = (z.0, h);
            bytes = refl;
            errs = refl;
            counts = refl;
            live = λ q. refl;
            dead = λ x q. cc;
          })
  ]
    where
      unknown : ltb 0 t.size ≡ false
      unknown = ground (arith, p)

module _ {S : Type 0} (r : Reader S) (t : TrackedReader S) (room : ℕ) where
  read_failed : (e : GoError) → t.err ≡ some e → read_tracked r t room ≡ ([], some e, t)
  unfolding read_tracked
  read_failed e k = ground (arith, k)

  at_size :
      t.err ≡ none
      → 0 < t.size
      → leb t.size t.n ≡ true
      → let x = r.read t.source 1 in
        read_tracked r t room ≡ tracked_probe (record t { source = x.2 }) x.0 x.1
  unfolding read_tracked
  at_size k p full = ground (arith, k, p, full)

  below_size :
      t.err ≡ none
      → 0 < t.size
      → leb t.size t.n ≡ false
      → let x = r.read t.source (min room (t.size - t.n)) in
        read_tracked r t room
        ≡ tracked_end (record t { source = x.2; n = t.n + length x.0 }) x.0 x.1
  unfolding read_tracked
  below_size k p free = ground (arith, k, p, free)

  unsized :
      t.err ≡ none
      → t.size ≡ 0
      → let x = r.read t.source room in
        read_tracked r t room
        ≡ tracked_end (record t { source = x.2; n = t.n + length x.0 }) x.0 x.1
  unfolding read_tracked
  unsized k z = ground (arith, k, z)

  limited_at :
      leb t.size t.n ≡ true
      → let x = r.read t.source 1 in
        read_limited r (limit_view t) room ≡ probed (record (limit_view t) { source = x.2 }) x.0 x.1
  unfolding read_limited
  limited_at full = ground (arith, full)

  limited_below :
      leb t.size t.n ≡ false
      → let x = r.read t.source (min room (t.size - t.n)) in
        read_limited r (limit_view t) room
        ≡ passed (record (limit_view t) { source = x.2; read = t.n + length x.0 }) x.0 x.1
  unfolding read_limited
  limited_below free = ground (arith, free)

module _ {S : Type 0} {r : Reader S} {Holds Ended : S → Type 0} {content : S → List ℕ}
    {final : S → GoError} (stream : IsStream r Holds Ended content final) (size : ℕ) where
  read-Follows :
      0 < size
      → (t : TrackedReader S) (room : ℕ) → WellSized size Holds t
      → t.err ≡ none
      → TrackedFollows size Holds limit_view t
          (read_tracked r t room)
          (read_limited r (limit_view t) room)
  read-Follows p t room z k = elim (Bool-cases (leb t.size t.n)) [
    | inl full ↦
        rw (at_size r t room k (rw z.0 p) full, limited_at r t room full)
          (probe-Follows size Holds t _ _ _ z ((stream.reads t.source 1 z.1).holds) k)
    | inr free ↦
        rw (below_size r t room k (rw z.0 p) free, limited_below r t room free)
          (end-Follows size Holds t _ _ _ z
            ((stream.reads t.source (min room (t.size - t.n)) z.1).holds) k (rw z.0 p))
  ]

  -- Of a declared size it is a stream: as the store's limit reader, with its bytes counted.
  pub sized-IsStream :
      0 < size
      → (trips : Bool) (total : ℕ)
      → IsStream
          (tracked_reader r)
          (StickyHolds limit_view
            (λ t. t.err)
            (WellSized size Holds)
            (LimitHolds content final Holds trips)
            (limit_content content final)
            (λ t. t.n)
            total)
          (StickyEnded limit_view (λ t. t.err) (LimitEnded content final Ended trips))
          (sticky_content limit_view (λ t. t.err) (limit_content content final))
          (sticky_final limit_view (λ t. t.err) (limit_final content final))
  sized-IsStream p trips total =
      sticky-IsStream (limit_reader-IsStream content final trips stream) (WellSized size Holds)
        limit_view (λ t. t.err) (λ t. t.n) total (λ t room z k h. read-Follows p t room z k)
        (read_failed r)

  -- Of no declared size it is a stream as its body is.
  pub unsized-IsStream :
      (total : ℕ)
      → IsStream
          (tracked_reader r)
          (StickyHolds
            (λ t. t.source)
            (λ t. t.err)
            (WellSized 0 Holds)
            Holds
            content
            (λ t. t.n)
            total)
          (StickyEnded (λ t. t.source) (λ t. t.err) Ended)
          (sticky_content (λ t. t.source) (λ t. t.err) content)
          (sticky_final (λ t. t.source) (λ t. t.err) final)
  unsized-IsStream total =
      sticky-IsStream stream (WellSized 0 Holds) (λ t. t.source) (λ t. t.err) (λ t. t.n) total
        (λ t room z k h.
          rw (unsized r t room k z.0)
            (plain-Follows 0 Holds t _ _ _ z ((stream.reads t.source room h).holds) k z.0))
        (read_failed r)
