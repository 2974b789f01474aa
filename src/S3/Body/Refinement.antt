-- ===== src/S3/Body/Refinement.antt =====
-- `bodyReader` over a stream is a stream: of a declared size as the store's `limitReader`,
-- otherwise as its body.
use go_storage.Prelude.{
  ℕ, suc, ◌+◌, ◌-◌, ◌<◌, ◌≡◌, refl, Bool, Option, none, some, Bool-cases, inl, inr, List, [],
  length, min, leb, if◌then◌else◌, arith,
}
use go_storage.Errors.{GoError, sentinel, eof, same}
use go_storage.Stream.{Reader, IsStream}
use go_storage.Stream.Sticky.{
  Follows, StickyHolds, StickyEnded, sticky_content, sticky_final, sticky-IsStream,
}
use go_storage.LimitReader.{read_limited}
use go_storage.LimitReader.Refinement.{
  LimitHolds, LimitEnded, limit_content, limit_final, limit_reader-IsStream,
}
use go_storage.S3.Body.{BodyReader, body_end, read_body, body_reader}
use go_storage.S3.Body.Steps.{
  read_at_least_one_lem, WellSized, view, probe-Follows, end-Follows, body_error_unsized, at_size,
  below_size, unsized, limited_at, limited_below,
}

module _ {S : Type 0} {r : Reader S} {Holds Ended : S → Type 0} {content : S → List ℕ}
    {final : S → GoError} (stream : IsStream r Holds Ended content final) (tries size : ℕ) where
  read-Follows :
      0 < size
      → (b : BodyReader S) (room : ℕ) → WellSized size final Holds b
      → b.err ≡ none
      → Holds b.source
      → Follows
          (WellSized size final Holds)
          (view size final Holds)
          (λ b. b.err)
          (λ b. b.n)
          b
          (read_body (suc tries) r b room)
          (read_limited r (view size final Holds b) room)
  read-Follows p b room z k h = elim (Bool-cases (leb b.size b.n)) [
    | inl full ↦
        let w = stream.reads b.source 1 h in
        let (bs, s, e) = read_at_least_one_lem tries r b.source (w.moves (omega arith)) in
        rw
          (
            at_size (suc tries) r b room k (rw z.0 p) full,
            limited_at r (view size final Holds b) room refl full,
            s,
            bs,
          )
          (probe-Follows size final Holds b (r.read b.source 1).2 (r.read b.source 1).0 _ _ z
            w.holds k w.keeps e)
    | inr free ↦
        let w = stream.reads b.source (min room (b.size - b.n)) h in
        rw
          (
            below_size (suc tries) r b room k (rw z.0 p) free,
            limited_below r (view size final Holds b) room refl free,
          )
          (end-Follows size final Holds b (r.read b.source (min room (b.size - b.n))).2
            (r.read b.source (min room (b.size - b.n))).0 _ z w.holds k (rw z.0 p) w.keeps
            (λ x q. (w.ends x q).0))
  ]

  -- A body reader repeats a failure.
  read_failed :
      (b : BodyReader S) (room : ℕ) (e : GoError)
      → b.err ≡ some e
      → read_body (suc tries) r b room ≡ ([], some e, b)
  unfolding read_body
  read_failed b room e k = ground (arith, k)

  -- Of a declared size it is a stream: as the store's limit reader, with its bytes counted.
  pub sized-IsStream :
      0 < size
      → (t : Bool) (total : ℕ)
      → IsStream
          (body_reader (suc tries) r)
          (StickyHolds
            (view size final Holds)
            (λ b. b.err)
            (WellSized size final Holds)
            (LimitHolds content final Holds t)
            (limit_content content final)
            (λ b. b.n)
            total)
          (StickyEnded (view size final Holds) (λ b. b.err) (LimitEnded content final Ended t))
          (sticky_content (view size final Holds) (λ b. b.err) (limit_content content final))
          (sticky_final (view size final Holds) (λ b. b.err) (limit_final content final))
  sized-IsStream p t total =
      sticky-IsStream (limit_reader-IsStream content final t stream) (WellSized size final Holds)
        (view size final Holds) (λ b. b.err) (λ b. b.n) total
        (λ b room z k h. read-Follows p b room z k h.source_holds) read_failed

  plain-Follows :
      (b : BodyReader S) (room : ℕ)
      → WellSized 0 final Holds b
      → b.err ≡ none
      → Holds b.source
      → Follows
          (WellSized 0 final Holds)
          (λ b. b.source)
          (λ b. b.err)
          (λ b. b.n)
          b
          (read_body (suc tries) r b room)
          (r.read b.source room)
  unfolding body_end
  plain-Follows b room z k h =
      rw (unsized (suc tries) r b room k z.0) (plain (r.read b.source room).1)
    where
      ends :
          (e : GoError)
          → Follows
              (WellSized 0 final Holds)
              (λ b. b.source)
              (λ b. b.err)
              (λ b. b.n)
              b
              (if same e (sentinel eof)
                then (
                  (r.read b.source room).0,
                  some e,
                  record b {
                    source = (r.read b.source room).2;
                    n = b.n + length (r.read b.source room).0;
                  },
                )
                else (
                  (r.read b.source room).0,
                  some e,
                  record b {
                    source = (r.read b.source room).2;
                    n = b.n + length (r.read b.source room).0;
                    err = some e;
                  },
                ))
              ((r.read b.source room).0, some e, (r.read b.source room).2)
      ends e = elim (Bool-cases (same e (sentinel eof))) [
        | inl last ↦ rw last (record {
          good = (z.0, (stream.reads b.source room h).holds);
          bytes = refl;
          errs = refl;
          counts = refl;
          live = λ q. refl;
          dead = λ x q. cc;
        })
        | inr fails ↦ rw fails (record {
          good = (z.0, (stream.reads b.source room h).holds);
          bytes = refl;
          errs = refl;
          counts = refl;
          live = λ q. cc;
          dead = λ x q. q;
        })
      ]

      plain :
          (e : Option GoError)
          → Follows
              (WellSized 0 final Holds)
              (λ b. b.source)
              (λ b. b.err)
              (λ b. b.n)
              b
              (body_end
                (record b {
                  source = (r.read b.source room).2;
                  n = b.n + length (r.read b.source room).0;
                })
                (r.read b.source room).0
                e)
              ((r.read b.source room).0, e, (r.read b.source room).2)
      plain none = record {
        good = (z.0, (stream.reads b.source room h).holds);
        bytes = refl;
        errs = refl;
        counts = refl;
        live = λ q. refl;
        dead = λ x q. cc;
      }
      plain (some e) =
          rw
            (body_error_unsized
              (record b {
                source = (r.read b.source room).2;
                n = b.n + length (r.read b.source room).0;
              })
              e z.0)
            (ends e)

  -- Of no declared size it is a stream as its body is.
  pub unsized-IsStream :
      (total : ℕ)
      → IsStream
          (body_reader (suc tries) r)
          (StickyHolds
            (λ b. b.source)
            (λ b. b.err)
            (WellSized 0 final Holds)
            Holds
            content
            (λ b. b.n)
            total)
          (StickyEnded (λ b. b.source) (λ b. b.err) Ended)
          (sticky_content (λ b. b.source) (λ b. b.err) content)
          (sticky_final (λ b. b.source) (λ b. b.err) final)
  unsized-IsStream total =
      sticky-IsStream stream (WellSized 0 final Holds) (λ b. b.source) (λ b. b.err) (λ b. b.n) total
        (λ b room z k h. plain-Follows b room z k h) read_failed
