-- ===== src/LimitReader/Refinement.antt =====
-- `limitReader` over a stream is a stream: the content cut at the limit, and an error that tells a
-- body that is too long, or too short where the limit is exact, from one that fits.
pub mod Fresh
use go_storage.Prelude.{
  Bool-cases, inl, inr, sym, ℕ, ◌+◌, ◌-◌, ◌≤◌, ◌<◌, ◌≡◌, ◌≢◌, refl, ap, ◌∙◌, Bool, true, false,
  ◌&&◌, ◌||◌, Option, none, some, List, [], ◌∷◌, ◌++◌, length, take, min, leb, ltb, if◌then◌else◌,
  arith, length-append, length-take, take-append, take-nil,
}
use go_storage.Errors.{GoError, sentinel, eof, is}
use go_storage.Stream.{Reader, ReadsWell, IsStream}
use go_storage.LimitReader.{
  LimitReader, read_limited, limit_reader, probed, passed, ends_short, trip, short_body,
}

-- The state behind a read of `bs` that left the source at `s`.
abbrev advance : {S : Type 0} → LimitReader S → List ℕ → S → LimitReader S
advance l bs s = record l { source = s; read = l.read + length bs }

-- The end of a body of `size` bytes under a limit.
unfoldable pub limit_end : ℕ → ℕ → Bool → GoError → GoError → GoError
limit_end size limit exact long last =
    if ltb limit size
    then long
    else if exact && is last (sentinel eof) && ltb size limit
    then short_body size limit
    else last

-- Whether a body of `size` bytes trips the reader before its end.
unfoldable pub trips : ℕ → ℕ → Bool → GoError → Bool
trips size limit exact last = ltb limit size || exact && is last (sentinel eof) && ltb size limit

module _ {S : Type 0} (content : S → List ℕ) (final : S → GoError) where
  -- What a limit reader has still to give, and how it ends.
  pub limit_content : LimitReader S → List ℕ
  limit_content l = if l.tripped then [] else take (l.limit - l.read) (content l.source)

  pub limit_final : LimitReader S → GoError
  unfolding limit_end
  limit_final l =
      if l.tripped
      then (elim l.err [ none ↦ l.long | some e ↦ e ])
      else limit_end (l.read + length (content l.source)) l.limit l.exact l.long (final l.source)

  pub limit_trips : LimitReader S → Bool
  unfolding trips
  limit_trips l =
      if l.tripped
      then true
      else trips (l.read + length (content l.source)) l.limit l.exact (final l.source)

  -- The invariant of a reader that will trip (`t`) or not.
  pub record LimitHolds (Holds : S → Type 0) (t : Bool) (l : LimitReader S) : Type 0 where
    pub source_holds : Holds l.source
    pub within : l.read ≤ l.limit
    pub recorded : l.tripped ≡ true → l.err ≢ none
    pub trips_eq : limit_trips l ≡ t

  -- What holds once the reader has reported an error.
  pub record LimitEnded (Ended : S → Type 0) (t : Bool) (l : LimitReader S) : Type 0 where
    pub tripped_eq : l.tripped ≡ t
    pub source_ended : t ≡ false → Ended l.source

  module _ (l : LimitReader S) (n : ℕ) (bs : List ℕ) (live : l.tripped ≡ false)
      (room : l.read < l.limit) where
    cut_lem :
        (cs : List ℕ)
        → length bs ≤ min n (l.limit - l.read)
        → content l.source ≡ bs ++ cs
        → limit_content l ≡ bs ++ take (l.limit - (l.read + length bs)) cs
    unfolding limit_content
    cut_lem cs fits e =
        rw (live, e)
          (take-append (l.limit - l.read) bs cs (omega arith)
            ∙ ap (λ k. bs ++ take k cs) (omega arith))

    size_lem :
        (cs : List ℕ)
        → content l.source ≡ bs ++ cs
        → length (content l.source) ≡ length bs + length cs
    size_lem cs e = rw e (length-append bs cs)

  module _ {Holds Ended : S → Type 0} (t : Bool) (l : LimitReader S) (h : LimitHolds Holds t l)
      (n : ℕ) where
    -- The read at the limit, of one byte more.
    probed-ReadsWell :
        (bs : List ℕ) (e : Option GoError) (s : S)
        → l.tripped ≡ false
        → l.limit ≤ l.read
        → ReadsWell Holds Ended content final l.source 1 (bs, e, s)
        → ReadsWell
            (LimitHolds Holds t)
            (LimitEnded Ended t)
            limit_content
            limit_final
            l
            n
            (probed (record l { source = s }) bs e)
    unfolding probed trip limit_content limit_final limit_trips
    probed-ReadsWell [] e s live full w = record {
      holds = record {
        source_holds = w.holds;
        within = h.within;
        recorded = h.recorded;
        trips_eq = ground (arith, h.trips_eq, w.splits, w.keeps);
      };
      fits = omega arith;
      splits = ground arith;
      keeps = ground (arith, w.keeps, w.splits);
      ends = λ x p. (
        ground (arith, w.ends x, w.splits),
        ground (arith, w.ends x, w.splits),
        record {
          tripped_eq = ground (arith, h.trips_eq, w.ends x, w.splits);
          source_ended = λ _. (w.ends x p).2;
        },
      );
      moves = λ p q. absurd (omega (arith, w.moves (omega arith) q));
    }
    probed-ReadsWell (b ∷ bs) e s live full w = record {
      holds = record {
        source_holds = w.holds;
        within = h.within;
        recorded = λ _. cc;
        trips_eq = ground (arith, h.trips_eq, w.splits);
      };
      fits = omega arith;
      splits = ground arith;
      keeps = ground (arith, w.splits);
      ends = λ x p. (
        ground (arith, w.splits),
        refl,
        record {
          tripped_eq = ground (arith, h.trips_eq, w.splits);
          source_ended = ground (arith, h.trips_eq, w.splits);
        },
      );
      moves = λ p q. cc;
    }

    module _ (bs : List ℕ) (s : S) (live : l.tripped ≡ false) (room : l.read < l.limit) where
      short-ReadsWell :
          (x : GoError)
          → ends_short (advance l bs s) (some x) ≡ true
          → ReadsWell Holds Ended content final l.source (min n (l.limit - l.read)) (bs, some x, s)
          → ReadsWell (LimitHolds Holds t) (LimitEnded Ended t) limit_content limit_final l n (
            bs,
            some (short_body (l.read + length bs) l.limit),
            trip (advance l bs s) (short_body (l.read + length bs) l.limit),
          )
      unfolding limit_content limit_final limit_trips trip ends_short
      short-ReadsWell x u w = record {
        holds = record {
          source_holds = w.holds;
          within = ground (arith, w.fits);
          recorded = λ _. cc;
          trips_eq =
              ground
                (arith, h.trips_eq, w.ends x refl, size_lem l n bs live room (content s) w.splits);
        };
        fits = ground (arith, w.fits);
        splits = ground (
          arith,
          w.ends x refl,
          cut_lem l n bs live room (content s) w.fits w.splits,
          take-nil {A = ℕ} (l.limit - (l.read + length bs)),
          w.ends x refl,
        );
        keeps = sym ending;
        ends = λ y p. (
          ground (arith, ending),
          refl,
          record {
            tripped_eq =
                ground (
                  arith,
                  h.trips_eq,
                  w.ends x refl,
                  size_lem l n bs live room (content s) w.splits,
                );
            source_ended = λ _. (w.ends x refl).2;
          },
        );
        moves = λ p q. cc;
      }
        where
          ending : limit_final l ≡ short_body (l.read + length bs) l.limit
          ending = ground (arith, w.ends x refl, size_lem l n bs live room (content s) w.splits)

      through-ReadsWell :
          (e : Option GoError)
          → ends_short (advance l bs s) e ≡ false
          → ReadsWell Holds Ended content final l.source (min n (l.limit - l.read)) (bs, e, s)
          → ReadsWell
              (LimitHolds Holds t)
              (LimitEnded Ended t)
              limit_content
              limit_final
              l
              n
              (bs, e, advance l bs s)
      unfolding limit_content limit_final limit_trips ends_short
      through-ReadsWell e u w = record {
        holds = record {
          source_holds = w.holds;
          within = ground (arith, w.fits);
          recorded = ground (arith, live);
          trips_eq =
              ground (arith, h.trips_eq, size_lem l n bs live room (content s) w.splits, w.keeps);
        };
        fits = ground (arith, w.fits);
        splits = rw (cut_lem l n bs live room (content s) w.fits w.splits) (ground (arith, live));
        keeps = ground (arith, size_lem l n bs live room (content s) w.splits, w.keeps);
        ends = λ y p. (
          ground (arith, w.ends y p, size_lem l n bs live room (content s) w.splits),
          ground (
            arith,
            w.ends y p,
            size_lem l n bs live room (content s) w.splits,
            take-nil {A = ℕ} (l.limit - (l.read + length bs)),
          ),
          record {
            tripped_eq =
                ground
                  (arith, h.trips_eq, w.ends y p, size_lem l n bs live room (content s) w.splits);
            source_ended = λ _. (w.ends y p).2;
          },
        );
        moves = λ p q. w.moves (omega arith) q;
      }

      passed-ReadsWell :
          (e : Option GoError)
          → ReadsWell Holds Ended content final l.source (min n (l.limit - l.read)) (bs, e, s)
          → ReadsWell
              (LimitHolds Holds t)
              (LimitEnded Ended t)
              limit_content
              limit_final
              l
              n
              (passed (advance l bs s) bs e)
      unfolding passed
      passed-ReadsWell none w = rw passed_none (through-ReadsWell none not_short w)
        where
          not_short : ends_short (advance l bs s) none ≡ false
          not_short = ground arith

          passed_none : passed (advance l bs s) bs none ≡ (bs, none, advance l bs s)
          passed_none = ground arith
      passed-ReadsWell (some x) w = elim (Bool-cases (ends_short (advance l bs s) (some x))) [
        | inl short ↦ rw (passed_short short) (short-ReadsWell x short w)
        | inr on ↦ rw (passed_on on) (through-ReadsWell (some x) on w)
      ]
        where
          passed_short :
              ends_short (advance l bs s) (some x) ≡ true
              → passed (advance l bs s) bs (some x) ≡ (
                bs,
                some (short_body (l.read + length bs) l.limit),
                trip (advance l bs s) (short_body (l.read + length bs) l.limit),
              )
          passed_short u = rw u

          passed_on :
              ends_short (advance l bs s) (some x) ≡ false
              → passed (advance l bs s) bs (some x) ≡ (bs, some x, advance l bs s)
          passed_on u = rw u

  module _ {r : Reader S} {Holds Ended : S → Type 0} (t : Bool)
      (stream : IsStream r Holds Ended content final) where
    tripped-ReadsWell :
        (l : LimitReader S) (h : LimitHolds Holds t l) (n : ℕ)
        → l.tripped ≡ true
        → ReadsWell
            (LimitHolds Holds t)
            (LimitEnded Ended t)
            limit_content
            limit_final
            l
            n
            ([], l.err, l)
    unfolding limit_content limit_final limit_trips
    tripped-ReadsWell l h n u = record {
      holds = h;
      fits = omega arith;
      splits = refl;
      keeps = refl;
      ends = λ y p. (
        ground arith,
        ground arith,
        record {
          tripped_eq = ground (arith, h.trips_eq);
          source_ended = ground (arith, h.trips_eq);
        },
      );
      moves = λ p q. absurd (h.recorded u q);
    }

    module _ (l : LimitReader S) (n : ℕ) where
      abbrev at_source : ℕ → List ℕ × Option GoError × S
      at_source room = r.read l.source room

      shut : l.tripped ≡ true → read_limited r l n ≡ ([], l.err, l)
      unfolding read_limited
      shut u = ground arith

      at_limit :
          l.tripped ≡ false
          → leb l.limit l.read ≡ true
          → read_limited r l n
            ≡ probed (record l { source = (at_source 1).2 }) (at_source 1).0 (at_source 1).1
      unfolding read_limited
      at_limit u v = ground arith

      below :
          l.tripped ≡ false
          → leb l.limit l.read ≡ false
          → read_limited r l n
            ≡ passed
                (advance l
                  (at_source (min n (l.limit - l.read))).0
                  (at_source (min n (l.limit - l.read))).2)
                (at_source (min n (l.limit - l.read))).0
                (at_source (min n (l.limit - l.read))).1
      unfolding read_limited
      below u v = ground arith

    -- A limit reader over a stream is a stream.
    pub limit_reader-IsStream :
        IsStream
          (limit_reader r)
          (LimitHolds Holds t)
          (LimitEnded Ended t)
          limit_content
          limit_final
    unfolding read_limited
    limit_reader-IsStream = record { reads = λ l n h. step l n h }
      where
        step :
            (l : LimitReader S) (n : ℕ)
            → LimitHolds Holds t l
            → ReadsWell
                (LimitHolds Holds t)
                (LimitEnded Ended t)
                limit_content
                limit_final
                l
                n
                (read_limited r l n)
        step l n h = elim (Bool-cases l.tripped) [
          | inl u ↦ rw (shut l n u) (tripped-ReadsWell l h n u)
          | inr live ↦ elim (Bool-cases (leb l.limit l.read)) [
            | inl full ↦ rw (at_limit l n live full) (
                probed-ReadsWell t l h n _ _ _ live (ground arith)
                  (stream.reads l.source 1 h.source_holds))
            | inr room ↦ rw (below l n live room) (
                passed-ReadsWell t l h n _ _ live (ground arith) _
                  (stream.reads l.source (min n (l.limit - l.read)) h.source_holds))
          ]
        ]
