-- ===== src/LimitReader/Refinement/Fresh.antt =====
-- A limit reader that `newLimitReader` has just made: reading it to its end, and what it says of
-- the body that it ends as the body does.
use go_storage.Prelude.{
  ℕ, ◌≤◌, ◌<◌, ◌≡◌, ◌≢◌, refl, ap, Bool, true, false, List, [], length, take, take_all, length-take,
  arith,
}
use go_storage.Errors.{GoError, sentinel, eof, is}
use go_storage.Stream.{Reader, IsStream, read_all, read_all_lem, finished}
use go_storage.LimitReader.{LimitReader, new_limit_reader, limit_reader}
use go_storage.LimitReader.Refinement.{
  limit_content, limit_final, limit_end, limit_trips, trips, LimitHolds, LimitEnded,
  limit_reader-IsStream,
}

module _ {S : Type 0} (content : S → List ℕ) (final : S → GoError) (s : S) (limit : ℕ)
    (exact : Bool) (long : GoError) where
  abbrev fresh : LimitReader S
  fresh = new_limit_reader s limit exact long

  pub fresh_content : limit_content content final fresh ≡ take limit (content s)
  unfolding limit_content new_limit_reader
  fresh_content = ap (λ k. take k (content s)) (omega arith)

  pub fresh_final :
      limit_final content final fresh ≡ limit_end (length (content s)) limit exact long (final s)
  unfolding limit_final new_limit_reader
  fresh_final = ap (λ k. limit_end k limit exact long (final s)) (omega arith)

  fresh-trips : limit_trips content final fresh ≡ trips (length (content s)) limit exact (final s)
  unfolding limit_trips new_limit_reader
  fresh-trips = ap (λ k. trips k limit exact (final s)) (omega arith)

  -- The invariant of the states that reads of the fresh reader lead to.
  abbrev pub AfterFresh : (S → Type 0) → LimitReader S → Type 0
  AfterFresh Holds = LimitHolds content final Holds (limit_trips content final fresh)

  pub fresh-IsStream :
      {Holds Ended : S → Type 0} {r : Reader S}
      → IsStream r Holds Ended content final
      → IsStream
          (limit_reader r)
          (AfterFresh Holds)
          (LimitEnded content final Ended (limit_trips content final fresh))
          (limit_content content final)
          (limit_final content final)
  fresh-IsStream stream =
      limit_reader-IsStream content final (limit_trips content final fresh) stream

  pub fresh_holds :
      (Holds : S → Type 0)
      → Holds s
      → LimitHolds content final Holds (limit_trips content final fresh) fresh
  unfolding new_limit_reader
  fresh_holds Holds h = record {
    source_holds = h;
    within = omega arith;
    recorded = λ e. cc;
    trips_eq = refl;
  }

  -- A fresh reader that ends with io.EOF has let a fitting body through whole, and does not trip.
  pub record Fits : Type 0 where
    pub short_enough : length (content s) ≤ limit
    pub exact_size : exact ≡ true → length (content s) ≡ limit
    pub ends_eof : final s ≡ sentinel eof
    pub whole : limit_content content final fresh ≡ content s
    pub untripped : limit_trips content final fresh ≡ false

  pub fits_of_eof : long ≢ sentinel eof → limit_final content final fresh ≡ sentinel eof → Fits
  unfolding limit_final limit_trips limit_end trips new_limit_reader is
  fits_of_eof ne e = record {
    short_enough = ground arith;
    exact_size = ground arith;
    ends_eof = ground arith;
    whole = rw fresh_content (take_all limit (content s) (ground arith));
    untripped = ground arith;
  }

  -- Reading a fresh limit reader to its end gives the body cut at the limit; the error is that of
  -- a body of its size, and the reader has tripped exactly if the body is longer than the limit,
  -- or the limit is exact and the body ends with io.EOF short of it.
  pub read_all-limit_reader :
      {Holds Ended : S → Type 0} {r : Reader S}
      → IsStream r Holds Ended content final
      → (fuel : ℕ) → Holds s
      → length (content s) < fuel
      → (l : LimitReader S) × (read_all (limit_reader r) fuel [] fresh
          ≡ finished
              (limit_reader r)
              (take limit (content s))
              (limit_end (length (content s)) limit exact long (final s))
              l)
        × (l.tripped ≡ trips (length (content s)) limit exact (final s))
  read_all-limit_reader {Holds} {Ended} {r} stream fuel h lt =
      let (l, _, ended, e) = all in
      (l, rw (← fresh_content, ← fresh_final) e, rw (← fresh-trips) (ended.tripped_eq))
    where
      all :
          (l : LimitReader S) × LimitHolds content final Holds (limit_trips content final fresh) l
          × LimitEnded content final Ended (limit_trips content final fresh) l
          × (read_all (limit_reader r) fuel [] fresh
              ≡ finished
                  (limit_reader r)
                  (limit_content content final fresh)
                  (limit_final content final fresh)
                  l)
      all =
          read_all_lem (limit_reader r)
            (limit_reader-IsStream content final (limit_trips content final fresh) stream) fuel []
            fresh (fresh_holds Holds h) (rw (fresh_content, length-take) (omega arith))

module _ {S : Type 0} (content : S → List ℕ) (final : S → GoError) where
  -- A reader whose invariant says that it will not trip has not tripped.
  pub untripped_lem :
      (Holds : S → Type 0) (t : Bool) (l : LimitReader S)
      → LimitHolds content final Holds t l
      → t ≡ false
      → l.tripped ≡ false
  unfolding limit_trips
  untripped_lem Holds t l h e = ground (arith, h.trips_eq)
