-- ===== src/Azureblob/Body.antt =====
-- azureblob/objects.go: `trackedReader`, which counts a Put body, holds it to its declared size and
-- repeats its first failure, against the store's `limitReader`.
pub mod Refinement
use go_storage.Prelude.{
  ℕ, zero, suc, ◌+◌, ◌-◌, ◌≡◌, ◌<◌, refl, sym, ◌∙◌, true, false, not, ◌&&◌, Option, none, some,
  Option-cases, Bool-cases, inl, inr, List, [], ◌∷◌, length, min, ltb, leb, if◌then◌else◌, arith,
}
use go_storage.Prelude.Int.{pos}
use go_storage.Errors.{GoError, sentinel, eof, is}
use go_storage.Stream.{Reader, read_all, read_room}
use go_storage.LimitReader.{
  LimitReader, limit_reader, read_limited, probed, passed, short_body, ends_short,
}
use go_storage.Store.{over_declared}

-- `size` is 0 where the length is not known; no caller passes a negative one on.
pub record TrackedReader (S : Type 0) : Type 0 where
  pub source : S
  pub size : ℕ
  pub n : ℕ
  pub err : Option GoError

module _ {S : Type 0} where
  -- `fail`, where no error is recorded yet.
  abbrev fail : TrackedReader S → GoError → TrackedReader S
  fail t e = record t { err = some e }

  -- The read of one more byte behind the declared size.
  unfoldable pub tracked_probe :
      TrackedReader S → List ℕ → Option GoError → List ℕ × Option GoError × TrackedReader S
  tracked_probe t (b ∷ bs) e =
      ([], some (over_declared (pos t.size)), fail t (over_declared (pos t.size)))
  tracked_probe t [] none = ([], none, t)
  tracked_probe t [] (some e) =
      if is e (sentinel eof) then ([], some e, t) else ([], some e, fail t e)

  -- What a read of the body gives, behind the count.
  unfoldable pub tracked_end :
      TrackedReader S → List ℕ → Option GoError → List ℕ × Option GoError × TrackedReader S
  tracked_end t bs none = (bs, none, t)
  tracked_end t bs (some e) =
      if not (is e (sentinel eof))
      then (bs, some e, fail t e)
      else if ltb 0 t.size && ltb t.n t.size
      then (bs, some (short_body t.n t.size), fail t (short_body t.n t.size))
      else (bs, some e, t)

  unfoldable pub read_tracked :
      Reader S → TrackedReader S → ℕ → List ℕ × Option GoError × TrackedReader S
  unfolding tracked_probe tracked_end
  read_tracked r t room = elim t.err [
    | some e ↦ ([], some e, t)
    | none ↦
        if ltb 0 t.size && leb t.size t.n
        then (let (bs, e, s) = r.read t.source 1 in tracked_probe (record t { source = s }) bs e)
        else (let (bs, e, s) =
              r.read t.source (if ltb 0 t.size then min room (t.size - t.n) else room) in
            tracked_end (record t { source = s; n = t.n + length bs }) bs e)
  ]

  abbrev pub tracked_reader : Reader S → Reader (TrackedReader S)
  tracked_reader r = record { read = read_tracked r }

  -- A reader of a body of undeclared or declared size that has counted some bytes, without an
  -- error.
  abbrev pub tracking : S → ℕ → ℕ → TrackedReader S
  tracking s size n = record { source = s; size = size; n = n; err = none }

  -- The store's limit reader of the same body.
  abbrev pub limiting : S → ℕ → ℕ → LimitReader S
  limiting s size n = record {
    source = s;
    limit = size;
    read = n;
    exact = true;
    long = over_declared (pos size);
    err = none;
    tripped = false;
  }

  -- The two answer one read alike, and go on alike where there is no error.
  abbrev Alike :
      ℕ
      → List ℕ × Option GoError × TrackedReader S
      → List ℕ × Option GoError × LimitReader S
      → Type 0
  Alike size a b =
      (a.0 ≡ b.0)
      × (a.1 ≡ b.1)
      × (a.1 ≡ none → (s : S) × (n : ℕ) × (a.2 ≡ tracking s size n) × (b.2 ≡ limiting s size n))

  probe-Alike :
      (s : S) (size n : ℕ) (bs : List ℕ) (e : Option GoError)
      → Alike size (tracked_probe (tracking s size n) bs e) (probed (limiting s size n) bs e)
  unfolding tracked_probe probed
  probe-Alike s size n (b ∷ bs) e = (refl, refl, λ p. cc)
  probe-Alike s size n [] none = (refl, refl, λ p. (s, n, refl, refl))
  probe-Alike s size n [] (some e) = (ground arith, ground arith, λ p. ground arith)

  end-Alike :
      (s : S) (size n : ℕ) (bs : List ℕ) (e : Option GoError)
      → 0 < size
      → Alike size (tracked_end (tracking s size n) bs e) (passed (limiting s size n) bs e)
  unfolding tracked_end passed ends_short
  end-Alike s size n bs none p = (refl, refl, λ q. (s, n, refl, refl))
  end-Alike s size n bs (some e) p = (ground arith, ground arith, λ q. ground arith)

  module _ (r : Reader S) where
    read-Alike :
        (s : S) (size n room : ℕ)
        → 0 < size
        → Alike size
            (read_tracked r (tracking s size n) room)
            (read_limited r (limiting s size n) room)
    unfolding read_tracked read_limited
    read-Alike s size n room p = elim (Bool-cases (leb size n)) [
      | inl full ↦
          rw (full, positive p, read_tracked, read_limited)
            (probe-Alike (r.read s 1).2 size n (r.read s 1).0 (r.read s 1).1)
      | inr free ↦
          rw (free, positive p, read_tracked, read_limited)
            (end-Alike (r.read s (min room (size - n))).2 size
              (n + length (r.read s (min room (size - n))).0) (r.read s (min room (size - n))).0
              (r.read s (min room (size - n))).1 p)
    ]
      where
        positive : 0 < size → ltb 0 size ≡ true
        positive p = ground (arith, p)

    -- What reading to the end gives, without the reader that is left.
    abbrev pub outcome :
        {R : Type 0} → Option (List ℕ × Option GoError × R) → Option (List ℕ × Option GoError)
    outcome none = none
    outcome (some (bs, e, l)) = some (bs, e)

    -- A body of a positive declared size reads to its end through a tracked reader as through the
    -- limit reader of a Store with that size: the same bytes and the same error, whatever the body.
    pub read_all-tracked_reader :
        (fuel : ℕ) (got : List ℕ) (s : S) (size n : ℕ)
        → 0 < size
        → outcome (read_all (tracked_reader r) fuel got (tracking s size n))
          ≡ outcome (read_all (limit_reader r) fuel got (limiting s size n))
    unfolding read_all
    read_all-tracked_reader zero got s size n p = refl
    read_all-tracked_reader (suc fuel) got s size n p =
        let (bytes, errs, go_on) = read-Alike s size n read_room p in
        elim (Option-cases (read_tracked r (tracking s size n) read_room).1) [
          | inr (x, e) ↦ rw (e, sym errs ∙ e, bytes, read_all) refl
          | inl more ↦
              let (s', n', a, b) = go_on more in
              rw (more, sym errs ∙ more, a, b, bytes, read_all)
                (read_all-tracked_reader fuel _ s' size n' p)
        ]
