-- ===== src/Stream.antt =====
-- `io.Reader` as an interface, and `io.ReadAll` over it. A reader is a state and a `read` that
-- takes the room in the caller's buffer and gives back the bytes, the error and the next state.
pub mod Sticky
pub mod Compose
pub mod Partial
use go_storage.Prelude.{
  take, drop, sym, length-take, take-append-drop, ◌⊎◌, ◌≢◌, ℕ, zero, suc, ◌≤◌, ◌<◌, ◌≡◌, refl, ◌∙◌,
  ap, Option, none, some, Option-cases, inl, inr, List, [], ◌∷◌, ◌++◌, length, if◌then◌else◌, arith,
  length-append,
}
use mathlib.Core.List.{append-nil, append_assoc}
use go_storage.Errors.{GoError, sentinel, eof, same}

pub record Reader (S : Type 0) : Type 0 where
  pub read : S → ℕ → List ℕ × Option GoError × S

-- One read that behaves well, as the documentation of `io.Reader` asks. In a state where `Holds`
-- the bytes still to come are `content` and the error that ends them is `final`. A read with room
-- for `n` bytes gives at most as many, takes them off the front, reports an error only behind the
-- last byte, and makes progress where there is room. `Ended` is what holds once it has reported
-- one.
pub record ReadsWell {S : Type 0} (Holds Ended : S → Type 0) (content : S → List ℕ)
    (final : S → GoError) (s : S) (n : ℕ) (out : List ℕ × Option GoError × S) : Type 0 where
  pub holds : Holds out.2
  pub fits : length out.0 ≤ n
  pub splits : content s ≡ out.0 ++ content out.2
  pub keeps : final out.2 ≡ final s
  pub ends : (e : GoError) → out.1 ≡ some e → (e ≡ final s) × (content out.2 ≡ []) × Ended out.2
  pub moves : 0 < n → out.1 ≡ none → 0 < length out.0

-- A reader whose every read behaves well.
pub record IsStream {S : Type 0} (r : Reader S) (Holds Ended : S → Type 0) (content : S → List ℕ)
    (final : S → GoError) : Type 0 where
  pub reads : (s : S) (n : ℕ) → Holds s → ReadsWell Holds Ended content final s n (r.read s n)

-- The room that `io.ReadAll` starts with; the reads that it makes are of at least one byte.
abbrev pub read_room : ℕ
read_room = 512

-- The end of `io.ReadAll`: `io.EOF` is a success.
abbrev pub read_outcome : GoError → Option GoError
read_outcome e = if same e (sentinel eof) then none else some e

-- `io.ReadAll`: the bytes, the error and the reader's state. `none` means that the fuel ran out.
module _ {S : Type 0} (r : Reader S) where
  unfoldable pub read_all : ℕ → List ℕ → S → Option (List ℕ × Option GoError × S)
  read_all zero got s = none
  read_all (suc fuel) got s =
      let (bs, e, s') = r.read s read_room in
      let more = read_all fuel (got ++ bs) s' in
      elim e [ none ↦ more | some x ↦ some (got ++ bs, read_outcome x, s') ]

  abbrev pub finished : List ℕ → GoError → S → Option (List ℕ × Option GoError × S)
  finished got e s = some (got, read_outcome e, s)

  module _ {Holds Ended : S → Type 0} {content : S → List ℕ} {final : S → GoError}
      (stream : IsStream r Holds Ended content final) where
    abbrev pub AllRead : List ℕ → S → Option (List ℕ × Option GoError × S) → Type 0
    AllRead got s out =
        (s' : S) × Holds s' × Ended s' × (out ≡ finished (got ++ content s) (final s) s')

    -- Reading all runs out of fuel, or gives the bytes to come and the stream's last error, unless
    -- that is io.EOF.
    pub read_all_cases :
        (fuel : ℕ) (got : List ℕ) (s : S)
        → Holds s
        → (read_all fuel got s ≡ none) ⊎ AllRead got s (read_all fuel got s)
    unfolding read_all
    read_all_cases zero got s h = inl refl
    read_all_cases (suc fuel) got s h = elim (Option-cases (r.read s read_room).1) [
      | inl more ↦
          elim (read_all_cases fuel (got ++ (r.read s read_room).0) (r.read s read_room).2
            ((stream.reads s read_room h).holds)) [
              | inl spent ↦ inl (rw (more, read_all) spent)
              | inr (s', h', z, e) ↦ inr (s', h', z, rw (more, read_all) (e ∙ joined more s'))
            ]
      | inr (x, last) ↦ inr (
        (r.read s read_room).2,
        (stream.reads s read_room h).holds,
        ((stream.reads s read_room h).ends x last).2,
        rw (last, read_all) (ended x last),
      )
    ]
      where
        joined :
            (r.read s read_room).1 ≡ none
            → (s' : S)
            → finished
                ((got ++ (r.read s read_room).0) ++ content (r.read s read_room).2)
                (final (r.read s read_room).2)
                s'
              ≡ finished (got ++ content s) (final s) s'
        joined more s' = rw (
          append_assoc,
          ← (stream.reads s read_room h).splits,
          (stream.reads s read_room h).keeps,
        )

        ended :
            (x : GoError)
            → (r.read s read_room).1 ≡ some x
            → finished (got ++ (r.read s read_room).0) x (r.read s read_room).2
              ≡ finished (got ++ content s) (final s) (r.read s read_room).2
        ended x last =
            let (a, b, _) = (stream.reads s read_room h).ends x last in
            rw ((stream.reads s read_room h).splits, a, b, append-nil)

    -- More fuel than there are bytes to come is enough.
    pub read_all_total :
        (fuel : ℕ) (got : List ℕ) (s : S)
        → Holds s
        → length (content s) < fuel
        → read_all fuel got s ≢ none
    unfolding read_all
    read_all_total zero got s h lt = absurd (omega arith)
    read_all_total (suc fuel) got s h lt = elim (Option-cases (r.read s read_room).1) [
      | inr (x, last) ↦ rw (last, read_all) (λ e. cc)
      | inl more ↦
          rw (more, read_all)
            (read_all_total fuel (got ++ (r.read s read_room).0) (r.read s read_room).2
              ((stream.reads s read_room h).holds) (shorter more))
    ]
      where
        shorter : (r.read s read_room).1 ≡ none → length (content (r.read s read_room).2) < fuel
        shorter more = omega (
          arith,
          ap length ((stream.reads s read_room h).splits),
          length-append (r.read s read_room).0 (content (r.read s read_room).2),
          (stream.reads s read_room h).moves (omega arith) more,
        )

    pub read_all_lem :
        (fuel : ℕ) (got : List ℕ) (s : S)
        → Holds s
        → length (content s) < fuel
        → AllRead got s (read_all fuel got s)
    read_all_lem fuel got s h lt = elim (read_all_cases fuel got s h) [
      | inl spent ↦ absurd (read_all_total fuel got s h lt spent)
      | inr all ↦ all
    ]

-- `Read` of a `bytes.Reader` over what is left of its bytes.
abbrev pub read_bytes : List ℕ → ℕ → List ℕ × Option GoError × List ℕ
read_bytes [] n = ([], some (sentinel eof), [])
read_bytes (x ∷ xs) n = (take n (x ∷ xs), none, drop n (x ∷ xs))

abbrev pub bytes_reader : Reader (List ℕ)
bytes_reader = record { read = read_bytes }

-- It is a stream of its bytes that ends with io.EOF.
pub bytes_reader-IsStream :
    IsStream bytes_reader (λ s. Unit {0}) (λ s. s ≡ []) (λ s. s) (λ s. sentinel eof)
bytes_reader-IsStream = record { reads = λ s n _. reads s n }
  where
    reads :
        (s : List ℕ) (n : ℕ)
        → ReadsWell
            (λ t. Unit {0})
            (λ t. t ≡ [])
            (λ t. t)
            (λ t. sentinel eof)
            s
            n
            (bytes_reader.read s n)
    reads [] n = record {
      holds = tt;
      fits = omega arith;
      splits = refl;
      keeps = refl;
      ends = λ e p. (ground arith, refl, refl);
      moves = λ p q. cc;
    }
    reads (x ∷ xs) n = record {
      holds = tt;
      fits = omega (arith, length-take n (x ∷ xs));
      splits = sym (take-append-drop n (x ∷ xs));
      keeps = refl;
      ends = λ e p. cc;
      moves = λ p q. omega (arith, length-take n (x ∷ xs));
    }
