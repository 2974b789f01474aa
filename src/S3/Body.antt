-- ===== src/S3/Body.antt =====
-- s3/objects.go: `bodyReader`, which counts a Put body, holds it to its declared size and repeats
-- its first failure.
pub mod Steps
pub mod Refinement
use go_storage.Prelude.{
  ℕ, zero, suc, ◌+◌, ◌-◌, ◌<◌, Bool, true, false, not, ◌&&◌, Option, none, some, List, [], ◌∷◌,
  length, min, ltb, leb, if◌then◌else◌,
}
use go_storage.Prelude.Int.{pos}
use go_storage.Errors.{GoError, sentinel, eof, same}
use go_storage.Stream.{Reader}
use go_storage.LimitReader.{short_body}
use go_storage.Store.{over_declared}

-- `size` is 0 where the declared size is not above 0.
pub record BodyReader (S : Type 0) : Type 0 where
  pub source : S
  pub size : ℕ
  pub n : ℕ
  pub err : Option GoError

module _ {S : Type 0} where
  abbrev pub new_body_reader : S → ℕ → BodyReader S
  new_body_reader s size = record { source = s; size = size; n = 0; err = none }

  -- `io.ReadAtLeast(r, one, 1)`, which reads until it has a byte or an error. `tries` bounds the
  -- reads; behind them it gives no byte and no error.
  unfoldable pub read_at_least_one : ℕ → Reader S → S → List ℕ × Option GoError × S
  read_at_least_one zero r s = ([], none, s)
  read_at_least_one (suc tries) r s =
      let (bs, e, s') = r.read s 1 in
      let more = read_at_least_one tries r s' in
      elim bs [
        | [] ↦ elim e [ none ↦ more | some x ↦ ([], some x, s') ]
        | b ∷ rest ↦ (b ∷ rest, none, s')
      ]

  -- The read of one more byte at the declared size.
  unfoldable pub body_probe :
      BodyReader S → List ℕ → Option GoError → List ℕ × Option GoError × BodyReader S
  body_probe b (x ∷ xs) e =
      ([], some (over_declared (pos b.size)), record b { err = some (over_declared (pos b.size)) })
  body_probe b [] none = ([], none, b)
  body_probe b [] (some e) =
      if same e (sentinel eof)
      then ([], some (sentinel eof), b)
      else ([], some e, record b { err = some e })

  -- The error of a read below the declared size.
  unfoldable pub body_error : BodyReader S → GoError → GoError
  body_error b e =
      if same e (sentinel eof) && (ltb 0 b.size && ltb b.n b.size) then short_body b.n b.size else e

  -- What a read of the body gives, behind the count.
  unfoldable pub body_end :
      BodyReader S → List ℕ → Option GoError → List ℕ × Option GoError × BodyReader S
  unfolding body_error
  body_end b bs none = (bs, none, b)
  body_end b bs (some e) =
      if same (body_error b e) (sentinel eof)
      then (bs, some (body_error b e), b)
      else (bs, some (body_error b e), record b { err = some (body_error b e) })

  unfoldable pub read_body :
      ℕ → Reader S → BodyReader S → ℕ → List ℕ × Option GoError × BodyReader S
  unfolding body_probe body_end read_at_least_one
  read_body tries r b room = elim b.err [
    | some e ↦ ([], some e, b)
    | none ↦
        if ltb 0 b.size && leb b.size b.n
        then (let (bs, e, s) = read_at_least_one tries r b.source in
            body_probe (record b { source = s }) bs e)
        else (let (bs, e, s) =
              r.read b.source (if ltb 0 b.size then min room (b.size - b.n) else room) in
            body_end (record b { source = s; n = b.n + length bs }) bs e)
  ]

  abbrev pub body_reader : ℕ → Reader S → Reader (BodyReader S)
  body_reader tries r = record { read = read_body tries r }
