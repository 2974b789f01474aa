-- ===== src/LimitReader.antt =====
-- store.go: `limitReader`, which lets a number of bytes through and fails on the first past them.
pub mod Refinement
use go_storage.Prelude.{
  ℕ, ◌+◌, ◌-◌, Bool, true, false, ◌&&◌, Option, none, some, List, [], ◌∷◌, length, min, leb, ltb,
  if◌then◌else◌,
}
use go_storage.Prelude.Int.{pos}
use go_storage.Errors.{GoError, sentinel, errorf, int, wrapped, end, eof, unexpected_eof, is_some}
use go_storage.Stream.{Reader}

-- The field `r` of the source is the state `source` of a reader that stands beside. `err` is nil
-- until the reader has tripped. `limit` and `read` are int64 in the source; `limit` is positive
-- wherever the source makes one.
pub record LimitReader (S : Type 0) : Type 0 where
  pub source : S
  pub limit : ℕ
  pub read : ℕ
  pub exact : Bool
  pub long : GoError
  pub err : Option GoError
  pub tripped : Bool

unfoldable pub new_limit_reader : {S : Type 0} → S → ℕ → Bool → GoError → LimitReader S
new_limit_reader s limit exact long = record {
  source = s;
  limit = limit;
  read = 0;
  exact = exact;
  long = long;
  err = none;
  tripped = false;
}

-- "body ended after %d bytes, short of the declared size (%d bytes): %w"
abbrev pub short_body : ℕ → ℕ → GoError
short_body read limit =
    errorf "body ended after %d bytes, short of the declared size (%d bytes): %w"
      (int (pos read) (int (pos limit) (wrapped (sentinel unexpected_eof) end)))

module _ {S : Type 0} where
  unfoldable pub trip : LimitReader S → GoError → LimitReader S
  trip l e = record l { err = some e; tripped = true }

  -- What the read of one more byte at the limit shows.
  unfoldable pub probed :
      LimitReader S → List ℕ → Option GoError → List ℕ × Option GoError × LimitReader S
  unfolding trip
  probed l [] e = ([], e, l)
  probed l (b ∷ bs) e = ([], some l.long, trip l l.long)

  unfoldable pub ends_short : LimitReader S → Option GoError → Bool
  ends_short l e = l.exact && is_some e (sentinel eof) && ltb l.read l.limit

  unfoldable pub passed :
      LimitReader S → List ℕ → Option GoError → List ℕ × Option GoError × LimitReader S
  unfolding trip ends_short
  passed l bs e =
      if ends_short l e
      then (bs, some (short_body l.read l.limit), trip l (short_body l.read l.limit))
      else (bs, e, l)

  unfoldable pub read_limited :
      Reader S → LimitReader S → ℕ → List ℕ × Option GoError × LimitReader S
  unfolding probed passed
  read_limited r l n =
      if l.tripped
      then ([], l.err, l)
      else if leb l.limit l.read
      then (let (bs, e, s) = r.read l.source 1 in probed (record l { source = s }) bs e)
      else (let (bs, e, s) = r.read l.source (min n (l.limit - l.read)) in
          passed (record l { source = s; read = l.read + length bs }) bs e)

  -- A limit reader is a reader.
  abbrev pub limit_reader : Reader S → Reader (LimitReader S)
  limit_reader r = record { read = read_limited r }
