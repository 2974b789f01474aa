-- ===== src/Store.antt =====
-- store.go: `Store`, the lifecycle wrapper, as functions of its state and of the world that its
-- client changes. What concurrent calls do to `started` and `shut` is in Lifecycle.
pub mod Put
pub mod Failure
pub mod Operations
pub mod Built
use go_storage.Prelude.{
  not, ℕ, ◌+◌, ◌≤◌, ◌<◌, ◌≡◌, Bool, true, false, ◌&&◌, Option, none, some, List, [], leb, ltb, min,
  if◌then◌else◌,
}
use go_storage.Prelude.Int.{ℤ, pos, ltb_ℤ, pos_part}
use go_storage.Prelude.Text.{Text}
use go_storage.Errors.{
  GoError, Operands, sentinel, errorf, int, wrapped, shown, end, is, is_some, classified, too_large,
  not_ready, unavailable, deadline_exceeded,
}
use go_storage.Stream.{Reader}
use go_storage.LimitReader.{LimitReader, new_limit_reader, limit_reader}
use go_storage.Storage.{
  Object, no_object, PutOptions, ListOptions, Page, no_page, Capabilities, Context, Client,
}

-- The fields that `New` copies from the configuration, and the two flags.
pub record Store : Type 0 where
  pub container : Text
  pub max_object_size : ℤ
  pub list_page_size : ℤ
  pub request_timeout : ℕ
  pub read_idle : ℕ
  pub started : Bool
  pub shut : Bool

-- The errors that Put makes.
abbrev pub invalid_size : ℤ → GoError
invalid_size size = errorf "invalid put size: %d" (int size end)

abbrev pub declared_too_large : ℤ → ℤ → GoError
declared_too_large size bound =
    errorf "%w: declared size %d exceeds the configured max object size (%d bytes)"
      (wrapped (sentinel too_large) (int size (int bound end)))

abbrev pub over_bound : ℤ → GoError
over_bound bound = errorf "body exceeds the configured max object size (%d bytes)" (int bound end)

abbrev pub over_declared : ℤ → GoError
over_declared size = errorf "body is longer than the declared size (%d bytes)" (int size end)

-- `fmt.Errorf("%w: %w", a, b)` where `a` and `b` may be nil; a nil operand is not wrapped.
abbrev wrap_some : Option GoError → Operands → Operands
wrap_some none xs = xs
wrap_some (some e) xs = wrapped e xs

abbrev pub joined : Option GoError → Option GoError → GoError
joined a b = errorf "%w: %w" (wrap_some a (wrap_some b end))

-- `errors.Is(provider, recorded)` where `recorded` may be nil.
abbrev is_recorded : GoError → Option GoError → Bool
is_recorded p none = false
is_recorded p (some e) = is p e

-- `readFailure`: what a limit reader recorded, with what the provider returned.
unfoldable pub read_failure : Option GoError → Option GoError → Option GoError
read_failure recorded none = recorded
read_failure recorded (some p) =
    if is_recorded p recorded then some p else some (joined recorded (some p))

-- `startFailure`, where `shut` is what `isShut` says and `ctx_err` what `ctx.Err()` says.
unfoldable pub start_failure : Bool → Option GoError → GoError → GoError
start_failure true ctx_err e = sentinel not_ready
start_failure false none e = if is e (sentinel unavailable) then e else classified unavailable e
start_failure false (some ctx_err) e =
    if is e ctx_err && not (is e (sentinel unavailable))
    then e
    else errorf "%w: %v" (wrapped ctx_err (shown e end))

-- What Put returns behind the provider's Put, for the bound and for the declared size.
unfoldable pub bounded_result :
    {S : Type 0} → LimitReader S → Object → Option GoError → Object × Option GoError
unfolding read_failure
bounded_result b obj err =
    if b.tripped
    then (no_object, some (joined (some (sentinel too_large)) (read_failure b.err err)))
    else (obj, err)

unfoldable pub sized_result :
    {S : Type 0} → LimitReader S → Object → Option GoError → Object × Option GoError
unfolding read_failure
sized_result b obj err = if b.tripped then (no_object, read_failure b.err err) else (obj, err)

-- With both readers the bound's, the inner one, is asked first.
unfoldable pub both_result :
    {S : Type 0} → LimitReader (LimitReader S) → Object → Option GoError → Object × Option GoError
unfolding bounded_result sized_result
both_result z obj err =
    if z.source.tripped then bounded_result z.source obj err else sized_result z obj err

-- `newLimitReader` as Put calls it, for the bound and for the declared size.
abbrev pub bounding : {S : Type 0} → ℤ → S → LimitReader S
bounding bound body = new_limit_reader body (pos_part bound) false (over_bound bound)

abbrev pub sizing : {S : Type 0} → ℤ → S → LimitReader S
sizing size body = new_limit_reader body (pos_part size) true (over_declared size)

-- The provider's `ValidateKey`, where it has one.
unfoldable pub check_key : Capabilities → Text → Option GoError
check_key caps key = elim caps.validate_key [ none ↦ none | some validate ↦ validate key ]

module _ {W B : Type 0} (c : Client W B) where
  -- The provider's Put behind the readers that the bound (the first flag) and the declared size
  -- (the second) ask for. The state of the body comes back beside the result.
  module _ {S : Type 0} (r : Reader S) (ctx : Context W) (key : Text) (opts : PutOptions) where
    unfoldable pub send : ℤ → Bool → Bool → S → W → Object × Option GoError × S × W
    unfolding both_result
    send bound false false body w = c.put S r ctx key opts body w
    send bound true false body w =
        let (obj, err, b, w') =
          c.put (LimitReader S) (limit_reader r) ctx key opts (bounding bound body) w in
        let (obj', err') = bounded_result b obj err in (obj', err', b.source, w')
    send bound false true body w =
        let (obj, err, z, w') =
          c.put (LimitReader S) (limit_reader r) ctx key opts (sizing opts.size body) w in
        let (obj', err') = sized_result z obj err in (obj', err', z.source, w')
    send bound true true body w =
        let (obj, err, z, w') =
          c.put (LimitReader (LimitReader S)) (limit_reader (limit_reader r)) ctx key opts
            (sizing opts.size (bounding bound body)) w in
        let (obj', err') = both_result z obj err in (obj', err', z.source.source, w')

    unfoldable pub put : Store → S → W → Object × Option GoError × S × W
    unfolding check_key
    put s body w =
        if not s.started
        then (no_object, some (sentinel not_ready), body, w)
        else elim (check_key c.capabilities key) [
          | some e ↦ (no_object, some e, body, w)
          | none ↦
              if ltb_ℤ opts.size (pos 0)
              then (no_object, some (invalid_size opts.size), body, w)
              else if ltb_ℤ (pos 0) s.max_object_size && ltb_ℤ s.max_object_size opts.size
              then (no_object, some (declared_too_large opts.size s.max_object_size), body, w)
              else send s.max_object_size (ltb_ℤ (pos 0) s.max_object_size)
                  (ltb_ℤ (pos 0) opts.size) body w
        ]
