-- ===== src/Azureblob/Options.antt =====
-- azureblob/client.go: the provider's options of a configuration, as numbers.
use go_storage.Prelude.{
  ℕ, ◌≡◌, ◌<◌, ◌⊎◌, inl, inr, refl, Bool, true, not, ◌&&◌, ◌||◌, none, some, Option-cases,
  Bool-cases, leb, ◌==◌, if◌then◌else◌, arith,
}
use go_storage.Prelude.Int.{ℤ, pos, negsuc, ltb_ℤ}
use go_storage.Prelude.Text.{Text, codes}
use go_storage.Prelude.Assoc.{Assoc, lookup}
use go_storage.Errors.{GoError, errorf, int, str, end}
use go_storage.Config.Numbers.{parse_int}

-- A number that was read, within bounds, or the error that the option makes of its text.
unfoldable pub bounded : ℤ → ℤ → GoError → GoError ⊎ ℤ → GoError ⊎ ℤ
bounded least most bad (inl e) = inl bad
bounded least most bad (inr n) = if ltb_ℤ n least || ltb_ℤ most n then inl bad else inr n

-- 4 MiB, 1 MiB and 100 MiB.
unfoldable pub block_size : Assoc Text → GoError ⊎ ℤ
unfolding bounded
block_size options = elim (lookup (codes "block_size") options) [
  | none ↦ inr (pos 4194304)
  | some v ↦
      bounded (pos 1048576) (pos 104857600)
        (errorf "azureblob: option %s: %q is not an integer between %d and %d bytes"
          (str (codes "block_size") (str v (int (pos 1048576) (int (pos 104857600) end)))))
        (parse_int v)
]

unfoldable pub concurrency : Assoc Text → GoError ⊎ ℤ
unfolding bounded
concurrency options = elim (lookup (codes "concurrency") options) [
  | none ↦ inr (pos 4)
  | some v ↦
      bounded (pos 1) (pos 32)
        (errorf "azureblob: option %s: %q is not an integer between 1 and %d"
          (str (codes "concurrency") (str v (int (pos 32) end))))
        (parse_int v)
]

-- The two results together, the block size read first.
unfoldable pub paired : GoError ⊎ ℤ → GoError ⊎ ℤ → GoError ⊎ (ℤ × ℤ)
paired (inl e) c = inl e
paired (inr b) (inl e) = inl e
paired (inr b) (inr c) = inr (b, c)

unfoldable pub upload_options : Assoc Text → GoError ⊎ (ℤ × ℤ)
unfolding block_size concurrency paired
upload_options options = paired (block_size options) (concurrency options)

abbrev pub bad_retries : Text → GoError
bad_retries v =
    errorf "azureblob: option %s: %q is not a non-negative integer"
      (str (codes "max_retries") (str v end))

-- The SDK's MaxRetries: a number of at most 31 bits, where none is written as -1.
unfoldable pub retries_of : GoError → GoError ⊎ ℤ → GoError ⊎ ℤ
retries_of bad (inl e) = inl bad
retries_of bad (inr (negsuc n)) = inl bad
retries_of bad (inr (pos n)) =
    if leb 2147483648 n then inl bad else if n == 0 then inr (negsuc 0) else inr (pos n)

-- The MaxRetries that `clientOptions` sets; unset it is 0.
unfoldable pub max_retries : Assoc Text → GoError ⊎ ℤ
unfolding retries_of
max_retries options = elim (lookup (codes "max_retries") options) [
  | none ↦ inr (pos 0)
  | some v ↦ retries_of (bad_retries v) (parse_int v)
]

unfoldable pub read_retries : ℤ → ℤ
read_retries (pos n) = if n == 0 then pos 3 else pos n
read_retries (negsuc n) = pos 0

abbrev pub in_bounds : GoError ⊎ (ℤ × ℤ) → Bool
in_bounds (inl e) = true
in_bounds (inr (b, c)) =
    not (ltb_ℤ b (pos 1048576) || ltb_ℤ (pos 104857600) b)
    && not (ltb_ℤ c (pos 1) || ltb_ℤ (pos 32) c)

abbrev fits : ℤ → ℤ → GoError ⊎ ℤ → Bool
fits least most (inl e) = true
fits least most (inr n) = not (ltb_ℤ n least || ltb_ℤ most n)

fits-bounded :
    (least most : ℤ) (bad : GoError) (read : GoError ⊎ ℤ)
    → fits least most (bounded least most bad read) ≡ true
unfolding bounded
fits-bounded least most bad (inl e) = refl
fits-bounded least most bad (inr n) = elim (Bool-cases (ltb_ℤ n least || ltb_ℤ most n)) [
  | inl out ↦ rw (out, bounded) refl
  | inr fine ↦ rw (fine, bounded) (rw fine refl)
]

fits-block_size :
    (options : Assoc Text) → fits (pos 1048576) (pos 104857600) (block_size options) ≡ true
unfolding block_size
fits-block_size options = elim (Option-cases (lookup (codes "block_size") options)) [
  | inl unset ↦ rw (unset, block_size) refl
  | inr (v, found) ↦
      rw (found, block_size) (fits-bounded (pos 1048576) (pos 104857600) _ (parse_int v))
]

fits-concurrency : (options : Assoc Text) → fits (pos 1) (pos 32) (concurrency options) ≡ true
unfolding concurrency
fits-concurrency options = elim (Option-cases (lookup (codes "concurrency") options)) [
  | inl unset ↦ rw (unset, concurrency) refl
  | inr (v, found) ↦ rw (found, concurrency) (fits-bounded (pos 1) (pos 32) _ (parse_int v))
]

in_bounds-paired :
    (b c : GoError ⊎ ℤ)
    → fits (pos 1048576) (pos 104857600) b ≡ true
    → fits (pos 1) (pos 32) c ≡ true
    → in_bounds (paired b c) ≡ true
unfolding paired
in_bounds-paired (inl e) c h k = refl
in_bounds-paired (inr b) (inl e) h k = refl
in_bounds-paired (inr b) (inr c) h k = rw (h, k) refl

-- Whatever the options are, a block size that is accepted is from 1 MiB to 100 MiB, and a
-- concurrency with it from 1 to 32.
pub in_bounds-upload_options : (options : Assoc Text) → in_bounds (upload_options options) ≡ true
unfolding upload_options
in_bounds-upload_options options =
    in_bounds-paired (block_size options) (concurrency options) (fits-block_size options)
      (fits-concurrency options)

-- The retries of a Get's body are the number that the max_retries option gives, 0 included, if it
-- is below 2^31.
pub read_retries-max_retries :
    (options : Assoc Text) (v : Text) (n : ℕ)
    → lookup (codes "max_retries") options ≡ some v
    → parse_int v ≡ inr (pos n)
    → n < 2147483648
    → (m : ℤ) × (max_retries options ≡ inr m) × (read_retries m ≡ pos n)
unfolding max_retries retries_of read_retries
read_retries-max_retries options v n found read lt = elim (Bool-cases (n == 0)) [
  | inl zero ↦ (
    negsuc 0,
    rw (found, max_retries) (rw (read, retries_of) (ground (arith, lt, zero))),
    ground (arith, zero),
  )
  | inr some_left ↦ (
    pos n,
    rw (found, max_retries) (rw (read, retries_of) (ground (arith, lt, some_left))),
    ground (arith, some_left),
  )
]
