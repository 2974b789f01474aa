-- ===== src/S3/Options.antt =====
-- s3/client.go: the provider's options of a configuration, as numbers.
use go_storage.Prelude.{
  ℕ, ◌+◌, ◌-◌, ◌≡◌, ◌<◌, ◌⊎◌, inl, inr, refl, Bool, true, not, ◌&&◌, ◌||◌, none, some, Option-cases,
  Bool-cases, ◌==◌, if◌then◌else◌, arith,
}
use go_storage.Prelude.Int.{ℤ, pos, negsuc, ltb_ℤ}
use go_storage.Prelude.Text.{Text, codes, is_empty}
use go_storage.Prelude.Assoc.{Assoc, lookup}
use go_storage.Errors.{GoError, errorf, int, str, end}
use go_storage.Config.Numbers.{parse_int, int_bound}

abbrev pub default_region : Text
default_region = codes "us-east-1"

unfoldable pub region_option : Assoc Text → GoError ⊎ Text
region_option options = elim (lookup (codes "region") options) [
  | none ↦ inr default_region
  | some v ↦
      if is_empty v
      then inl (errorf "s3: option %s: must not be empty" (str (codes "region") end))
      else inr v
]

-- A number that was read, within bounds, or the error that the option makes of its text.
unfoldable pub bounded : ℤ → ℤ → GoError → GoError ⊎ ℤ → GoError ⊎ ℤ
bounded least most bad (inl e) = inl bad
bounded least most bad (inr n) = if ltb_ℤ n least || ltb_ℤ most n then inl bad else inr n

unfoldable pub bounded_option : Text → ℤ → ℤ → ℤ → (Text → GoError) → Assoc Text → GoError ⊎ ℤ
unfolding bounded
bounded_option name default least most bad options = elim (lookup name options) [
  | none ↦ inr default
  | some v ↦ bounded least most (bad v) (parse_int v)
]

-- 8 MiB, 5 MiB and 5 GiB.
unfoldable pub part_size_option : Assoc Text → GoError ⊎ ℤ
unfolding bounded_option
part_size_option =
    bounded_option (codes "part_size") (pos 8388608) (pos 5242880) (pos 5368709120) (λ v.
      errorf "s3: option %s: %q is not a byte count from %d (5 MiB) to %d (5 GiB)"
        (str (codes "part_size") (str v (int (pos 5242880) (int (pos 5368709120) end)))))

unfoldable pub concurrency_option : Assoc Text → GoError ⊎ ℤ
unfolding bounded_option
concurrency_option = bounded_option (codes "concurrency") (pos 4) (pos 1) (pos 32) (λ v.
    errorf "s3: option %s: %q is not an integer between 1 and %d"
      (str (codes "concurrency") (str v (int (pos 32) end))))

-- `n + 1` and `n - 1` on an int of 64 bits, which wrap around at its ends.
abbrev pub plus_one : ℤ → ℤ
plus_one (pos n) = if n + 1 == int_bound then negsuc n else pos (n + 1)
plus_one (negsuc n) = if n == 0 then pos 0 else negsuc (n - 1)

abbrev pub minus_one : ℤ → ℤ
minus_one (pos n) = if n == 0 then negsuc 0 else pos (n - 1)
minus_one (negsuc n) = if n + 1 == int_bound then pos n else negsuc (n + 1)

abbrev pub bad_retries : Text → GoError
bad_retries v =
    errorf "s3: option %s: %q is not a non-negative integer" (str (codes "max_retries") (str v end))

-- The attempts that a number of retries comes to.
unfoldable pub attempts_of : GoError → GoError ⊎ ℤ → GoError ⊎ ℤ
attempts_of bad (inl e) = inl bad
attempts_of bad (inr n) = if ltb_ℤ n (pos 0) then inl bad else inr (plus_one n)

unfoldable pub max_attempts : Assoc Text → GoError ⊎ ℤ
unfolding attempts_of
max_attempts options = elim (lookup (codes "max_retries") options) [
  | none ↦ inr (pos 0)
  | some v ↦ attempts_of (bad_retries v) (parse_int v)
]

-- `default` is the SDK's retry.DefaultMaxAttempts.
unfoldable pub read_retries : ℤ → ℤ → ℤ
read_retries default attempts =
    if not (ltb_ℤ attempts (pos 0)) && not (ltb_ℤ (pos 0) attempts)
    then minus_one default
    else minus_one attempts

-- Whether a number that an option gives is within bounds.
abbrev pub in_bounds : ℤ → ℤ → GoError ⊎ ℤ → Bool
in_bounds least most (inl e) = true
in_bounds least most (inr n) = not (ltb_ℤ n least || ltb_ℤ most n)

in_bounds-bounded :
    (least most : ℤ) (bad : GoError) (read : GoError ⊎ ℤ)
    → in_bounds least most (bounded least most bad read) ≡ true
unfolding bounded
in_bounds-bounded least most bad (inl e) = refl
in_bounds-bounded least most bad (inr n) = elim (Bool-cases (ltb_ℤ n least || ltb_ℤ most n)) [
  | inl out ↦ rw (out, bounded) refl
  | inr fine ↦ rw (fine, bounded) (rw fine refl)
]

in_bounds-bounded_option :
    (name : Text) (default least most : ℤ) (bad : Text → GoError) (options : Assoc Text)
    → not (ltb_ℤ default least || ltb_ℤ most default) ≡ true
    → in_bounds least most (bounded_option name default least most bad options) ≡ true
unfolding bounded_option
in_bounds-bounded_option name default least most bad options d =
    elim (Option-cases (lookup name options)) [
      | inl unset ↦ rw (unset, bounded_option) d
      | inr (v, found) ↦
          rw (found, bounded_option) (in_bounds-bounded least most (bad v) (parse_int v))
    ]

-- Whatever the options are, a part size that is accepted is from 5 MiB to 5 GiB, and a concurrency
-- from 1 to 32.
pub upload_bounds :
    (options : Assoc Text)
    → (in_bounds (pos 5242880) (pos 5368709120) (part_size_option options) ≡ true)
      × (in_bounds (pos 1) (pos 32) (concurrency_option options) ≡ true)
unfolding part_size_option concurrency_option
upload_bounds options = (
  in_bounds-bounded_option (codes "part_size") (pos 8388608) (pos 5242880) (pos 5368709120) _
      options refl,
  in_bounds-bounded_option (codes "concurrency") (pos 4) (pos 1) (pos 32) _ options refl,
)

undo_wrap : (default : ℤ) (n : ℕ) → n < int_bound → read_retries default (plus_one (pos n)) ≡ pos n
unfolding read_retries
undo_wrap default n lt = ground (arith, lt)

attempts_lem : (bad : GoError) (n : ℕ) → attempts_of bad (inr (pos n)) ≡ inr (plus_one (pos n))
unfolding attempts_of
attempts_lem bad n = ground arith

-- A max_retries option that reads as a number that is not negative is accepted, and the retries of
-- a Get's body are that number, also where the addition behind it wraps around.
pub max_attempts-read_retries :
    (default : ℤ) (options : Assoc Text) (v : Text) (n : ℕ)
    → lookup (codes "max_retries") options ≡ some v
    → parse_int v ≡ inr (pos n)
    → n < int_bound
    → (max_attempts options ≡ inr (plus_one (pos n)))
      × (read_retries default (plus_one (pos n)) ≡ pos n)
unfolding max_attempts attempts_of
max_attempts-read_retries default options v n found read lt =
    (rw (found, max_attempts) (rw read (attempts_lem (bad_retries v) n)), undo_wrap default n lt)
