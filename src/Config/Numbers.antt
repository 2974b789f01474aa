-- ===== src/Config/Numbers.antt =====
-- `strconv.ParseInt(s, 10, 64)` and `strconv.Atoi`, where an int has 64 bits.
use go_storage.Prelude.{
  ℕ, zero, suc, ◌+◌, ◌-◌, ◌*◌, Bool, true, false, ◌&&◌, Option, none, some, ◌⊎◌, inl, inr, [], ◌∷◌,
  leb, ltb, ◌==◌, if◌then◌else◌,
}
use go_storage.Prelude.Int.{ℤ, pos, negsuc}
use go_storage.Prelude.Text.{Text}
use go_storage.Errors.{GoError, errorf, str, end}

-- The value of decimal digits behind those read so far; none where another byte stands.
unfoldable pub digits : ℕ → Text → Option ℕ
digits n [] = some n
digits n (b ∷ t) =
    let rest = digits (10 * n + (b - 48)) t in if leb 48 b && leb b 57 then rest else none

unfoldable pub number : Text → Option ℕ
unfolding digits
number [] = none
number (b ∷ t) = digits 0 (b ∷ t)

abbrev pub syntax_error : Text → GoError
syntax_error s = errorf "strconv: parsing %q: invalid syntax" (str s end)

abbrev pub range_error : Text → GoError
range_error s = errorf "strconv: parsing %q: value out of range" (str s end)

abbrev pub negated : ℕ → ℤ
negated zero = pos 0
negated (suc n) = negsuc n

-- 2^63.
abbrev pub int_bound : ℕ
int_bound = 9223372036854775808

unfoldable pub in_range : Text → Bool → Option ℕ → GoError ⊎ ℤ
in_range s minus none = inl (syntax_error s)
in_range s false (some n) = if ltb n int_bound then inr (pos n) else inl (range_error s)
in_range s true (some n) = if leb n int_bound then inr (negated n) else inl (range_error s)

-- A sign is allowed.
unfoldable pub parse_int : Text → GoError ⊎ ℤ
unfolding number in_range
parse_int [] = inl (syntax_error [])
parse_int (b ∷ t) =
    if b == 45
    then in_range (b ∷ t) true (number t)
    else if b == 43
    then in_range (b ∷ t) false (number t)
    else in_range (b ∷ t) false (number (b ∷ t))
