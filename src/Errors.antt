-- ===== src/Errors.antt =====
-- Go's error values (errors.go, and the standard library's errors that the code tests for):
-- `errors.Is`, and the dual form `fmt.Errorf("%w: %w", sentinel, err)` that classifies a cause.
pub mod Classes
use text.Mathlib.Text.{◌==◌ as str_eq}
use text.Mathlib.TextPositions.{eq_refl}
use go_storage.Prelude.{
  ℕ, String, ◌≡◌, refl, Bool, true, false, ◌&&◌, ◌||◌, Option, none, some, ◌==◌, ◌⊎◌, inl, inr,
  arith,
}
use go_storage.Prelude.Int.{ℤ, pos, negsuc}
use go_storage.Prelude.Text.{Text, text_eq, text_eq_refl}

-- The package variables that the code compares with.
pub data Sentinel : Type 0 where
  not_found container_not_found too_large not_ready unavailable : Sentinel
  eof unexpected_eof canceled deadline_exceeded : Sentinel
  down no_such_key no_such_container body_closed : Sentinel

-- An error that the code makes is its format and its operands. `foreign` is any other error, with
-- a number that identifies it and what it wraps; `response` is one that carries a service's
-- answer: its HTTP status (0 where no answer came), its error code, and what it wraps.
mutual
  pub data GoError : Type 0 where
    sentinel : Sentinel → GoError
    errorf : String → Operands → GoError
    foreign : ℕ → Operands → GoError
    response : ℕ → String → Operands → GoError

  pub data Operands : Type 0 where
    end : Operands
    int : ℤ → Operands → Operands
    str : Text → Operands → Operands
    shown : GoError → Operands → Operands
    wrapped : GoError → Operands → Operands

abbrev code_of : Sentinel → ℕ
code_of not_found = 0
code_of container_not_found = 1
code_of too_large = 2
code_of not_ready = 3
code_of unavailable = 4
code_of eof = 5
code_of unexpected_eof = 6
code_of canceled = 7
code_of deadline_exceeded = 8
code_of down = 9
code_of no_such_key = 10
code_of no_such_container = 11
code_of body_closed = 12

abbrev int_eq : ℤ → ℤ → Bool
int_eq (pos m) (pos n) = m == n
int_eq (negsuc m) (negsuc n) = m == n
int_eq (pos m) (negsuc n) = false
int_eq (negsuc m) (pos n) = false

-- Go's `==` on errors, which compares addresses: here two errors that are made by the same
-- format from the same operands are one.
unfoldable mutual
  pub same : GoError → GoError → Bool
  same (sentinel s) (sentinel t) = code_of s == code_of t
  same (errorf f xs) (errorf g ys) = str_eq f g && same_operands xs ys
  same (foreign m xs) (foreign n ys) = m == n && same_operands xs ys
  same (response m c xs) (response n d ys) = (m == n && str_eq c d) && same_operands xs ys
  same _ _ = false

  pub same_operands : Operands → Operands → Bool
  same_operands end end = true
  same_operands (int m xs) (int n ys) = int_eq m n && same_operands xs ys
  same_operands (str s xs) (str t ys) = text_eq s t && same_operands xs ys
  same_operands (shown d xs) (shown e ys) = same d e && same_operands xs ys
  same_operands (wrapped d xs) (wrapped e ys) = same d e && same_operands xs ys
  same_operands _ _ = false

-- `errors.Is(err, target)`: the error itself, or an error that it wraps, equals the target. What a
-- format only shows (%v) is not wrapped.
unfoldable mutual
  unfolding same

  pub is : GoError → GoError → Bool
  is (sentinel s) target = same (sentinel s) target
  is (errorf f xs) target = same (errorf f xs) target || is_wrapped xs target
  is (foreign n xs) target = same (foreign n xs) target || is_wrapped xs target
  is (response n c xs) target = same (response n c xs) target || is_wrapped xs target

  pub is_wrapped : Operands → GoError → Bool
  is_wrapped end target = false
  is_wrapped (int n xs) target = is_wrapped xs target
  is_wrapped (str s xs) target = is_wrapped xs target
  is_wrapped (shown e xs) target = is_wrapped xs target
  is_wrapped (wrapped e xs) target = is e target || is_wrapped xs target

-- `fmt.Errorf("%w: %w", s, err)`, the form in which errors.go has a cause classified.
abbrev pub classified : Sentinel → GoError → GoError
classified s e = errorf "%w: %w" (wrapped (sentinel s) (wrapped e end))

-- `errors.Is(err, target)` where `err` may be nil.
abbrev pub is_some : Option GoError → GoError → Bool
is_some none target = false
is_some (some e) target = is e target

mutual
  unfolding same

  pub same_refl : (e : GoError) → same e e ≡ true
  same_refl (sentinel s) = ground arith
  same_refl (errorf f xs) = rw (eq_refl f, same_operands_refl xs)
  same_refl (foreign n xs) = ground (arith, same_operands_refl xs)
  same_refl (response n c xs) = ground (arith, same_operands_refl xs, eq_refl c)

  same_operands_refl : (xs : Operands) → same_operands xs xs ≡ true
  same_operands_refl end = refl
  same_operands_refl (int n xs) = ground (arith, same_operands_refl xs)
  same_operands_refl (str s xs) = ground (arith, text_eq_refl s, same_operands_refl xs)
  same_operands_refl (shown e xs) = ground (arith, same_refl e, same_operands_refl xs)
  same_operands_refl (wrapped e xs) = ground (arith, same_refl e, same_operands_refl xs)

-- Every error matches itself.
pub is_refl : (e : GoError) → is e e ≡ true
unfolding is
is_refl (sentinel s) = same_refl (sentinel s)
is_refl (errorf f xs) = ground (arith, same_refl (errorf f xs))
is_refl (foreign n xs) = ground (arith, same_refl (foreign n xs))
is_refl (response n c xs) = ground (arith, same_refl (response n c xs))

-- A classified cause matches its sentinel, and whatever the cause matches.
pub is-classified :
    (s : Sentinel) (e : GoError)
    → (is (classified s e) (sentinel s) ≡ true)
      × ((target : GoError) → is e target ≡ true → is (classified s e) target ≡ true)
unfolding is
is-classified s e = (ground (arith, same_refl (sentinel s)), λ target h. ground arith)

-- Go's `err == io.EOF`.
pub same_eof : (e : GoError) → same e (sentinel eof) ≡ true → e ≡ sentinel eof
unfolding same
same_eof (sentinel eof) h = refl
same_eof (sentinel not_found) h = cc
same_eof (sentinel _) h = cc
same_eof _ h = cc

-- `if err != nil { return nil, err }` between two steps.
abbrev pub on_success : {A B : Type 0} → GoError ⊎ A → (A → GoError ⊎ B) → GoError ⊎ B
on_success (inl e) f = inl e
on_success (inr a) f = f a

pub on_success-inr :
    {A B : Type 0} (x : GoError ⊎ A) (f : A → GoError ⊎ B) (b : B)
    → on_success x f ≡ inr b
    → (a : A) × (x ≡ inr a) × (f a ≡ inr b)
on_success-inr (inl e) f b h = cc
on_success-inr (inr a) f b h = (a, refl, h)
