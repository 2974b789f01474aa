-- ===== src/S3/Keys.antt =====
-- s3/keys.go: which keys and bucket names the provider accepts.
pub mod Accepted
use go_storage.Prelude.{
  ℕ, ◌+◌, ◌-◌, ◌*◌, ◌≡◌, ◌≤◌, refl, Bool, true, false, not, ◌&&◌, ◌||◌, Option, none, some, List,
  [], ◌∷◌, length, drop, ltb, leb, ◌==◌, if◌then◌else◌, arith,
}
use go_storage.Prelude.Int.{pos}
use go_storage.Prelude.Text.{Text, codes, is_empty, has_prefix, text_eq}
use go_storage.Prelude.Utf8.{valid_utf8}
use go_storage.Errors.{GoError, errorf, int, str, end}

unfoldable pub validate_key : Text → Option GoError
validate_key key =
    if is_empty key
    then some (errorf "s3: empty key" end)
    else if ltb 1024 (length key)
    then some (
        errorf "s3: key is %d bytes, the limit is %d" (int (pos (length key)) (int (pos 1024) end)))
    else if not (valid_utf8 key)
    then some (errorf "s3: key is not valid UTF-8" end)
    else none

-- The bytes of a-z and 0-9.
abbrev pub is_alnum : ℕ → Bool
is_alnum b = leb 97 b && leb b 122 || leb 48 b && leb b 57

-- A dot or a hyphen.
abbrev pub is_mark : ℕ → Bool
is_mark b = b == 45 || b == 46

abbrev pub bad_end : Text → GoError
bad_end name = errorf "s3: bucket name %q must start and end with a letter or digit" (str name end)

abbrev pub bad_byte : Text → ℕ → GoError
bad_byte name b =
    errorf "s3: bucket name %q has %q; want lowercase letters, digits, dots, and hyphens"
      (str name (int (pos b) end))

-- The loop over the bytes of the name, from the index `i` on.
unfoldable pub scan : Text → ℕ → Text → Option GoError
scan name i [] = none
scan name i (b ∷ t) =
    let rest = scan name (i + 1) t in
    if is_alnum b
    then rest
    else if is_mark b
    then (if i == 0 || is_empty t then some (bad_end name) else rest)
    else some (bad_byte name b)

-- `strings.Contains(name, "..")`.
unfoldable pub has_dots : Text → Bool
has_dots [] = false
has_dots (b ∷ t) = has_prefix (b ∷ t) (codes "..") || has_dots t

-- Whether `netip.ParseAddr` reads the rest of an IPv4 address, behind some fields, with the value
-- and the number of the digits of the current one. A field is at most 255 and has no leading zero.
unfoldable pub ipv4_from : ℕ → ℕ → ℕ → Text → Bool
ipv4_from fields value digits [] = fields == 3 && ltb 0 digits
ipv4_from fields value digits (b ∷ t) =
    let more = ipv4_from fields (10 * value + (b - 48)) (digits + 1) t in
    let next = ipv4_from (fields + 1) 0 0 t in
    if leb 48 b && leb b 57
    then not (digits == 1 && value == 0) && (leb (10 * value + (b - 48)) 255 && more)
    else b == 46 && (ltb 0 digits && (ltb fields 3 && next))

-- `strings.HasSuffix`.
abbrev pub has_suffix : Text → Text → Bool
has_suffix s t = leb (length t) (length s) && text_eq (drop (length s - length t) s) t

abbrev pub reserved_prefixes : List Text
reserved_prefixes = codes "xn--" ∷ codes "sthree-" ∷ codes "amzn-s3-demo-" ∷ []

abbrev pub reserved_suffixes : List Text
reserved_suffixes =
    codes "-s3alias" ∷ codes "--ol-s3" ∷ codes ".mrap" ∷ codes "--x-s3" ∷ codes "--table-s3" ∷ []

unfoldable pub reserved_suffix : Text → List Text → Option GoError
reserved_suffix name [] = none
reserved_suffix name (s ∷ ss) =
    let rest = reserved_suffix name ss in
    if has_suffix name s
    then some (errorf "s3: bucket name %q has the reserved suffix %q" (str name (str s end)))
    else rest

unfoldable pub reserved_prefix : Text → List Text → Option GoError
reserved_prefix name [] = reserved_suffix name reserved_suffixes
reserved_prefix name (p ∷ ps) =
    let rest = reserved_prefix name ps in
    if has_prefix name p
    then some (errorf "s3: bucket name %q has the reserved prefix %q" (str name (str p end)))
    else rest

unfoldable pub validate_bucket : Text → Option GoError
unfolding scan
validate_bucket name =
    if ltb (length name) 3 || ltb 63 (length name)
    then some (
        errorf "s3: bucket name %q is %d characters, want %d to %d"
          (str name (int (pos (length name)) (int (pos 3) (int (pos 63) end)))))
    else elim (scan name 0 name) [
      | some e ↦ some e
      | none ↦
          if has_dots name
          then some (errorf "s3: bucket name %q has two dots together" (str name end))
          else if ipv4_from 0 0 0 name
          then some (errorf "s3: bucket name %q is shaped like an IP address" (str name end))
          else reserved_prefix name reserved_prefixes
    ]

-- Letters, digits, dots and hyphens, the last one a letter or a digit.
pub ends_alnum : Text → Bool
ends_alnum [] = true
ends_alnum (b ∷ []) = is_alnum b
ends_alnum (b ∷ c ∷ t) = (is_alnum b || is_mark b) && ends_alnum (c ∷ t)

abbrev pub starts_alnum : Text → Bool
starts_alnum [] = true
starts_alnum (b ∷ t) = is_alnum b

-- What the loop's tests of one byte come to: a letter or digit (`a`), or a mark (`m`) that is not
-- at an end (`e`).
accepted :
    (a m e : Bool) (rest : Option GoError) (x y : GoError)
    → (if a then rest else if m then (if e then some x else rest) else some y) ≡ none
    → ((a || m && not e) ≡ true) × (rest ≡ none)
accepted a m e rest x y h = (ground (arith, h), ground (arith, h))

scan_lem :
    (name : Text) (i b : ℕ) (t : Text)
    → scan name i (b ∷ t) ≡ none
    → ((is_alnum b || is_mark b && not (i == 0 || is_empty t)) ≡ true)
      × (scan name (i + 1) t ≡ none)
unfolding scan
scan_lem name i b t h =
    accepted (is_alnum b) (is_mark b) (i == 0 || is_empty t) (scan name (i + 1) t) (bad_end name)
      (bad_byte name b) h

inner :
    (a m e z : Bool)
    → (a || m && not (e || z)) ≡ true
    → ((a || m) ≡ true) × (z ≡ true → a ≡ true) × (e ≡ true → a ≡ true)
inner a m e z h = (ground arith, ground arith, ground arith)

both : (a b : Bool) → a ≡ true → b ≡ true → (a && b) ≡ true
both a b h k = ground arith

scan-inside : (name : Text) (i : ℕ) (t : Text) → scan name i t ≡ none → ends_alnum t ≡ true
unfolding ends_alnum is_empty
scan-inside name i [] h = refl
scan-inside name i (b ∷ []) h =
    (inner (is_alnum b) (is_mark b) (i == 0) true (scan_lem name i b [] h).0).1 refl
scan-inside name i (b ∷ c ∷ t) h =
    both _ _ (inner (is_alnum b) (is_mark b) (i == 0) false (scan_lem name i b (c ∷ t) h).0).0
      (scan-inside name (i + 1) (c ∷ t) (scan_lem name i b (c ∷ t) h).1)

scan-start : (name t : Text) → scan name 0 t ≡ none → starts_alnum t ≡ true
scan-start name [] h = refl
scan-start name (b ∷ t) h =
    (inner (is_alnum b) (is_mark b) true (is_empty t) (scan_lem name 0 b t h).0).2 refl

pub scan-whole : (name t : Text) → scan name 0 t ≡ none → (starts_alnum t && ends_alnum t) ≡ true
scan-whole name t h = both _ _ (scan-start name t h) (scan-inside name 0 t h)
