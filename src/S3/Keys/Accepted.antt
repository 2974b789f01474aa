-- ===== src/S3/Keys/Accepted.antt =====
-- s3/keys.go: what an accepted bucket name looks like.
use go_storage.Prelude.{
  ℕ, suc, ◌+◌, ◌-◌, ◌*◌, ◌≡◌, ◌≢◌, ◌≤◌, ◌<◌, ◌⊎◌, refl, sym, ap, ◌∙◌, Bool, true, false, ◌&&◌, ◌||◌,
  none, List, [], ◌∷◌, ◌++◌, length, length-append, drop, ◌==◌, arith,
}
use go_storage.Prelude.Text.{Text, codes, has_prefix, text_eq_refl}
use go_storage.S3.Keys.{
  is_alnum, is_mark, has_dots, ipv4_from, has_suffix, reserved_prefix, reserved_suffix,
  reserved_prefixes, reserved_suffixes, validate_bucket, ends_alnum, starts_alnum, scan-whole,
}

-- a-z or 0-9.
abbrev pub IsAlnum : ℕ → Type 0
IsAlnum b = ((97 ≤ b) × (b ≤ 122)) ⊎ ((48 ≤ b) × (b ≤ 57))

-- A decimal number from 0 to 255 without a leading zero, by its digits.
pub data Octet : Type 0 where
  ones : (d : ℕ) → d < 10 → Octet
  tens : (a b : ℕ) → 0 < a → a < 10 → b < 10 → Octet
  hundreds : (a b c : ℕ) → 0 < a → b < 10 → c < 10 → 100 * a + (10 * b + c) ≤ 255 → Octet

pub digits : Octet → Text
digits (ones d _) = (48 + d) ∷ []
digits (tens a b _ _ _) = (48 + a) ∷ (48 + b) ∷ []
digits (hundreds a b c _ _ _ _) = (48 + a) ∷ (48 + b) ∷ (48 + c) ∷ []

alnum_lem : (b : ℕ) → is_alnum b ≡ true → IsAlnum b
alnum_lem b h = ground (arith, h)

byte_lem : (b : ℕ) → (is_alnum b || is_mark b) ≡ true → IsAlnum b ⊎ ((b ≡ 45) ⊎ (b ≡ 46))
byte_lem b h = ground (arith, h)

and_true : {a b : Bool} → (a && b) ≡ true → (a ≡ true) × (b ≡ true)
and_true h = (ground (arith, h), ground (arith, h))

last_alnum : (s : Text) (b : ℕ) → ends_alnum (s ++ (b ∷ [])) ≡ true → is_alnum b ≡ true
unfolding ends_alnum
last_alnum [] b h = h
last_alnum (c ∷ []) b h = ground (arith, h)
last_alnum (c ∷ d ∷ s) b h = last_alnum (d ∷ s) b (ground (arith, h))

each_byte :
    (s : Text) (b : ℕ) (t : Text)
    → ends_alnum (s ++ (b ∷ t)) ≡ true
    → (is_alnum b || is_mark b) ≡ true
unfolding ends_alnum
each_byte [] b [] h = ground (arith, h)
each_byte [] b (c ∷ t) h = ground (arith, h)
each_byte (c ∷ []) b t h = each_byte [] b t (ground (arith, h))
each_byte (c ∷ d ∷ s) b t h = each_byte (d ∷ s) b t (ground (arith, h))

has_prefix-append : (p t : Text) → has_prefix (p ++ t) p ≡ true
unfolding has_prefix
has_prefix-append [] t = refl
has_prefix-append (b ∷ p) t = ground (arith, has_prefix-append p t)

has_dots-append : (s t : Text) → has_dots (s ++ (codes ".." ++ t)) ≡ true
unfolding has_dots has_prefix
has_dots-append [] t = refl
has_dots-append (b ∷ s) t = ground (arith, has_dots-append s t)

drop-append : (s t : Text) → drop (length s) (s ++ t) ≡ t
drop-append [] t = refl
drop-append (b ∷ s) t = drop-append s t

has_suffix-append : (t s : Text) → has_suffix (t ++ s) s ≡ true
has_suffix-append t s = rw (at_end, text_eq_refl s) (ground (arith, length-append t s))
  where
    at_end : drop (length (t ++ s) - length s) (t ++ s) ≡ s
    at_end = ap (λ n. drop n (t ++ s)) (omega (arith, length-append t s)) ∙ drop-append t s

-- The parse of one digit.
digit_lem :
    (fields value k d next : ℕ) (t : Text)
    → d < 10
    → (k == 1 && value == 0) ≡ false
    → next ≡ 10 * value + d
    → next ≤ 255
    → ipv4_from fields value k ((48 + d) ∷ t) ≡ ipv4_from fields next (k + 1) t
unfolding ipv4_from
digit_lem fields value k d next t lt fine e most =
    ground (arith, same, ap (λ v. ipv4_from fields v (k + 1) t) same)
  where
    same : 10 * value + (48 + d - 48) ≡ next
    same = omega arith

-- The parse of one number.
digits_lem :
    (fields : ℕ) (o : Octet) (t : Text)
    → (v k : ℕ) × (ipv4_from fields 0 0 (digits o ++ t) ≡ ipv4_from fields v (suc k) t)
unfolding digits
digits_lem fields (ones d lt) t =
    (_, _, digit_lem fields 0 0 d d t lt refl (omega arith) (omega arith))
digits_lem fields (tens a b more la lb) t = (
  _,
  _,
  digit_lem fields 0 0 a a _ la refl (omega arith) (omega arith)
      ∙ digit_lem fields a 1 b (10 * a + b) t lb (ground arith) refl (omega arith),
)
digits_lem fields (hundreds a b c more lb lc most) t = (
  _,
  _,
  digit_lem fields 0 0 a a _ (omega arith) refl (omega arith) (omega arith)
      ∙ digit_lem fields a 1 b (10 * a + b) _ lb (ground arith) refl (omega arith)
      ∙ digit_lem fields (10 * a + b) 2 c (10 * (10 * a + b) + c) t lc refl refl (omega arith),
)

-- A number with a dot behind it.
dot_lem :
    (fields : ℕ) (o : Octet) (t : Text)
    → fields < 3
    → ipv4_from fields 0 0 (digits o ++ (46 ∷ t)) ≡ ipv4_from (fields + 1) 0 0 t
unfolding ipv4_from
dot_lem fields o t lt = let (v, k, e) = digits_lem fields o (46 ∷ t) in e ∙ ground arith

-- Four numbers with dots between them.
abbrev pub dotted : Octet → Octet → Octet → Octet → Text
dotted w x y z = digits w ++ (46 ∷ (digits x ++ (46 ∷ (digits y ++ (46 ∷ (digits z ++ []))))))

ipv4_from-dotted : (w x y z : Octet) → ipv4_from 0 0 0 (dotted w x y z) ≡ true
unfolding ipv4_from
ipv4_from-dotted w x y z =
    let (v, k, e) = digits_lem 3 z [] in
    dot_lem 0 w _ (omega arith)
    ∙ dot_lem 1 x _ (omega arith)
    ∙ dot_lem 2 y _ (omega arith)
    ∙ e
    ∙ ground arith

absent : {b : Bool} → b ≡ false → b ≡ true → ⊥
absent p q = cc

not_prefixed :
    (name : Text) (p : Text) (ps : List Text)
    → reserved_prefix name (p ∷ ps) ≡ none
    → (has_prefix name p ≡ false) × (reserved_prefix name ps ≡ none)
unfolding reserved_prefix
not_prefixed name p ps h = (ground (arith, h), ground (arith, h))

not_suffixed :
    (name : Text) (s : Text) (ss : List Text)
    → reserved_suffix name (s ∷ ss) ≡ none
    → (has_suffix name s ≡ false) × (reserved_suffix name ss ≡ none)
unfolding reserved_suffix
not_suffixed name s ss h = (ground (arith, h), ground (arith, h))

-- What a name does not begin with and does not end in.
abbrev pub Avoids : Text → Text → Type 0
Avoids name p = (t : Text) → name ≢ p ++ t

abbrev pub AvoidsEnd : Text → Text → Type 0
AvoidsEnd name s = (t : Text) → name ≢ t ++ s

avoids : (name p : Text) → has_prefix name p ≡ false → Avoids name p
avoids name p h t e = absent h (ap (λ n. has_prefix n p) e ∙ has_prefix-append p t)

avoids_end : (name s : Text) → has_suffix name s ≡ false → AvoidsEnd name s
avoids_end name s h t e = absent h (ap (λ n. has_suffix n s) e ∙ has_suffix-append t s)

-- An accepted bucket name, in terms of the bytes alone.
pub record AcceptedName (name : Text) : Type 0 where
  pub least : 3 ≤ length name
  pub most : length name ≤ 63
  pub first : (b : ℕ) (t : Text) → name ≡ b ∷ t → IsAlnum b
  pub last : (s : Text) (b : ℕ) → name ≡ s ++ (b ∷ []) → IsAlnum b
  pub bytes :
      (s : Text) (b : ℕ) (t : Text) → name ≡ s ++ (b ∷ t) → IsAlnum b ⊎ ((b ≡ 45) ⊎ (b ≡ 46))
  pub no_dots : (s t : Text) → name ≢ s ++ (codes ".." ++ t)
  pub no_address : (w x y z : Octet) → name ≢ dotted w x y z
  pub prefixes :
      Avoids name (codes "xn--")
      × Avoids name (codes "sthree-")
      × Avoids name (codes "amzn-s3-demo-")
  pub suffixes :
      AvoidsEnd name (codes "-s3alias")
      × AvoidsEnd name (codes "--ol-s3")
      × AvoidsEnd name (codes ".mrap")
      × AvoidsEnd name (codes "--x-s3")
      × AvoidsEnd name (codes "--table-s3")

-- What the tests of the code say of an accepted name.
tests :
    (name : Text)
    → validate_bucket name ≡ none
    → (3 ≤ length name)
      × (length name ≤ 63)
      × ((starts_alnum name && ends_alnum name) ≡ true)
      × (has_dots name ≡ false)
      × (ipv4_from 0 0 0 name ≡ false)
      × (reserved_prefix name reserved_prefixes ≡ none)
unfolding validate_bucket
tests name h = (
  ground arith,
  ground arith,
  ground (arith, scan-whole name name),
  ground arith,
  ground arith,
  ground (arith, h),
)

prefixes_lem :
    (name : Text)
    → reserved_prefix name reserved_prefixes ≡ none
    → (has_prefix name (codes "xn--") ≡ false)
      × (has_prefix name (codes "sthree-") ≡ false)
      × (has_prefix name (codes "amzn-s3-demo-") ≡ false)
      × (reserved_suffix name reserved_suffixes ≡ none)
unfolding reserved_prefix
prefixes_lem name h =
    let (a, h1) = not_prefixed name (codes "xn--") (drop 1 reserved_prefixes) h in
    let (b, h2) = not_prefixed name (codes "sthree-") (drop 2 reserved_prefixes) h1 in
    let (c, h3) = not_prefixed name (codes "amzn-s3-demo-") [] h2 in (a, b, c, h3)

suffixes_lem :
    (name : Text)
    → reserved_suffix name reserved_suffixes ≡ none
    → AvoidsEnd name (codes "-s3alias")
      × AvoidsEnd name (codes "--ol-s3")
      × AvoidsEnd name (codes ".mrap")
      × AvoidsEnd name (codes "--x-s3")
      × AvoidsEnd name (codes "--table-s3")
suffixes_lem name h =
    let (a, h1) = not_suffixed name (codes "-s3alias") (drop 1 reserved_suffixes) h in
    let (b, h2) = not_suffixed name (codes "--ol-s3") (drop 2 reserved_suffixes) h1 in
    let (c, h3) = not_suffixed name (codes ".mrap") (drop 3 reserved_suffixes) h2 in
    let (d, h4) = not_suffixed name (codes "--x-s3") (drop 4 reserved_suffixes) h3 in
    let (e, h5) = not_suffixed name (codes "--table-s3") (drop 5 reserved_suffixes) h4 in
    (
      avoids_end name _ a,
      avoids_end name _ b,
      avoids_end name _ c,
      avoids_end name _ d,
      avoids_end name _ e,
    )

first_alnum : (b : ℕ) (t : Text) → starts_alnum (b ∷ t) ≡ true → is_alnum b ≡ true
first_alnum b t h = h

-- A bucket name that is accepted has 3 to 63 bytes, each of them a letter a-z, a digit, a dot or a
-- hyphen, the first and the last a letter or a digit. Nowhere in it are two dots together; it is
-- not four numbers from 0 to 255, without leading zeros, with dots between them; and it has none of
-- the reserved prefixes and suffixes.
pub validate_bucket-AcceptedName : (name : Text) → validate_bucket name ≡ none → AcceptedName name
validate_bucket-AcceptedName name h =
    let (least, most, ends, dots, address, free) = tests name h in
    let (p, q, r, rest) = prefixes_lem name free in
    record {
      least = least;
      most = most;
      first = λ b t e. alnum_lem b (first_alnum b t (ap starts_alnum (sym e) ∙ (and_true ends).0));
      last = λ s b e. alnum_lem b (last_alnum s b (ap ends_alnum (sym e) ∙ (and_true ends).1));
      bytes = λ s b t e. byte_lem b (each_byte s b t (ap ends_alnum (sym e) ∙ (and_true ends).1));
      no_dots = λ s t e. absent dots (ap has_dots e ∙ has_dots-append s t);
      no_address = λ w x y z e. absent address (ap (ipv4_from 0 0 0) e ∙ ipv4_from-dotted w x y z);
      prefixes = (avoids name _ p, avoids name _ q, avoids name _ r);
      suffixes = suffixes_lem name rest;
    }
