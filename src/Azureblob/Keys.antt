-- ===== src/Azureblob/Keys.antt =====
-- azureblob/keys.go: which keys and container names the provider accepts.
use go_storage.Prelude.{
  ℕ, ◌+◌, ◌≡◌, ◌↔◌, subst, Bool, true, false, not, ◌&&◌, ◌||◌, Option, none, some, List, [], ◌∷◌,
  length, ltb, leb, ◌==◌, if◌then◌else◌, arith,
}
use go_storage.Prelude.Int.{pos}
use go_storage.Prelude.Text.{Text, is_empty}
use go_storage.Prelude.Utf8.{runes}
use go_storage.Errors.{GoError, errorf, int, str, end}

-- `strings.Count(key, "/")`.
unfoldable pub slashes : Text → ℕ
slashes [] = 0
slashes (b ∷ t) = let rest = slashes t in if b == 47 then rest + 1 else rest

-- `unicode.IsControl`.
abbrev pub is_control : ℕ → Bool
is_control r = ltb r 32 || leb 127 r && ltb r 160

unfoldable pub control_error : List (ℕ × ℕ) → Option GoError
control_error [] = none
control_error ((i, r) ∷ rs) =
    let rest = control_error rs in
    if is_control r
    then some (
        errorf "azureblob: key has a control character %U at byte %d"
          (int (pos r) (int (pos i) end)))
    else rest

-- The last byte; 0 of an empty text, which validateKey has refused before it looks.
unfoldable pub last_byte : Text → ℕ
last_byte [] = 0
last_byte (b ∷ []) = b
last_byte (b ∷ c ∷ t) = last_byte (c ∷ t)

-- `strings.SplitSeq(key, "/")`.
unfoldable pub split_slash : Text → List Text
split_slash [] = [] ∷ []
split_slash (b ∷ t) =
    let rest = split_slash t in
    if b == 47 then [] ∷ rest else elim rest [ [] ↦ (b ∷ []) ∷ [] | s ∷ ss ↦ (b ∷ s) ∷ ss ]

unfoldable pub dotted_segment : List Text → Option GoError
unfolding last_byte
dotted_segment [] = none
dotted_segment (s ∷ ss) =
    let rest = dotted_segment ss in
    if last_byte s == 46
    then some (errorf "azureblob: key path segment %q ends in a dot" (str s end))
    else rest

unfoldable pub validate_key : Text → Option GoError
unfolding slashes control_error last_byte split_slash dotted_segment
validate_key key =
    if is_empty key
    then some (errorf "azureblob: empty key" end)
    else if ltb 1024 (length (runes key))
    then some (
        errorf "azureblob: key is %d characters, the limit is %d"
          (int (pos (length (runes key))) (int (pos 1024) end)))
    else if ltb 254 (slashes key + 1)
    then some (
        errorf "azureblob: key has %d path segments, the limit is %d"
          (int (pos (slashes key + 1)) (int (pos 254) end)))
    else elim (control_error (runes key)) [
      | some e ↦ some e
      | none ↦
          if last_byte key == 46 || (last_byte key == 47 || last_byte key == 92)
          then some (errorf "azureblob: key ends in %q" (int (pos (last_byte key)) end))
          else dotted_segment (split_slash key)
    ]

-- The bytes of a-z and 0-9.
abbrev pub is_alnum : ℕ → Bool
is_alnum b = leb 97 b && leb b 122 || leb 48 b && leb b 57

abbrev pub bad_hyphen : Text → GoError
bad_hyphen name =
    errorf "azureblob: container name %q has a hyphen at its start or end or next to another"
      (str name end)

abbrev pub bad_byte : Text → ℕ → GoError
bad_byte name b =
    errorf "azureblob: container name %q has %q; want lowercase letters, digits, and hyphens"
      (str name (int (pos b) end))

-- The loop over the bytes of the name, from the index `i` on, behind the byte `prev`.
unfoldable pub scan : Text → ℕ → ℕ → Text → Option GoError
scan name i prev [] = none
scan name i prev (b ∷ t) =
    let rest = scan name (i + 1) b t in
    if is_alnum b
    then rest
    else if b == 45
    then (if i == 0 || (is_empty t || prev == 45) then some (bad_hyphen name) else rest)
    else some (bad_byte name b)

unfoldable pub validate_container : Text → Option GoError
unfolding scan
validate_container name =
    if ltb (length name) 3 || ltb 63 (length name)
    then some (
        errorf "azureblob: container name %q is %d characters, want %d to %d"
          (str name (int (pos (length name)) (int (pos 3) (int (pos 63) end)))))
    else scan name 0 0 name

-- Words of letters and digits with single hyphens between them. `fresh` says that a word is to
-- begin.
pub words : Bool → Text → Bool
words fresh [] = not fresh
words fresh (b ∷ t) =
    let inside = words false t in
    let between = words true t in if is_alnum b then inside else b == 45 && (not fresh && between)

-- The tests of one byte, a letter or digit (`a`), a hyphen (`h`) that is at an end or behind
-- another (`e`), against those of the words.
agrees :
    (a h e : Bool) (rest : Option GoError) (x y : GoError) (inside between : Bool)
    → (a ≡ true → (rest ≡ none) ↔ (inside ≡ true))
    → (a ≡ false → h ≡ true → e ≡ false → (rest ≡ none) ↔ (between ≡ true))
    → ((if a then rest else if h then (if e then some x else rest) else some y) ≡ none)
      ↔ ((if a then inside else h && (not e && between)) ≡ true)
agrees a h e rest x y inside between p q = ground (arith, p, q)

last_agrees :
    (a h i p fresh : Bool) (x y : GoError)
    → ((if a then none else if h then (if i || (true || p) then some x else none) else some y)
        ≡ none)
      ↔ ((if a then true else h && (not fresh && false)) ≡ true)
last_agrees a h i p fresh x y = ground arith

alnum_lem : (i b : ℕ) → is_alnum b ≡ true → (i + 1 == 0 || b == 45) ≡ false
alnum_lem i b a = ground arith

hyphen_lem : (i b : ℕ) → (b == 45) ≡ true → (i + 1 == 0 || b == 45) ≡ true
hyphen_lem i b a = ground arith

scan-words :
    (name : Text) (i prev b : ℕ) (t : Text)
    → (scan name i prev (b ∷ t) ≡ none) ↔ (words (i == 0 || prev == 45) (b ∷ t) ≡ true)
unfolding scan words is_empty
scan-words name i prev b [] =
    last_agrees (is_alnum b) (b == 45) (i == 0) (prev == 45) (i == 0 || prev == 45)
      (bad_hyphen name) (bad_byte name b)
scan-words name i prev b (c ∷ t) =
    agrees (is_alnum b) (b == 45) (i == 0 || prev == 45) (scan name (i + 1) b (c ∷ t))
      (bad_hyphen name) (bad_byte name b) (words false (c ∷ t)) (words true (c ∷ t))
      (λ a. subst Same (alnum_lem i b a) (scan-words name (i + 1) b c t))
      (λ _ h _. subst Same (hyphen_lem i b h) (scan-words name (i + 1) b c t))
  where
    Same : Bool → Type 0
    Same fresh = (scan name (i + 1) b (c ∷ t) ≡ none) ↔ (words fresh (c ∷ t) ≡ true)

-- A container name is accepted exactly if it has 3 to 63 bytes and consists of words of lowercase
-- letters and digits with single hyphens between them.
pub validate_container-words :
    (name : Text)
    → (validate_container name ≡ none)
      ↔ ((leb 3 (length name) && leb (length name) 63 && words true name) ≡ true)
unfolding validate_container
validate_container-words [] = ground arith
validate_container-words (b ∷ t) = ground (arith, scan-words (b ∷ t) 0 0 b t)
