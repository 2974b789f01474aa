-- ===== src/Config/Options.antt =====
-- Which options the environment can set.
use go_storage.Prelude.{
  ◌≡◌, ◌≢◌, ◌⊎◌, inl, inr, refl, sym, ◌∙◌, Bool, true, false, not, ◌&&◌, ◌||◌, some, Option-cases,
  Bool-cases, List, [], ◌∷◌, length, drop, arith, ℕ, leb, ◌==◌, ◌++◌,
}
use go_storage.Prelude.Text.{Text, codes, is_empty, has_prefix, text_eq, eq_of_text_eq}
use go_storage.Prelude.Assoc.{Assoc, lookup, insert, lookup-insert}
use go_storage.Config.{
  Config, option_key, all_option_bytes, is_option_byte, lower_byte, to_lower, option_entry,
  set_options, cut, apply_options_env,
}

-- The bytes of a-z, 0-9 and the underscore.
abbrev pub is_lower_byte : ℕ → Bool
is_lower_byte b = leb 97 b && leb b 122 || leb 48 b && leb b 57 || b == 95

pub all_lower : Text → Bool
all_lower [] = true
all_lower (b ∷ t) = is_lower_byte b && all_lower t

lower-byte : (b : ℕ) → is_option_byte b ≡ true → is_lower_byte (lower_byte b) ≡ true
lower-byte b h = ground arith

all_lower-to_lower : (t : Text) → all_option_bytes t ≡ true → all_lower (to_lower t) ≡ true
unfolding all_lower to_lower all_option_bytes
all_lower-to_lower [] h = refl
all_lower-to_lower (b ∷ t) h = ground (arith, lower-byte b, all_lower-to_lower t)

-- An option that differs from what it was has a key of these bytes that is not empty, and a value
-- that is not empty.
abbrev pub Changes : Text → Assoc Text → Assoc Text → Type 0
Changes k m n =
    (lookup k n ≡ lookup k m)
    ⊎ ((all_lower k ≡ true) × (is_empty k ≡ false) × (lookup k n ≢ some []))

is_empty-to_lower : (t : Text) → is_empty (to_lower t) ≡ is_empty t
unfolding is_empty to_lower
is_empty-to_lower [] = refl
is_empty-to_lower (b ∷ t) = refl

-- What an insertion of an accepted option does.
insert-Changes :
    (name v k : Text) (m : Assoc Text)
    → is_empty v ≡ false
    → option_key name ≡ true
    → Changes k m (insert (to_lower name) v m)
unfolding option_key is_empty
insert-Changes name [] k m full ok = absurd (cc)
insert-Changes name (b ∷ v) k m full ok = elim (Bool-cases (text_eq (to_lower name) k)) [
  | inr miss ↦ inl (ground (arith, lookup-insert (to_lower name) k (b ∷ v) m))
  | inl hit ↦ inr (
    rw (← eq_of_text_eq (to_lower name) k hit) (all_lower-to_lower name (ground arith)),
    rw (← eq_of_text_eq (to_lower name) k hit) (is_empty-to_lower name ∙ ground arith),
    λ e. cc (sym e ∙ written hit),
  )
]
  where
    written :
        text_eq (to_lower name) k ≡ true
        → lookup k (insert (to_lower name) (b ∷ v) m) ≡ some (b ∷ v)
    written hit = ground (arith, lookup-insert (to_lower name) k (b ∷ v) m)

option_entry-Changes :
    (prefix name v k : Text) (m : Assoc Text) → Changes k m (option_entry prefix (name, v) m)
unfolding option_entry
option_entry-Changes prefix name v k m =
    elim (Bool-cases (is_empty v || not (has_prefix name prefix))) [
      | inl skip ↦ rw (skip, option_entry) (inl refl)
      | inr taken ↦ elim (Bool-cases (option_key (drop (length prefix) name))) [
        | inr bad ↦ rw (taken, bad, option_entry) (inl refl)
        | inl good ↦
            rw (taken, good, option_entry)
              (insert-Changes (drop (length prefix) name) v k m (ground arith) good)
      ]
    ]

Changes-trans : (k : Text) (a b c : Assoc Text) → Changes k a b → Changes k b c → Changes k a c
Changes-trans k a b c x (inr y) = inr y
Changes-trans k a b c (inl p) (inl q) = inl (q ∙ p)
Changes-trans k a b c (inr (p, q, n)) (inl e) = inr (p, q, λ z. n (sym e ∙ z))

set_options-Changes :
    (prefix k : Text) (environ : List Text) (m : Assoc Text)
    → Changes k m (set_options prefix environ m)
unfolding set_options
set_options-Changes prefix k [] m = inl refl
set_options-Changes prefix k (kv ∷ kvs) m = elim (Option-cases (cut kv)) [
  | inl whole ↦ rw (whole, set_options) (set_options-Changes prefix k kvs m)
  | inr ((name, v), parts) ↦
      rw (parts, set_options)
        (Changes-trans k m (option_entry prefix (name, v) m) _
          (option_entry-Changes prefix name v k m)
          (set_options-Changes prefix k kvs (option_entry prefix (name, v) m)))
]

-- Whatever the environment holds, an option that applyOptionsEnv changes has a key that is not
-- empty and is made of a-z, 0-9 and the underscore, and does not get an empty value; without a
-- prefix for the options nothing changes.
pub apply_options_env-Changes :
    (environ : List Text) (c : Config) (k : Text)
    → Changes k c.options (apply_options_env environ c).options
      × (is_empty c.env.options ≡ true → apply_options_env environ c ≡ c)
unfolding apply_options_env
apply_options_env-Changes environ c k = elim (Bool-cases (is_empty c.env.options)) [
  | inl off ↦ rw (off, apply_options_env) (inl refl, λ h. refl)
  | inr on ↦
      rw (on, apply_options_env)
        (set_options-Changes (c.env.options ++ codes "_") k environ c.options, λ h. cc)
]
