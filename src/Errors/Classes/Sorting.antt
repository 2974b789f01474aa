-- ===== src/Errors/Classes/Sorting.antt =====
-- What a provider's classification says of an error, as one table.
use text.Mathlib.Text.{◌==◌ as str_eq}
use go_storage.Prelude.{
  ℕ, String, ◌≡◌, ◌⊎◌, inl, inr, Bool, true, false, not, ◌&&◌, ◌||◌, none, some, List, [], ◌∷◌,
  ◌==◌, arith, Bool-cases, ◌∙◌,
}
use go_storage.Errors.{
  GoError, Sentinel, sentinel, classified, is, same, not_found, container_not_found, unavailable,
  canceled,
}
use go_storage.Errors.Classes.{answer, is_classified, IsClass, classify_silence}

-- An error that no class of the package is matched by.
pub record Fresh (e : GoError) : Type 0 where
  pub not_missing : is e (sentinel not_found) ≡ false
  pub not_bare : is e (sentinel container_not_found) ≡ false
  pub not_down : is e (sentinel unavailable) ≡ false

-- Which classes an error matches.
pub record Matches (e : GoError) (missing bare down : Bool) : Type 0 where
  pub by_not_found : is e (sentinel not_found) ≡ missing
  pub by_container : is e (sentinel container_not_found) ≡ bare
  pub by_unavailable : is e (sentinel unavailable) ≡ down

-- Whether a code is in a list.
unfoldable pub among : String → List String → Bool
among c [] = false
among c (d ∷ ds) = str_eq c d || among c ds

-- An error that no service has answered: it carries no answer, or one of status 0 where that counts
-- as none.
abbrev pub Unanswered : Bool → GoError → Type 0
Unanswered zero_silent e =
    (answer e ≡ none) ⊎ ((zero_silent ≡ true) × ((code : String) × (answer e ≡ some (0, code))))

-- An answer that counts.
abbrev pub Answered : Bool → GoError → ℕ → String → Type 0
Answered zero_silent e status code =
    (answer e ≡ some (status, code)) × ((zero_silent && status == 0) ≡ false)

matched :
    (s : Sentinel) (e : GoError) (t : Sentinel)
    → is (classified s e) (sentinel t) ≡ (same (sentinel s) (sentinel t) || is e (sentinel t))
unfolding is
matched s e t = ground arith

module _ (e : GoError) (fresh : Fresh e) where
  pub not_classified : is_classified e ≡ false
  unfolding is_classified
  not_classified = ground (arith, fresh.not_missing, fresh.not_bare, fresh.not_down)

  pub fresh-Matches : Matches e false false false
  fresh-Matches = record {
    by_not_found = fresh.not_missing;
    by_container = fresh.not_bare;
    by_unavailable = fresh.not_down;
  }

  pub missing-Matches : Matches (classified not_found e) true false false
  unfolding same
  missing-Matches = record {
    by_not_found = matched not_found e not_found ∙ ground arith;
    by_container = matched not_found e container_not_found ∙ ground (arith, fresh.not_bare);
    by_unavailable = matched not_found e unavailable ∙ ground (arith, fresh.not_down);
  }

  pub bare-Matches : Matches (classified container_not_found e) false true false
  unfolding same
  bare-Matches = record {
    by_not_found = matched container_not_found e not_found ∙ ground (arith, fresh.not_missing);
    by_container = matched container_not_found e container_not_found ∙ ground arith;
    by_unavailable = matched container_not_found e unavailable ∙ ground (arith, fresh.not_down);
  }

  pub down-Matches : Matches (classified unavailable e) false false true
  unfolding same
  down-Matches = record {
    by_not_found = matched unavailable e not_found ∙ ground (arith, fresh.not_missing);
    by_container = matched unavailable e container_not_found ∙ ground (arith, fresh.not_bare);
    by_unavailable = matched unavailable e unavailable ∙ ground arith;
  }

  pub silence-Matches : Matches (classify_silence e) false false (not (is e (sentinel canceled)))
  unfolding classify_silence
  silence-Matches = elim (Bool-cases (is e (sentinel canceled))) [
    | inl gone ↦ rw (gone, classify_silence) fresh-Matches
    | inr live ↦ rw (live, classify_silence) down-Matches
  ]

-- The classification of one error: nothing that the error matches is lost, a class that it has
-- stays, and an error without one gets the class of its answer. `missing` and `bare` are the codes
-- of a missing object and of a missing container, `down` says which other answers are failures of
-- the service.
pub record Sorts (f : GoError → GoError) (zero_silent : Bool) (missing bare : String)
    (down : ℕ → String → Bool) (e : GoError) : Type 0 where
  pub keeps : (target : GoError) → is e target ≡ true → is (f e) target ≡ true
  pub settled : (s : Sentinel) → IsClass s → is e (sentinel s) ≡ true → f e ≡ e
  pub again : f (f e) ≡ f e
  pub silent :
      Fresh e
      → Unanswered zero_silent e
      → Matches (f e) false false (not (is e (sentinel canceled)))
  pub answered :
      (status : ℕ) (code : String)
      → Fresh e
      → Answered zero_silent e status code
      → Matches
          (f e)
          (str_eq code missing)
          (str_eq code bare)
          (not (str_eq code missing || str_eq code bare) && down status code)
