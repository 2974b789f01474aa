-- ===== src/Azureblob/Errors/Sorted.antt =====
-- azureblob/errors.go: which errors are classified, and as what.
use text.Mathlib.Text.{◌==◌ as str_eq}
use text.Mathlib.TextEquality.{eq_iff}
use go_storage.Prelude.{
  sym, ◌⊎◌, ℕ, String, ◌≡◌, ◌∙◌, refl, ap, Bool, true, false, not, ◌&&◌, ◌||◌, Option-cases, none,
  some, [], ◌∷◌, Bool-cases, inl, inr, leb, arith,
}
use go_storage.Errors.{
  GoError, Sentinel, sentinel, errorf, wrapped, end, classified, is, is-classified, same, not_found,
  canceled,
}
use go_storage.Errors.Classes.{answer, is_classified, IsClass, classified_done}
use go_storage.Errors.Classes.Sorting.{
  Fresh, Matches, among, Unanswered, Sorts, not_classified, fresh-Matches, missing-Matches,
  bare-Matches, down-Matches, silence-Matches,
}
use go_storage.Azureblob.Errors.{
  classify_answer, classify, classify_read, classify-Classifies, classify_of_classified,
}

-- An answer of a server error, or with the code of one.
abbrev pub is_failure : ℕ → String → Bool
is_failure status code =
    leb 500 status || among code ("ServerBusy" ∷ "OperationTimedOut" ∷ "InternalError" ∷ [])

failure_lem :
    (status : ℕ) (code : String)
    → (leb 500 status
        || (str_eq code "ServerBusy"
            || (str_eq code "OperationTimedOut" || str_eq code "InternalError")))
      ≡ is_failure status code
unfolding among
failure_lem status code = ground arith

other_code :
    (code : String) → str_eq code "ContainerNotFound" ≡ true → str_eq code "BlobNotFound" ≡ false
other_code code h = ap (λ c. str_eq c "BlobNotFound") ((eq_iff code "ContainerNotFound").0 h)

module _ (e : GoError) (fresh : Fresh e) where
  -- The classes of an answer.
  pub answer-Matches :
      (status : ℕ) (code : String)
      → Matches
          (classify_answer status code e)
          (str_eq code "BlobNotFound")
          (str_eq code "ContainerNotFound")
          (not (str_eq code "BlobNotFound" || str_eq code "ContainerNotFound")
            && is_failure status code)
  unfolding classify_answer
  answer-Matches status code = elim (Bool-cases (str_eq code "ContainerNotFound")) [
    | inl hit ↦ rw (hit, other_code code hit, classify_answer) (bare-Matches e fresh)
    | inr miss ↦ elim (Bool-cases (str_eq code "BlobNotFound")) [
      | inl hit ↦ rw (miss, hit, classify_answer) (missing-Matches e fresh)
      | inr nor ↦
          elim (Bool-cases (
            leb 500 status
            || (str_eq code "ServerBusy"
                || (str_eq code "OperationTimedOut" || str_eq code "InternalError")))) [
                  | inl hit ↦
                      rw (← failure_lem status code, miss, nor, hit, classify_answer)
                        (down-Matches e fresh)
                  | inr out ↦
                      rw (← failure_lem status code, miss, nor, out, classify_answer)
                        (fresh-Matches e fresh)
                ]
    ]
  ]

  pub silent-Matches :
      Unanswered false e → Matches (classify e) false false (not (is e (sentinel canceled)))
  unfolding classify
  silent-Matches (inl silent) =
      rw (not_classified e fresh, silent, classify) (silence-Matches e fresh)
  silent-Matches (inr (p, _)) = cc

  pub classify_of_answer :
      (status : ℕ) (code : String)
      → answer e ≡ some (status, code)
      → Matches (classify e) (str_eq code "BlobNotFound") (str_eq code "ContainerNotFound") (
          not (str_eq code "BlobNotFound" || str_eq code "ContainerNotFound")
          && is_failure status code)
  unfolding classify
  classify_of_answer status code came =
      rw (not_classified e fresh, came, classify) (answer-Matches status code)

classify-keeps : (e target : GoError) → is e target ≡ true → is (classify e) target ≡ true
classify-keeps e t h = elim (classify-Classifies e) [
  | inl same ↦ rw same h
  | inr (s, c, made) ↦ rw made ((is-classified s e).1 t h)
]

classify-again : (e : GoError) → classify (classify e) ≡ classify e
classify-again e = elim (classify-Classifies e) [
  | inl same ↦ ap classify same
  | inr (s, c, made) ↦ rw made (classify_of_classified (classified s e) (classified_done s e c))
]

classify-settled :
    (e : GoError) (s : Sentinel) → IsClass s → is e (sentinel s) ≡ true → classify e ≡ e
unfolding is_classified
classify-settled e s (inl c) h = classify_of_classified e (ground (arith, rw c at h))
classify-settled e s (inr (inl c)) h = classify_of_classified e (ground (arith, rw c at h))
classify-settled e s (inr (inr c)) h = classify_of_classified e (ground (arith, rw c at h))

classify-Sorts :
    (e : GoError) → Sorts classify false "BlobNotFound" "ContainerNotFound" is_failure e
classify-Sorts e = record {
  keeps = classify-keeps e;
  settled = classify-settled e;
  again = classify-again e;
  silent = λ fresh u. silent-Matches e fresh u;
  answered = λ status code fresh a. classify_of_answer e fresh status code a.0;
}

-- What `classifyRead` makes of an error whose answer has the code ConditionNotMet.
abbrev pub changed : GoError → GoError
changed e =
    errorf "%w: the blob changed during the read: %w" (wrapped (sentinel not_found) (wrapped e end))

classify_read_cases :
    (e : GoError)
    → (classify_read e ≡ classify e)
      ⊎ ((classify_read e ≡ changed e)
          × ((status : ℕ) × (answer e ≡ some (status, "ConditionNotMet"))))
unfolding classify_read
classify_read_cases e = elim (Option-cases (answer e)) [
  | inl silent ↦ inl (ground (arith, silent))
  | inr ((status, code), came) ↦ elim (Bool-cases (str_eq code "ConditionNotMet")) [
    | inl met ↦ inr (
      rw (came, met, classify_read) refl,
      (status, came ∙ ap (λ c. some (status, c)) ((eq_iff code "ConditionNotMet").0 met)),
    )
    | inr unmet ↦ inl (ground (arith, came, unmet))
  ]
]

changed-keeps : (e target : GoError) → is e target ≡ true → is (changed e) target ≡ true
unfolding is
changed-keeps e target h = ground (arith, h)

changed-again : (e : GoError) → classify (changed e) ≡ changed e
unfolding is same
changed-again e = classify-settled (changed e) not_found (inl refl) (ground arith)

changed-Matches : (e : GoError) → Fresh e → Matches (changed e) true false false
unfolding is same
changed-Matches e fresh = record {
  by_not_found = ground arith;
  by_container = ground (arith, fresh.not_bare);
  by_unavailable = ground (arith, fresh.not_down);
}

-- The reads' classification of one error, and that of every other call.
pub record ReadSorts (e : GoError) : Type 0 where
  pub sorts : Sorts classify false "BlobNotFound" "ContainerNotFound" is_failure e
  pub keeps : (target : GoError) → is e target ≡ true → is (classify_read e) target ≡ true
  pub again : classify (classify_read e) ≡ classify_read e
  pub silent :
      Fresh e
      → answer e ≡ none
      → Matches (classify_read e) false false (not (is e (sentinel canceled)))
  pub answered :
      (status : ℕ) (code : String)
      → Fresh e
      → answer e ≡ some (status, code)
      → let gone = str_eq code "BlobNotFound" || str_eq code "ConditionNotMet" in
        Matches
          (classify_read e)
          gone
          (str_eq code "ContainerNotFound")
          (not (gone || str_eq code "ContainerNotFound") && is_failure status code)

read_answered :
    (e : GoError) (status : ℕ) (code : String)
    → Fresh e
    → answer e ≡ some (status, code)
    → let gone = str_eq code "BlobNotFound" || str_eq code "ConditionNotMet" in
      Matches
        (classify_read e)
        gone
        (str_eq code "ContainerNotFound")
        (not (gone || str_eq code "ContainerNotFound") && is_failure status code)
unfolding classify_read
read_answered e status code fresh came = elim (Bool-cases (str_eq code "ConditionNotMet")) [
  | inl met ↦
      let none_such : str_eq code "ContainerNotFound" ≡ false =
        ap (λ c. str_eq c "ContainerNotFound") ((eq_iff code "ConditionNotMet").0 met) in
      let no_blob : str_eq code "BlobNotFound" ≡ false =
        ap (λ c. str_eq c "BlobNotFound") ((eq_iff code "ConditionNotMet").0 met) in
      rw (came, met, none_such, no_blob, classify_read) (changed-Matches e fresh)
  | inr unmet ↦
      rw (came, unmet, or_false (str_eq code "BlobNotFound"), classify_read)
        (classify_of_answer e fresh status code came)
]
  where
    or_false : (b : Bool) → (b || false) ≡ b
    or_false b = ground arith

-- In the Azure Blob provider, classifying an error loses nothing that it matches; an error that
-- already matches ErrNotFound, ErrContainerNotFound or ErrUnavailable stays as it is, and
-- classifying twice is classifying once. An error that matches none of them and that a service has
-- answered matches ErrNotFound exactly if the answer's code is BlobNotFound, ErrContainerNotFound
-- exactly if it is ContainerNotFound, and ErrUnavailable exactly if it is neither and the status is
-- 500 or more, or the code is ServerBusy, OperationTimedOut or InternalError. One that no answer
-- came with matches ErrUnavailable alone, unless it is a cancellation, which then matches none of
-- them. The classification of a read's error does the same, where the code ConditionNotMet counts
-- as BlobNotFound does; what it makes of an error, `classify` leaves as it is.
pub classify_read-ReadSorts : (e : GoError) → ReadSorts e
classify_read-ReadSorts e = record {
  sorts = classify-Sorts e;
  keeps = elim (classify_read_cases e) [
    | inl same ↦ λ t h. rw same (classify-keeps e t h)
    | inr (made, _) ↦ λ t h. rw made (changed-keeps e t h)
  ];
  again = elim (classify_read_cases e) [
    | inl same ↦ ap classify same ∙ classify-again e ∙ sym same
    | inr (made, _) ↦ ap classify made ∙ changed-again e ∙ sym made
  ];
  silent = λ fresh none_came. elim (classify_read_cases e) [
    | inl same ↦ rw same (silent-Matches e fresh (inl none_came))
    | inr (_, (status, came)) ↦ cc
  ];
  answered = λ status code fresh came. read_answered e status code fresh came;
}
