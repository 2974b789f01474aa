-- ===== src/S3/Errors/Sorted.antt =====
-- s3/errors.go: which errors are classified, and as what.
use text.Mathlib.Text.{◌==◌ as str_eq}
use text.Mathlib.TextEquality.{eq_iff}
use go_storage.Prelude.{
  ℕ, String, ◌≡◌, ap, Bool, true, false, not, ◌&&◌, ◌||◌, [], ◌∷◌, Bool-cases, inl, inr, leb, arith,
}
use go_storage.Errors.{GoError, Sentinel, sentinel, classified, is, is-classified, same, canceled}
use go_storage.Errors.Classes.{is_classified, IsClass, classified_done}
use go_storage.Errors.Classes.Sorting.{
  Fresh, Matches, among, Unanswered, Answered, Sorts, not_classified, fresh-Matches,
  missing-Matches, bare-Matches, down-Matches, silence-Matches,
}
use go_storage.S3.Errors.{classify_answer, classify, classify-Classifies, classify_of_classified}

-- An answer of a server error, or with the code of one.
abbrev pub is_failure : ℕ → String → Bool
is_failure status code =
    leb 500 status || among code ("SlowDown" ∷ "ServiceUnavailable" ∷ "InternalError" ∷ [])

failure_lem :
    (status : ℕ) (code : String)
    → (leb 500 status
        || (str_eq code "SlowDown"
            || (str_eq code "ServiceUnavailable" || str_eq code "InternalError")))
      ≡ is_failure status code
unfolding among
failure_lem status code = ground arith

other_code : (code : String) → str_eq code "NoSuchBucket" ≡ true → str_eq code "NoSuchKey" ≡ false
other_code code h = ap (λ c. str_eq c "NoSuchKey") ((eq_iff code "NoSuchBucket").0 h)

module _ (e : GoError) (fresh : Fresh e) where
  -- The classes of an answer.
  pub answer-Matches :
      (status : ℕ) (code : String)
      → Matches
          (classify_answer status code e)
          (str_eq code "NoSuchKey")
          (str_eq code "NoSuchBucket")
          (not (str_eq code "NoSuchKey" || str_eq code "NoSuchBucket") && is_failure status code)
  unfolding classify_answer
  answer-Matches status code = elim (Bool-cases (str_eq code "NoSuchBucket")) [
    | inl hit ↦ rw (hit, other_code code hit, classify_answer) (bare-Matches e fresh)
    | inr miss ↦ elim (Bool-cases (str_eq code "NoSuchKey")) [
      | inl hit ↦ rw (miss, hit, classify_answer) (missing-Matches e fresh)
      | inr nor ↦
          elim (Bool-cases (
            leb 500 status
            || (str_eq code "SlowDown"
                || (str_eq code "ServiceUnavailable" || str_eq code "InternalError")))) [
                  | inl hit ↦
                      rw (← failure_lem status code, miss, nor, hit, classify_answer)
                        (down-Matches e fresh)
                  | inr out ↦
                      rw (← failure_lem status code, miss, nor, out, classify_answer)
                        (fresh-Matches e fresh)
                ]
    ]
  ]

  pub silent-Matches :
      Unanswered true e → Matches (classify e) false false (not (is e (sentinel canceled)))
  unfolding classify
  silent-Matches (inl silent) =
      rw (not_classified e fresh, silent, classify) (silence-Matches e fresh)
  silent-Matches (inr (_, (code, came))) =
      rw (not_classified e fresh, came, classify) (silence-Matches e fresh)

  pub classify_of_answer :
      (status : ℕ) (code : String)
      → Answered true e status code
      → Matches
          (classify e)
          (str_eq code "NoSuchKey")
          (str_eq code "NoSuchBucket")
          (not (str_eq code "NoSuchKey" || str_eq code "NoSuchBucket") && is_failure status code)
  unfolding classify
  classify_of_answer status code (came, counts) =
      rw (not_classified e fresh, came, counts, classify) (answer-Matches status code)

classify-keeps : (e target : GoError) → is e target ≡ true → is (classify e) target ≡ true
classify-keeps e t h = elim (classify-Classifies e) [
  | inl same ↦ rw same h
  | inr (s, c, made) ↦ rw made ((is-classified s e).1 t h)
]

classify-again : (e : GoError) → classify (classify e) ≡ classify e
classify-again e = elim (classify-Classifies e) [
  | inl same ↦ ap classify same
  | inr (s, c, made) ↦ rw made (classify_of_classified (classified s e) (classified_done s e c))
]

classify-settled :
    (e : GoError) (s : Sentinel) → IsClass s → is e (sentinel s) ≡ true → classify e ≡ e
unfolding is_classified
classify-settled e s (inl c) h = classify_of_classified e (ground (arith, rw c at h))
classify-settled e s (inr (inl c)) h = classify_of_classified e (ground (arith, rw c at h))
classify-settled e s (inr (inr c)) h = classify_of_classified e (ground (arith, rw c at h))

-- In the S3 provider, classifying an error loses nothing that it matches; an error that already
-- matches ErrNotFound, ErrContainerNotFound or ErrUnavailable stays as it is, and classifying twice
-- is classifying once. An error that matches none of them and that a service has answered matches
-- ErrNotFound exactly if the answer's code is NoSuchKey, ErrContainerNotFound exactly if it is
-- NoSuchBucket, and ErrUnavailable exactly if it is neither and the status is 500 or more, or the
-- code is SlowDown, ServiceUnavailable or InternalError. One that no
-- answer came with, or one of status 0,
-- matches ErrUnavailable alone, unless it is a cancellation, which then matches none of them.
pub classify-Sorts : (e : GoError) → Sorts classify true "NoSuchKey" "NoSuchBucket" is_failure e
classify-Sorts e = record {
  keeps = classify-keeps e;
  settled = classify-settled e;
  again = classify-again e;
  silent = λ fresh u. silent-Matches e fresh u;
  answered = λ status code fresh a. classify_of_answer e fresh status code a;
}
