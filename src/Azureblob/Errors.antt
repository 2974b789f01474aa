-- ===== src/Azureblob/Errors.antt =====
-- azureblob/errors.go: how the SDK's errors are classified.
pub mod Sorted
use text.Mathlib.Text.{◌==◌ as str_eq}
use go_storage.Prelude.{
  ℕ, String, ◌≡◌, refl, ap, true, ◌||◌, none, some, Option-cases, Bool-cases, inl, inr, leb,
  if◌then◌else◌, arith,
}
use go_storage.Errors.Classes.{
  answer, is_classified, classify_silence, Classifies, silence-Classifies, classified_done,
}
use go_storage.Errors.{
  GoError, sentinel, errorf, wrapped, end, classified, is, is-classified, not_found,
  container_not_found, unavailable,
}

-- The classification of an answer by its code and its status.
unfoldable pub classify_answer : ℕ → String → GoError → GoError
classify_answer status code e =
    if str_eq code "ContainerNotFound"
    then classified container_not_found e
    else if str_eq code "BlobNotFound"
    then classified not_found e
    else if leb 500 status
        || (str_eq code "ServerBusy"
            || (str_eq code "OperationTimedOut" || str_eq code "InternalError"))
    then classified unavailable e
    else e

-- `classify` of an error that is not nil.
unfoldable pub classify : GoError → GoError
unfolding is_classified classify_answer classify_silence
classify e = if is_classified e then e else elim (answer e) [
  | none ↦ classify_silence e
  | some (status, code) ↦ classify_answer status code e
]

-- `classifyRead`. The cause stands behind the text "the blob changed during the read".
unfoldable pub classify_read : GoError → GoError
unfolding classify
classify_read e = elim (answer e) [
  | none ↦ classify e
  | some (status, code) ↦
      if str_eq code "ConditionNotMet"
      then errorf "%w: the blob changed during the read: %w"
          (wrapped (sentinel not_found) (wrapped e end))
      else classify e
]

answer-Classifies :
    (status : ℕ) (code : String) (e : GoError) → Classifies e (classify_answer status code e)
unfolding classify_answer
answer-Classifies status code e = elim (Bool-cases (str_eq code "ContainerNotFound")) [
  | inl hit ↦ rw (hit, classify_answer) (inr (container_not_found, inr (inl refl), refl))
  | inr miss ↦ elim (Bool-cases (str_eq code "BlobNotFound")) [
    | inl hit ↦ rw (miss, hit, classify_answer) (inr (not_found, inl refl, refl))
    | inr nor ↦
        elim (Bool-cases (
          leb 500 status
          || (str_eq code "ServerBusy"
              || (str_eq code "OperationTimedOut" || str_eq code "InternalError")))) [
                | inl hit ↦
                    rw (miss, nor, hit, classify_answer) (inr (unavailable, inr (inr refl), refl))
                | inr out ↦ rw (miss, nor, out, classify_answer) (inl refl)
              ]
  ]
]

pub classify-Classifies : (e : GoError) → Classifies e (classify e)
unfolding classify
classify-Classifies e = elim (Bool-cases (is_classified e)) [
  | inl done ↦ rw (done, classify) (inl refl)
  | inr fresh ↦ elim (Option-cases (answer e)) [
    | inl silent ↦ rw (fresh, silent, classify) (silence-Classifies e)
    | inr ((status, code), came) ↦ rw (fresh, came, classify) (answer-Classifies status code e)
  ]
]

pub classify_of_classified : (e : GoError) → is_classified e ≡ true → classify e ≡ e
unfolding classify
classify_of_classified e h = ground (arith, h)
