-- ===== src/Tests/Providers.antt =====
-- Instances of the theorems about the providers.
use go_storage.Prelude.{◌≡◌, ◌↔◌, inr, refl, true, ◌&&◌, none, some, [], ◌∷◌, length, leb, arith}
use go_storage.Prelude.Int.{pos}
use go_storage.Prelude.Text.{Text, codes, is_empty, has_prefix, text_eq}
use go_storage.Prelude.Assoc.{Assoc, lookup}
use go_storage.Errors.{GoError, foreign, response, end}
use go_storage.Stream.{bytes_reader, read_all}
use go_storage.LimitReader.{limit_reader}
use go_storage.Config.Numbers.{parse_int}
use go_storage.S3.Keys.{reserved_prefix, reserved_suffix, validate_bucket, has_dots, ipv4_from}
use go_storage.S3.Keys.Accepted.{AcceptedName, validate_bucket-AcceptedName}
use go_storage.S3.Errors.{classify}
use go_storage.S3.Errors.Sorted.{is_failure, classify-Sorts}
use go_storage.Errors.Classes.Sorting.{Sorts}
use go_storage.S3.Options.{max_attempts, plus_one, read_retries, max_attempts-read_retries}
use go_storage.Azureblob.Keys.{validate_container, words, validate_container-words}
use go_storage.Azureblob.Errors.Sorted.{ReadSorts, classify_read-ReadSorts}
use go_storage.Azureblob.Body.{tracked_reader, tracking, limiting, outcome, read_all-tracked_reader}

abbrev bucket : Text
bucket = codes "a-b.1"

bucket_accepted : validate_bucket bucket ≡ none
unfolding validate_bucket is_empty has_dots has_prefix ipv4_from reserved_prefix reserved_suffix
    text_eq
bucket_accepted = refl

validate_bucket-AcceptedName_example : AcceptedName bucket
validate_bucket-AcceptedName_example = validate_bucket-AcceptedName bucket bucket_accepted

-- A failure to send, and an answer that a key is missing.
abbrev unsent : GoError
unsent = foreign 1 end

abbrev missing : GoError
missing = response 404 "NoSuchKey" end

classify-Sorts_example : Sorts classify true "NoSuchKey" "NoSuchBucket" is_failure missing
classify-Sorts_example = classify-Sorts missing

abbrev settings : Assoc Text
settings = (codes "max_retries", codes "5") ∷ (codes "concurrency", codes "8") ∷ []

five_found : lookup (codes "max_retries") settings ≡ some (codes "5")
unfolding lookup text_eq
five_found = refl

five_read : parse_int (codes "5") ≡ inr (pos 5)
unfolding parse_int
five_read = refl

max_attempts-read_retries_example :
    (max_attempts settings ≡ inr (plus_one (pos 5)))
    × (read_retries (pos 3) (plus_one (pos 5)) ≡ pos 5)
max_attempts-read_retries_example =
    max_attempts-read_retries (pos 3) settings (codes "5") 5 five_found five_read (omega arith)

validate_container-words_example : (validate_container (codes "a-b") ≡ none) ↔ (
    (leb 3 (length (codes "a-b")) && leb (length (codes "a-b")) 63 && words true (codes "a-b"))
    ≡ true)
validate_container-words_example = validate_container-words (codes "a-b")

classify_read-ReadSorts_example : ReadSorts unsent
classify_read-ReadSorts_example = classify_read-ReadSorts unsent

read_all-tracked_reader_example :
    outcome bytes_reader (read_all (tracked_reader bytes_reader) 9 [] (tracking (1 ∷ 2 ∷ []) 3 0))
    ≡ outcome bytes_reader (read_all (limit_reader bytes_reader) 9 [] (limiting (1 ∷ 2 ∷ []) 3 0))
read_all-tracked_reader_example =
    read_all-tracked_reader bytes_reader 9 [] (1 ∷ 2 ∷ []) 3 0 (omega arith)
