-- ===== src/Errors/Classes.antt =====
-- What s3/errors.go and azureblob/errors.go share: the answer that an error carries, and the
-- classes that the providers sort errors into.
pub mod Sorting
use go_storage.Prelude.{
  ℕ, String, ◌≡◌, ◌⊎◌, refl, Bool, true, ◌||◌, Option, none, some, Bool-cases, inl, inr,
  if◌then◌else◌, arith,
}
use go_storage.Errors.{
  GoError, Operands, Sentinel, sentinel, errorf, foreign, response, int, str, shown, wrapped, end,
  classified, is, is-classified, not_found, container_not_found, unavailable, canceled,
}

-- `errors.AsType[*ResponseError]`: the first answer in the error's tree, its status and its code.
unfoldable mutual
  pub answer : GoError → Option (ℕ × String)
  answer (sentinel s) = none
  answer (errorf f xs) = answer_in xs
  answer (foreign n xs) = answer_in xs
  answer (response status code xs) = some (status, code)

  pub answer_in : Operands → Option (ℕ × String)
  answer_in end = none
  answer_in (int n xs) = answer_in xs
  answer_in (str s xs) = answer_in xs
  answer_in (shown e xs) = answer_in xs
  answer_in (wrapped e xs) = elim (answer e) [ some a ↦ some a | none ↦ answer_in xs ]

-- An error that one of the three sentinels already classifies.
unfoldable pub is_classified : GoError → Bool
is_classified e =
    is e (sentinel not_found)
    || (is e (sentinel container_not_found) || is e (sentinel unavailable))

-- The classification where no answer came.
unfoldable pub classify_silence : GoError → GoError
classify_silence e = if is e (sentinel canceled) then e else classified unavailable e

-- The sentinels that a provider's classification uses.
abbrev pub IsClass : Sentinel → Type 0
IsClass s = (s ≡ not_found) ⊎ (s ≡ container_not_found) ⊎ (s ≡ unavailable)

-- An error is passed through, or classified by one of them with itself as the cause.
abbrev pub Classifies : GoError → GoError → Type 0
Classifies e d = (d ≡ e) ⊎ ((s : Sentinel) × IsClass s × (d ≡ classified s e))

pub silence-Classifies : (e : GoError) → Classifies e (classify_silence e)
unfolding classify_silence
silence-Classifies e = elim (Bool-cases (is e (sentinel canceled))) [
  | inl known ↦ rw (known, classify_silence) (inl refl)
  | inr other ↦ rw (other, classify_silence) (inr (unavailable, inr (inr refl), refl))
]

-- What a sentinel classifies is classified.
pub classified_done :
    (s : Sentinel) (e : GoError) → IsClass s → is_classified (classified s e) ≡ true
unfolding is_classified
classified_done s e (inl p) = rw p (ground (arith, (is-classified not_found e).0))
classified_done s e (inr (inl p)) = rw p (ground (arith, (is-classified container_not_found e).0))
classified_done s e (inr (inr p)) = rw p (ground (arith, (is-classified unavailable e).0))
