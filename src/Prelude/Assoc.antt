-- ===== src/Prelude/Assoc.antt =====
-- Go maps with string keys, as association lists: a write replaces the entry of its key or adds
-- one.
use mathlib.Core.Path.{◌≡◌, refl}
use mathlib.Core.Logic.{◌≢◌}
use mathlib.Core.List.{List, [], ◌∷◌}
use mathlib.Core.Option.{Option, none, some}
use native.Mathlib.Omega.{arith}
use go_storage.Prelude.Tests.{if◌then◌else◌}
use go_storage.Prelude.Text.{Text, text_eq, text_eq_refl, eq_of_text_eq}

abbrev pub Assoc {ℓ} : Type ℓ → Type ℓ
Assoc V = List (Text × V)

-- Every key of the list differs from `k`.
abbrev pub Absent : Text → List Text → Type 0
Absent k [] = Unit {0}
Absent k (j ∷ ks) = (k ≢ j) × Absent k ks

abbrev pub Distinct : List Text → Type 0
Distinct [] = Unit {0}
Distinct (k ∷ ks) = Absent k ks × Distinct ks

module _ {ℓ} {V : Type ℓ} where
  unfoldable pub lookup : Text → Assoc V → Option V
  lookup k [] = none
  lookup k ((j, v) ∷ m) = if text_eq j k then some v else lookup k m

  unfoldable pub insert : Text → V → Assoc V → Assoc V
  insert k v [] = (k, v) ∷ []
  insert k v ((j, w) ∷ m) = if text_eq j k then (k, v) ∷ m else (j, w) ∷ insert k v m

  unfoldable pub delete : Text → Assoc V → Assoc V
  delete k [] = []
  delete k ((j, v) ∷ m) = let rest = delete k m in if text_eq j k then rest else (j, v) ∷ rest

  abbrev pub keys : Assoc V → List Text
  keys [] = []
  keys ((k, v) ∷ m) = k ∷ keys m

  pub lookup-insert :
      (k j : Text) (v : V) (m : Assoc V)
      → lookup j (insert k v m) ≡ (if text_eq k j then some v else lookup j m)
  unfolding lookup insert
  lookup-insert k j v [] = refl
  lookup-insert k j v ((i, w) ∷ m) = ground (
    arith,
    lookup-insert k j v m,
    eq_of_text_eq i k,
    eq_of_text_eq k j,
    eq_of_text_eq i j,
    text_eq_refl j,
    text_eq_refl k,
  )

  pub lookup-delete :
      (k j : Text) (m : Assoc V)
      → lookup j (delete k m) ≡ (if text_eq k j then none else lookup j m)
  unfolding lookup delete
  lookup-delete k j [] = ground arith
  lookup-delete k j ((i, w) ∷ m) = ground (
    arith,
    lookup-delete k j m,
    eq_of_text_eq i k,
    eq_of_text_eq k j,
    eq_of_text_eq i j,
    text_eq_refl j,
    text_eq_refl k,
  )
