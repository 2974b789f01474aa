-- ===== src/Config/Durations.antt =====
-- What the try_timeout options of s3/client.go and azureblob/client.go share: a duration that has
-- to be positive.
use go_storage.Prelude.{◌≡◌, false, ◌⊎◌, inl, inr, Bool-cases, if◌then◌else◌, arith}
use go_storage.Prelude.Int.{ℤ, pos, negsuc, ltb_ℤ}
use go_storage.Errors.{GoError}

-- A duration that was read, if it is positive, or the error that the option makes of its text.
unfoldable pub positive_duration : GoError → GoError ⊎ ℤ → GoError ⊎ ℤ
positive_duration bad (inl e) = inl bad
positive_duration bad (inr d) = if ltb_ℤ (pos 0) d then inr d else inl bad

pub positive_duration-inr :
    (bad : GoError) (r : GoError ⊎ ℤ) (d : ℤ)
    → positive_duration bad r ≡ inr d
    → ltb_ℤ d (pos 0) ≡ false
unfolding positive_duration
positive_duration-inr bad (inl e) d h = cc
positive_duration-inr bad (inr (pos n)) d h = elim (Bool-cases (ltb_ℤ (pos 0) (pos n))) [
  | inl up ↦ ground (arith, h, up)
  | inr down ↦ ground (arith, h, down)
]
positive_duration-inr bad (inr (negsuc n)) d h = ground (arith, h)
