-- ===== src/Store/Failure.antt =====
-- How the errors that Start and Put make are matched.
use go_storage.Prelude.{
  ◌≡◌, ◌⊎◌, ap, inl, inr, Bool, true, false, ◌||◌, not, refl, none, some, arith, Bool-cases,
  Option-cases,
}
use go_storage.Errors.{
  GoError, sentinel, is, same, is_some, is_refl, unavailable, canceled, deadline_exceeded,
  too_large, not_ready, Sentinel,
}
use go_storage.LimitReader.{LimitReader}
use go_storage.Storage.{Object}
use go_storage.Store.{start_failure, read_failure, joined, bounded_result}

-- Once the caller's context is done, with either of its two errors, a Start that a step of its own
-- has failed matches that error if Shutdown has not run, and ErrNotReady instead if it has; it
-- never matches ErrUnavailable, whatever the provider's error matches.
pub start_failure_done :
    (shut : Bool) (ctx_err e : GoError)
    → (ctx_err ≡ sentinel canceled) ⊎ (ctx_err ≡ sentinel deadline_exceeded)
    → (is (start_failure shut (some ctx_err) e) ctx_err ≡ not shut)
      × (shut ≡ true → is (start_failure shut (some ctx_err) e) (sentinel not_ready) ≡ true)
      × (is (start_failure shut (some ctx_err) e) (sentinel unavailable) ≡ false)
unfolding start_failure is same
start_failure_done true ctx_err e d = (ground arith, λ _. refl, refl)
start_failure_done false ctx_err e d = (ground arith, λ p. cc, ground arith)

-- While the caller's context is not done, a Start that a step of its own has failed matches
-- ErrUnavailable, and everything that the provider's error matches, if Shutdown has not run; if it
-- has, it matches ErrNotReady, and no other error of the package.
pub start_failure_live :
    (shut : Bool) (e target : GoError)
    → is e target ≡ true
    → (is (start_failure shut none e) (sentinel unavailable) ≡ not shut)
      × (shut ≡ false → is (start_failure shut none e) target ≡ true)
      × ((s : Sentinel)
          → shut ≡ true
          → is (start_failure shut none e) (sentinel s) ≡ true
          → s ≡ not_ready)
      × (shut ≡ true → is (start_failure shut none e) (sentinel not_ready) ≡ true)
unfolding start_failure is same
start_failure_live true e target h = (refl, λ p. cc, λ s _ m. ground (arith, m), λ _. refl)
start_failure_live false e target h = (ground arith, λ _. ground arith, λ s p m. cc, λ p. cc)

or_left : (a b : Bool) → a ≡ true → (a || b) ≡ true
or_left a b h = ground arith

or_right : (a b : Bool) → b ≡ true → (a || b) ≡ true
or_right a b h = ground arith

is-joined :
    (a b target : GoError)
    → (is a target ≡ true → is (joined (some a) (some b)) target ≡ true)
      × (is b target ≡ true → is (joined (some a) (some b)) target ≡ true)
unfolding is
is-joined a b target =
    (λ h. or_right _ _ (or_left _ _ h), λ h. or_right _ _ (or_right _ _ (or_left _ _ h)))

-- What readFailure makes of a recorded error and a provider's matches the recorded one, and all
-- that the provider's matches.
pub read_failure_matches :
    (recorded p : GoError)
    → (is_some (read_failure (some recorded) (some p)) recorded ≡ true)
      × ((target : GoError)
          → is p target ≡ true
          → is_some (read_failure (some recorded) (some p)) target ≡ true)
unfolding read_failure
read_failure_matches recorded p = elim (Bool-cases (is p recorded)) [
  | inl known ↦ rw (known, read_failure) (known, λ target h. h)
  | inr fresh ↦
      rw (fresh, read_failure)
        (
          (is-joined recorded p recorded).0 (is_refl recorded),
          λ target. (is-joined recorded p target).1,
        )
]

bounded_shape :
    {S : Type 0} (b : LimitReader S) (obj : Object) (recorded p q : GoError)
    → b.tripped ≡ true
    → b.err ≡ some recorded
    → read_failure (some recorded) (some p) ≡ some q
    → (bounded_result b obj (some p)).1 ≡ some (joined (some (sentinel too_large)) (some q))
unfolding bounded_result
bounded_shape b obj recorded p q t e found = ground (arith, t, e, found)

module _ {S : Type 0} (b : LimitReader S) (obj : Object) (recorded : GoError) (t : b.tripped ≡ true)
    (e : b.err ≡ some recorded) where
  -- A Put whose bounded reader has tripped and whose provider has failed fails with an error that
  -- matches ErrTooLarge, what the reader recorded, and all that the provider's error matches.
  pub bounded_result_matches :
      (p target : GoError)
      → is p target ≡ true
      → (is_some (bounded_result b obj (some p)).1 (sentinel too_large) ≡ true)
        × (is_some (bounded_result b obj (some p)).1 recorded ≡ true)
        × (is_some (bounded_result b obj (some p)).1 target ≡ true)
  bounded_result_matches p target h = elim (Option-cases (read_failure (some recorded) (some p))) [
    | inl gone ↦ absurd (lost gone)
    | inr (q, found) ↦
        let (own, cause) = rw found at (read_failure_matches recorded p) in
        rw (shape q found) (
          (is-joined (sentinel too_large) q (sentinel too_large)).0 (is_refl (sentinel too_large)),
          (is-joined (sentinel too_large) q recorded).1 own,
          (is-joined (sentinel too_large) q target).1 (cause target h),
        )
  ]
    where
      lost : read_failure (some recorded) (some p) ≡ none → ⊥
      lost gone = cc (ap (λ o. is_some o recorded) gone, (read_failure_matches recorded p).0)

      shape :
          (q : GoError)
          → read_failure (some recorded) (some p) ≡ some q
          → (bounded_result b obj (some p)).1 ≡ some (joined (some (sentinel too_large)) (some q))
      shape q found = bounded_shape b obj recorded p q t e found
