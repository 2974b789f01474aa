-- ===== src/Lifecycle/Alone.antt =====
-- A Start that no other goroutine interferes with.
use go_storage.Prelude.{ℕ, ◌≡◌, Bool, true, false, ◌||◌, Option, none, some, List, [], ◌∷◌, arith}
use go_storage.Errors.{GoError}
use go_storage.Store.{start_failure}
use go_storage.Lifecycle.{Flags, start, start_returned, run, step_at, move}

-- The steps that such a Start takes, by what EnsureContainer and Probe answer, and `ctx.Err()` on
-- the way of a failure.
abbrev pub schedule : Option GoError → Option GoError → Option GoError → List (ℕ × Option GoError)
schedule (some e) probe ctx = (0, none) ∷ (0, some e) ∷ (0, none) ∷ (0, ctx) ∷ []
schedule none (some e) ctx =
    (0, none) ∷ (0, none) ∷ (0, none) ∷ (0, some e) ∷ (0, none) ∷ (0, ctx) ∷ []
schedule none none ctx = (0, none) ∷ (0, none) ∷ (0, none) ∷ (0, none) ∷ (0, none) ∷ []

-- What Start returns: the first failure of EnsureContainer and Probe, classified.
abbrev pub start_result : Option GoError → Option GoError → Option GoError → Option GoError
start_result (some e) probe ctx = some (start_failure false ctx e)
start_result none (some e) ctx = some (start_failure false ctx e)
start_result none none ctx = none

abbrev pub succeeded : Option GoError → Bool
succeeded none = true
succeeded (some e) = false

-- A Start that runs alone on a store that is not shut returns nil exactly if EnsureContainer and
-- Probe both do, and its failure is the first of theirs, classified; it marks the store started
-- exactly if it returns nil, and changes nothing else.
pub start_alone :
    (closable : Bool) (f : Flags) (ensure probe ctx : Option GoError)
    → f.shut ≡ false
    → run closable (schedule ensure probe ctx) (record { flags = f; threads = start ∷ [] })
      ≡ record {
        flags = record f { started = f.started || succeeded (start_result ensure probe ctx) };
        threads = start_returned (start_result ensure probe ctx) ∷ [];
      }
unfolding run step_at move
start_alone closable f (some e) probe ctx h = ground (arith, h)
start_alone closable f none (some e) ctx h = ground (arith, h)
start_alone closable f none none ctx h = ground (arith, h)
