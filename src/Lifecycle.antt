-- ===== src/Lifecycle.antt =====
-- store.go: `Start` and `Shutdown` of one store called by any number of goroutines. A step of a
-- goroutine is one access to the shared flags under the mutex, or one call of the client.
pub mod Safety
pub mod Alone
use go_storage.Prelude.{
  ℕ, zero, suc, ◌+◌, Bool, true, false, Option, none, some, List, [], ◌∷◌, if◌then◌else◌,
}
use go_storage.Errors.{GoError, sentinel, not_ready}
use go_storage.Store.{start_failure}

-- The two flags, and how often the client was closed.
pub record Flags : Type 0 where
  pub started : Bool
  pub shut : Bool
  pub closes : ℕ

-- Where a goroutine stands: in Start, before its first check, in EnsureContainer, before its second
-- check, in the Probe, before it marks the store started, in startFailure before its check and
-- before `ctx.Err()`, or returned; in Shutdown, before its locked part, before `Close`, or
-- returned.
pub data Pc : Type 0 where
  start ensuring ensured probing committing : Pc
  failing judging : GoError → Pc
  start_returned : Option GoError → Pc
  shutdown closing : Pc
  shutdown_returned : Option GoError → Pc

-- One step, where `answer` is what the call that the step makes returns: EnsureContainer's, Probe's
-- or Close's error, or `ctx.Err()`. `closable` says whether the client implements io.Closer.
pub move : Bool → Flags → Pc → Option GoError → Flags × Pc
move closable f start answer =
    (f, if f.shut then start_returned (some (sentinel not_ready)) else ensuring)
move closable f ensuring none = (f, ensured)
move closable f ensuring (some e) = (f, failing e)
move closable f ensured answer =
    (f, if f.shut then start_returned (some (sentinel not_ready)) else probing)
move closable f probing none = (f, committing)
move closable f probing (some e) = (f, failing e)
move closable f committing answer =
    if f.shut
    then (f, start_returned (some (sentinel not_ready)))
    else (record f { started = true }, start_returned none)
move closable f (failing e) answer =
    (f, if f.shut then start_returned (some (sentinel not_ready)) else judging e)
move closable f (judging e) answer = (f, start_returned (some (start_failure false answer e)))
move closable f shutdown answer = (
  record f { started = false; shut = true },
  if f.shut then shutdown_returned none else if closable then closing else shutdown_returned none,
)
move closable f closing answer = (record f { closes = f.closes + 1 }, shutdown_returned answer)
move closable f (start_returned r) answer = (f, start_returned r)
move closable f (shutdown_returned r) answer = (f, shutdown_returned r)

pub record System : Type 0 where
  pub flags : Flags
  pub threads : List Pc

-- The goroutine at an index takes a step with an answer.
pub step_at : Bool → Flags → List Pc → ℕ → Option GoError → System
unfolding move
step_at closable f [] i answer = record { flags = f; threads = [] }
step_at closable f (p ∷ ps) zero answer =
    let (f', p') = move closable f p answer in record { flags = f'; threads = p' ∷ ps }
step_at closable f (p ∷ ps) (suc i) answer =
    let s = step_at closable f ps i answer in record { flags = s.flags; threads = p ∷ s.threads }

-- A schedule: which goroutine steps, and what the call that it makes returns.
pub run : Bool → List (ℕ × Option GoError) → System → System
unfolding step_at
run closable [] s = s
run closable ((i, answer) ∷ es) s = run closable es (step_at closable s.flags s.threads i answer)
