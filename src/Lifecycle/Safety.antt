-- ===== src/Lifecycle/Safety.antt =====
-- What holds of a store whatever the order in which its Starts and Shutdowns take their steps, and
-- whatever the client and the contexts answer.
use go_storage.Prelude.{
  ℕ, zero, suc, ◌+◌, ◌≤◌, ◌≡◌, ◌⊎◌, inl, inr, refl, ◌∙◌, Bool, true, false, ◌&&◌, Option, none,
  some, List, [], ◌∷◌, if◌then◌else◌, arith, Bool-cases,
}
use go_storage.Errors.{GoError}
use go_storage.Lifecycle.{
  Flags, Pc, start, ensuring, probing, start_returned, shutdown, closing, move, System, step_at,
  run,
}

-- A goroutine that is about to close the client.
closer : Pc → ℕ
closer closing = 1
closer _ = 0

pub closers : List Pc → ℕ
unfolding closer
closers [] = 0
closers (p ∷ ps) = closer p + closers ps

-- A Start that has returned nil.
nil_start : Pc → ℕ
nil_start (start_returned none) = 1
nil_start _ = 0

-- How many Starts have returned nil.
pub nil_starts : List Pc → ℕ
unfolding nil_start
nil_starts [] = 0
nil_starts (p ∷ ps) = nil_start p + nil_starts ps

-- How often the client has been closed or may yet be.
budget : Flags → ℕ → ℕ
budget f waiting = f.closes + waiting + (if f.shut then 0 else 1)

abbrev IsGated : Flags → Type 0
IsGated f = f.started ≡ true → f.shut ≡ false

module _ (closable : Bool) where
  -- One step of one goroutine, and what it does to the counts.
  record MoveKeeps (f : Flags) (p : Pc) (f' : Flags) (p' : Pc) : Type 0 where
    gated : IsGated f → IsGated f'
    stays_shut : f.shut ≡ true → f'.shut ≡ true
    spends : budget f' (closer p') ≤ budget f (closer p)
    keeps_nil : nil_start p ≤ nil_start p'
    shut_nil : f.shut ≡ true → nil_start p' ≡ nil_start p
    starts : f'.started ≡ true → f.started ≡ false → 1 ≤ nil_start p'

  move-MoveKeeps :
      (f : Flags) (p : Pc) (answer : Option GoError)
      → MoveKeeps f p (move closable f p answer).0 (move closable f p answer).1
  unfolding move budget closer nil_start
  move-MoveKeeps f start answer = ground arith
  move-MoveKeeps f ensuring none = ground arith
  move-MoveKeeps f ensuring (some e) = ground arith
  move-MoveKeeps f probing none = ground arith
  move-MoveKeeps f probing (some e) = ground arith
  move-MoveKeeps f (start_returned none) answer = ground arith
  move-MoveKeeps f (start_returned (some e)) answer = ground arith
  move-MoveKeeps f _ answer = ground arith

  -- The same of a step in the system.
  record StepKeeps (f : Flags) (ps : List Pc) (s : System) : Type 0 where
    gated : IsGated f → IsGated s.flags
    stays_shut : f.shut ≡ true → s.flags.shut ≡ true
    spends : budget s.flags (closers s.threads) ≤ budget f (closers ps)
    keeps_nil : nil_starts ps ≤ nil_starts s.threads
    shut_nil : f.shut ≡ true → nil_starts s.threads ≡ nil_starts ps
    starts : s.flags.started ≡ true → f.started ≡ false → 1 ≤ nil_starts s.threads

  step_at-StepKeeps :
      (f : Flags) (ps : List Pc) (i : ℕ) (answer : Option GoError)
      → StepKeeps f ps (step_at closable f ps i answer)
  unfolding step_at closers nil_starts budget
  step_at-StepKeeps f [] i answer = ground arith
  step_at-StepKeeps f (p ∷ ps) zero answer =
      let m = move-MoveKeeps f p answer in
      record {
        gated = m.gated;
        stays_shut = m.stays_shut;
        spends = ground (arith, m.spends);
        keeps_nil = ground (arith, m.keeps_nil);
        shut_nil = λ h. ground (arith, m.shut_nil h);
        starts = λ a b. ground (arith, m.starts a b);
      }
  step_at-StepKeeps f (p ∷ ps) (suc i) answer =
      let k = step_at-StepKeeps f ps i answer in
      record {
        gated = k.gated;
        stays_shut = k.stays_shut;
        spends = ground (arith, k.spends);
        keeps_nil = ground (arith, k.keeps_nil);
        shut_nil = λ h. ground (arith, k.shut_nil h);
        starts = λ a b. ground (arith, k.starts a b);
      }

  -- What a run of steps keeps.
  record RunKeeps (s t : System) : Type 0 where
    gated : IsGated s.flags → IsGated t.flags
    stays_shut : s.flags.shut ≡ true → t.flags.shut ≡ true
    spends : budget t.flags (closers t.threads) ≤ budget s.flags (closers s.threads)
    shut_nil : s.flags.shut ≡ true → nil_starts t.threads ≡ nil_starts s.threads
    starts :
        (s.flags.started ≡ true → 1 ≤ nil_starts s.threads)
        → t.flags.started ≡ true
        → 1 ≤ nil_starts t.threads

  run-RunKeeps : (es : List (ℕ × Option GoError)) (s : System) → RunKeeps s (run closable es s)
  unfolding run
  run-RunKeeps [] s = record {
    gated = λ g. g;
    stays_shut = λ h. h;
    spends = omega arith;
    shut_nil = λ h. refl;
    starts = λ g. g;
  }
  run-RunKeeps ((i, answer) ∷ es) s =
      let k = step_at-StepKeeps s.flags s.threads i answer in
      let r = run-RunKeeps es (step_at closable s.flags s.threads i answer) in
      record {
        gated = λ g. r.gated (k.gated g);
        stays_shut = λ h. r.stays_shut (k.stays_shut h);
        spends = omega (arith, k.spends, r.spends);
        shut_nil = λ h. r.shut_nil (k.stays_shut h) ∙ k.shut_nil h;
        starts = λ g. r.starts (λ up. elim (Bool-cases s.flags.started) [
          | inl was ↦ omega (arith, k.keeps_nil, g was)
          | inr not ↦ k.starts up not
        ]);
      }

-- Goroutines that are about to call Start or Shutdown.
abbrev pub AllEntering : List Pc → Type 0
AllEntering [] = Unit {0}
AllEntering (p ∷ ps) = ((p ≡ start) ⊎ (p ≡ shutdown)) × AllEntering ps

entering-closers : (ps : List Pc) → AllEntering ps → closers ps ≡ 0
unfolding closers
entering-closers [] a = refl
entering-closers (p ∷ ps) a = ground (arith, entering-closers ps a.1)

-- A store that `New` has just made.
abbrev pub fresh : List Pc → System
fresh ps = record { flags = record { started = false; shut = false; closes = 0 }; threads = ps }

-- However the Starts and Shutdowns of a new store interleave: the store is never started and shut
-- at once, it is started only if some Start has returned nil, and the client is closed at most
-- once.
pub run_safe :
    (closable : Bool) (ps : List Pc) (es : List (ℕ × Option GoError))
    → AllEntering ps
    → let s = run closable es (fresh ps) in
      ((s.flags.started && s.flags.shut) ≡ false)
      × ((s.flags.started ≡ false) ⊎ (1 ≤ nil_starts s.threads))
      × (s.flags.closes ≤ 1)
unfolding budget
run_safe closable ps es a =
    let k = run-RunKeeps closable es (fresh ps) in
    (
      ground (arith, k.gated (λ h. refl)),
      ground (arith, k.starts (λ h. cc)),
      omega (arith, k.spends, entering-closers ps a),
    )

-- Once Shutdown has taken the store down, it stays down: whatever steps follow, the store is shut,
-- is not started, and no further Start returns nil.
pub run_after_shutdown :
    (closable : Bool) (s : System) (es : List (ℕ × Option GoError))
    → s.flags.shut ≡ true
    → s.flags.started ≡ false
    → let t = run closable es s in
      (t.flags.shut ≡ true)
      × (t.flags.started ≡ false)
      × (nil_starts t.threads ≡ nil_starts s.threads)
run_after_shutdown closable s es h d =
    let k = run-RunKeeps closable es s in
    (k.stays_shut h, ground (arith, k.stays_shut h, k.gated), k.shut_nil h)
