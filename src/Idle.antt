-- ===== src/Idle.antt =====
-- idle.go: `idleReader`, which bounds each read of a Get's body. What the timers' functions, which
-- run beside the reads, do is a list of turns; a body is read differently once they have cancelled
-- its request.
pub mod Reading
use go_storage.Prelude.{
  ℕ, Bool, true, false, not, ◌&&◌, ◌||◌, Option, none, some, List, [], ◌∷◌, if◌then◌else◌,
}
use go_storage.Prelude.Int.{pos}
use go_storage.Errors.{
  GoError, sentinel, errorf, int, shown, wrapped, end, same, eof, unavailable, deadline_exceeded,
}
use go_storage.Stream.{Reader}

-- What the timers' functions do around one read. `early`: the function of a timer that expired in
-- an earlier read, and had not run then, runs before the read looks at `fired`; `within`: it runs
-- while the read waits for the body. `expires`: the read's own timer expires before the read stops
-- it; `runs`: its function has run when the read looks at `fired` behind the body's read. `cut`:
-- a cancel in the course of the body's read reaches it before it returns.
pub record Turn : Type 0 where
  pub early : Bool
  pub within : Bool
  pub expires : Bool
  pub runs : Bool
  pub cut : Bool

-- A turn in which no timer's function runs.
abbrev pub quiet : Turn
quiet = record { early = false; within = false; expires = false; runs = false; cut = false }

abbrev pub next_turn : List Turn → Turn
next_turn [] = quiet
next_turn (t ∷ ts) = t

abbrev pub later : List Turn → List Turn
later [] = []
later (t ∷ ts) = ts

-- `cancelled` says whether the Get's request has been cancelled, `pending` whether a timer has
-- expired whose function has still to run. `turns` is what the reads to come meet; behind its end
-- no timer expires.
pub record IdleReader (S : Type 0) : Type 0 where
  pub body : S
  pub limit : ℕ
  pub fired : Bool
  pub cancelled : Bool
  pub pending : Bool
  pub turns : List Turn

abbrev pub new_idle_reader : {S : Type 0} → S → ℕ → List Turn → IdleReader S
new_idle_reader body limit turns = record {
  body = body;
  limit = limit;
  fired = false;
  cancelled = false;
  pending = false;
  turns = turns;
}

-- The limit is a duration, in nanoseconds. The cause is shown, not wrapped.
abbrev pub stalled : ℕ → GoError → GoError
stalled limit cause =
    errorf "%w: no bytes read within the read idle timeout (%s): %v"
      (wrapped (sentinel unavailable) (int (pos limit) (shown cause end)))

-- `cmp.Or(err, context.DeadlineExceeded)`.
abbrev pub or_deadline : Option GoError → GoError
or_deadline none = sentinel deadline_exceeded
or_deadline (some e) = e

abbrev pub is_eof : Option GoError → Bool
is_eof none = false
is_eof (some e) = same e (sentinel eof)

module _ {S : Type 0} where
  -- The function of a timer of an earlier read runs before the read's first look at `fired`.
  pub begin : Turn → IdleReader S → IdleReader S
  begin t l =
      if l.pending && t.early
      then record l { fired = true; cancelled = true; pending = false }
      else l

  -- Whether a timer's function runs between the read's two looks at `fired`.
  abbrev pub is_struck : Turn → IdleReader S → Bool
  is_struck t l = l.pending && t.within || t.expires && t.runs

  -- What a read gives of the body's: `stopped` says whether it stopped the timer before that
  -- expired.
  pub idle_result :
      Bool → IdleReader S → List ℕ → Option GoError → List ℕ × Option GoError × IdleReader S
  idle_result stopped l bs e =
      if not stopped && l.fired
      then (if is_eof e then (bs, e, l) else (bs, some (stalled l.limit (or_deadline e)), l))
      else (bs, e, l)

  -- A read that has not found `fired` set. `r` reads the body under a request that is cancelled, or
  -- is not.
  pub read_live :
      (Bool → Reader S) → Turn → IdleReader S → ℕ → List ℕ × Option GoError × IdleReader S
  unfolding idle_result
  read_live r t l n =
      let (bs, e, s) = (r (l.cancelled || is_struck t l && t.cut)).read l.body n in
      idle_result (not t.expires)
        (record l {
          body = s;
          fired = is_struck t l;
          cancelled = l.cancelled || is_struck t l;
          pending = l.pending && not t.within || t.expires && not t.runs;
        })
        bs e

  pub read_begun :
      (Bool → Reader S) → Turn → IdleReader S → ℕ → List ℕ × Option GoError × IdleReader S
  unfolding read_live
  read_begun r t l n =
      if l.fired
      then ([], some (stalled l.limit (sentinel deadline_exceeded)), l)
      else read_live r t l n

  unfoldable pub read_idle :
      (Bool → Reader S) → IdleReader S → ℕ → List ℕ × Option GoError × IdleReader S
  unfolding begin read_begun
  read_idle r l n =
      let t = next_turn l.turns in read_begun r t (begin t (record l { turns = later l.turns })) n

  abbrev pub idle_reader : (Bool → Reader S) → Reader (IdleReader S)
  idle_reader r = record { read = read_idle r }

  -- `Close`, before it closes the body; the timer is not running between reads.
  pub close_idle : IdleReader S → IdleReader S
  close_idle l = record l { cancelled = true }
