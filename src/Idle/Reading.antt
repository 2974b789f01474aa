-- ===== src/Idle/Reading.antt =====
-- Reading a Get's body to its end through an idle reader, whatever the timers do.
use go_storage.Prelude.{
  ℕ, zero, suc, ◌<◌, ◌≡◌, ◌⊎◌, inl, inr, refl, ap, sym, ◌∙◌, Bool, true, false, not, ◌&&◌, ◌||◌,
  Option, none, some, Option-cases, Bool-cases, subst, if◌then◌else◌, List, [], ◌∷◌, ◌++◌, length,
  length-append, arith,
}
use mathlib.Core.List.{append_assoc}
use go_storage.Errors.{GoError, sentinel, same, is, unavailable, canceled, deadline_exceeded}
use go_storage.Stream.{Reader, IsStream, read_all, read_room, finished}
use go_storage.Idle.{
  Turn, IdleReader, stalled, begin, is_struck, idle_result, read_live, read_begun, read_idle,
  idle_reader, or_deadline, is_eof, next_turn, later,
}

-- The error of a read that the timer cut off matches ErrUnavailable, and neither error of a
-- context, whatever the cause that it shows.
pub stalled_matches :
    (limit : ℕ) (cause : GoError)
    → (is (stalled limit cause) (sentinel unavailable) ≡ true)
      × (is (stalled limit cause) (sentinel canceled) ≡ false)
      × (is (stalled limit cause) (sentinel deadline_exceeded) ≡ false)
unfolding is same
stalled_matches limit cause = (ground arith, ground arith, ground arith)

-- A timer's function that runs so late that it cancels the body's read of a later Read, whose own
-- timer does not expire.
abbrev pub is_late : Turn → Bool
is_late t = t.within && (t.cut && not t.expires)

pub late : List Turn → Bool
late [] = false
late (t ∷ ts) = is_late t || late ts

late_now : (ts : List Turn) → is_late (next_turn ts) ≡ true → late ts ≡ true
unfolding late
late_now [] h = h
late_now (t ∷ ts) h = ground (arith, h)

late-later : (ts : List Turn) → late (later ts) ≡ true → late ts ≡ true
unfolding late
late-later [] h = h
late-later (t ∷ ts) h = ground (arith, h)

module _ {S : Type 0} (Holds : S → Type 0) (content : S → List ℕ) (final : S → GoError) where
  -- A read under a request that is cancelled: it loses nothing, and may fail at any byte, but with
  -- io.EOF only as the body itself does behind its last one.
  pub record ReadsCut (s : S) (out : List ℕ × Option GoError × S) : Type 0 where
    pub holds : Holds out.2
    pub splits : content s ≡ out.0 ++ content out.2
    pub keeps : final out.2 ≡ final s
    pub ends : is_eof out.1 ≡ true → (out.1 ≡ some (final s)) × (content out.2 ≡ [])
    pub moves : out.1 ≡ none → 0 < length out.0

  -- What either kind of read does.
  record ReadsBody (cancelled : Bool) (s : S) (out : List ℕ × Option GoError × S) : Type 0 where
    holds : Holds out.2
    splits : content s ≡ out.0 ++ content out.2
    keeps : final out.2 ≡ final s
    ends :
        (e : GoError)
        → out.1 ≡ some e
        → ((e ≡ final s) × (content out.2 ≡ [])) ⊎ ((cancelled ≡ true) × (is_eof out.1 ≡ false))
    moves : out.1 ≡ none → 0 < length out.0

-- A body that is read as a stream, until its request is cancelled.
pub record IsCancellable {S : Type 0} (r : Bool → Reader S) (Holds Ended : S → Type 0)
    (content : S → List ℕ) (final : S → GoError) : Type 0 where
  pub live : IsStream (r false) Holds Ended content final
  pub cut : (s : S) → Holds s → ReadsCut Holds content final s ((r true).read s read_room)

module _ {S : Type 0} {r : Bool → Reader S} {Holds Ended : S → Type 0} {content : S → List ℕ}
    {final : S → GoError} (stream : IsCancellable r Holds Ended content final) where
  body_read :
      (c : Bool) (s : S) → Holds s → ReadsBody Holds content final c s ((r c).read s read_room)
  body_read false s h =
      let w = stream.live.reads s read_room h in
      record {
        holds = w.holds;
        splits = w.splits;
        keeps = w.keeps;
        ends = λ e p. inl ((w.ends e p).0, (w.ends e p).1);
        moves = λ p. w.moves (omega arith) p;
      }
  body_read true s h =
      let w = stream.cut s h in
      record {
        holds = w.holds;
        splits = w.splits;
        keeps = w.keeps;
        ends = λ e p. elim (Bool-cases (is_eof ((r true).read s read_room).1)) [
          | inl last ↦ inl (cc (p, (w.ends last).0), (w.ends last).1)
          | inr other ↦ inr (refl, other)
        ];
        moves = w.moves;
      }

  -- Where a read's error comes from: the body ended, or a timer fired, or one was late.
  abbrev pub EndsIdle : Turn → IdleReader S → GoError → IdleReader S → Type 0
  EndsIdle t l e out =
      ((e ≡ final l.body) × (content out.body ≡ []))
      ⊎ (((cause : GoError) × (e ≡ stalled l.limit cause) × (out.fired ≡ true))
          ⊎ (is_late t ≡ true))

  -- One read that loses nothing.
  record ReadsOn (t : Turn) (l : IdleReader S) (out : List ℕ × Option GoError × IdleReader S)
      : Type 0 where
    holds : Holds out.2.body
    splits : content l.body ≡ out.0 ++ content out.2.body
    keeps : final out.2.body ≡ final l.body
    same_limit : out.2.limit ≡ l.limit
    same_turns : out.2.turns ≡ l.turns
    released : out.2.cancelled ≡ out.2.fired
    ends : (e : GoError) → out.1 ≡ some e → EndsIdle t l e out.2
    moves : out.1 ≡ none → 0 < length out.0

  idle_result-ReadsOn :
      (t : Turn) (l m : IdleReader S) (bs : List ℕ) (e : Option GoError)
      → ReadsBody Holds content final (m.fired && t.cut) l.body (bs, e, m.body)
      → m.limit ≡ l.limit
      → m.turns ≡ l.turns
      → m.cancelled ≡ m.fired
      → ((m.fired && t.cut) ≡ true → t.expires ≡ false → is_late t ≡ true)
      → ReadsOn t l (idle_result (not t.expires) m bs e)
  unfolding idle_result
  idle_result-ReadsOn t l m bs e w limit turns released lateness =
      elim (Bool-cases (not (not t.expires) && m.fired)) [
        | inr raw ↦
            rw (raw, idle_result) (given (λ x c _. inr (inr (lateness c (ground (arith, raw, c))))))
        | inl struck ↦ elim (Bool-cases (is_eof e)) [
          | inl last ↦ rw (struck, last, idle_result) (given (λ x c q. cc))
          | inr other ↦
              rw (struck, other, idle_result)
                (record {
                  holds = w.holds;
                  splits = w.splits;
                  keeps = w.keeps;
                  same_limit = limit;
                  same_turns = turns;
                  released = released;
                  ends = λ x p. inr (inl (or_deadline e, cc (p, limit), ground (arith, struck)));
                  moves = λ p. cc;
                })
        ]
      ]
    where
      given :
          ((x : GoError) → (m.fired && t.cut) ≡ true → is_eof e ≡ false → EndsIdle t l x m)
          → ReadsOn t l (bs, e, m)
      given otherwise = record {
        holds = w.holds;
        splits = w.splits;
        keeps = w.keeps;
        same_limit = limit;
        same_turns = turns;
        released = released;
        ends = λ x p. elim (w.ends x p) [ inl (a, b) ↦ inl (a, b) | inr (c, q) ↦ otherwise x c q ];
        moves = w.moves;
      }

  late_cut :
      (t : Turn) (p : Bool)
      → ((p && t.within || t.expires && t.runs) && t.cut) ≡ true
      → t.expires ≡ false
      → is_late t ≡ true
  late_cut t p struck kept = ground arith

  read_live-ReadsOn :
      (t : Turn) (l : IdleReader S)
      → Holds l.body
      → l.cancelled ≡ false
      → ReadsOn t l (read_live r t l read_room)
  unfolding read_live
  read_live-ReadsOn t l h free =
      idle_result-ReadsOn t l _ _ _
        (subst
          (λ c.
            ReadsBody Holds content final c l.body
              ((r (l.cancelled || is_struck t l && t.cut)).read l.body read_room))
          uncut (body_read (l.cancelled || is_struck t l && t.cut) l.body h))
        refl refl (ground (arith, free)) (late_cut t l.pending)
    where
      uncut : (l.cancelled || is_struck t l && t.cut) ≡ (is_struck t l && t.cut)
      uncut = ground (arith, free)

  read_begun-ReadsOn :
      (t : Turn) (l : IdleReader S)
      → Holds l.body
      → l.cancelled ≡ l.fired
      → ReadsOn t l (read_begun r t l read_room)
  unfolding read_begun
  read_begun-ReadsOn t l h released = elim (Bool-cases l.fired) [
    | inl fired ↦ subst (ReadsOn t l) (sym (chosen true fired)) (record {
      holds = h;
      splits = refl;
      keeps = refl;
      same_limit = refl;
      same_turns = refl;
      released = released;
      ends = λ x p. inr (inl (sentinel deadline_exceeded, cc, fired));
      moves = λ p. cc;
    })
    | inr live ↦
        subst (ReadsOn t l) (sym (chosen false live)) (read_live-ReadsOn t l h (released ∙ live))
  ]
    where
      chosen :
          (b : Bool)
          → l.fired ≡ b
          → read_begun r t l read_room ≡ (
              if b
              then ([], some (stalled l.limit (sentinel deadline_exceeded)), l)
              else read_live r t l read_room)
      chosen b e =
          ap
            (λ f.
              if f
              then ([], some (stalled l.limit (sentinel deadline_exceeded)), l)
              else read_live r t l read_room)
            e

  begin_lem :
      (t : Turn) (l : IdleReader S)
      → l.cancelled ≡ l.fired
      → ((begin t l).body ≡ l.body)
        × ((begin t l).limit ≡ l.limit)
        × ((begin t l).turns ≡ l.turns)
        × ((begin t l).cancelled ≡ (begin t l).fired)
  unfolding begin
  begin_lem t l released = elim (Bool-cases (l.pending && t.early)) [
    | inl runs ↦ rw (runs, begin) (refl, refl, refl, refl)
    | inr waits ↦ rw (waits, begin) (refl, refl, refl, released)
  ]

  read_idle-ReadsOn :
      (l : IdleReader S)
      → Holds l.body
      → l.cancelled ≡ l.fired
      → ReadsOn (next_turn l.turns) (record l { turns = later l.turns }) (read_idle r l read_room)
  unfolding read_idle
  read_idle-ReadsOn l h released =
      let t = next_turn l.turns in
      let b = begin t (record l { turns = later l.turns }) in
      let (body, limit, turns, kept) = begin_lem t (record l { turns = later l.turns }) released in
      let k : ReadsOn t b (read_begun r t b read_room) = read_begun-ReadsOn t b (rw body h) kept in
      record {
        holds = k.holds;
        splits = ap content (sym body) ∙ k.splits;
        keeps = k.keeps ∙ ap final body;
        same_limit = k.same_limit ∙ limit;
        same_turns = k.same_turns ∙ turns;
        released = k.released;
        ends = λ e p. elim (k.ends e p) [
          | inl (q, c) ↦ inl (q ∙ ap final body, c)
          | inr (inl (cause, q, f)) ↦ inr (inl (cause, q ∙ ap (λ n. stalled n cause) limit, f))
          | inr (inr q) ↦ inr (inr q)
        ];
        moves = k.moves;
      }

  -- Reading to the end: what was read, what was left behind, and how it ended.
  pub record ReadIdle (fuel : ℕ) (got : List ℕ) (l : IdleReader S) : Type 0 where
    pub bytes : List ℕ
    pub rest : List ℕ
    pub last : GoError
    pub left : IdleReader S
    pub result : read_all (idle_reader r) fuel got l ≡ finished (idle_reader r) bytes last left
    pub split : got ++ content l.body ≡ bytes ++ rest
    pub reason :
        ((last ≡ final l.body) × (rest ≡ []))
        ⊎ (((cause : GoError) × (last ≡ stalled l.limit cause) × (left.fired ≡ true))
            ⊎ (late l.turns ≡ true))

  -- Reading a Get's body of a stream to its end through an idle reader returns with fuel above the
  -- length of the body, however its timers fire and wherever their cancel cuts off the body's read,
  -- and gives a front part of the body. Either that is the whole body, with the body's own last
  -- error; or the reader has fired, and the error is that of a stalled read; or the function of a
  -- timer of an earlier read ran so late that its cancel cut off a read whose own timer did not
  -- expire.
  pub read_all-idle_reader :
      (fuel : ℕ) (got : List ℕ) (l : IdleReader S)
      → Holds l.body
      → l.cancelled ≡ l.fired
      → length (content l.body) < fuel
      → ReadIdle fuel got l
  unfolding read_all
  read_all-idle_reader zero got l h released lt = absurd (omega arith)
  read_all-idle_reader (suc fuel) got l h released lt =
      let k = read_idle-ReadsOn l h released in
      elim (Option-cases (read_idle r l read_room).1) [
        | inr (x, e) ↦ record {
          bytes = got ++ (read_idle r l read_room).0;
          rest = content (read_idle r l read_room).2.body;
          last = x;
          left = (read_idle r l read_room).2;
          result = rw (e, read_all) refl;
          split = rw k.splits (
              sym (
                append_assoc got (read_idle r l read_room).0
                  (content (read_idle r l read_room).2.body)));
          reason = elim (k.ends x e) [
            | inl (p, q) ↦ inl (p, q)
            | inr (inl c) ↦ inr (inl c)
            | inr (inr c) ↦ inr (inr (late_now l.turns c))
          ];
        }
        | inl more ↦
            let i =
              read_all-idle_reader fuel (got ++ (read_idle r l read_room).0)
                (read_idle r l read_room).2 k.holds k.released
                (omega (
                  arith,
                  ap length k.splits,
                  length-append (read_idle r l read_room).0
                      (content (read_idle r l read_room).2.body),
                  k.moves more,
                )) in
            record {
              bytes = i.bytes;
              rest = i.rest;
              last = i.last;
              left = i.left;
              result = rw (more, read_all) i.result;
              split = rw k.splits (
                  sym (
                    append_assoc got (read_idle r l read_room).0
                      (content (read_idle r l read_room).2.body))
                  ∙ i.split);
              reason = elim i.reason [
                | inl (p, q) ↦ inl (p ∙ k.keeps, q)
                | inr (inl (c, p, f)) ↦ inr (inl (c, p ∙ ap (λ n. stalled n c) k.same_limit, f))
                | inr (inr c) ↦ inr (inr (late-later l.turns (ap late (sym k.same_turns) ∙ c)))
              ];
            }
      ]
