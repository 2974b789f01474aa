-- ===== src/Stream/Compose.antt =====
-- `io.LimitReader` with `bytes.Buffer.ReadFrom`, and `io.MultiReader` of a buffer and a reader.
use go_storage.Prelude.{
  ℕ, zero, suc, ◌-◌, ◌≤◌, ◌<◌, ◌≡◌, refl, sym, ap, ◌∙◌, Option, none, some, Option-cases, inl, inr,
  List, [], ◌∷◌, ◌++◌, length, take, drop, length-append, length-take, take-append,
  take-append-drop, take-nil, min, arith,
}
use mathlib.Core.List.{append-nil, append_assoc}
use go_storage.Errors.{GoError, sentinel, eof}
use go_storage.Stream.{Reader, ReadsWell, IsStream, read_all, read_room, read_outcome}

module _ {S : Type 0} where
  -- `io.LimitReader`: a reader and the number of bytes that it may still give.
  unfoldable pub read_limited_to : Reader S → S × ℕ → ℕ → List ℕ × Option GoError × (S × ℕ)
  read_limited_to r (s, zero) n = ([], some (sentinel eof), (s, zero))
  read_limited_to r (s, suc left) n =
      let (bs, e, s') = r.read s (min n (suc left)) in (bs, e, (s', suc left - length bs))

  abbrev pub limited_to : Reader S → Reader (S × ℕ)
  limited_to r = record { read = read_limited_to r }

  -- `io.MultiReader(&buf, src)`: the bytes left in the buffer, then the reader.
  unfoldable pub read_multi : Reader S → List ℕ × S → ℕ → List ℕ × Option GoError × (List ℕ × S)
  read_multi r (b ∷ buf, s) n = (take n (b ∷ buf), none, (drop n (b ∷ buf), s))
  read_multi r ([], s) n = let (bs, e, s') = r.read s n in (bs, e, ([], s'))

  abbrev pub multi_reader : Reader S → Reader (List ℕ × S)
  multi_reader r = record { read = read_multi r }

module _ {S : Type 0} (Holds Ended : S → Type 0) (content : S → List ℕ) (final : S → GoError) where
  abbrev pub MultiHolds : List ℕ × S → Type 0
  MultiHolds p = Holds p.1

  -- A buffer is empty once the reader behind it has ended.
  abbrev pub MultiEnded : List ℕ × S → Type 0
  MultiEnded p = (p.0 ≡ []) × Ended p.1

  abbrev pub multi_content : List ℕ × S → List ℕ
  multi_content p = p.0 ++ content p.1

  abbrev pub multi_final : List ℕ × S → GoError
  multi_final p = final p.1

module _ {S : Type 0} {r : Reader S} {Holds Ended : S → Type 0} {content : S → List ℕ}
    {final : S → GoError} (stream : IsStream r Holds Ended content final) where
  -- A buffer before a stream is a stream.
  pub multi_reader-IsStream :
      IsStream
        (multi_reader r)
        (MultiHolds Holds Ended content final)
        (MultiEnded Holds Ended content final)
        (multi_content Holds Ended content final)
        (multi_final Holds Ended content final)
  unfolding read_multi
  multi_reader-IsStream = record { reads = λ p n h. reads p.0 p.1 n h }
    where
      reads :
          (buf : List ℕ) (s : S) (n : ℕ)
          → Holds s
          → ReadsWell
              (MultiHolds Holds Ended content final)
              (MultiEnded Holds Ended content final)
              (multi_content Holds Ended content final)
              (multi_final Holds Ended content final)
              (buf, s)
              n
              (read_multi r (buf, s) n)
      reads (b ∷ buf) s n h = record {
        holds = h;
        fits = omega (arith, length-take n (b ∷ buf));
        splits =
            ap (λ x. x ++ content s) (sym (take-append-drop n (b ∷ buf)))
            ∙ append_assoc (take n (b ∷ buf)) (drop n (b ∷ buf)) (content s);
        keeps = refl;
        ends = λ e p. cc;
        moves = λ p q. omega (arith, length-take n (b ∷ buf));
      }
      reads [] s n h =
          let w = stream.reads s n h in
          record {
            holds = w.holds;
            fits = w.fits;
            splits = w.splits;
            keeps = w.keeps;
            ends = λ e p. ((w.ends e p).0, (w.ends e p).1, (refl, (w.ends e p).2));
            moves = w.moves;
          }

  -- What reading at most `left` bytes of a stream into a buffer comes to.
  pub record ReadUpto (fuel : ℕ) (got : List ℕ) (s : S) (left : ℕ) : Type 0 where
    pub err : Option GoError
    pub next : S
    pub rest : ℕ
    pub result :
        read_all (limited_to r) fuel got (s, left)
        ≡ some (got ++ take left (content s), err, (next, rest))
    pub splits : content s ≡ take left (content s) ++ content next
    pub holds : Holds next
    pub keeps : final next ≡ final s
    pub short : length (content s) < left → (err ≡ read_outcome (final s)) × Ended next

  -- The bytes of a read come off what may still be read.
  taken :
      (s : S) (left : ℕ) (bs cs : List ℕ)
      → length bs ≤ left
      → content s ≡ bs ++ cs
      → bs ++ take (left - length bs) cs ≡ take left (content s)
  taken s left bs cs fits e = rw e (sym (take-append left bs cs fits))

  fewer :
      (s : S) (left : ℕ)
      → length (content s) < suc left
      → ReadsWell Holds Ended content final s
          (min read_room (suc left))
          (r.read s (min read_room (suc left)))
      → (r.read s (min read_room (suc left))).1 ≡ none
      → length (content (r.read s (min read_room (suc left))).2)
        < suc left - length (r.read s (min read_room (suc left))).0
  fewer s left p w more = omega (
    arith,
    p,
    w.fits,
    ap length w.splits,
    length-append (r.read s (min read_room (suc left))).0
        (content (r.read s (min read_room (suc left))).2),
  )

  -- It ends with fuel above the number of bytes that may be read.
  pub read_upto :
      (fuel : ℕ) (got : List ℕ) (s : S) (left : ℕ)
      → Holds s
      → left < fuel
      → ReadUpto fuel got s left
  unfolding read_all read_limited_to
  read_upto zero got s left h lt = absurd (omega arith)
  read_upto (suc fuel) got s zero h lt = record {
    err = read_outcome (sentinel eof);
    next = s;
    rest = 0;
    result = refl;
    splits = refl;
    holds = h;
    keeps = refl;
    short = λ p. absurd (omega arith);
  }
  read_upto (suc fuel) got s (suc left) h lt =
      elim (Option-cases (r.read s (min read_room (suc left))).1) [
        | inr (x, e) ↦
            let w = stream.reads s (min read_room (suc left)) h in
            let all : (r.read s (min read_room (suc left))).0 ≡ take (suc left) (content s) =
              sym (append-nil _)
              ∙ ap (λ c. (r.read s (min read_room (suc left))).0 ++ c)
                  (sym (take-nil (suc left - length (r.read s (min read_room (suc left))).0))
                    ∙ ap (take (suc left - length (r.read s (min read_room (suc left))).0))
                        (sym (w.ends x e).1))
              ∙ taken s (suc left) _ _ (omega (arith, w.fits)) w.splits in
            record {
              err = read_outcome x;
              next = (r.read s (min read_room (suc left))).2;
              rest = suc left - length (r.read s (min read_room (suc left))).0;
              result = rw (e, read_all) (rw all refl);
              splits =
                  w.splits ∙ ap (λ b. b ++ content (r.read s (min read_room (suc left))).2) all;
              holds = w.holds;
              keeps = w.keeps;
              short = λ p. (ap read_outcome (w.ends x e).0, (w.ends x e).2);
            }
        | inl more ↦
            let w = stream.reads s (min read_room (suc left)) h in
            let i =
              read_upto fuel (got ++ (r.read s (min read_room (suc left))).0)
                (r.read s (min read_room (suc left))).2
                (suc left - length (r.read s (min read_room (suc left))).0) w.holds
                (omega (arith, w.moves (omega arith) more)) in
            let all : (r.read s (min read_room (suc left))).0
                  ++ take (suc left - length (r.read s (min read_room (suc left))).0)
                      (content (r.read s (min read_room (suc left))).2)
                ≡ take (suc left) (content s) =
              taken s (suc left) _ _ (omega (arith, w.fits)) w.splits in
            record {
              err = i.err;
              next = i.next;
              rest = i.rest;
              result =
                  rw (more, read_all)
                    (i.result
                      ∙ ap (λ b. some (b, i.err, (i.next, i.rest)))
                          (append_assoc got _ _ ∙ ap (λ b. got ++ b) all));
              splits =
                  w.splits
                  ∙ ap (λ c. (r.read s (min read_room (suc left))).0 ++ c) i.splits
                  ∙ sym (append_assoc _ _ (content i.next))
                  ∙ ap (λ b. b ++ content i.next) all;
              holds = i.holds;
              keeps = i.keeps ∙ w.keeps;
              short = λ p.
                  let q = i.short (fewer s left p w more) in (q.0 ∙ ap read_outcome w.keeps, q.1);
            }
      ]
