-- ===== src/Stream/Partial.antt =====
-- Readers that may fail before the end of what they read, and `io.ReadAll` over them.
use go_storage.Prelude.{
  ℕ, zero, suc, ◌<◌, ◌≡◌, refl, sym, ap, ◌∙◌, true, Option, none, some, Option-cases, inl, inr,
  List, [], ◌++◌, length, length-append, arith,
}
use mathlib.Core.List.{append_assoc}
use go_storage.Errors.{GoError, sentinel, eof, same}
use go_storage.Stream.{Reader, read_all, read_room, read_outcome}

-- A read gives what comes next of the content and makes progress; it may fail at any byte, but
-- reports io.EOF only behind the last one.
pub record ReadsPart {S : Type 0} (Holds : S → Type 0) (content : S → List ℕ) (s : S) (n : ℕ)
    (out : List ℕ × Option GoError × S) : Type 0 where
  pub holds : Holds out.2
  pub splits : content s ≡ out.0 ++ content out.2
  pub ends : (e : GoError) → out.1 ≡ some e → same e (sentinel eof) ≡ true → content out.2 ≡ []
  pub moves : 0 < n → out.1 ≡ none → 0 < length out.0

pub record IsPartial {S : Type 0} (r : Reader S) (Holds : S → Type 0) (content : S → List ℕ)
    : Type 0 where
  pub reads : (s : S) (n : ℕ) → Holds s → ReadsPart Holds content s n (r.read s n)

-- Reading all gives a front part of the content, and the whole of it where it gives no error.
pub record FrontRead {S : Type 0} (r : Reader S) (Holds : S → Type 0) (content : S → List ℕ)
    (fuel : ℕ) (got : List ℕ) (s : S) : Type 0 where
  pub bytes : List ℕ
  pub err : Option GoError
  pub next : S
  pub result : read_all r fuel got s ≡ some (got ++ bytes, err, next)
  pub splits : content s ≡ bytes ++ content next
  pub holds : Holds next
  pub whole : err ≡ none → content next ≡ []

module _ {S : Type 0} {r : Reader S} {Holds : S → Type 0} {content : S → List ℕ}
    (part : IsPartial r Holds content) where
  -- Reading ends with fuel above the number of the bytes to come.
  pub read_front :
      (fuel : ℕ) (got : List ℕ) (s : S)
      → Holds s
      → length (content s) < fuel
      → FrontRead r Holds content fuel got s
  unfolding read_all
  read_front zero got s h lt = absurd (omega arith)
  read_front (suc fuel) got s h lt = elim (Option-cases (r.read s read_room).1) [
    | inr (x, e) ↦
        let w = part.reads s read_room h in
        record {
          bytes = (r.read s read_room).0;
          err = read_outcome x;
          next = (r.read s read_room).2;
          result = rw (e, read_all) refl;
          splits = w.splits;
          holds = w.holds;
          whole = λ q. w.ends x e (ground (arith, q));
        }
    | inl more ↦
        let w = part.reads s read_room h in
        let i : FrontRead r Holds content fuel (got ++ (r.read s read_room).0)
            (r.read s read_room).2 =
          read_front fuel (got ++ (r.read s read_room).0) (r.read s read_room).2 w.holds (
            omega (
              arith,
              w.moves (omega arith) more,
              ap length w.splits,
              length-append (r.read s read_room).0 (content (r.read s read_room).2),
            )) in
        record {
          bytes = (r.read s read_room).0 ++ i.bytes;
          err = i.err;
          next = i.next;
          result =
              rw (more, read_all)
                (i.result ∙ ap (λ b. some (b, i.err, i.next)) (append_assoc got _ _));
          splits =
              w.splits
              ∙ ap (λ c. (r.read s read_room).0 ++ c) i.splits
              ∙ sym (append_assoc _ _ (content i.next));
          holds = i.holds;
          whole = i.whole;
        }
  ]
