-- ===== src/Stream/Sticky.antt =====
-- A reader that counts its bytes, keeps its first failure and follows another reader up to it is a
-- stream where the other one is.
use go_storage.Prelude.{
  ℕ, ◌≡◌, refl, sym, ap, ◌∙◌, Option, none, some, Option-cases, inl, inr, List, [], ◌++◌, length,
  length-append, ◌+◌, arith,
}
use go_storage.Errors.{GoError}
use go_storage.Stream.{Reader, ReadsWell, IsStream}

-- What is still to come, by the failure that is kept.
abbrev pub unless_failed : Option GoError → List ℕ → List ℕ
unless_failed none bs = bs
unless_failed (some e) bs = []

abbrev pub kept_or : Option GoError → GoError → GoError
kept_or none last = last
kept_or (some e) last = e

-- One read of a reader without a failure, beside one of the reader that it follows.
pub record Follows {A B : Type 0} (Good : A → Type 0) (view : A → B) (failure : A → Option GoError)
    (count : A → ℕ) (a : A) (out : List ℕ × Option GoError × A) (ref : List ℕ × Option GoError × B)
    : Type 0 where
  pub good : Good out.2
  pub bytes : out.0 ≡ ref.0
  pub errs : out.1 ≡ ref.1
  pub counts : count out.2 ≡ count a + length out.0
  pub live : failure out.2 ≡ none → view out.2 ≡ ref.2
  pub dead : (e : GoError) → failure out.2 ≡ some e → ref.1 ≡ some e

module _ {A B : Type 0} (view : A → B) (failure : A → Option GoError) where
  -- `total` is the number of the bytes counted and to come.
  abbrev pub StickyHolds : (A → Type 0) → (B → Type 0) → (B → List ℕ) → (A → ℕ) → ℕ → A → Type 0
  StickyHolds Good Holds content count total a =
      Good a
      × (failure a ≡ none → Holds (view a))
      × (count a + length (unless_failed (failure a) (content (view a))) ≡ total)

  abbrev pub StickyEnded : (B → Type 0) → A → Type 0
  StickyEnded Ended a = failure a ≡ none → Ended (view a)

  abbrev pub sticky_content : (B → List ℕ) → A → List ℕ
  sticky_content content a = unless_failed (failure a) (content (view a))

  abbrev pub sticky_final : (B → GoError) → A → GoError
  sticky_final final a = kept_or (failure a) (final (view a))

module _ {A B : Type 0} (Holds Ended : B → Type 0) (content : B → List ℕ) (final : B → GoError)
    (Good : A → Type 0) (view : A → B) (failure : A → Option GoError) (count : A → ℕ)
    (total : ℕ) where
  abbrev Well : A → ℕ → List ℕ × Option GoError × A → Type 0
  Well =
      ReadsWell (StickyHolds view failure Good Holds content count total)
        (StickyEnded view failure Ended) (sticky_content view failure content)
        (sticky_final view failure final)

  repeated :
      (a : A) (n : ℕ) (e : GoError)
      → StickyHolds view failure Good Holds content count total a
      → failure a ≡ some e
      → Well a n ([], some e, a)
  repeated a n e h k = record {
    holds = h;
    fits = omega arith;
    splits = refl;
    keeps = refl;
    ends = λ x p. (rw k (cc), rw k refl, λ q. cc);
    moves = λ p q. cc;
  }

  followed :
      (a : A) (n : ℕ) (out : List ℕ × Option GoError × A) (ref : List ℕ × Option GoError × B)
      → failure a ≡ none
      → count a + length (unless_failed (failure a) (content (view a))) ≡ total
      → Follows Good view failure count a out ref
      → ReadsWell Holds Ended content final (view a) n ref
      → Well a n out
  followed a n out ref k c f w = record {
    holds = (f.good, λ q. rw (f.live q) w.holds, counted);
    fits = rw f.bytes w.fits;
    splits = rw (k, f.bytes) (w.splits ∙ ap (λ c. ref.0 ++ c) (sym (rest (failure out.2) refl)));
    keeps = rw k (last (failure out.2) refl);
    ends = λ e p. (
      rw k (w.ends e (sym f.errs ∙ p)).0,
      rest (failure out.2) refl ∙ (w.ends e (sym f.errs ∙ p)).1,
      λ q. rw (f.live q) (w.ends e (sym f.errs ∙ p)).2,
    );
    moves = λ p q. rw f.bytes (w.moves p (sym f.errs ∙ q));
  }
    where
      rest :
          (o : Option GoError)
          → failure out.2 ≡ o
          → unless_failed o (content (view out.2)) ≡ content ref.2
      rest none q = ap content (f.live q)
      rest (some x) q = sym (w.ends x (f.dead x q)).1

      counted : count out.2 + length (unless_failed (failure out.2) (content (view out.2))) ≡ total
      counted = omega (
        arith,
        c,
        f.counts,
        ap (λ o. length (unless_failed o (content (view a)))) k,
        ap length (rest (failure out.2) refl),
        ap length f.bytes,
        ap length w.splits,
        length-append ref.0 (content ref.2),
      )

      last :
          (o : Option GoError) → failure out.2 ≡ o → kept_or o (final (view out.2)) ≡ final (view a)
      last none q = ap final (f.live q) ∙ w.keeps
      last (some x) q = (w.ends x (f.dead x q)).0

module _ {A B : Type 0} {r : Reader A} {other : Reader B} {Holds Ended : B → Type 0}
    {content : B → List ℕ} {final : B → GoError} (stream : IsStream other Holds Ended content final)
    (Good : A → Type 0) (view : A → B) (failure : A → Option GoError) (count : A → ℕ)
    (total : ℕ) where
  -- The reader's reads follow the other's until it keeps a failure, which it repeats from then on.
  pub sticky-IsStream :
      ((a : A) (n : ℕ)
        → Good a
        → failure a ≡ none
        → Holds (view a)
        → Follows Good view failure count a (r.read a n) (other.read (view a) n))
      → ((a : A) (n : ℕ) (e : GoError) → failure a ≡ some e → r.read a n ≡ ([], some e, a))
      → IsStream r
          (StickyHolds view failure Good Holds content count total)
          (StickyEnded view failure Ended)
          (sticky_content view failure content)
          (sticky_final view failure final)
  sticky-IsStream follow stop = record { reads = step }
    where
      step :
          (a : A) (n : ℕ)
          → StickyHolds view failure Good Holds content count total a
          → Well Holds Ended content final Good view failure count total a n (r.read a n)
      step a n h = elim (Option-cases (failure a)) [
        | inl k ↦
            followed Holds Ended content final Good view failure count total a n (r.read a n)
              (other.read (view a) n) k h.2 (follow a n h.0 k (h.1 k))
              (stream.reads (view a) n (h.1 k))
        | inr (e, k) ↦
            rw (stop a n e k)
              (repeated Holds Ended content final Good view failure count total a n e h k)
      ]
