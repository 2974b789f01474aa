-- ===== src/Storage/Contract.antt =====
-- client.go: what the documentation of `Client.Put` promises, as a contract between a provider and
-- its callers. `stored` is the view of the world that it speaks of: the bytes at each key.
use go_storage.Prelude.{
  ℕ, ◌<◌, ◌≡◌, ◌≢◌, refl, ap, ◌∙◌, ◌⊎◌, inl, inr, Option, none, some, List, [], length,
}
use go_storage.Prelude.Int.{pos, pos_part}
use go_storage.Prelude.Text.{Text}
use go_storage.Errors.{GoError, sentinel, eof}
use go_storage.Stream.{Reader, IsStream}
use go_storage.Storage.{Object, PutOptions, Context, Client}

-- One Put of a body that has `bytes` to come and ends with `last`. On an error nothing is written.
-- On success the body ended with io.EOF and the key holds exactly its bytes, a declared size is
-- theirs, and the other keys are as they were.
pub record PutOutcome {W : Type 0} (stored : W → Text → Option (List ℕ)) (key : Text)
    (opts : PutOptions) (bytes : List ℕ) (last : GoError) (w : W) (err : Option GoError) (w' : W)
    : Type 0 where
  pub failed : err ≢ none → (k : Text) → stored w' k ≡ stored w k
  pub ended : err ≡ none → last ≡ sentinel eof
  pub written : err ≡ none → stored w' key ≡ some bytes
  pub sized : err ≡ none → 0 < pos_part opts.size → length bytes ≡ pos_part opts.size
  pub others : err ≡ none → (k : Text) → k ≢ key → stored w' k ≡ stored w k

-- A client keeps the contract for every body that is a stream, and only reads from it.
pub record PutContract {W B : Type 0} (c : Client W B) (stored : W → Text → Option (List ℕ))
    : Type 1 where
  pub reads_only :
      (S : Type 0) (r : Reader S) (Holds Ended : S → Type 0) (content : S → List ℕ)
      (final : S → GoError) (ctx : Context W) (key : Text) (opts : PutOptions) (s : S) (w : W)
      → IsStream r Holds Ended content final
      → Holds s
      → Holds (c.put S r ctx key opts s w).2
  pub put_outcome :
      (S : Type 0) (r : Reader S) (Holds Ended : S → Type 0) (content : S → List ℕ)
      (final : S → GoError) (ctx : Context W) (key : Text) (opts : PutOptions) (s : S) (w : W)
      → IsStream r Holds Ended content final
      → Holds s
      → PutOutcome stored key opts
          (content s)
          (final s)
          w
          (c.put S r ctx key opts s w).1
          (c.put S r ctx key opts s w).3

-- The options of a write whose size is not declared.
abbrev pub undeclared : PutOptions
undeclared = record { content_type = []; size = pos 0 }

abbrev pub failure_of : {A : Type 0} → GoError ⊎ A → Option GoError
failure_of (inl e) = some e
failure_of (inr a) = none

-- What is known of a body whose reader ends with io.EOF.
pub record Fitting {S : Type 0} (content : S → List ℕ) (final : S → GoError) (size : ℕ) (s : S)
    (given : List ℕ) : Type 0 where
  pub whole_body : given ≡ content s
  pub ends_eof : final s ≡ sentinel eof
  pub declared : 0 < size → length (content s) ≡ size

module _ {W S : Type 0} {stored : W → Text → Option (List ℕ)} (content : S → List ℕ)
    (final : S → GoError) (key : Text) (opts : PutOptions) (s : S) where
  pub refused :
      (w w' : W) (e : GoError)
      → ((k : Text) → stored w' k ≡ stored w k)
      → PutOutcome stored key opts (content s) (final s) w (some e) w'
  refused w w' e same = record {
    failed = λ _ k. same k;
    ended = λ q. cc;
    written = λ q. cc;
    sized = λ q. cc;
    others = λ q. cc;
  }

  -- A write of all of the body's bytes, with what is done behind it.
  pub accepted :
      (w w' w'' : W) (given : List ℕ) (last : GoError)
      → PutOutcome stored key undeclared given last w none w'
      → ((k : Text) → stored w'' k ≡ stored w' k)
      → Fitting content final (pos_part opts.size) s given
      → PutOutcome stored key opts (content s) (final s) w none w''
  accepted w w' w'' given last o same fit = record {
    failed = λ bad. absurd (bad refl);
    ended = λ e. fit.ends_eof;
    written = λ e. same key ∙ o.written refl ∙ ap some fit.whole_body;
    sized = λ e p. fit.declared p;
    others = λ e k ne. same k ∙ o.others refl k ne;
  }

module _ {W S : Type 0} (stored : W → Text → Option (List ℕ)) (Holds : S → Type 0)
    (content : S → List ℕ) (final : S → GoError) (key : Text) (opts : PutOptions) (s : S) where
  -- A Put leaves the body well, and keeps the contract.
  abbrev pub Keeps : W → Object × Option GoError × S × W → Type 0
  Keeps w out = Holds out.2 × PutOutcome stored key opts (content s) (final s) w out.1 out.3
