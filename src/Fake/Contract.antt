-- ===== src/Fake/Contract.antt =====
-- The Fake keeps the contract of `Client.Put`, for the view of its objects as bytes at keys.
use mathlib.Core.Option
use go_storage.Prelude.{ℕ, ◌<◌, ◌≡◌, refl, Option, none, some, List, [], length, arith, inl, inr}
use go_storage.Prelude.Int.{pos_part}
use go_storage.Prelude.Text.{Text, text_eq_refl, eq_of_text_eq}
use go_storage.Prelude.Assoc.{lookup, lookup-insert}
use go_storage.Errors.{GoError, sentinel, eof, same_eof}
use go_storage.Stream.{Reader, IsStream, read_all_cases, read_outcome}
use go_storage.Storage.{PutOptions, Capabilities}
use go_storage.Storage.Contract.{PutOutcome, PutContract}
use go_storage.Fake.{Fake, Stored, size_mismatch, store_put, put, fake_client, object_of, outage}

-- What the Fake holds at a key.
unfoldable pub contents_at : Fake → Text → Option (List ℕ)
contents_at f k = Option.map (λ (o : Stored). o.contents) (lookup k f.objects)

size_fits : (n size : ℕ) → size_mismatch n size ≡ none → 0 < size → n ≡ size
unfolding size_mismatch
size_fits n size e p = ground arith

ends_eof : (e : GoError) → read_outcome e ≡ none → e ≡ sentinel eof
ends_eof e h = same_eof e (ground arith)

module _ (digest : List ℕ → Text) (key : Text) (opts : PutOptions) (bytes : List ℕ) (last : GoError)
    (f : Fake) where
  store_put_outcome :
      PutOutcome contents_at key opts bytes last f
        (store_put digest key opts bytes (read_outcome last) f).1
        (store_put digest key opts bytes (read_outcome last) f).2
  unfolding store_put object_of contents_at
  store_put_outcome = record {
    failed = λ bad k. ground arith;
    ended = λ e. ends_eof last (ground arith);
    written = λ e. ground (
      arith,
      lookup-insert key key (object_of digest key opts bytes f.now) f.objects,
      text_eq_refl key,
    );
    sized = λ e p. size_fits (length bytes) (pos_part opts.size) (ground arith) p;
    others = λ e k ne. ground (
      arith,
      lookup-insert key k (object_of digest key opts bytes f.now) f.objects,
      eq_of_text_eq key k,
    );
  }

module _ (digest : List ℕ → Text) (fuel : ℕ) (caps : Capabilities) where
  -- A body that the Fake has not read to its end within its fuel is not written.
  read_outcomes :
      (S : Type 0) (r : Reader S) (Holds Ended : S → Type 0) (content : S → List ℕ)
      (final : S → GoError) (key : Text) (opts : PutOptions) (s : S) (f : Fake)
      → IsStream r Holds Ended content final
      → Holds s
      → Holds (put digest S fuel r key opts s f).2
        × PutOutcome contents_at key opts
            (content s)
            (final s)
            f
            (put digest S fuel r key opts s f).1
            (put digest S fuel r key opts s f).3
  unfolding put
  read_outcomes S r Holds Ended content final key opts s f stream h =
      elim (read_all_cases r stream fuel [] s h) [
        | inl spent ↦ rw (spent, put) (h, unwritten)
        | inr (s', h', _, e) ↦
            rw (e, put) (h', store_put_outcome digest key opts (content s) (final s) f)
      ]
    where
      unwritten : PutOutcome contents_at key opts (content s) (final s) f (some outage) f
      unwritten = record {
        failed = λ _ k. refl;
        ended = λ q. cc;
        written = λ q. cc;
        sized = λ q. cc;
        others = λ q. cc;
      }

  -- So the Fake keeps the contract of Client.Put.
  pub fake-PutContract : PutContract (fake_client digest fuel caps) contents_at
  unfolding fake_client
  fake-PutContract = record {
    reads_only = λ S r Holds Ended content final ctx key opts s f stream h.
        (read_outcomes S r Holds Ended content final key opts s f stream h).0;
    put_outcome = λ S r Holds Ended content final ctx key opts s f stream h.
        (read_outcomes S r Holds Ended content final key opts s f stream h).1;
  }
