-- ===== src/Suite/Deleted.antt =====
-- The Fake and checkDelete of storagetest/suite.go.
use go_storage.Prelude.{ℕ, ◌≡◌, ◌<◌, refl, none, some, List, [], ◌∷◌, ◌++◌, length, arith}
use go_storage.Prelude.Int.{pos}
use go_storage.Prelude.Text.{Text, codes, text_eq_refl}
use go_storage.Prelude.Assoc.{lookup, delete, lookup-delete}
use go_storage.Errors.{GoError, sentinel, eof}
use go_storage.Stream.{Reader, IsStream, bytes_reader}
use go_storage.Storage.{Capabilities, Context, Client, PutOptions}
use go_storage.Fake.{Fake, gate, store_put, size_mismatch, fake_client}
use go_storage.Fake.{remove as fake_remove}
use go_storage.Suite.{check_delete, delete_error, want_nil, need_nil}
use go_storage.Suite.Passes.{close_bytes, went_on, reported, put_stored, stored_ok}
use go_storage.Suite.Missing.{key_wanted, stat_absent, get_absent}
use go_storage.Fake.Shown.{still_open}

-- What Delete leaves of a Fake.
abbrev without : Text → Fake → Fake
without key f = record f { objects = delete key f.objects }

without_key : (key : Text) (f : Fake) → lookup key (without key f).objects ≡ none
without_key key f = ground (arith, lookup-delete key key f.objects, text_eq_refl key)

still_without :
    (key other : Text) (f : Fake)
    → lookup key f.objects ≡ none
    → lookup key (without other f).objects ≡ none
still_without key other f h = ground (arith, lookup-delete other key f.objects, h)

module _ (digest : List ℕ → Text) (fuel : ℕ) (caps : Capabilities) (ctx : Context Fake)
    (cleanup : List Text) where
  abbrev fake : Client Fake (List ℕ)
  fake = fake_client digest fuel caps

  module _ (key : Text) (f : Fake) (up : gate f ≡ none) where
    deletes :
        delete_error fake ctx bytes_reader close_bytes fuel key (f, cleanup)
        ≡ (some none, [], (without key f, cleanup))
    unfolding delete_error fake_client fake_remove
    deletes = ground (arith, up)

without_up : (key : Text) (f : Fake) → gate f ≡ none → gate (without key f) ≡ none
unfolding gate
without_up key f up = up

fits : (n : ℕ) → size_mismatch n 0 ≡ none
unfolding size_mismatch
fits n = ground arith

-- checkDelete passes over a Fake that is up, has its container and takes the Put, for every body
-- that is a stream and ends with io.EOF, with fuel above its length: no failure is reported, the
-- key that it puts and deletes is noted for the cleanup, and the Fake does not hold it at the end.
pub check_delete_passes :
    (digest : List ℕ → Text) (fuel : ℕ) (caps : Capabilities) (ctx : Context Fake)
    (cleanup : List Text) {S : Type 0} {r : Reader S} {Holds Ended : S → Type 0}
    {content : S → List ℕ} {final : S → GoError} (stream : IsStream r Holds Ended content final)
    (f : Fake) (s : S) (prefix : Text)
    → Holds s
    → final s ≡ sentinel eof
    → length (content s) < fuel
    → gate f ≡ none
    → f.put_err ≡ none
    → (g : Fake) × (check_delete
          (fake_client digest fuel caps)
          ctx
          bytes_reader
          close_bytes
          fuel
          r
          s
          prefix
          (f, cleanup)
        ≡ (some tt, [], (g, (prefix ++ codes "deleted") ∷ cleanup)))
      × (lookup (prefix ++ codes "deleted") g.objects ≡ none)
unfolding check_delete need_nil want_nil
check_delete_passes digest fuel caps ctx cleanup {content = content} stream f s prefix h ends lt up
      accepts =
    let key = prefix ++ codes "deleted" in
    let other = prefix ++ codes "never-written" in
    let opts : PutOptions = record { content_type = []; size = pos 0 } in
    let ok =
      stored_ok digest fuel caps ctx key opts (content s) f up accepts
        (fits (length (content s))) in
    let f1 = (store_put digest key opts (content s) none f).2 in
    let up1 : gate f1 ≡ none = still_open digest key opts (content s) none f ok in
    let f2 = without key f1 in
    let up2 : gate f2 ≡ none = without_up key f1 up1 in
    let up3 : gate (without key f2) ≡ none = without_up key f2 up2 in
    let gone : lookup key f2.objects ≡ none = without_key key f1 in
    let noted = key ∷ cleanup in
    (
      without other (without key f2),
      went_on _ _ (put_stored digest fuel caps ctx key stream opts f cleanup s h ends lt ok) (
          went_on _ _ (deletes digest fuel caps ctx noted key f1 up1) (
            went_on _ _ refl (
              went_on _ _ (stat_absent digest fuel caps ctx f2 noted key up2 gone) (
                reported _ key_wanted (
                  went_on _ _ (get_absent digest fuel caps ctx f2 noted key up2 gone) (
                    reported _ key_wanted (
                      went_on _ _ (deletes digest fuel caps ctx noted key f2 up2) (
                        reported _ refl (
                          went_on _ _
                            (deletes digest fuel caps ctx noted other (without key f2) up3)
                            refl))))))))),
      still_without key other (without key f2) (without_key key f2),
    )
