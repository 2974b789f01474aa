-- ===== src/Fake/Agreement.antt =====
-- What the Fake's operations say of one object agrees.
use go_storage.Prelude.{ℕ, ◌≡◌, ◌≢◌, List, Option, none, some, arith}
use go_storage.Prelude.Text.{Text, text_eq_refl, eq_of_text_eq}
use go_storage.Prelude.Assoc.{lookup, insert, lookup-insert, lookup-delete}
use go_storage.Errors.{GoError}
use go_storage.Storage.{Object, PutOptions}
use go_storage.Fake.{Fake, gate, store_put, object_of, get, stat, remove, missing_key}

-- The answers of the reading operations about one key.
pub record Shows (f : Fake) (key : Text) (obj : Object) (bytes : List ℕ) : Type 0 where
  pub by_get : (get key f).0 ≡ record { object = obj; body = some bytes }
  pub get_ok : (get key f).1 ≡ none
  pub by_stat : (stat key f).0 ≡ obj
  pub stat_ok : (stat key f).1 ≡ none

module _ (digest : List ℕ → Text) (key : Text) (opts : PutOptions) (bytes : List ℕ)
    (read_err : Option GoError) (f : Fake) where
  abbrev after : Fake
  after = (store_put digest key opts bytes read_err f).2

  -- After a successful Put, Get and Stat report the object that Put reported, and the body of Get
  -- is what Put read.
  pub store_put-Shows :
      (store_put digest key opts bytes read_err f).1 ≡ none
      → Shows after key (store_put digest key opts bytes read_err f).0 bytes
  unfolding store_put get stat object_of gate
  store_put-Shows ok = record {
    by_get = ground (arith, facts);
    get_ok = ground (arith, facts);
    by_stat = ground (arith, facts);
    stat_ok = ground (arith, facts);
  }
    where
      facts :
          lookup key (insert key (object_of digest key opts bytes f.now) f.objects)
          ≡ some (object_of digest key opts bytes f.now)
      facts = ground (
        arith,
        lookup-insert key key (object_of digest key opts bytes f.now) f.objects,
        text_eq_refl key,
      )

-- On a Fake that answers, Delete of a key succeeds, whether or not the Fake holds the key; then
-- Stat of it fails with the Fake's not-found error, and Stat of any other key answers as before.
pub stat-remove :
    (key k : Text) (f : Fake)
    → gate f ≡ none
    → k ≢ key
    → ((remove key f).0 ≡ none)
      × ((stat key (remove key f).1).1 ≡ some missing_key)
      × ((stat k (remove key f).1).0 ≡ (stat k f).0)
      × ((stat k (remove key f).1).1 ≡ (stat k f).1)
unfolding stat remove gate
stat-remove key k f up ne = (
  ground arith,
  ground (arith, lookup-delete key key f.objects, text_eq_refl key),
  ground (arith, lookup-delete key k f.objects, eq_of_text_eq key k),
  ground (arith, lookup-delete key k f.objects, eq_of_text_eq key k),
)
