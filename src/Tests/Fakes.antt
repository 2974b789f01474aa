-- ===== src/Tests/Fakes.antt =====
-- Instances of the theorems about the Fake.
use go_storage.Prelude.{
  ◌<◌, ℕ, ◌≡◌, ◌≢◌, refl, ap, true, not, ◌&&◌, none, some, List, [], ◌∷◌, map, arith,
}
use go_storage.Prelude.Int.{pos}
use go_storage.Prelude.Text.{Text, codes, has_prefix, is_empty}
use go_storage.Prelude.Assoc.{keys}
use go_storage.Errors.{sentinel, too_large, is_some}
use go_storage.Stream.{bytes_reader, bytes_reader-IsStream}
use go_storage.Storage.{zero_time}
use go_storage.Storage.Contract.{PutContract}
use go_storage.Store.{put}
use go_storage.Fake.{Fake, Stored, fake_client, stat, remove, store_put, gate, meta_at, missing_key}
use go_storage.Fake.Contract.{contents_at, fake-PutContract}
use go_storage.Fake.Invariant.{
  Call, puts, removes, lists, ensures, drops, IsValid, run, run-IsValid,
}
use go_storage.Fake.Paging.{Rising}
use go_storage.Fake.Listing.{list_all, has, IsUp, list_all_complete}
use go_storage.Fake.Agreement.{stat-remove}
use go_storage.Fake.Shown.{Shown, store_put-Shown}
use go_storage.Fake.UnderStore.{Accepts, put_within, put_past_bound}
use go_storage.Fake.{ensure_container}
use go_storage.Fake.Options.{page, bare, new_fake, new_fake-IsValid}
use go_storage.Tests.{
  toy_digest, caps, background, small_store, no_list_options, empty_fake, key_a, key_b,
}
use go_storage.Storage.Contract.{undeclared}

-- The object that a Put of one byte without a content type makes.
abbrev one_byte : Text → Stored
one_byte key = record {
  meta = record {
    key = key;
    size = pos 1;
    content_type = codes "application/octet-stream";
    etag = codes "\"digest\"";
    modified_at = zero_time;
  };
  contents = 7 ∷ [];
}

-- A Fake that holds the key "a".
abbrev fake_a : Fake
fake_a = record empty_fake { objects = (key_a, one_byte key_a) ∷ [] }

abbrev fake_ba : Fake
fake_ba = record empty_fake { objects = (key_b, one_byte key_b) ∷ (key_a, one_byte key_a) ∷ [] }

abbrev first : Text → ℕ
first [] = 0
first (b ∷ t) = b

b_not_a : key_b ≢ key_a
b_not_a e = absurd (omega (arith, ap first e))

fake-PutContract_example : PutContract (fake_client toy_digest 9 caps) contents_at
fake-PutContract_example = fake-PutContract toy_digest 9 caps

small-Accepts : Accepts toy_digest small_store caps key_a undeclared fake_a
unfolding gate go_storage.Store.check_key
small-Accepts = record {
  up = refl;
  key_ok = refl;
  undeclared = refl;
  bounded = omega arith;
  fake_up = refl;
  no_put_err = refl;
}

put_within_example :
    let out =
      put
        (fake_client toy_digest 9 caps)
        bytes_reader
        background
        key_a
        undeclared
        small_store
        (1 ∷ 2 ∷ [])
        fake_a in
    (out.1 ≡ none) × (contents_at out.3 key_a ≡ some (1 ∷ 2 ∷ []))
put_within_example =
    put_within bytes_reader-IsStream toy_digest 9 small_store caps background key_a undeclared
      (1 ∷ 2 ∷ []) fake_a tt refl (omega arith) small-Accepts (omega arith)

put_past_bound_example :
    let out =
      put
        (fake_client toy_digest 9 caps)
        bytes_reader
        background
        key_a
        undeclared
        small_store
        (1 ∷ 2 ∷ 3 ∷ 4 ∷ [])
        fake_a in
    (is_some out.1 (sentinel too_large) ≡ true) × (out.3.objects ≡ fake_a.objects)
put_past_bound_example =
    put_past_bound bytes_reader-IsStream toy_digest 9 small_store caps background key_a undeclared
      (1 ∷ 2 ∷ 3 ∷ 4 ∷ []) fake_a tt refl (omega arith) small-Accepts (omega arith)

ba-IsUp : IsUp fake_ba
unfolding gate
ba-IsUp = record {
  open_gate = refl;
  paged = omega arith;
  distinct_keys = ((b_not_a, tt), (tt, tt));
}

list_all_complete_example :
    (ks : List Text) × (list_all 3 [] (pos 1) [] fake_ba ≡ some (map (meta_at fake_ba.objects) ks))
    × Rising [] ks
    × ((k : Text)
        → has k ks ≡ (has k (keys fake_ba.objects) && has_prefix k [] && not (is_empty k)))
list_all_complete_example = list_all_complete [] (pos 1) 3 fake_ba ba-IsUp (omega arith)

-- A life of a Fake.
abbrev calls : List Call
calls =
    puts key_a undeclared (7 ∷ []) none
    ∷ lists no_list_options
    ∷ removes key_a
    ∷ drops
    ∷ ensures none
    ∷ []

ba-IsValid : IsValid fake_ba
unfolding is_empty
ba-IsValid = record {
  distinct = ((b_not_a, tt), (tt, tt));
  stored = (
    record { own_key = refl; own_size = refl; typed = refl; in_utc = refl },
    (record { own_key = refl; own_size = refl; typed = refl; in_utc = refl }, tt),
  );
}

run-IsValid_example : IsValid (run toy_digest calls fake_ba)
run-IsValid_example = run-IsValid toy_digest calls fake_ba ba-IsValid

stored_ok : (store_put toy_digest key_b undeclared (7 ∷ []) none fake_a).1 ≡ none
unfolding store_put gate go_storage.Fake.size_mismatch go_storage.Fake.object_of
stored_ok = refl

store_put-Shown_example :
    Shown
      (store_put toy_digest key_b undeclared (7 ∷ []) none fake_a).2
      key_b
      (store_put toy_digest key_b undeclared (7 ∷ []) none fake_a).0
      (7 ∷ [])
store_put-Shown_example =
    store_put-Shown toy_digest key_b undeclared (7 ∷ []) none fake_a stored_ok (omega arith)
      (tt, tt)

stat-remove_example :
    ((remove key_a fake_ba).0 ≡ none)
    × ((stat key_a (remove key_a fake_ba).1).1 ≡ some missing_key)
    × ((stat key_b (remove key_a fake_ba).1).0 ≡ (stat key_b fake_ba).0)
    × ((stat key_b (remove key_a fake_ba).1).1 ≡ (stat key_b fake_ba).1)
stat-remove_example = stat-remove key_a key_b fake_ba ba-IsUp.open_gate b_not_a

new_fake-IsValid_example :
    IsValid (new_fake zero_time (page (pos 2) ∷ bare ∷ []))
    × ((new_fake zero_time (page (pos 2) ∷ bare ∷ [])).objects ≡ [])
    × (0 < (new_fake zero_time (page (pos 2) ∷ bare ∷ [])).page_size)
    × ((ensure_container none (new_fake zero_time (page (pos 2) ∷ bare ∷ []))).0 ≡ none)
    × (gate (ensure_container none (new_fake zero_time (page (pos 2) ∷ bare ∷ []))).1 ≡ none)
new_fake-IsValid_example = new_fake-IsValid zero_time (page (pos 2) ∷ bare ∷ []) none
