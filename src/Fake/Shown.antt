-- ===== src/Fake/Shown.antt =====
-- What Get, Stat and List of the Fake show of an object that Put has stored.
use go_storage.Prelude.{
  ℕ, ◌<◌, ◌≡◌, sym, ap, ◌∙◌, true, false, Option, none, some, List, [], ◌∷◌, ◌++◌, map, length,
  subst, Bool-cases, inl, inr, arith,
}
use go_storage.Prelude.Int.{ℤ}
use go_storage.Prelude.Text.{Text, is_empty, has_prefix, text_eq, text_eq_refl, eq_of_text_eq}
use go_storage.Prelude.Assoc.{Assoc, lookup, insert, keys, lookup-insert, Distinct}
use go_storage.Errors.{GoError}
use go_storage.Storage.{Object, PutOptions}
use go_storage.Fake.{Fake, gate, store_put, object_of, meta_at}
use go_storage.Fake.Agreement.{Shows, store_put-Shows}
use go_storage.Fake.Invariant.{Distinct-insert}
use go_storage.Fake.Listing.{IsUp, list_all, list_all_complete, has}

-- A key that is in a list stands at a place of it.
has_place :
    {A : Type 0} (g : Text → A) (k : Text) (ks : List Text)
    → has k ks ≡ true
    → (front rest : List A) × (map g ks ≡ front ++ (g k ∷ rest))
unfolding has
has_place g k [] h = cc
has_place g k (j ∷ ks) h = elim (Bool-cases (text_eq j k)) [
  | inl hit ↦ ([], map g ks, ap (λ x. g x ∷ map g ks) (eq_of_text_eq j k hit))
  | inr miss ↦
      let (front, rest, e) = has_place g k ks (ground (arith, h, miss)) in
      (g j ∷ front, rest, ap (λ xs. g j ∷ xs) e)
]

has-insert : {V : Type 0} (k : Text) (v : V) (m : Assoc V) → has k (keys (insert k v m)) ≡ true
unfolding has insert
has-insert k v [] = ground (arith, text_eq_refl k)
has-insert k v ((j, w) ∷ m) = elim (Bool-cases (text_eq j k)) [
  | inl hit ↦ rw hit (ground (arith, text_eq_refl k))
  | inr miss ↦ rw miss (ground (arith, has-insert k v m))
]

-- Get and Stat of the key report the object, and a caller that lists any prefix of it, with any
-- limit, page by page from the start, finds the object in the listing.
pub record Shown (f : Fake) (key : Text) (obj : Object) (bytes : List ℕ) : Type 0 where
  pub shows : Shows f key obj bytes
  pub listed :
      (prefix : Text) (limit : ℤ) (fuel : ℕ)
      → has_prefix key prefix ≡ true
      → is_empty key ≡ false
      → length (keys f.objects) < fuel
      → (front rest : List Object) × (list_all fuel prefix limit [] f
          ≡ some (front ++ (obj ∷ rest)))

module _ (digest : List ℕ → Text) (key : Text) (opts : PutOptions) (bytes : List ℕ)
    (read_err : Option GoError) (f : Fake) where
  abbrev put_object : Object
  put_object = (store_put digest key opts bytes read_err f).0

  abbrev after : Fake
  after = (store_put digest key opts bytes read_err f).2

  module _ (ok : (store_put digest key opts bytes read_err f).1 ≡ none) where
    stored : after.objects ≡ insert key (object_of digest key opts bytes f.now) f.objects
    unfolding store_put
    stored = ground (arith, ok)

    reported : put_object ≡ (object_of digest key opts bytes f.now).meta
    unfolding store_put
    reported = ground (arith, ok)

    pub still_open : gate after ≡ none
    unfolding store_put gate
    still_open = ground (arith, ok)

    same_pages : after.page_size ≡ f.page_size
    unfolding store_put
    same_pages = ground arith

    shown_meta : meta_at after.objects key ≡ put_object
    unfolding meta_at
    shown_meta = ground (arith, facts, stored, reported)
      where
        facts :
            lookup key (insert key (object_of digest key opts bytes f.now) f.objects)
            ≡ some (object_of digest key opts bytes f.now)
        facts = ground (
          arith,
          lookup-insert key key (object_of digest key opts bytes f.now) f.objects,
          text_eq_refl key,
        )

    IsUp-after : 0 < f.page_size → Distinct (keys f.objects) → IsUp after
    IsUp-after paged distinct = record {
      open_gate = still_open;
      paged = rw same_pages paged;
      distinct_keys =
          subst (λ m. Distinct (keys m)) (sym stored)
            (Distinct-insert key (object_of digest key opts bytes f.now) f.objects distinct);
    }

    -- After a Put that returns no error, on a Fake with a positive page size and distinct keys, Get
    -- and Stat report the object that Put reported, the body of Get is what Put read, and a caller
    -- that lists any prefix of the key, which is not empty, page by page from the start, with any
    -- limit, finds that object in the listing. Fuel above the number of the keys is enough.
    pub store_put-Shown :
        0 < f.page_size → Distinct (keys f.objects) → Shown after key put_object bytes
    store_put-Shown paged distinct = record {
      shows = store_put-Shows digest key opts bytes read_err f ok;
      listed = λ prefix limit fuel under named lt.
          let (ks, all, _, of_keys) =
            list_all_complete prefix limit fuel after (IsUp-after paged distinct) lt in
          let held : has key (keys after.objects) ≡ true =
            ap (λ m. has key (keys m)) stored
            ∙ has-insert key (object_of digest key opts bytes f.now) f.objects in
          let (front, rest, e) =
            has_place (meta_at after.objects) key ks
              (of_keys key ∙ ground (arith, held, under, named)) in
          (front, rest, all ∙ ap some (e ∙ ap (λ o. front ++ (o ∷ rest)) shown_meta));
    }
