-- ===== src/Fake/Listing.antt =====
-- A caller that follows the continuation tokens of the Fake's List from the start sees every
-- selected object.
use go_storage.Prelude.{
  ℕ, zero, suc, ◌<◌, ◌≡◌, refl, ap, sym, ◌∙◌, Bool, true, false, ◌&&◌, ◌||◌, not, List, [], ◌∷◌,
  ◌++◌, map, length, Option, none, some, arith, keep, keep-keep, length-keep-le, if◌then◌else◌, inl,
  inr,
}
use mathlib.Core.Option
use go_storage.Prelude.Int.{ℤ}
use go_storage.Prelude.Text.{
  Text, is_empty, text_lt, text_eq, eq_of_text_eq, text_lt_trans, has_prefix,
}
use go_storage.Prelude.Assoc.{keys, Distinct}
use go_storage.Errors.{GoError}
use go_storage.Storage.{ListOptions, Object, Page}
use go_storage.Fake.{
  Fake, gate, list, list_limit, sort, fill_page, insert_sorted, meta_at, is_selected,
}
use go_storage.Fake.Paging.{
  Rising, Distinct-keep, Past, Rising-sort, keep-sort, SplitsPage, fill_page-SplitsPage,
}

-- What a caller does with an answer of List: it goes on where the page has a token.
follow : (Text → Fake → Option (List Object)) → Page × Option GoError × Fake → Option (List Object)
follow go_on (page, some e, f) = none
follow go_on (page, none, f) =
    let more = Option.map (λ os. page.objects ++ os) (go_on page.next f) in
    if is_empty page.next then some page.objects else more

-- The caller's loop: List with the token of the page before, until a page has none. `none` means
-- that a call failed or that the fuel ran out.
pub list_all : ℕ → Text → ℤ → Text → Fake → Option (List Object)
unfolding follow
list_all zero prefix limit token f = none
list_all (suc fuel) prefix limit token f =
    follow (list_all fuel prefix limit)
      (list (record { prefix = prefix; token = token; limit = limit }) f)

-- The keys with the prefix that come after a token, in order.
abbrev pub selected : Text → List Text → Text → List Text
selected prefix names t = sort (keep (is_selected prefix t) names)

module _ (prefix : Text) (names : List Text) (distinct : Distinct names) where
  Past-selected : (t : Text) (ks : List Text) → Past t (keep (is_selected prefix t) ks)
  unfolding is_selected
  Past-selected t [] = tt
  Past-selected t (k ∷ ks) = ground (arith, Past-selected t ks)

  Rising-selected : (t : Text) → Rising t (selected prefix names t)
  Rising-selected t =
      Rising-sort t _ (Distinct-keep (is_selected prefix t) names distinct) (Past-selected t names)

  -- Going on from a token selects what it leaves.
  selected-selected :
      (t u : Text)
      → text_lt t u ≡ true
      → keep (text_lt u) (selected prefix names t) ≡ selected prefix names u
  unfolding is_selected
  selected-selected t u h =
      keep-sort (text_lt u) t _ (Distinct-keep (is_selected prefix t) names distinct)
        (Past-selected t names)
      ∙ ap sort (
          keep-keep (is_selected prefix t) (text_lt u) (is_selected prefix u)
            (λ x. ground (arith, text_lt_trans t u x h)) names)

-- A Fake that answers, with a page size.
pub record IsUp (f : Fake) : Type 0 where
  pub open_gate : gate f ≡ none
  pub paged : 0 < f.page_size
  pub distinct_keys : Distinct (keys f.objects)

is_empty_of_lt : (t u : Text) → text_lt t u ≡ true → is_empty u ≡ false
unfolding is_empty text_lt
is_empty_of_lt t [] h = cc
is_empty_of_lt t (b ∷ u) h = refl

same_gate :
    (f : Fake) (o : ListOptions) → gate f ≡ none → gate (record f { last_list_opts = o }) ≡ none
unfolding gate
same_gate f o h = h

module _ (prefix : Text) (limit : ℤ) where
  abbrev page_at : Fake → Text → Page
  page_at f t =
      fill_page f.objects (list_limit limit f.page_size) 0 [] (selected prefix (keys f.objects) t)

  list_lem :
      (t : Text) (f : Fake)
      → gate f ≡ none
      → list (record { prefix = prefix; token = t; limit = limit }) f ≡ (
        page_at f t,
        none,
        record f { last_list_opts = record { prefix = prefix; token = t; limit = limit } },
      )
  unfolding list
  list_lem t f h = rw (h, list)

  some_per_page : (f : Fake) → 0 < f.page_size → 0 < list_limit limit f.page_size
  unfolding list_limit
  some_per_page f h = ground arith

  abbrev listed : Fake → Text → Fake
  listed f t = record f { last_list_opts = record { prefix = prefix; token = t; limit = limit } }

  list_all_step :
      (fuel : ℕ) (t : Text) (f : Fake)
      → gate f ≡ none
      → list_all (suc fuel) prefix limit t f ≡ (
          if is_empty (page_at f t).next
          then some (page_at f t).objects
          else Option.map
              (λ os. (page_at f t).objects ++ os)
              (list_all fuel prefix limit (page_at f t).next (listed f t)))
  unfolding list_all
  list_all_step fuel t f h = rw (list_lem t f h)

  list_all_from :
      (fuel : ℕ) (t : Text) (f : Fake) (up : IsUp f)
      → length (selected prefix (keys f.objects) t) < fuel
      → list_all fuel prefix limit t f
        ≡ some (map (meta_at f.objects) (selected prefix (keys f.objects) t))
  unfolding list_all is_empty
  list_all_from zero t f up lt = absurd (omega arith)
  list_all_from (suc fuel) t f up lt = list_all_step fuel t f up.open_gate ∙ elim split [
    | inl (last, all) ↦ rw (last, all)
    | inr (u, next, after, rest, fewer) ↦
        rw (next, not_empty u after)
          (let left : length (selected prefix (keys f.objects) u) < fuel =
              rw (← selected-selected prefix (keys f.objects) up.distinct_keys t u after)
                (omega arith) in
            ap (Option.map (λ os. (page_at f t).objects ++ os))
              (list_all_from fuel u (listed f t) (still up) left)
            ∙ ap some (
                ap (λ ks. (page_at f t).objects ++ map (meta_at f.objects) ks)
                  (sym (selected-selected prefix (keys f.objects) up.distinct_keys t u after))
                ∙ rest))
  ]
    where
      split : SplitsPage f.objects t (selected prefix (keys f.objects) t) (page_at f t)
      split =
          fill_page-SplitsPage f.objects _ 0 t [] _ (some_per_page f up.paged)
            (Rising-selected prefix (keys f.objects) up.distinct_keys t)

      not_empty : (u : Text) → text_lt t u ≡ true → is_empty u ≡ false
      not_empty u h = is_empty_of_lt t u h

      still : IsUp f → IsUp (listed f t)
      still up = record {
        open_gate = same_gate f _ up.open_gate;
        paged = up.paged;
        distinct_keys = up.distinct_keys;
      }

length-insert_sorted : (k : Text) (ks : List Text) → length (insert_sorted k ks) ≡ suc (length ks)
unfolding insert_sorted
length-insert_sorted k [] = refl
length-insert_sorted k (j ∷ ks) = ground (arith, length-insert_sorted k ks)

length-sort : (ks : List Text) → length (sort ks) ≡ length ks
unfolding sort
length-sort [] = refl
length-sort (k ∷ ks) = omega (arith, length-insert_sorted k (sort ks), length-sort ks)

-- Whether a key is in a list.
unfoldable pub has : Text → List Text → Bool
has k [] = false
has k (j ∷ ks) = text_eq j k || has k ks

has-insert_sorted :
    (i k : Text) (ks : List Text) → has i (insert_sorted k ks) ≡ (text_eq k i || has i ks)
unfolding insert_sorted has
has-insert_sorted i k [] = refl
has-insert_sorted i k (j ∷ ks) = ground (arith, has-insert_sorted i k ks)

has-sort : (i : Text) (ks : List Text) → has i (sort ks) ≡ has i ks
unfolding sort has
has-sort i [] = refl
has-sort i (k ∷ ks) = ground (arith, has-insert_sorted i k (sort ks), has-sort i ks)

has-keep : (p : Text → Bool) (i : Text) (ks : List Text) → has i (keep p ks) ≡ (has i ks && p i)
unfolding has
has-keep p i [] = refl
has-keep p i (k ∷ ks) = ground (arith, has-keep p i ks, eq_of_text_eq k i)

not_empty_selected :
    (prefix k : Text) → is_selected prefix [] k ≡ (has_prefix k prefix && not (is_empty k))
unfolding is_selected text_lt is_empty
not_empty_selected prefix [] = refl
not_empty_selected prefix (b ∷ k) = refl

-- Of a Fake that answers, with a positive page size and distinct keys, a caller that follows the
-- tokens from the start, with any limit, gets the metadata at a strictly rising list of keys: those
-- of the Fake's keys that begin with the prefix and are not empty. Fuel above the number of the
-- keys is enough.
pub list_all_complete :
    (prefix : Text) (limit : ℤ) (fuel : ℕ) (f : Fake)
    → IsUp f
    → length (keys f.objects) < fuel
    → (ks : List Text) × (list_all fuel prefix limit [] f ≡ some (map (meta_at f.objects) ks))
      × Rising [] ks
      × ((k : Text)
          → has k ks ≡ (has k (keys f.objects) && has_prefix k prefix && not (is_empty k)))
list_all_complete prefix limit fuel f up lt = (
  selected prefix (keys f.objects) [],
  list_all_from prefix limit fuel [] f up (
      omega (
        arith,
        length-sort (keep (is_selected prefix []) (keys f.objects)),
        length-keep-le (is_selected prefix []) (keys f.objects),
      )),
  Rising-selected prefix (keys f.objects) up.distinct_keys [],
  λ k.
      has-sort k (keep (is_selected prefix []) (keys f.objects))
      ∙ has-keep (is_selected prefix []) k (keys f.objects)
      ∙ ground (arith, not_empty_selected prefix k),
)
