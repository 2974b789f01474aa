-- ===== src/Fake/Paging.antt =====
-- Listing the Fake page by page: the pages that the continuation tokens lead through hold each
-- selected object once, in the order of the keys, whatever the page size.
use go_storage.Prelude.{
  ◌⊎◌, ℕ, ◌+◌, ◌<◌, ◌≡◌, ◌≢◌, refl, ap, Bool, true, false, List, [], ◌∷◌, ◌++◌, map, length, arith,
  keep, if◌then◌else◌, Bool-cases, inl, inr, ◌==◌,
}
use go_storage.Prelude.Text.{Text, text_lt, text_lt_irrefl, text_lt_trans, text_lt_connex}
use go_storage.Prelude.Assoc.{Assoc, Absent, Distinct}
use go_storage.Storage.{Page}
use go_storage.Fake.{Stored, sort, insert_sorted, fill_page, meta_at}

-- Keys in strictly rising order, all past `t`.
abbrev pub Rising : Text → List Text → Type 0
Rising t [] = Unit {0}
Rising t (k ∷ ks) = (text_lt t k ≡ true) × Rising k ks

Absent-keep : (p : Text → Bool) (k : Text) (ks : List Text) → Absent k ks → Absent k (keep p ks)
Absent-keep p k [] a = tt
Absent-keep p k (j ∷ ks) a = ground (arith, Absent-keep p k ks a.1)

pub Distinct-keep : (p : Text → Bool) (ks : List Text) → Distinct ks → Distinct (keep p ks)
Distinct-keep p [] d = tt
Distinct-keep p (k ∷ ks) d = ground (arith, Distinct-keep p ks d.1, Absent-keep p k ks d.0)

Rising-le : (t u : Text) (ks : List Text) → text_lt t u ≡ true → Rising u ks → Rising t ks
Rising-le t u [] h r = tt
Rising-le t u (k ∷ ks) h r = (text_lt_trans t u k h r.0, r.1)

Rising-insert :
    (t k : Text) (ks : List Text)
    → text_lt t k ≡ true
    → Absent k ks
    → Rising t ks
    → Rising t (insert_sorted k ks)
unfolding insert_sorted
Rising-insert t k [] h a r = (h, tt)
Rising-insert t k (j ∷ ks) h a r = elim (Bool-cases (text_lt j k)) [
  | inl lt ↦ rw lt (r.0, Rising-insert j k ks lt a.1 r.1)
  | inr ge ↦ elim (Bool-cases (text_lt k j)) [
    | inl gt ↦ rw ge (h, (gt, r.1))
    | inr same ↦ absurd (a.0 (text_lt_connex k j same ge))
  ]
]

Absent-insert : (j k : Text) (ks : List Text) → j ≢ k → Absent j ks → Absent j (insert_sorted k ks)
unfolding insert_sorted
Absent-insert j k [] ne a = (ne, tt)
Absent-insert j k (i ∷ ks) ne a = ground (arith, Absent-insert j k ks ne a.1)

Absent-sort : (j : Text) (ks : List Text) → Absent j ks → Absent j (sort ks)
unfolding sort
Absent-sort j [] a = tt
Absent-sort j (k ∷ ks) a = Absent-insert j k (sort ks) a.0 (Absent-sort j ks a.1)

-- All keys past `t`.
abbrev pub Past : Text → List Text → Type 0
Past t [] = Unit {0}
Past t (k ∷ ks) = (text_lt t k ≡ true) × Past t ks

pub Rising-sort : (t : Text) (ks : List Text) → Distinct ks → Past t ks → Rising t (sort ks)
unfolding sort
Rising-sort t [] d p = tt
Rising-sort t (k ∷ ks) d p =
    Rising-insert t k (sort ks) p.0 (Absent-sort k ks d.0) (Rising-sort t ks d.1 p.1)

Rising-keep : (q : Text → Bool) (t : Text) (ks : List Text) → Rising t ks → Rising t (keep q ks)
Rising-keep q t [] r = tt
Rising-keep q t (k ∷ ks) r =
    ground (arith, r, Rising-keep q k ks r.1, Rising-le t k (keep q ks) r.0)

-- A key that comes before a rising list goes to its front.
insert_front :
    (k t : Text) (ks : List Text) → Rising t ks → text_lt t k ≡ false → insert_sorted k ks ≡ k ∷ ks
unfolding insert_sorted
insert_front k t [] r h = refl
insert_front k t (j ∷ ks) r h = ground (arith, text_lt_trans t j k r.0)

-- Sorting and a filter commute.
keep-insert :
    (q : Text → Bool) (k t : Text) (ks : List Text)
    → Rising t ks
    → keep q (insert_sorted k ks) ≡ (if q k then insert_sorted k (keep q ks) else keep q ks)
unfolding insert_sorted
keep-insert q k t [] r = ground arith
keep-insert q k t (j ∷ ks) r =
    ground (arith, keep-insert q k j ks r.1, insert_front k j (keep q ks) (Rising-keep q j ks r.1))

pub keep-sort :
    (q : Text → Bool) (t : Text) (ks : List Text)
    → Distinct ks
    → Past t ks
    → keep q (sort ks) ≡ sort (keep q ks)
unfolding sort
keep-sort q t [] d p = refl
keep-sort q t (k ∷ ks) d p =
    ground (arith, keep-insert q k t (sort ks) (Rising-sort t ks d.1 p.1), keep-sort q t ks d.1 p.1)

-- A token is past no key that comes after it, and so selects a rising list past it whole.
keep-Rising : (t : Text) (ks : List Text) → Rising t ks → keep (text_lt t) ks ≡ ks
keep-Rising t [] r = refl
keep-Rising t (k ∷ ks) r = rw r.0 (ap (◌∷◌ k) (keep-Rising t ks (Rising-le t k ks r.0 r.1)))

lt_asymm : (s t : Text) → text_lt s t ≡ true → text_lt t s ≡ false
lt_asymm s t h = ground (arith, text_lt_trans s t s h, text_lt_irrefl s)

module _ (m : Assoc Stored) where
  -- A page is the last one and shows all keys, or it shows those up to its token, which is one of
  -- the keys, and the token selects the others.
  abbrev pub SplitsPage : Text → List Text → Page → Type 0
  SplitsPage lower ks page =
      ((page.next ≡ []) × (page.objects ≡ map (meta_at m) ks))
      ⊎ ((t : Text) × (page.next ≡ t)
          × (text_lt lower t ≡ true)
          × (page.objects ++ map (meta_at m) (keep (text_lt t) ks) ≡ map (meta_at m) ks)
          × (length (keep (text_lt t) ks) < length ks))

  pub fill_page-SplitsPage :
      (limit i : ℕ) (lower prev : Text) (ks : List Text)
      → i < limit
      → Rising lower ks
      → SplitsPage lower ks (fill_page m limit i prev ks)
  unfolding fill_page
  fill_page-SplitsPage limit i lower prev [] lt r = inl (refl, refl)
  fill_page-SplitsPage limit i lower prev (k ∷ []) lt r = inl (ground arith, ground arith)
  fill_page-SplitsPage limit i lower prev (k ∷ j ∷ ks) lt r = elim (Bool-cases (i + 1 == limit)) [
    | inl full ↦ inr (k, ground (arith), r.0, ground (arith, past_k), ground (arith, past_k))
    | inr room ↦ elim (fill_page-SplitsPage limit (i + 1) k k (j ∷ ks) (ground arith) r.1) [
      | inl (a, b) ↦ inl (ground (arith, a), ground (arith, b))
      | inr (t, a, after, b, c) ↦ inr (
        t,
        ground (arith, a),
        text_lt_trans lower k t r.0 after,
        ground (arith, b, lt_asymm k t after),
        ground (arith, c, lt_asymm k t after),
      )
    ]
  ]
    where
      past_k : keep (text_lt k) (k ∷ j ∷ ks) ≡ j ∷ ks
      past_k = rw (text_lt_irrefl k) (keep-Rising k (j ∷ ks) r.1)
