-- ===== src/Config/Layers.antt =====
-- How an overlay's options are laid over a configuration's.
use go_storage.Prelude.{◌≡◌, refl, Option, none, some, [], ◌∷◌, arith, Bool-cases, inl, inr, subst}
use go_storage.Prelude.Text.{Text, text_eq, eq_of_text_eq}
use go_storage.Prelude.Assoc.{Assoc, lookup, insert, keys, Absent, Distinct, lookup-insert}
use go_storage.Config.{Config, copy_options, merge}

-- The first of two values that is there.
abbrev pub or_else : Option Text → Option Text → Option Text
or_else none d = d
or_else (some v) d = some v

Absent-lookup : (k : Text) (m : Assoc Text) → Absent k (keys m) → lookup k m ≡ none
unfolding lookup
Absent-lookup k [] a = refl
Absent-lookup k ((j, v) ∷ m) a = ground (arith, Absent-lookup k m a.1, eq_of_text_eq j k)

lookup-copy_options :
    (k : Text) (dst src : Assoc Text)
    → Distinct (keys src)
    → lookup k (copy_options dst src) ≡ or_else (lookup k src) (lookup k dst)
unfolding copy_options lookup
lookup-copy_options k dst [] d = refl
lookup-copy_options k dst ((j, v) ∷ src) d = elim (Bool-cases (text_eq j k)) [
  | inl hit ↦ ground (
    arith,
    lookup-copy_options k (insert j v dst) src d.1,
    lookup-insert j k v dst,
    Absent-lookup k src (subst (λ x. Absent x (keys src)) (eq_of_text_eq j k hit) d.0),
  )
  | inr miss ↦
      ground (arith, lookup-copy_options k (insert j v dst) src d.1, lookup-insert j k v dst)
]

-- Merge lays the options of an overlay, whose keys are distinct as those of a map are, over the
-- receiver's key by key, and three layers come to the same options whichever pair is merged first,
-- if the merge of the upper two is keyed distinctly too.
pub lookup-merge :
    (a b c : Config) (k : Text)
    → Distinct (keys b.options)
    → Distinct (keys c.options)
    → Distinct (keys (merge b c).options)
    → (lookup k (merge a b).options ≡ or_else (lookup k b.options) (lookup k a.options))
      × (lookup k (merge (merge a b) c).options ≡ lookup k (merge a (merge b c)).options)
unfolding merge
lookup-merge a b c k db dc dbc = (
  lookup-copy_options k a.options b.options db,
  ground (
    arith,
    lookup-copy_options k a.options b.options db,
    lookup-copy_options k b.options c.options dc,
    lookup-copy_options k (copy_options a.options b.options) c.options dc,
    lookup-copy_options k a.options (copy_options b.options c.options) dbc,
  ),
)
