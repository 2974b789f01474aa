-- ===== src/Fake/Invariant.antt =====
-- What holds of a Fake through every method: its keys are distinct, and each object is stored under
-- its own key with its size, a non-empty content type, and a time in UTC. And what the methods do
-- to what a client can see.
use go_storage.Prelude.{
  ℕ, ◌≡◌, ◌≢◌, ◌⊎◌, refl, ap, subst, sym, Bool, false, List, [], ◌∷◌, length, Option, arith,
  Bool-cases, inl, inr,
}
use go_storage.Prelude.Int.{pos}
use go_storage.Prelude.Text.{Text, is_empty, text_eq, text_eq_refl, eq_of_text_eq}
use go_storage.Prelude.Assoc.{Assoc, insert, delete, keys, Distinct, Absent}
use go_storage.Errors.{GoError}
use go_storage.Storage.{Time, PutOptions, ListOptions}
use go_storage.Fake.{
  Fake, Stored, get, stat, store_put, object_of, remove, list, ensure_container, probe,
  drop_container, set_down, fail_put,
}

-- An object under its key.
pub record IsStoredAt (k : Text) (o : Stored) : Type 0 where
  pub own_key : o.meta.key ≡ k
  pub own_size : o.meta.size ≡ pos (length o.contents)
  pub typed : is_empty o.meta.content_type ≡ false
  pub in_utc : o.meta.modified_at.zone ≡ 0

abbrev pub AllStored : Assoc Stored → Type 0
AllStored [] = Unit {0}
AllStored ((k, o) ∷ m) = IsStoredAt k o × AllStored m

pub record IsValid (f : Fake) : Type 0 where
  pub distinct : Distinct (keys f.objects)
  pub stored : AllStored f.objects

Absent-insert :
    (j k : Text) (o : Stored) (m : Assoc Stored)
    → j ≢ k
    → Absent j (keys m)
    → Absent j (keys (insert k o m))
unfolding insert
Absent-insert j k o [] ne a = (ne, tt)
Absent-insert j k o ((i, w) ∷ m) ne a = ground (arith, Absent-insert j k o m ne a.1)

pub Distinct-insert :
    (k : Text) (o : Stored) (m : Assoc Stored) → Distinct (keys m) → Distinct (keys (insert k o m))
unfolding insert
Distinct-insert k o [] d = (tt, tt)
Distinct-insert k o ((i, w) ∷ m) d = elim (Bool-cases (text_eq i k)) [
  | inl hit ↦ rw hit (subst (λ x. Absent x (keys m)) (eq_of_text_eq i k hit) d.0, d.1)
  | inr miss ↦ rw miss (
    Absent-insert i k o m (λ e. cc (ap (text_eq i) e, text_eq_refl i)) d.0,
    Distinct-insert k o m d.1,
  )
]

AllStored-insert :
    (k : Text) (o : Stored) (m : Assoc Stored)
    → IsStoredAt k o
    → AllStored m
    → AllStored (insert k o m)
unfolding insert
AllStored-insert k o [] i a = (i, tt)
AllStored-insert k o ((j, w) ∷ m) i a = elim (Bool-cases (text_eq j k)) [
  | inl hit ↦ rw hit (i, a.1)
  | inr miss ↦ rw miss (a.0, AllStored-insert k o m i a.1)
]

Absent-delete : (j k : Text) (m : Assoc Stored) → Absent j (keys m) → Absent j (keys (delete k m))
unfolding delete
Absent-delete j k [] a = tt
Absent-delete j k ((i, w) ∷ m) a = ground (arith, Absent-delete j k m a.1)

Distinct-delete : (k : Text) (m : Assoc Stored) → Distinct (keys m) → Distinct (keys (delete k m))
unfolding delete
Distinct-delete k [] d = tt
Distinct-delete k ((i, w) ∷ m) d = ground (arith, Distinct-delete k m d.1, Absent-delete i k m d.0)

AllStored-delete : (k : Text) (m : Assoc Stored) → AllStored m → AllStored (delete k m)
unfolding delete
AllStored-delete k [] a = tt
AllStored-delete k ((i, w) ∷ m) a = elim (Bool-cases (text_eq i k)) [
  | inl hit ↦ rw hit (AllStored-delete k m a.1)
  | inr miss ↦ rw miss (a.0, AllStored-delete k m a.1)
]

-- A call of a method, or of a test's own controls. A Put is what it does with the bytes that it has
-- read and the error of reading them.
pub data Call : Type 0 where
  puts : Text → PutOptions → List ℕ → Option GoError → Call
  gets stats removes : Text → Call
  lists : ListOptions → Call
  ensures probes : Option ℕ → Call
  downs : Bool → Call
  fails : Option GoError → Call
  drops : Call

pub step : (List ℕ → Text) → Call → Fake → Fake
step digest (puts key opts bytes err) f = (store_put digest key opts bytes err f).2
step digest (gets key) f = (get key f).2
step digest (stats key) f = (stat key f).2
step digest (removes key) f = (remove key f).1
step digest (lists opts) f = (list opts f).2
step digest (ensures d) f = (ensure_container d f).1
step digest (probes d) f = (probe d f).1
step digest (downs b) f = set_down b f
step digest (fails e) f = fail_put e f
step digest drops f = drop_container f

pub run : (List ℕ → Text) → List Call → Fake → Fake
unfolding step
run digest [] f = f
run digest (c ∷ cs) f = run digest cs (step digest c f)

object_of-IsStoredAt :
    (digest : List ℕ → Text) (key : Text) (opts : PutOptions) (bytes : List ℕ) (now : Time)
    → IsStoredAt key (object_of digest key opts bytes now)
unfolding object_of is_empty
object_of-IsStoredAt digest key opts bytes now = record {
  own_key = refl;
  own_size = refl;
  typed = ground arith;
  in_utc = refl;
}

module _ (digest : List ℕ → Text) (key : Text) (opts : PutOptions) (bytes : List ℕ)
    (err : Option GoError) (f : Fake) where
  -- A Put leaves the objects as they are, or writes its own.
  objects-store_put :
      ((store_put digest key opts bytes err f).2.objects ≡ f.objects)
      ⊎ ((store_put digest key opts bytes err f).2.objects
          ≡ insert key (object_of digest key opts bytes f.now) f.objects)
  unfolding store_put
  objects-store_put = ground arith

IsValid-objects : {f g : Fake} → g.objects ≡ f.objects → IsValid f → IsValid g
IsValid-objects e v = record {
  distinct = subst (λ m. Distinct (keys m)) (sym e) v.distinct;
  stored = subst AllStored (sym e) v.stored;
}

objects-get : (key : Text) (f : Fake) → (get key f).2.objects ≡ f.objects
unfolding get
objects-get key f = ground arith

objects-stat : (key : Text) (f : Fake) → (stat key f).2.objects ≡ f.objects
unfolding stat
objects-stat key f = ground arith

objects-list : (opts : ListOptions) (f : Fake) → (list opts f).2.objects ≡ f.objects
unfolding list
objects-list opts f = ground arith

objects-ensure : (d : Option ℕ) (f : Fake) → (ensure_container d f).1.objects ≡ f.objects
unfolding ensure_container
objects-ensure d f = ground arith

objects-probe : (d : Option ℕ) (f : Fake) → (probe d f).1.objects ≡ f.objects
unfolding probe
objects-probe d f = refl

objects-down : (b : Bool) (f : Fake) → (set_down b f).objects ≡ f.objects
unfolding set_down
objects-down b f = refl

objects-fail : (e : Option GoError) (f : Fake) → (fail_put e f).objects ≡ f.objects
unfolding fail_put
objects-fail e f = refl

drop-IsValid : (f : Fake) → IsValid (drop_container f)
unfolding drop_container
drop-IsValid f = record { distinct = tt; stored = tt }

objects-remove :
    (key : Text) (f : Fake)
    → ((remove key f).1.objects ≡ f.objects) ⊎ ((remove key f).1.objects ≡ delete key f.objects)
unfolding remove
objects-remove key f = ground arith

remove-IsValid : (key : Text) (f : Fake) → IsValid f → IsValid (remove key f).1
remove-IsValid key f v = elim (objects-remove key f) [
  | inl e ↦ IsValid-objects e v
  | inr e ↦ record {
    distinct = subst (λ m. Distinct (keys m)) (sym e) (Distinct-delete key f.objects v.distinct);
    stored = subst AllStored (sym e) (AllStored-delete key f.objects v.stored);
  }
]

-- Every call keeps a Fake valid.
step-IsValid :
    (digest : List ℕ → Text) (c : Call) (f : Fake) → IsValid f → IsValid (step digest c f)
unfolding step
step-IsValid digest (puts key opts bytes err) f v =
    elim (objects-store_put digest key opts bytes err f) [
      | inl e ↦ IsValid-objects e v
      | inr e ↦ record {
        distinct =
            subst (λ m. Distinct (keys m)) (sym e) (Distinct-insert key _ f.objects v.distinct);
        stored = subst AllStored (sym e) (
            AllStored-insert key _ f.objects (object_of-IsStoredAt digest key opts bytes f.now)
              v.stored);
      }
    ]
step-IsValid digest (gets key) f v = IsValid-objects (objects-get key f) v
step-IsValid digest (stats key) f v = IsValid-objects (objects-stat key f) v
step-IsValid digest (removes key) f v = remove-IsValid key f v
step-IsValid digest (lists opts) f v = IsValid-objects (objects-list opts f) v
step-IsValid digest (ensures d) f v = IsValid-objects (objects-ensure d f) v
step-IsValid digest (probes d) f v = IsValid-objects (objects-probe d f) v
step-IsValid digest (downs b) f v = IsValid-objects (objects-down b f) v
step-IsValid digest (fails e) f v = IsValid-objects (objects-fail e f) v
step-IsValid digest drops f v = drop-IsValid f

-- Whatever is called, in whatever order, the keys of a Fake stay distinct, and each object stands
-- under its own key with the size of its contents, a content type that is not empty, and a time
-- in UTC.
pub run-IsValid :
    (digest : List ℕ → Text) (cs : List Call) (f : Fake) → IsValid f → IsValid (run digest cs f)
unfolding run
run-IsValid digest [] f v = v
run-IsValid digest (c ∷ cs) f v =
    run-IsValid digest cs (step digest c f) (step-IsValid digest c f v)
