-- ===== src/Fake/Options.antt =====
-- storagetest/fake.go: `NewFake`, its options, its default key rule, and what tests read off a
-- Fake.
use go_storage.Prelude.{
  ℕ, ◌<◌, ◌≡◌, refl, sym, subst, true, false, Option, none, some, List, [], ◌∷◌, length, ltb,
  if◌then◌else◌, arith,
}
use go_storage.Prelude.Int.{ℤ, pos, ltb_ℤ, pos_part}
use go_storage.Prelude.Text.{Text, is_empty}
use go_storage.Prelude.Utf8.{runes}
use go_storage.Errors.{GoError, errorf, int, end}
use go_storage.Storage.{Time, PutOptions, ListOptions, Capabilities}
use go_storage.Fake.{Fake, gate, ensure_container}
use go_storage.Fake.Invariant.{IsValid, AllStored}
use go_storage.Prelude.Assoc.{keys, Distinct}

-- `validateKey`: at most 1024 runes.
unfoldable pub validate_key : Text → Option GoError
validate_key key =
    if is_empty key
    then some (errorf "storagetest: empty key" end)
    else if ltb 1024 (length (runes key))
    then some (
        errorf "storagetest: key is %d characters, the limit is %d"
          (int (pos (length (runes key))) (int (pos 1024) end)))
    else none

-- `WithClock`, by what the clock says first, `WithPageSize`, `WithCapabilities` and
-- `WithoutContainer`; an Option that a caller writes is not modelled.
pub data FakeOption : Type 0 where
  clock : Time → FakeOption
  page : ℤ → FakeOption
  capable : Capabilities → FakeOption
  bare : FakeOption

unfoldable pub apply_option : FakeOption → Fake → Fake
apply_option (clock t) f = record f { now = t }
apply_option (page n) f = if ltb_ℤ (pos 0) n then record f { page_size = pos_part n } else f
apply_option (capable c) f = record f { caps = c }
apply_option bare f = record f { has_container = false }

unfoldable pub apply_options : List FakeOption → Fake → Fake
unfolding apply_option
apply_options [] f = f
apply_options (o ∷ os) f = apply_options os (apply_option o f)

-- `start` is what time.Now says first.
unfoldable pub new_fake : Time → List FakeOption → Fake
unfolding apply_options validate_key
new_fake start opts = apply_options opts (record {
  is_down = false;
  has_container = true;
  puts = 0;
  ensures = 0;
  probes = 0;
  now = start;
  page_size = 3;
  caps = record { max_key_length = 1024; validate_key = some validate_key };
  objects = [];
  put_err = none;
  last_put_opts = record { content_type = []; size = pos 0 };
  last_put_consumed = 0;
  last_ensure_deadline = none;
  last_probe_deadline = none;
  last_list_opts = record { prefix = []; token = []; limit = pos 0 };
})

-- What tests read.
pub last_put : Fake → PutOptions × ℕ
last_put f = (f.last_put_opts, f.last_put_consumed)

pub last_ensure : Fake → Option ℕ
last_ensure f = f.last_ensure_deadline

pub last_probe : Fake → Option ℕ
last_probe f = f.last_probe_deadline

pub last_list : Fake → ListOptions
last_list f = f.last_list_opts

-- What every option keeps.
record IsBlank (f : Fake) : Type 0 where
  empty : f.objects ≡ []
  up : f.is_down ≡ false
  paged : 0 < f.page_size
  accepting : f.put_err ≡ none

apply_option-IsBlank : (o : FakeOption) (f : Fake) → IsBlank f → IsBlank (apply_option o f)
unfolding apply_option
apply_option-IsBlank (clock t) f b = record {
  empty = b.empty;
  up = b.up;
  paged = b.paged;
  accepting = b.accepting;
}
apply_option-IsBlank (page n) f b = record {
  empty = ground (arith, b.empty);
  up = ground (arith, b.up);
  paged = ground (arith, b.paged);
  accepting = ground (arith, b.accepting);
}
apply_option-IsBlank (capable c) f b = record {
  empty = b.empty;
  up = b.up;
  paged = b.paged;
  accepting = b.accepting;
}
apply_option-IsBlank bare f b = record {
  empty = b.empty;
  up = b.up;
  paged = b.paged;
  accepting = b.accepting;
}

apply_options-IsBlank : (os : List FakeOption) (f : Fake) → IsBlank f → IsBlank (apply_options os f)
unfolding apply_options
apply_options-IsBlank [] f b = b
apply_options-IsBlank (o ∷ os) f b =
    apply_options-IsBlank os (apply_option o f) (apply_option-IsBlank o f b)

blank-IsValid : (f : Fake) → IsBlank f → IsValid f
blank-IsValid f b = record {
  distinct = subst (λ m. Distinct (keys m)) (sym b.empty) tt;
  stored = subst AllStored (sym b.empty) tt;
}

gate-ensure_container :
    (f : Fake) (deadline : Option ℕ)
    → f.is_down ≡ false
    → ((ensure_container deadline f).0 ≡ none) × (gate (ensure_container deadline f).1 ≡ none)
unfolding ensure_container gate
gate-ensure_container f deadline up = (ground (arith, up), ground (arith, up))

-- A Fake that NewFake makes with any options is valid and holds no object, has a positive page
-- size, and answers once EnsureContainer has run, whether or not an option has taken its container
-- away.
pub new_fake-IsValid :
    (start : Time) (opts : List FakeOption) (deadline : Option ℕ)
    → let f = new_fake start opts in
      IsValid f
      × (f.objects ≡ [])
      × (0 < f.page_size)
      × ((ensure_container deadline f).0 ≡ none)
      × (gate (ensure_container deadline f).1 ≡ none)
unfolding new_fake
new_fake-IsValid start opts deadline =
    let b =
      apply_options-IsBlank opts _
        (record { empty = refl; up = refl; paged = omega arith; accepting = refl }) in
    let (made, answers) = gate-ensure_container (new_fake start opts) deadline b.up in
    (blank-IsValid (new_fake start opts) b, b.empty, b.paged, made, answers)
