-- ===== src/Prelude/Utf8.antt =====
-- The runes of a string of bytes, as package utf8 and `range` read them.
use Prim.Native.Nat.{ℕ, zero, suc, ◌+◌, ◌-◌, ◌*◌}
use mathlib.Core.Bool.{Bool, true, false, ◌&&◌}
use mathlib.Core.Option.{Option, none, some}
use mathlib.Core.List.{List, [], ◌∷◌}
use go_storage.Prelude.Tests.{ltb, leb, ◌==◌, if◌then◌else◌}
use go_storage.Prelude.Text.{Text}

abbrev within : ℕ → ℕ → ℕ → Bool
within lo hi b = leb lo b && leb b hi

-- The value and the width of the rune that a string begins with; none where its bytes are invalid.
abbrev two : ℕ → Text → Option (ℕ × ℕ)
two b (c ∷ t) = if within 128 191 c then some (64 * (b - 192) + (c - 128), 2) else none
two b [] = none

abbrev three : ℕ → Text → Option (ℕ × ℕ)
three b (c ∷ d ∷ t) =
    if within (if b == 224 then 160 else 128) (if b == 237 then 159 else 191) c && within 128 191 d
    then some (4096 * (b - 224) + (64 * (c - 128) + (d - 128)), 3)
    else none
three b _ = none

abbrev four : ℕ → Text → Option (ℕ × ℕ)
four b (c ∷ d ∷ e ∷ t) =
    if within (if b == 240 then 144 else 128) (if b == 244 then 143 else 191) c
      && (within 128 191 d && within 128 191 e)
    then some (262144 * (b - 240) + (4096 * (c - 128) + (64 * (d - 128) + (e - 128))), 4)
    else none
four b _ = none

unfoldable pub rune : Text → Option (ℕ × ℕ)
rune [] = none
rune (b ∷ t) =
    if ltb b 128
    then some (b, 1)
    else if within 194 223 b
    then two b t
    else if within 224 239 b
    then three b t
    else if within 240 244 b
    then four b t
    else none

-- The index and the value of each rune; an invalid byte is one rune, U+FFFD. `skip` bytes belong
-- to the rune before.
unfoldable pub runes_from : ℕ → ℕ → Text → List (ℕ × ℕ)
unfolding rune
runes_from i skip [] = []
runes_from i (suc skip) (b ∷ t) = runes_from (i + 1) skip t
runes_from i zero (b ∷ t) = elim (rune (b ∷ t)) [
  | none ↦ (i, 65533) ∷ runes_from (i + 1) 0 t
  | some (r, w) ↦ (i, r) ∷ runes_from (i + 1) (w - 1) t
]

abbrev pub runes : Text → List (ℕ × ℕ)
runes t = runes_from 0 0 t

-- `utf8.ValidString`.
unfoldable pub valid_from : ℕ → Text → Bool
unfolding rune
valid_from skip [] = true
valid_from (suc skip) (b ∷ t) = valid_from skip t
valid_from zero (b ∷ t) = elim (rune (b ∷ t)) [ none ↦ false | some (r, w) ↦ valid_from (w - 1) t ]

abbrev pub valid_utf8 : Text → Bool
valid_utf8 t = valid_from 0 t
