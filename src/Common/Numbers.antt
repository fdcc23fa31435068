-- ===== src/Common/Numbers.antt =====
-- Decimal digits, as a template literal prints a number.
use Prim.Native.Nat.{ℕ, zero, suc, ◌+◌, ◌/◌, ◌%◌}
use mathlib.Core.Path.{◌≡◌, refl}
use mathlib.Core.Bool.{true, false}
use mathlib.Core.List.{[], ◌∷◌, ◌++◌}
use field_note.Common.Tests.{ltb}
use field_note.Common.Strings.{Text, codes}

-- The number of rounds is at most the number itself.
show_from : ℕ → ℕ → Text
show_from zero n = []
show_from (suc fuel) n = elim (ltb n 10) [
  | true ↦ (48 + n) ∷ []
  | false ↦ show_from fuel (n / 10) ++ (48 + n % 10) ∷ []
]

unfoldable pub show_nat : ℕ → Text
unfolding show_from
show_nat n = show_from (suc n) n

show_nat_example : show_nat 180000 ≡ codes "180000"
unfolding show_nat
show_nat_example = refl
