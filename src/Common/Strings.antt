-- ===== src/Common/Strings.antt =====
-- JavaScript strings as lists of UTF-16 code units, with `trim` (ECMAScript's white space and
-- line terminators) and the equality test.
use Prim.Native.Nat.{ℕ}
use Prim.Native.Char.{code}
use Prim.Native.String.{String}
use mathlib.Core.Path.{◌≡◌, refl, ap, ◌∙◌}
use mathlib.Core.Logic.{◌↔◌}
use mathlib.Core.Bool.{Bool, true, false, ◌&&◌, ◌||◌}
use mathlib.Core.Option.{Option, none, some}
use mathlib.Core.List.{List, [], ◌∷◌}
use native.Mathlib.Omega.{arith}
use field_note.Common.Tests.{◌==◌, leb, if◌then◌else◌}

abbrev pub Text : Type 0
Text = List ℕ

-- A literal, all of whose characters lie in the basic plane.
abbrev pub codes : String → Text
codes String.[] = []
codes (String.◌∷◌ c s) = code c ∷ codes s

unfoldable pub text_eq : Text → Text → Bool
text_eq [] [] = true
text_eq (x ∷ xs) (y ∷ ys) = x == y && text_eq xs ys
text_eq xs ys = false

text_eq→path : (s t : Text) → text_eq s t ≡ true → s ≡ t
unfolding text_eq
text_eq→path [] [] h = refl
text_eq→path [] (y ∷ ys) h = ground arith
text_eq→path (x ∷ xs) [] h = ground arith
text_eq→path (x ∷ xs) (y ∷ ys) h = ground (arith, text_eq→path xs ys)

pub text_eq_refl : (s : Text) → text_eq s s ≡ true
unfolding text_eq
text_eq_refl [] = refl
text_eq_refl (x ∷ xs) = ground (arith, text_eq_refl xs)

pub text_eq_iff : (s t : Text) → (text_eq s t ≡ true) ↔ (s ≡ t)
text_eq_iff s t = (text_eq→path s t, λ e. rw e (text_eq_refl t))

abbrev pub is_empty : Text → Bool
is_empty [] = true
is_empty (c ∷ s) = false

-- TAB to CR, SPACE, NBSP, the Unicode separators, and the byte order mark.
unfoldable pub is_space : ℕ → Bool
is_space c =
    (leb 9 c && leb c 13)
    || (c == 32)
    || (c == 160)
    || (c == 0x1680)
    || (leb 0x2000 c && leb c 0x200A)
    || (leb 0x2028 c && leb c 0x2029)
    || (c == 0x202F)
    || (c == 0x205F)
    || (c == 0x3000)
    || (c == 0xFEFF)

trim_start : Text → Text
trim_start [] = []
trim_start (c ∷ s) = let rest = trim_start s in if is_space c then rest else c ∷ s

trim_end : Text → Text
trim_end [] = []
trim_end (c ∷ s) = let rest = trim_end s in if is_empty rest && is_space c then [] else c ∷ rest

unfoldable pub trim : Text → Text
unfolding trim_start trim_end is_space
trim s = trim_end (trim_start s)

trim_start_idem : (s : Text) → trim_start (trim_start s) ≡ trim_start s
unfolding trim_start
trim_start_idem [] = refl
trim_start_idem (c ∷ s) = ground (arith, trim_start_idem s)

trim_end_idem : (s : Text) → trim_end (trim_end s) ≡ trim_end s
unfolding trim_end
trim_end_idem [] = refl
trim_end_idem (c ∷ s) = ground (arith, trim_end_idem s)

trim_start-trim_end : (s : Text) → trim_start (trim_end s) ≡ trim_end (trim_start s)
unfolding trim_start trim_end
trim_start-trim_end [] = refl
trim_start-trim_end (c ∷ s) = ground (arith, trim_start-trim_end s)

pub trim_idem : (s : Text) → trim (trim s) ≡ trim s
unfolding trim
trim_idem s =
    ap trim_end (trim_start-trim_end (trim_start s))
    ∙ trim_end_idem (trim_start (trim_start s))
    ∙ ap trim_end (trim_start_idem s)

trim_words : trim (codes "  a b ") ≡ codes "a b"
unfolding trim
trim_words = refl

-- The part of a text before the first such character, and what is behind it, if there is one.
abbrev pub before_char : ℕ → Text → Text
before_char c [] = []
before_char c (x ∷ s) = let rest = before_char c s in if x == c then [] else x ∷ rest

abbrev pub after_char : ℕ → Text → Option Text
after_char c [] = none
after_char c (x ∷ s) = let rest = after_char c s in if x == c then some s else rest
