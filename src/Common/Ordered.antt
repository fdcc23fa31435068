-- ===== src/Common/Ordered.antt =====
-- Sorting by a Boolean order, as a database does for ORDER BY.
use mathlib.Core.Path.{◌≡◌, refl, sym}
use mathlib.Core.Logic.{inl, inr}
use mathlib.Core.Bool.{Bool, true, false}
use mathlib.Core.List.{List, [], ◌∷◌, ◌++◌, Perm}
use mathlib.Core.List.Perm
use native.Mathlib.Omega.{arith}
use field_note.Common.Tests.{if◌then◌else◌, Bool-cases, ltb, ◌==◌}
use field_note.Common.Lists.{All, All-map_of, All-filter, All-append, filter}
use field_note.Common.Strings.{Text}

-- The order of texts by code units.
unfoldable pub text_leb : Text → Text → Bool
text_leb [] t = true
text_leb (x ∷ xs) [] = false
text_leb (x ∷ xs) (y ∷ ys) = let rest = text_leb xs ys in if x == y then rest else ltb x y

pub text_leb_total : (s t : Text) → text_leb s t ≡ false → text_leb t s ≡ true
unfolding text_leb
text_leb_total [] t h = ground arith
text_leb_total (x ∷ xs) [] h = refl
text_leb_total (x ∷ xs) (y ∷ ys) h = ground (arith, text_leb_total xs ys)

pub text_leb_trans :
    (s t u : Text) → text_leb s t ≡ true → text_leb t u ≡ true → text_leb s u ≡ true
unfolding text_leb
text_leb_trans [] t u h k = refl
text_leb_trans (x ∷ xs) [] u h k = ground arith
text_leb_trans (x ∷ xs) (y ∷ ys) [] h k = ground arith
text_leb_trans (x ∷ xs) (y ∷ ys) (z ∷ zs) h k = ground (arith, text_leb_trans xs ys zs)

module _ {ℓ} {A : Type ℓ} (before : A → A → Bool) where
  insert_with : A → List A → List A
  insert_with x [] = x ∷ []
  insert_with x (y ∷ ys) =
      let rest = insert_with x ys in if before x y then x ∷ y ∷ ys else y ∷ rest

  unfoldable pub sort_with : List A → List A
  unfolding insert_with
  sort_with [] = []
  sort_with (x ∷ xs) = insert_with x (sort_with xs)

  -- Each element comes before all that follow it.
  abbrev pub IsOrdered : List A → Type 0
  IsOrdered [] = Unit
  IsOrdered (x ∷ xs) = All (λ y. before x y ≡ true) xs × IsOrdered xs

  -- A total order, as a test.
  pub record IsOrder : Type ℓ where
    pub total : (x y : A) → before x y ≡ false → before y x ≡ true
    pub trans : (x y z : A) → before x y ≡ true → before y z ≡ true → before x z ≡ true

  insert_with-All {κ} :
      (P : A → Type κ) (x : A) (xs : List A) → P x → All P xs → All P (insert_with x xs)
  unfolding insert_with
  insert_with-All P x [] px h = (px, tt)
  insert_with-All P x (y ∷ ys) px h = elim (Bool-cases (before x y)) [
    | inl e ↦ rw e (px, h)
    | inr e ↦ rw e (h.0, insert_with-All P x ys px h.1)
  ]

  pub sort_with-All {κ} : (P : A → Type κ) (xs : List A) → All P xs → All P (sort_with xs)
  unfolding sort_with
  sort_with-All P [] h = tt
  sort_with-All P (x ∷ xs) h = insert_with-All P x (sort_with xs) h.0 (sort_with-All P xs h.1)

  insert_with-IsOrdered :
      (o : IsOrder) (x : A) (xs : List A) → IsOrdered xs → IsOrdered (insert_with x xs)
  unfolding insert_with
  insert_with-IsOrdered o x [] h = (tt, tt)
  insert_with-IsOrdered o x (y ∷ ys) h = elim (Bool-cases (before x y)) [
    | inl e ↦ rw e ((e, All-map_of _ _ ys (λ z. o.trans x y z e) h.0), h)
    | inr e ↦ rw e (
      insert_with-All (λ z. before y z ≡ true) x ys (o.total x y e) h.0,
      insert_with-IsOrdered o x ys h.1,
    )
  ]

  pub sort_with-IsOrdered : (o : IsOrder) (xs : List A) → IsOrdered (sort_with xs)
  unfolding sort_with
  sort_with-IsOrdered o [] = tt
  sort_with-IsOrdered o (x ∷ xs) =
      insert_with-IsOrdered o x (sort_with xs) (sort_with-IsOrdered o xs)

  insert_with-perm : (x : A) (xs : List A) → Perm (insert_with x xs) (x ∷ xs)
  unfolding insert_with
  insert_with-perm x [] = Perm.refl (x ∷ [])
  insert_with-perm x (y ∷ ys) = elim (Bool-cases (before x y)) [
    | inl e ↦ rw e (Perm.refl (x ∷ y ∷ ys))
    | inr e ↦ rw e (Perm.trans (Perm.cons y (insert_with-perm x ys)) (Perm.swap x y ys))
  ]

  -- The elements are the same ones.
  pub sort_with-perm : (xs : List A) → Perm (sort_with xs) xs
  unfolding sort_with
  sort_with-perm [] = Perm.refl []
  sort_with-perm (x ∷ xs) =
      Perm.trans (insert_with-perm x (sort_with xs)) (Perm.cons x (sort_with-perm xs))

  -- An element that none of the others comes before is sorted to the front.
  pub sort_with-first :
      (xs : List A) (x : A)
      → All (λ y. before y x ≡ false) xs
      → sort_with (xs ++ x ∷ []) ≡ x ∷ sort_with xs
  unfolding sort_with insert_with
  sort_with-first [] x h = refl
  sort_with-first (y ∷ ys) x h = rw (sort_with-first ys x h.1, h.0) refl

module _ {ℓ} {A : Type ℓ} (key : A → Text) where
  -- No two elements have one key.
  abbrev pub HaveKeys : List A → Type 0
  HaveKeys [] = Unit
  HaveKeys (x ∷ xs) = All (λ y. key y ≡ key x → ⊥) xs × HaveKeys xs

  insert_with-HaveKeys :
      (before : A → A → Bool) (x : A) (xs : List A)
      → All (λ y. key y ≡ key x → ⊥) xs
      → HaveKeys xs
      → HaveKeys (insert_with before x xs)
  unfolding insert_with
  insert_with-HaveKeys before x [] h k = (tt, tt)
  insert_with-HaveKeys before x (y ∷ ys) h k = elim (Bool-cases (before x y)) [
    | inl e ↦ rw e (h, k)
    | inr e ↦ rw e (
      insert_with-All before (λ z. key z ≡ key y → ⊥) x ys (λ p. h.0 (sym p)) k.0,
      insert_with-HaveKeys before x ys h.1 k.1,
    )
  ]

  pub sort_with-HaveKeys :
      (before : A → A → Bool) (xs : List A) → HaveKeys xs → HaveKeys (sort_with before xs)
  unfolding sort_with
  sort_with-HaveKeys before [] h = tt
  sort_with-HaveKeys before (x ∷ xs) h =
      insert_with-HaveKeys before x (sort_with before xs) (sort_with-All before _ xs h.0)
        (sort_with-HaveKeys before xs h.1)

  pub filter-HaveKeys : (p : A → Bool) (xs : List A) → HaveKeys xs → HaveKeys (filter p xs)
  unfolding filter
  filter-HaveKeys p [] h = tt
  filter-HaveKeys p (x ∷ xs) h = elim (Bool-cases (p x)) [
    | inl e ↦ rw e (All-filter _ p xs h.0, filter-HaveKeys p xs h.1)
    | inr e ↦ rw e (filter-HaveKeys p xs h.1)
  ]

  pub append-HaveKeys :
      (xs : List A) (x : A)
      → All (λ y. key y ≡ key x → ⊥) xs
      → HaveKeys xs
      → HaveKeys (xs ++ x ∷ [])
  append-HaveKeys [] x h k = (tt, tt)
  append-HaveKeys (y ∷ ys) x h k =
      (All-append _ ys (x ∷ []) k.0 ((λ e. h.0 (sym e)), tt), append-HaveKeys ys x h.1 k.1)
