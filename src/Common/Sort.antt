-- ===== src/Common/Sort.antt =====
-- `Array.prototype.sort` with a comparator `(a, b) => key(a) - key(b)`: it is stable, so the result
-- is determined by the key.
use Prim.Native.Nat.{ℕ, ◌≤◌}
use mathlib.Core.Path.{◌≡◌, refl}
use mathlib.Core.Logic.{inl, inr}
use mathlib.Core.List.{map, List, [], ◌∷◌, Perm}
use mathlib.Core.List.Perm
use native.Mathlib.Omega.{arith}
use native.Mathlib.Nat.{le_trans}
use field_note.Common.Tests.{leb, if◌then◌else◌, leb→le, leb-false→lt, le→leb, Bool-cases}
use field_note.Common.Lists.{All, All-map_of}

module _ {ℓ} {A : Type ℓ} (key : A → ℕ) where
  -- `x` goes before the first element whose key is not smaller.
  insert : A → List A → List A
  insert x [] = x ∷ []
  insert x (y ∷ ys) = let rest = insert x ys in if leb (key x) (key y) then x ∷ y ∷ ys else y ∷ rest

  unfoldable pub sort_by : List A → List A
  unfolding insert
  sort_by [] = []
  sort_by (x ∷ xs) = insert x (sort_by xs)

  -- The keys rise.
  abbrev pub IsSorted : List A → Type 0
  IsSorted [] = Unit
  IsSorted (x ∷ xs) = All (λ y. key x ≤ key y) xs × IsSorted xs

  insert-All {κ} : (P : A → Type κ) (x : A) (xs : List A) → P x → All P xs → All P (insert x xs)
  unfolding insert
  insert-All P x [] px h = (px, tt)
  insert-All P x (y ∷ ys) px h = elim (Bool-cases (leb (key x) (key y))) [
    | inl e ↦ rw e (px, h)
    | inr e ↦ rw e (h.0, insert-All P x ys px h.1)
  ]

  pub sort_by-All {κ} : (P : A → Type κ) (xs : List A) → All P xs → All P (sort_by xs)
  unfolding sort_by
  sort_by-All P [] h = tt
  sort_by-All P (x ∷ xs) h = insert-All P x (sort_by xs) h.0 (sort_by-All P xs h.1)

  insert-IsSorted : (x : A) (xs : List A) → IsSorted xs → IsSorted (insert x xs)
  unfolding insert
  insert-IsSorted x [] h = (tt, tt)
  insert-IsSorted x (y ∷ ys) h = elim (Bool-cases (leb (key x) (key y))) [
    | inl e ↦
        let le = leb→le (key x) (key y) e in
        rw e (
          (le, All-map_of (λ z. key y ≤ key z) (λ z. key x ≤ key z) ys (λ z p. le_trans le p) h.0),
          h,
        )
    | inr e ↦ rw e (
      insert-All (λ z. key y ≤ key z) x ys (let lt = leb-false→lt (key x) (key y) e in omega arith)
          h.0,
      insert-IsSorted x ys h.1,
    )
  ]

  pub sort_by-IsSorted : (xs : List A) → IsSorted (sort_by xs)
  unfolding sort_by
  sort_by-IsSorted [] = tt
  sort_by-IsSorted (x ∷ xs) = insert-IsSorted x (sort_by xs) (sort_by-IsSorted xs)

  insert-first : (x : A) (xs : List A) → All (λ y. key x ≤ key y) xs → insert x xs ≡ x ∷ xs
  unfolding insert
  insert-first x [] h = refl
  insert-first x (y ∷ ys) h = rw (le→leb (key x) (key y) h.0) refl

  -- A list in order is left as it is.
  pub sort_by_of_IsSorted : (xs : List A) → IsSorted xs → sort_by xs ≡ xs
  unfolding sort_by
  sort_by_of_IsSorted [] h = refl
  sort_by_of_IsSorted (x ∷ xs) h = rw (sort_by_of_IsSorted xs h.1) (insert-first x xs h.0)

  pub sort_by_idem : (xs : List A) → sort_by (sort_by xs) ≡ sort_by xs
  sort_by_idem xs = sort_by_of_IsSorted (sort_by xs) (sort_by-IsSorted xs)

  insert-perm : (x : A) (xs : List A) → Perm (insert x xs) (x ∷ xs)
  unfolding insert
  insert-perm x [] = Perm.refl (x ∷ [])
  insert-perm x (y ∷ ys) = elim (Bool-cases (leb (key x) (key y))) [
    | inl e ↦ rw e (Perm.refl (x ∷ y ∷ ys))
    | inr e ↦ rw e (Perm.trans (Perm.cons y (insert-perm x ys)) (Perm.swap x y ys))
  ]

  -- The elements are the same ones.
  pub sort_by-perm : (xs : List A) → Perm (sort_by xs) xs
  unfolding sort_by
  sort_by-perm [] = Perm.refl []
  sort_by-perm (x ∷ xs) = Perm.trans (insert-perm x (sort_by xs)) (Perm.cons x (sort_by-perm xs))

module _ {ℓ κ} {A : Type ℓ} {B : Type κ} (f : A → B) (key : B → ℕ) where
  map-All {ι} : (P : B → Type ι) (xs : List A) → All (λ x. P (f x)) xs → All P (map f xs)
  map-All P [] h = tt
  map-All P (x ∷ xs) h = (h.0, map-All P xs h.1)

  pub map-IsSorted : (xs : List A) → IsSorted (λ x. key (f x)) xs → IsSorted key (map f xs)
  map-IsSorted [] h = tt
  map-IsSorted (x ∷ xs) h = (map-All (λ y. key (f x) ≤ key y) xs h.0, map-IsSorted xs h.1)
