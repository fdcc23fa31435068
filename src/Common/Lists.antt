-- ===== src/Common/Lists.antt =====
-- Lists with Boolean tests and native lengths, under the library's names.
use Prim.Native.Nat.{ℕ, zero, suc, ◌+◌, ◌≤◌, ◌<◌}
use mathlib.Core.Path.{◌≡◌, refl, ap}
use mathlib.Core.Bool.{Bool, true, false, ◌||◌}
use mathlib.Core.Option
use mathlib.Core.Option.{Option, none, some}
use mathlib.Core.List.{map, List, [], ◌∷◌, ◌++◌}
use native.Mathlib.Omega.{arith}
use mathlib.Core.Logic.{◌≢◌, inl, inr}
use field_note.Common.Tests.{if◌then◌else◌, Bool-cases}

module _ {ℓ} {A : Type ℓ} where
  abbrev pub length : List A → ℕ
  length [] = 0
  length (x ∷ xs) = suc (length xs)

  abbrev pub take : ℕ → List A → List A
  take zero xs = []
  take (suc n) [] = []
  take (suc n) (x ∷ xs) = x ∷ take n xs

  unfoldable pub filter : (A → Bool) → List A → List A
  filter p [] = []
  filter p (x ∷ xs) = let rest = filter p xs in if p x then x ∷ rest else rest

  unfoldable pub find? : (A → Bool) → List A → Option A
  find? p [] = none
  find? p (x ∷ xs) = let rest = find? p xs in if p x then some x else rest

  unfoldable pub any : (A → Bool) → List A → Bool
  any p [] = false
  any p (x ∷ xs) = p x || any p xs

  unfoldable pub count : (A → Bool) → List A → ℕ
  count p [] = 0
  count p (x ∷ xs) = let rest = count p xs in if p x then suc rest else rest

  -- Every element has the property.
  abbrev pub All {κ} : (A → Type κ) → List A → Type κ
  All P [] = Unit
  All P (x ∷ xs) = P x × All P xs

  pub All-map_of {κ ι} :
      (P : A → Type κ) (Q : A → Type ι) (xs : List A) → ((x : A) → P x → Q x) → All P xs → All Q xs
  All-map_of P Q [] f h = tt
  All-map_of P Q (x ∷ xs) f h = (f x h.0, All-map_of P Q xs f h.1)

  pub All-filter {κ} :
      (P : A → Type κ) (p : A → Bool) (xs : List A) → All P xs → All P (filter p xs)
  unfolding filter
  All-filter P p [] h = tt
  All-filter P p (x ∷ xs) h = elim (Bool-cases (p x)) [
    | inl e ↦ rw e (h.0, All-filter P p xs h.1)
    | inr e ↦ rw e (All-filter P p xs h.1)
  ]

  pub All-filter_self : (p : A → Bool) (xs : List A) → All (λ x. p x ≡ true) (filter p xs)
  unfolding filter
  All-filter_self p [] = tt
  All-filter_self p (x ∷ xs) = ground (arith, All-filter_self p xs)

  pub length-take-le : (n : ℕ) (xs : List A) → length (take n xs) ≤ n
  length-take-le zero xs = omega arith
  length-take-le (suc n) [] = omega arith
  length-take-le (suc n) (x ∷ xs) = omega (arith, length-take-le n xs)

  pub find?-some_test : (p : A → Bool) (xs : List A) (a : A) → find? p xs ≡ some a → p a ≡ true
  unfolding find?
  find?-some_test p [] a h = ground arith
  find?-some_test p (x ∷ xs) a h = ground (arith, find?-some_test p xs a)

  pub filter-append :
      (p : A → Bool) (xs ys : List A) → filter p (xs ++ ys) ≡ filter p xs ++ filter p ys
  unfolding filter
  filter-append p [] ys = refl
  filter-append p (x ∷ xs) ys = ground (arith, filter-append p xs ys)

  pub filter-All : (p : A → Bool) (xs : List A) → All (λ x. p x ≡ true) xs → filter p xs ≡ xs
  unfolding filter
  filter-All p [] h = refl
  filter-All p (x ∷ xs) h = rw (h.0, filter-All p xs h.1) refl

  pub filter_none : (p : A → Bool) (xs : List A) → All (λ x. p x ≡ false) xs → filter p xs ≡ []
  unfolding filter
  filter_none p [] h = refl
  filter_none p (x ∷ xs) h = rw (h.0, filter_none p xs h.1) refl

  pub All-append {κ} : (P : A → Type κ) (xs ys : List A) → All P xs → All P ys → All P (xs ++ ys)
  All-append P [] ys h k = k
  All-append P (x ∷ xs) ys h k = (h.0, All-append P xs ys h.1 k)

module _ {ℓ} {A : Type ℓ} where
  -- A filter that lets through all that a later one asks for changes nothing for it.
  pub filter-filter :
      (p q : A → Bool) (xs : List A)
      → ((x : A) → p x ≡ true → q x ≡ true)
      → filter p (filter q xs) ≡ filter p xs
  unfolding filter
  filter-filter p q [] h = refl
  filter-filter p q (x ∷ xs) h = ground (arith, h x, filter-filter p q xs h)

  pub any_none : (p : A → Bool) (xs : List A) → All (λ x. p x ≡ false) xs → any p xs ≡ false
  unfolding any
  any_none p [] h = refl
  any_none p (x ∷ xs) h = rw h.0 (any_none p xs h.1)

  pub All-both {κ ι} :
      (P : A → Type κ) (Q : A → Type ι) (xs : List A)
      → All P xs
      → All Q xs
      → All (λ x. P x × Q x) xs
  All-both P Q [] h k = tt
  All-both P Q (x ∷ xs) h k = ((h.0, k.0), All-both P Q xs h.1 k.1)

module _ {ℓ κ} {A : Type ℓ} {B : Type κ} where
  -- Two functions that agree on every element give the same list.
  pub map_cong : (f g : A → B) (xs : List A) → All (λ x. f x ≡ g x) xs → map f xs ≡ map g xs
  map_cong f g [] h = refl
  map_cong f g (x ∷ xs) h = cc (h.0, map_cong f g xs h.1)

module _ {ℓ} {A : Type ℓ} (p q : A → Bool) (f : A → A) where
  -- The first element with `p`, after an update of elements that keeps `p` and reaches all with `p`.
  pub find?-map_if :
      (xs : List A)
      → ((x : A) → p (f x) ≡ p x)
      → ((x : A) → p x ≡ true → q x ≡ true)
      → find? p (map (λ x. if q x then f x else x) xs) ≡ Option.map f (find? p xs)
  unfolding find?
  find?-map_if [] keeps reaches = refl
  find?-map_if (x ∷ xs) keeps reaches =
      let rest = find?-map_if xs keeps reaches in
      elim (Bool-cases (p x)) [
        | inl e ↦ rw (e, reaches x e, keeps x, e) refl
        | inr e ↦ elim (Bool-cases (q x)) [
          | inl u ↦ rw (e, u, keeps x, e) rest
          | inr u ↦ rw (e, u, e) rest
        ]
      ]

module _ {ℓ} {A : Type ℓ} (p : A → Bool) where
  -- The first element of two lists in a row.
  pub find?-append_some :
      (xs ys : List A) (a : A) → find? p xs ≡ some a → find? p (xs ++ ys) ≡ some a
  unfolding find?
  find?-append_some [] ys a h = ground arith
  find?-append_some (x ∷ xs) ys a h = ground (arith, find?-append_some xs ys a)

  pub find?-append_none : (xs ys : List A) → find? p xs ≡ none → find? p (xs ++ ys) ≡ find? p ys
  unfolding find?
  find?-append_none [] ys h = refl
  find?-append_none (x ∷ xs) ys h = ground (arith, find?-append_none xs ys)

  pub find?-of_any : (xs : List A) → any p xs ≡ false → find? p xs ≡ none
  unfolding find? any
  find?-of_any [] h = refl
  find?-of_any (x ∷ xs) h = ground (arith, find?-of_any xs)

  pub any-of_find? : (xs : List A) (a : A) → find? p xs ≡ some a → any p xs ≡ true
  unfolding find? any
  any-of_find? [] a h = ground arith
  any-of_find? (x ∷ xs) a h = ground (arith, any-of_find? xs a)

  pub any-map_same :
      (f : A → A) (xs : List A) → ((x : A) → p (f x) ≡ p x) → any p (map f xs) ≡ any p xs
  unfolding any
  any-map_same f [] keeps = refl
  any-map_same f (x ∷ xs) keeps = rw (keeps x, any-map_same f xs keeps) refl

  pub any-append : (xs ys : List A) → any p (xs ++ ys) ≡ (any p xs || any p ys)
  unfolding any
  any-append [] ys = refl
  any-append (x ∷ xs) ys = ground (arith, any-append xs ys)

module _ {ℓ} {A : Type ℓ} (p q : A → Bool) (f : A → A) where
  -- An update that keeps `p` and does not reach any element with `p` leaves the first one as it is.
  pub find?-map_skip :
      (xs : List A)
      → ((x : A) → p (f x) ≡ p x)
      → ((x : A) → p x ≡ true → q x ≡ false)
      → find? p (map (λ x. if q x then f x else x) xs) ≡ find? p xs
  unfolding find?
  find?-map_skip [] keeps misses = refl
  find?-map_skip (x ∷ xs) keeps misses =
      let rest = find?-map_skip xs keeps misses in
      elim (Bool-cases (p x)) [
        | inl e ↦ rw (e, misses x e, e) refl
        | inr e ↦ elim (Bool-cases (q x)) [
          | inl u ↦ rw (e, u, keeps x, e) rest
          | inr u ↦ rw (e, u, e) rest
        ]
      ]

module _ {ℓ} {A : Type ℓ} where
  pub All-at {κ} : (P : A → Type κ) (xs : List A) (a : A) (ys : List A) → All P (xs ++ a ∷ ys) → P a
  All-at P [] a ys h = h.0
  All-at P (x ∷ xs) a ys h = All-at P xs a ys h.1

  -- A list that is not shorter than a positive length: its head of that length has a last element.
  pub split_full :
      (n : ℕ) (xs : List A)
      → 0 < n
      → length (take n xs) ≡ n
      → (ys : List A) × (a : A) × (zs : List A) × (xs ≡ ys ++ a ∷ zs) × (take n xs ≡ ys ++ a ∷ [])
  split_full zero xs pos h = absurd (omega arith)
  split_full (suc n) [] pos h = absurd (omega arith)
  split_full (suc zero) (x ∷ xs) pos h = ([], x, xs, refl, refl)
  split_full (suc (suc n)) (x ∷ xs) pos h =
      let (ys, a, zs, p, q) = split_full (suc n) xs (omega arith) (omega arith) in
      (x ∷ ys, a, zs, ap (λ l. x ∷ l) p, ap (λ l. x ∷ l) q)

  -- A list whose head of some length is shorter is its own head.
  pub take_short : (n : ℕ) (xs : List A) → length (take n xs) ≢ n → take n xs ≡ xs
  take_short zero xs h = absurd (h refl)
  take_short (suc n) [] h = refl
  take_short (suc n) (x ∷ xs) h = ap (λ l. x ∷ l) (take_short n xs (λ e. h (ap suc e)))

  pub length-split :
      (xs : List A) (a : A) (ys : List A) → length (xs ++ a ∷ ys) ≡ length xs + suc (length ys)
  length-split [] a ys = omega arith
  length-split (x ∷ xs) a ys = omega (arith, length-split xs a ys)

  pub count-append : (p : A → Bool) (xs ys : List A) → count p (xs ++ ys) ≡ count p xs + count p ys
  unfolding count
  count-append p [] ys = omega arith
  count-append p (x ∷ xs) ys = ground (arith, count-append p xs ys)
