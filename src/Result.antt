-- ===== src/Result.antt =====
-- Errors as values, and the monad of a method that changes a state and may throw: what was
-- written before a throw stays written.
use field_note.Common.{ℕ, Bool, true, false, Text, Option, none, some, if◌then◌else◌}

-- The class of a thrown value: what `instanceof`, `err.name`, `e.code` and `getStatus` read. The
-- errors of Prisma are those of the codes P2025, P2002, P2003 and any other, and its validation error.
pub data ErrorKind : Type 0 where
  plain unrecoverable stage_timeout : ErrorKind
  bad_request unauthorized not_found conflict : ErrorKind
  record_not_found unique_violation missing_relation other_database invalid_query : ErrorKind
  -- an error of another package: its name, and the HTTP status of its metadata
  external : Text → Option ℕ → ErrorKind

-- `permanent` is the flag that some error classes carry.
pub record Error : Type 0 where
  pub kind : ErrorKind
  pub permanent : Bool
  pub message : Text

abbrev pub error : ErrorKind → Text → Error
error k m = record { kind = k; permanent = false; message = m }

pub data Result {ℓ} (A : Type ℓ) : Type ℓ where
  ok : A → Result A
  err : Error → Result A

abbrev pub is_ok {ℓ} : {A : Type ℓ} → Result A → Bool
is_ok (ok a) = true
is_ok (err e) = false

abbrev pub M {ℓ} : Type ℓ → Type ℓ → Type ℓ
M S A = S → Result A × S

module _ {ℓ} {S A : Type ℓ} where
  unfoldable pub pure : A → M S A
  pure a s = (ok a, s)

  unfoldable pub throw : Error → M S A
  throw e s = (err e, s)

  unfoldable pub lift : Result A → M S A
  lift r s = (r, s)

  unfoldable pub gets : (S → A) → M S A
  gets f s = (ok (f s), s)

  -- `x ?? throw`
  unfoldable pub or_throw : Option A → Error → M S A
  unfolding pure throw
  or_throw none e = throw e
  or_throw (some a) e = pure a

module _ {ℓ} {S A B : Type ℓ} where
  abbrev pub continue : Result A → (A → M S B) → M S B
  continue (ok a) f s = f a s
  continue (err e) f s = (err e, s)

  infixl 5 ◌>>=◌ ◌>>◌
  unfoldable pub ◌>>=◌ : M S A → (A → M S B) → M S B
  ◌>>=◌ m f s = let (r, s') = m s in continue r f s'

  abbrev pub ◌>>◌ : M S A → M S B → M S B
  m >> n = m >>= λ _. n

module _ {ℓ} {S A : Type ℓ} where
  abbrev pub handle : Result A → (Error → M S A) → M S A
  handle (ok a) h s = (ok a, s)
  handle (err e) h s = h e s

  -- try { m } catch (e) { h e }
  unfoldable pub try_catch : M S A → (Error → M S A) → M S A
  try_catch m h s = let (r, s') = m s in handle r h s'

unfoldable pub modify : {S : Type 0} → (S → S) → M S (Unit {0})
modify f s = (ok tt, f s)

unfoldable pub throw_if : {S : Type 0} → Bool → Error → M S (Unit {0})
throw_if b e s = (if b then err e else ok tt, s)

-- An error of the `finally` block replaces the result.
abbrev pub after_finally : {A : Type 0} → Result A → Result (Unit {0}) → Result A
after_finally r (ok u) = r
after_finally r (err e) = err e

module _ {C A : Type 0} where
  -- try { m } finally { f }
  unfoldable pub try_finally : M C A → M C (Unit {0}) → M C A
  try_finally m f c = let (r, c') = m c in let (closed, c'') = f c' in (after_finally r closed, c'')
