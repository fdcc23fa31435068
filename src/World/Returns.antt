-- ===== src/World/Returns.antt =====
-- What a successful run of an action says of its parts.
use field_note.Common.{inl, inr, ◌⊎◌, ℕ, ◌≡◌, refl}
use field_note.Result.{
  Error, Result, ok, err, M, pure, throw, continue, handle, try_catch, ◌>>=◌, ◌>>◌,
}
use field_note.Database.{Db}
use field_note.World.{World, Action, write, at_now, Services}

-- An action never returns.
abbrev pub Throws : {C A : Type 0} → Action C A → Type 0
Throws {C} {A} m = (w : World C) (a : A) → (m w).0 ≡ ok a → ⊥

module _ {C A : Type 0} where
  pub pure_ok : (a b : A) (w : World C) → (pure a w).0 ≡ ok b → a ≡ b
  unfolding pure
  pure_ok a b w h = cc

  pub throw-Throws : (e : Error) → Throws {C = C} {A = A} (throw e)
  unfolding throw
  throw-Throws e w a h = cc

module _ {C A B : Type 0} where
  continue_ok :
      (r : Result A) (f : A → Action C B) (w : World C) (b : B)
      → (continue r f w).0 ≡ ok b
      → (a : A) × (r ≡ ok a) × (continue r f w ≡ f a w)
  continue_ok (ok a) f w b h = (a, refl, refl)
  continue_ok (err e) f w b h = cc

  -- A chain that returns: its first part did, and the rest ran on.
  pub bind_ok :
      (m : Action C A) (f : A → Action C B) (w : World C) (b : B)
      → ((m >>= f) w).0 ≡ ok b
      → (a : A) × ((m w).0 ≡ ok a) × ((m >>= f) w ≡ f a (m w).1)
  unfolding ◌>>=◌
  bind_ok m f w b h = continue_ok (m w).0 f (m w).1 b h

  pub bind-Throws :
      (m : Action C A) (f : A → Action C B) → ((a : A) → Throws (f a)) → Throws (m >>= f)
  bind-Throws m f t w b h = let (a, e, p) = bind_ok m f w b h in t a (m w).1 b (rw p at h)

module _ {C A : Type 0} where
  handle_ok :
      (r : Result A) (f : Error → Action C A) (w : World C) (a : A)
      → ((e : Error) → Throws (f e))
      → (handle r f w).0 ≡ ok a
      → (r ≡ ok a) × (handle r f w ≡ (r, w))
  handle_ok (ok x) f w a t h = (h, refl)
  handle_ok (err e) f w a t h = absurd (t e w a h)

  -- A `try` whose handler always throws returns only what its body returns.
  pub try_ok :
      (m : Action C A) (f : Error → Action C A) (w : World C) (a : A)
      → ((e : Error) → Throws (f e))
      → (try_catch m f w).0 ≡ ok a
      → ((m w).0 ≡ ok a) × (try_catch m f w ≡ m w)
  unfolding try_catch
  try_ok m f w a t h = handle_ok (m w).0 f (m w).1 a t h

module _ {C A : Type 0} where
  pub write_then :
      (f : Db → Db) (m : Action C A) (w : World C) → (write f >> m) w ≡ m (record w { db = f w.db })
  unfolding ◌>>=◌ write
  write_then f m w = refl

  pub write-pure :
      (f : Db → Db) (a : A) (w : World C) → (write f >> pure a) w ≡ (ok a, record w { db = f w.db })
  unfolding ◌>>=◌ write pure
  write-pure f a w = refl

  pub at_now_world :
      (S : Services C) (q : ℕ → M Db A) (w : World C)
      → (at_now S q w).1 ≡ record w { db = (q (S.now w.cloud) w.db).1 }
  unfolding at_now
  at_now_world S q w = refl

module _ {C A B : Type 0} where
  continue_err :
      (r : Result A) (f : A → Action C B) (w : World C) (e : Error)
      → (continue r f w).0 ≡ err e
      → ((r ≡ err e) × (continue r f w ≡ (err e, w)))
        ⊎ ((a : A) × (r ≡ ok a) × (continue r f w ≡ f a w))
  continue_err (ok a) f w e h = inr (a, refl, refl)
  continue_err (err x) f w e h = inl (cc, cc)

  -- A chain that throws: its first part threw, or it returned and the rest ran on.
  pub bind_err :
      (m : Action C A) (f : A → Action C B) (w : World C) (e : Error)
      → ((m >>= f) w).0 ≡ err e
      → (((m w).0 ≡ err e) × ((m >>= f) w ≡ (err e, (m w).1)))
        ⊎ ((a : A) × ((m w).0 ≡ ok a) × ((m >>= f) w ≡ f a (m w).1))
  unfolding ◌>>=◌
  bind_err m f w e h = continue_err (m w).0 f (m w).1 e h

module _ {C A : Type 0} where
  handle_err :
      (r : Result A) (f : Error → Action C A) (w : World C) (e : Error)
      → (handle r f w).0 ≡ err e
      → (e' : Error) × (r ≡ err e') × (handle r f w ≡ f e' w)
  handle_err (ok a) f w e h = cc
  handle_err (err e') f w e h = (e', refl, refl)

  -- A `try` that throws ran its handler.
  pub try_err :
      (m : Action C A) (f : Error → Action C A) (w : World C) (e : Error)
      → (try_catch m f w).0 ≡ err e
      → (e' : Error) × ((m w).0 ≡ err e') × (try_catch m f w ≡ f e' (m w).1)
  unfolding try_catch
  try_err m f w e h = handle_err (m w).0 f (m w).1 e h

  pub pure-returns : (a : A) (w : World C) (e : Error) → (pure a w).0 ≡ err e → ⊥
  unfolding pure
  pure-returns a w e h = cc

  -- After a database call that succeeds, the rest runs on the database that it left.
  pub at_now_then :
      {B : Type 0} (S : Services C) (q : ℕ → M Db B) (m : Action C A) (w : World C) (b : B)
      → (q (S.now w.cloud) w.db).0 ≡ ok b
      → (at_now S q >> m) w ≡ m (record w { db = (q (S.now w.cloud) w.db).1 })
  unfolding ◌>>=◌ at_now
  at_now_then S q m w b h = rw h refl

pub err_inj : {A : Type 0} (e e' : Error) → ◌≡◌ {A = Result A} (err e) (err e') → e ≡ e'
err_inj e e' h = cc

module _ {C A : Type 0} where
  pub throw_world : (e : Error) (w : World C) → throw {A = A} e w ≡ (err e, w)
  unfolding throw
  throw_world e w = refl

  pub then_throw :
      {B : Type 0} (m : Action C B) (e : Error) (w : World C) (b : B)
      → (m w).0 ≡ ok b
      → (m >> throw {A = A} e) w ≡ (err e, (m w).1)
  unfolding ◌>>=◌ throw
  then_throw m e w b h = rw h refl
