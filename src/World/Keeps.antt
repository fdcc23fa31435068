-- ===== src/World/Keeps.antt =====
-- Properties of the database that an action keeps, whether it returns or throws: one rule for
-- each way to build an action.
use field_note.Common.{ℕ, Bool, true, false, if◌then◌else◌}
use field_note.Result.{
  Error, Result, ok, err, M, pure, throw, gets, continue, handle, try_catch, ◌>>=◌,
}
use field_note.Database.{Db}
use field_note.World.{World, Action, select, write, call, at_now, write_now, Services}

pub record Keeps {C A : Type 0} (P : Db → Type 0) (m : Action C A) : Type 0 where
  pub at : (w : World C) → P w.db → P (m w).1.db

module _ {C A : Type 0} {P : Db → Type 0} where
  pub Keeps-pure : (a : A) → Keeps {C = C} P (pure a)
  unfolding pure
  Keeps-pure a = record { at = λ w h. h }

  pub Keeps-throw : (e : Error) → Keeps {C = C} {A = A} P (throw e)
  unfolding throw
  Keeps-throw e = record { at = λ w h. h }

  pub Keeps-gets : (f : World C → A) → Keeps P (gets f)
  unfolding gets
  Keeps-gets f = record { at = λ w h. h }

  pub Keeps-select : (f : Db → A) → Keeps {C = C} P (select f)
  unfolding select
  Keeps-select f = record { at = λ w h. h }

  pub Keeps-call : (m : M C A) → Keeps P (call m)
  unfolding call
  Keeps-call m = record { at = λ w h. h }

  pub Keeps-at_now :
      (S : Services C) (q : ℕ → M Db A)
      → ((now : ℕ) (db : Db) → P db → P (q now db).1)
      → Keeps P (at_now S q)
  unfolding at_now
  Keeps-at_now S q k = record { at = λ w h. k (S.now w.cloud) w.db h }

module _ {C : Type 0} {P : Db → Type 0} where
  pub Keeps-write : (f : Db → Db) → ((db : Db) → P db → P (f db)) → Keeps {C = C} P (write f)
  unfolding write
  Keeps-write f k = record { at = λ w h. k w.db h }

  pub Keeps-write_now :
      (S : Services C) (f : ℕ → Db → Db)
      → ((now : ℕ) (db : Db) → P db → P (f now db))
      → Keeps P (write_now S f)
  unfolding write_now
  Keeps-write_now S f k = record { at = λ w h. k (S.now w.cloud) w.db h }

module _ {C A B : Type 0} {P : Db → Type 0} where
  continue-Keeps :
      (r : Result A) (f : A → Action C B) (w : World C)
      → ((a : A) → Keeps P (f a))
      → P w.db
      → P (continue r f w).1.db
  continue-Keeps (ok a) f w k h = (k a).at w h
  continue-Keeps (err e) f w k h = h

  pub Keeps-bind :
      (m : Action C A) (f : A → Action C B)
      → Keeps P m
      → ((a : A) → Keeps P (f a))
      → Keeps P (m >>= f)
  unfolding ◌>>=◌
  Keeps-bind m f km kf = record { at = λ w h. continue-Keeps (m w).0 f (m w).1 kf (km.at w h) }

module _ {C A : Type 0} {P : Db → Type 0} where
  handle-Keeps :
      (r : Result A) (f : Error → Action C A) (w : World C)
      → ((e : Error) → Keeps P (f e))
      → P w.db
      → P (handle r f w).1.db
  handle-Keeps (ok a) f w k h = h
  handle-Keeps (err e) f w k h = (k e).at w h

  pub Keeps-try_catch :
      (m : Action C A) (f : Error → Action C A)
      → Keeps P m
      → ((e : Error) → Keeps P (f e))
      → Keeps P (try_catch m f)
  unfolding try_catch
  Keeps-try_catch m f km kf = record { at = λ w h. handle-Keeps (m w).0 f (m w).1 kf (km.at w h) }

  pub Keeps-if :
      (b : Bool) (m n : Action C A) → Keeps P m → Keeps P n → Keeps P (if b then m else n)
  Keeps-if true m n km kn = km
  Keeps-if false m n km kn = kn

pub ruleset keeps_rules = (
  Keeps-pure, Keeps-throw, Keeps-gets, Keeps-select, Keeps-call, Keeps-at_now, Keeps-write,
  Keeps-bind, Keeps-try_catch, Keeps-if,
)
