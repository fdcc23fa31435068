-- ===== src/Users/Upsert.antt =====
-- Signing in again with one Apple subject.
use field_note.Common.{
  ◌≡◌, refl, ap, ◌∙◌, true, Option, Option-cases, none, some, [], ◌∷◌, Text, text_eq, text_eq_refl,
  find?, find?-map_if, find?-append_none, inl, inr, arith,
}
use mathlib.Core.Option
use field_note.Database.{User, Db}
use field_note.Users.{has_sub, with_email, upsert_found, upsert_by_apple}

with_email-keeps_sub : (e : Option Text) (u : User) → (with_email e u).apple_sub ≡ u.apple_sub
unfolding with_email
with_email-keeps_sub none u = refl
with_email-keeps_sub (some e) u = ground arith

with_email-keeps_id : (e : Option Text) (u : User) → (with_email e u).id ≡ u.id
unfolding with_email
with_email-keeps_id none u = refl
with_email-keeps_id (some e) u = ground arith

found_only :
    (apple_sub : Text) (u : User)
    → has_sub apple_sub u ≡ true
    → find? (has_sub apple_sub) (u ∷ []) ≡ some u
unfolding find?
found_only apple_sub u h = rw h refl

module _ (apple_sub : Text) (email : Option Text) (id : Text) (db : Db) where
  -- What an upsert returns is what the next one finds.
  upsert-found :
      find? (has_sub apple_sub) (upsert_by_apple apple_sub email id db).1.users
      ≡ some (upsert_by_apple apple_sub email id db).0
  unfolding upsert_by_apple upsert_found has_sub
  upsert-found = elim (Option-cases (find? (has_sub apple_sub) db.users)) [
    | inl missing ↦ rw missing (
        find?-append_none (has_sub apple_sub) db.users _ missing
        ∙ found_only apple_sub _ (text_eq_refl apple_sub))
    | inr (u, found) ↦ rw found (
        find?-map_if (has_sub apple_sub) (has_sub apple_sub) (with_email email) db.users
          (λ v. ap (λ x. text_eq x apple_sub) (with_email-keeps_sub email v)) (λ v e. e)
        ∙ ap (Option.map (with_email email)) found)
  ]

  upsert_on :
      (email' : Option Text) (id' : Text) (db' : Db) (u : User)
      → find? (has_sub apple_sub) db'.users ≡ some u
      → (upsert_by_apple apple_sub email' id' db').0 ≡ with_email email' u
  unfolding upsert_by_apple upsert_found
  upsert_on email' id' db' u h = rw h refl

  -- The next sign-in with the same subject, whatever id is at hand, is the same user, and without an
  -- email it leaves the user as the first one did.
  pub upsert_again :
      (email' : Option Text) (id' : Text)
      → ((upsert_by_apple apple_sub email' id' (upsert_by_apple apple_sub email id db).1).0.id
          ≡ (upsert_by_apple apple_sub email id db).0.id)
        × ((upsert_by_apple apple_sub none id' (upsert_by_apple apple_sub email id db).1).0
            ≡ (upsert_by_apple apple_sub email id db).0)
  unfolding with_email
  upsert_again email' id' =
      let (u, db') = upsert_by_apple apple_sub email id db in
      (
        ap (λ (v : User). v.id) (upsert_on email' id' db' u upsert-found)
            ∙ with_email-keeps_id email' u,
        upsert_on none id' db' u upsert-found,
      )
