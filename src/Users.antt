-- ===== src/Users.antt =====
-- server/src/users/users.service.ts: users by Apple's subject.
pub mod Upsert
use field_note.Common.{
  ℕ, Bool, true, false, Option, none, some, List, [], ◌∷◌, ◌++◌, map, Text, text_eq, is_empty,
  find?, if◌then◌else◌,
}
use field_note.Result.{Result, ok, err, M}
use field_note.Database.{User, Db}

unfoldable pub has_sub : Text → User → Bool
has_sub apple_sub u = text_eq u.apple_sub apple_sub

unfoldable pub has_user_id : Text → User → Bool
has_user_id id u = text_eq u.id id

-- `update: email ? { email } : {}`
unfoldable pub with_email : Option Text → User → User
with_email none u = u
with_email (some e) u = if is_empty e then u else record u { email = some e }

upsert_found : Text → Option Text → Text → Db → Option User → User × Db
unfolding with_email has_sub
upsert_found apple_sub email id db none =
    let u : User = record { id = id; apple_sub = apple_sub; email = email } in
    (u, record db { users = db.users ++ u ∷ [] })
upsert_found apple_sub email id db (some u) = (
  with_email email u,
  record db { users = map (λ v. if has_sub apple_sub v then with_email email v else v) db.users },
)

-- upsertByApple; `id` is the id that the database generates for a new user
unfoldable pub upsert_by_apple : Text → Option Text → Text → Db → User × Db
unfolding upsert_found
upsert_by_apple apple_sub email id db =
    upsert_found apple_sub email id db (find? (has_sub apple_sub) db.users)

-- findById
unfoldable pub find_user : Text → Db → Option User
unfolding has_user_id
find_user id db = find? (has_user_id id) db.users
