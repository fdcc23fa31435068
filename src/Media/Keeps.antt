-- ===== src/Media/Keeps.antt =====
-- The database through object access.
use field_note.Common.{Option, none, some, Text, List, [], ◌∷◌}
use field_note.Database.{Db}
use field_note.World.{Bytes, Services}
use field_note.World.Keeps.{Keeps, Keeps-pure, Keeps-throw, Keeps-call, Keeps-bind}
use field_note.Media.{body_or_throw, get_object_stream, send_delete, delete_objects}

module _ {C : Type 0} (S : Services C) {P : Db → Type 0} where
  body-Keeps : (key : Text) (body : Option Bytes) → Keeps P (body_or_throw S key body)
  body-Keeps key none = Keeps-throw _
  body-Keeps key (some b) = Keeps-pure b

  pub get_object_stream-Keeps : (key : Text) → Keeps P (get_object_stream S key)
  unfolding get_object_stream
  get_object_stream-Keeps key = Keeps-bind _ _ (Keeps-call _) (λ body. body-Keeps key body)

  send_delete-Keeps : (keys : List Text) → Keeps P (send_delete S keys)
  unfolding send_delete
  send_delete-Keeps [] = Keeps-pure tt
  send_delete-Keeps (k ∷ ks) = Keeps-call _

  pub delete_objects-Keeps : (keys : List Text) → Keeps P (delete_objects S keys)
  unfolding delete_objects
  delete_objects-Keeps keys = send_delete-Keeps _
