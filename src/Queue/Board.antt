-- ===== src/Queue/Board.antt =====
-- server/src/queue/bull-board.ts: the basic authentication in front of the dashboard, and
-- server/src/queue/redis.connection.ts: the connection options of a URL. Base64, UTF-8 and the parser
-- of URLs are parameters.
use field_note.Common.{
  ◌≡◌, Bool, true, false, not, ◌&&◌, Option, none, some, [], ◌∷◌, Text, codes, text_eq, text_eq_iff,
  is_empty, or_else, length, ◌==◌, before_char, after_char, if◌then◌else◌, arith,
}
use mathlib.Core.Option
use field_note.Result.{Result, ok, err}
use field_note.World.{Bytes}

module _ (base64_to_utf8 : Text → Text) (utf8 : Text → Bytes) where
  -- safeEqual: buffers of one length, compared by timingSafeEqual
  unfoldable pub safe_equal : Text → Text → Bool
  safe_equal a b = length (utf8 a) == length (utf8 b) && text_eq (utf8 a) (utf8 b)

  unfoldable pub knows : Text → Text → Text → Bool
  unfolding safe_equal
  knows user password decoded =
      safe_equal (before_char 58 decoded) user
      && safe_equal (or_else (after_char 58 decoded) []) password

  abbrev check_basic : Text → Text → Text → Option Text → Bool
  check_basic user password scheme none = false
  check_basic user password scheme (some encoded) =
      if text_eq scheme (codes "Basic") && not (is_empty encoded)
      then knows user password (base64_to_utf8 encoded)
      else false

  -- basicAuth: whether `next` is called; otherwise the answer is 401
  unfoldable pub basic_auth : Text → Text → Option Text → Bool
  unfolding knows
  basic_auth user password header =
      let h = or_else header [] in
      check_basic user password (before_char 32 h) (Option.map (before_char 32) (after_char 32 h))

  same : ((a b : Text) → utf8 a ≡ utf8 b → a ≡ b) → (a b : Text) → safe_equal a b ≡ true → a ≡ b
  unfolding safe_equal
  same faithful a b h = faithful a b ((text_eq_iff (utf8 a) (utf8 b)).0 (ground arith))

  check_basic-credentials :
      ((a b : Text) → utf8 a ≡ utf8 b → a ≡ b)
      → (user password scheme : Text) (o : Option Text) → check_basic user password scheme o ≡ true
      → (encoded : Text) × (before_char 58 (base64_to_utf8 encoded) ≡ user)
        × (or_else (after_char 58 (base64_to_utf8 encoded)) [] ≡ password)
  unfolding knows
  check_basic-credentials faithful user password scheme none h = cc
  check_basic-credentials faithful user password scheme (some encoded) h =
      let known : knows user password (base64_to_utf8 encoded) ≡ true = ground arith in
      (encoded, same faithful _ user (ground arith), same faithful _ password (ground arith))

-- What the parser of URLs gives.
pub record ParsedUrl : Type 0 where
  pub protocol : Text
  pub hostname : Text
  pub port : Text
  pub username : Text
  pub password : Text
  pub pathname : Text

-- `N` is the type of JavaScript's numbers, which `Number` reads, NaN included.
pub record ConnectionOptions (N : Type 0) : Type 0 where
  pub host : Text
  pub port : N
  pub username : Option Text
  pub password : Option Text
  pub db : Option N
  pub enable_ready_check : Bool
  pub tls : Bool

abbrev with_part : {A : Type 0} → Result (Option Text) → (Option Text → Result A) → Result A
with_part (err e) f = err e
with_part (ok o) f = f o

abbrev some_of : Result Text → Result (Option Text)
some_of (err e) = err e
some_of (ok t) = ok (some t)

-- decodeURIComponent throws on a malformed escape.
module _ {N : Type 0} (decode_uri : Text → Result Text) (number : Text → N) where
  abbrev decoded_part : Text → Result (Option Text)
  decoded_part t = if is_empty t then ok none else some_of (decode_uri t)

  -- pathname.length > 1 ? Number(pathname.slice(1)) : undefined
  abbrev database_number : Text → Option N
  database_number [] = none
  database_number (x ∷ []) = none
  database_number (x ∷ y ∷ rest) = some (number (y ∷ rest))

  -- createBullConnection, on the parsed URL
  unfoldable pub create_bull_connection : ParsedUrl → Result (ConnectionOptions N)
  create_bull_connection url = with_part (decoded_part url.username) λ username.
      with_part (decoded_part url.password) λ password. ok (record {
        host = url.hostname;
        port = number (if is_empty url.port then codes "6379" else url.port);
        username = username;
        password = password;
        db = database_number url.pathname;
        enable_ready_check = false;
        tls = text_eq url.protocol (codes "rediss:");
      })
