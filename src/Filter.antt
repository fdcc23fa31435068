-- ===== src/Filter.antt =====
-- server/src/common/filters/all-exceptions.filter.ts: the response to a thrown error. The log is left
-- out but for its level.
use field_note.Common.{
  ℕ, ◌≡◌, refl, ap, ◌≤◌, Bool, Option, none, some, List, Text, codes, leb, ◌==◌, or_else, arith,
}
use field_note.Result.{ErrorKind, Error}

-- string | string[]
pub data Message : Type 0 where
  one : Text → Message
  many : List Text → Message

-- What getResponse returns: a text, or an object that may have a message and an error.
pub data HttpBody : Type 0 where
  text : Text → HttpBody
  fields : Option Message → Option Text → HttpBody

-- HttpException, of the framework
pub record HttpError : Type 0 where
  pub status : ℕ
  pub name : Text
  pub message : Text
  pub response : HttpBody

-- A value that was thrown: an HTTP exception, or another error.
pub data Thrown : Type 0 where
  http_exception : HttpError → Thrown
  other : Error → Thrown

-- What `normalize` returns
pub record Problem : Type 0 where
  pub status : ℕ
  pub error : Text
  pub message : Message

abbrev pub problem : ℕ → Text → Text → Problem
problem s e m = record { status = s; error = e; message = Message.one m }

http_problem : HttpError → HttpBody → Problem
http_problem h (HttpBody.text t) = problem h.status h.name t
http_problem h (HttpBody.fields m e) = record {
  status = h.status;
  error = or_else e h.name;
  message = or_else m (Message.one h.message);
}

-- mapPrisma, the validation error of Prisma, and every other error
other_problem : ErrorKind → Problem
other_problem ErrorKind.record_not_found =
    problem 404 (codes "Not Found") (codes "Resource not found.")
other_problem ErrorKind.unique_violation =
    problem 409 (codes "Conflict") (codes "Resource already exists.")
other_problem ErrorKind.missing_relation =
    problem 400 (codes "Bad Request") (codes "Related resource missing.")
other_problem ErrorKind.other_database =
    problem 500 (codes "Internal Server Error") (codes "A database error occurred.")
other_problem ErrorKind.invalid_query =
    problem 400 (codes "Bad Request") (codes "Invalid query parameters.")
other_problem _ =
    problem 500 (codes "Internal Server Error") (codes "An unexpected error occurred.")

-- normalize
unfoldable pub normalize_error : Thrown → Problem
unfolding http_problem other_problem
normalize_error (Thrown.http_exception h) = http_problem h h.response
normalize_error (Thrown.other e) = other_problem e.kind

-- The HTTP exceptions that the services throw: status, class and description.
abbrev pub http : ErrorKind → Option (ℕ × Text × Text)
http ErrorKind.bad_request = some (400, codes "BadRequestException", codes "Bad Request")
http ErrorKind.unauthorized = some (401, codes "UnauthorizedException", codes "Unauthorized")
http ErrorKind.not_found = some (404, codes "NotFoundException", codes "Not Found")
http ErrorKind.conflict = some (409, codes "ConflictException", codes "Conflict")
http _ = none

-- The framework makes such an exception's response of its message and its description.
abbrev pub thrown_as : Option (ℕ × Text × Text) → Error → Thrown
thrown_as none e = Thrown.other e
thrown_as (some (status, name, description)) e = Thrown.http_exception (record {
  status = status;
  name = name;
  message = e.message;
  response = HttpBody.fields (some (Message.one e.message)) (some description);
})

unfoldable pub thrown : Error → Thrown
thrown e = thrown_as (http e.kind) e

unfoldable pub to_problem : Error → Problem
unfolding normalize_error thrown
to_problem e = normalize_error (thrown e)

-- The fields that are read of a request
pub record Request : Type 0 where
  pub id : Option Text
  pub url : Text

pub record ProblemResponse : Type 0 where
  pub status_code : ℕ
  pub error : Text
  pub message : Message
  pub request_id : Option Text
  pub timestamp : ℕ
  pub path : Text

-- The status and the body that are sent, and whether the exception is logged as an error.
pub record Response : Type 0 where
  pub status : ℕ
  pub body : ProblemResponse
  pub is_logged : Bool

abbrev pub response_of : Problem → Request → ℕ → Response
response_of p request now = record {
  status = p.status;
  body = record {
    status_code = p.status;
    error = p.error;
    message = p.message;
    request_id = request.id;
    timestamp = now;
    path = request.url;
  };
  is_logged = leb 500 p.status;
}

-- catch
unfoldable pub catch_exception : Thrown → Request → ℕ → Response
unfolding normalize_error
catch_exception exception request now = response_of (normalize_error exception) request now

other_bounds : (k : ErrorKind) → (400 ≤ (other_problem k).status) × ((other_problem k).status ≤ 500)
unfolding other_problem
other_bounds ErrorKind.record_not_found = (omega arith, omega arith)
other_bounds ErrorKind.unique_violation = (omega arith, omega arith)
other_bounds ErrorKind.missing_relation = (omega arith, omega arith)
other_bounds ErrorKind.other_database = (omega arith, omega arith)
other_bounds ErrorKind.invalid_query = (omega arith, omega arith)
other_bounds ErrorKind.plain = (omega arith, omega arith)
other_bounds ErrorKind.unrecoverable = (omega arith, omega arith)
other_bounds ErrorKind.stage_timeout = (omega arith, omega arith)
other_bounds ErrorKind.bad_request = (omega arith, omega arith)
other_bounds ErrorKind.unauthorized = (omega arith, omega arith)
other_bounds ErrorKind.not_found = (omega arith, omega arith)
other_bounds ErrorKind.conflict = (omega arith, omega arith)
other_bounds (ErrorKind.external n s) = (omega arith, omega arith)

-- Such an error is mapped to a status between 400 and 500, whatever its message is.
pub to_problem_hides :
    (e : Error) (secret : Text)
    → http e.kind ≡ none
    → (to_problem (record e { message = secret }) ≡ to_problem e)
      × (400 ≤ (to_problem e).status)
      × ((to_problem e).status ≤ 500)
unfolding to_problem normalize_error thrown
to_problem_hides e secret h = let (low, high) = other_bounds e.kind in rw h (refl, low, high)

-- To a request that ends in an error that is no HTTP exception, the response, with its status between
-- 400 and 500, does not depend on the error's message, so that nothing of the message reaches the
-- client; the exception is logged as an error exactly when the status is 500.
pub catch_exception_hides :
    (e : Error) (secret : Text) (request : Request) (now : ℕ)
    → http e.kind ≡ none
    → (catch_exception (thrown (record e { message = secret })) request now
        ≡ catch_exception (thrown e) request now)
      × (400 ≤ (catch_exception (thrown e) request now).status)
      × ((catch_exception (thrown e) request now).status ≤ 500)
      × ((catch_exception (thrown e) request now).is_logged
          ≡ ((catch_exception (thrown e) request now).status == 500))
unfolding catch_exception to_problem
catch_exception_hides e secret request now h =
    let (same, low, high) = to_problem_hides e secret h in
    (ap (λ p. response_of p request now) same, low, high, ground (arith, low, high))
