-- ===== src/Observability.antt =====
-- What a request gets for an exception: `SafeExceptionFilter` of
-- apps/api/src/observability/request-observability.ts. The time of the log entry is left out.
use b2b_stm.Prelude.{ℕ, Option, none, some, List, [], ◌∷◌}
use b2b_stm.Prelude.Int.{pos}
use b2b_stm.Text.{Text, codes}
use b2b_stm.Json.{Json, str, num, int, obj, field, end}

-- What `getResponse` gives.
pub data ExceptionBody : Type 0 where
  text_body : Text → ExceptionBody
  json_body : Json → ExceptionBody

-- An HttpException with its status; another Error with its name and the lines of its stack; and a
-- thrown value that is no Error.
pub data Thrown : Type 0 where
  http_exception : ℕ → ExceptionBody → Thrown
  other_error : Text → Option (List Text) → Thrown
  other_value : Thrown

pub record HttpAnswer : Type 0 where
  pub status : ℕ
  pub body : Json

pub record ErrorEntry : Type 0 where
  pub request_id : Text
  pub error_class : Text
  pub stack : Option (List Text)

abbrev pub message_body : ℕ → Text → Json
message_body status message =
    obj (field "statusCode" (num (int (pos status))) (field "message" (str message) end))

abbrev pub body_of : ℕ → ExceptionBody → Json
body_of status (text_body s) = message_body status s
body_of status (json_body j) = j

abbrev pub first_given : Option Text → Option Text → Text
first_given (some s) o = s
first_given none (some s) = s
first_given none none = codes "unavailable"

-- `split('\n').slice(1)`: the first line is the message.
abbrev pub stack_frames : Option (List Text) → Option (List Text)
stack_frames none = none
stack_frames (some []) = some []
stack_frames (some (message ∷ frames)) = some frames

abbrev pub error_answer : HttpAnswer
error_answer = record { status = 500; body = message_body 500 (codes "Internal server error") }

-- `catch`: the answer, and the entry that is logged.
unfoldable pub catch_exception : Option Text → Option Text → Thrown → HttpAnswer × Option ErrorEntry
catch_exception local_id request_id (http_exception status body) =
    (record { status = status; body = body_of status body }, none)
catch_exception local_id request_id (other_error name stack) = (
  error_answer,
  some (record {
    request_id = first_given local_id request_id;
    error_class = name;
    stack = stack_frames stack;
  }),
)
catch_exception local_id request_id other_value = (
  error_answer,
  some (record {
    request_id = first_given local_id request_id;
    error_class = codes "UnknownError";
    stack = none;
  }),
)
