-- ===== src/Http/Problems.antt =====
-- apps/api/src/common/http/problem.filter.ts, and the exception of zod-validation.pipe.ts.
use handly_web_app.Prelude.{
  ℕ, Bool, true, false, ◌&&◌, ltb, leb, nat_beq, if◌then◌else◌, Option, none, some, or_else, List,
  [], ◌∷◌, ◌++◌, map,
}

abbrev pub Text : Type 0
Text = List ℕ

pub record FieldError : Type 0 where
  pub path : Text
  pub message : Text

-- What `message` of an exception's response may be.
pub data Message : Type 0 where
  one : Text → Message
  several : List Text → Message

pub data Response : Type 0 where
  text : Text → Response
  object : Option Text → Option Message → Option (List FieldError) → Response

-- What can be thrown: an exception of the framework with its status, a refused query of the database
-- with its code and message, another error with its message and `statusCode`, or any other value.
pub data Exception : Type 0 where
  http_exception : ℕ → Response → Exception
  known_request_error : Text → Text → Exception
  plain_error : Text → Option ℕ → Exception
  other_value : Exception

pub record Problem : Type 0 where
  pub status : ℕ
  pub title : Text
  pub detail : Option Text
  pub errors : Option (List FieldError)

-- What the filter sends, and whether it reports the exception to the monitoring.
pub record Handled : Type 0 where
  pub reply_status : ℕ
  pub body : Problem
  pub instance_url : Text
  pub is_captured : Bool

-- "P2002"
abbrev pub unique_code : Text
unique_code = 80 ∷ 50 ∷ 48 ∷ 48 ∷ 50 ∷ []

-- "Internal Server Error"
abbrev pub internal_title : Text
internal_title =
    73 ∷ 110 ∷ 116 ∷ 101 ∷ 114 ∷ 110 ∷ 97 ∷ 108 ∷ 32 ∷ 83 ∷ 101 ∷ 114 ∷ 118 ∷ 101 ∷ 114 ∷ 32 ∷ 69
    ∷ 114 ∷ 114 ∷ 111 ∷ 114 ∷ []

-- "Conflict"
abbrev pub conflict_title : Text
conflict_title = 67 ∷ 111 ∷ 110 ∷ 102 ∷ 108 ∷ 105 ∷ 99 ∷ 116 ∷ []

-- "Bu amal allaqachon bajarilgan"
abbrev pub conflict_detail : Text
conflict_detail =
    66 ∷ 117 ∷ 32 ∷ 97 ∷ 109 ∷ 97 ∷ 108 ∷ 32 ∷ 97 ∷ 108 ∷ 108 ∷ 97 ∷ 113 ∷ 97 ∷ 99 ∷ 104 ∷ 111 ∷ 110
    ∷ 32 ∷ 98 ∷ 97 ∷ 106 ∷ 97 ∷ 114 ∷ 105 ∷ 108 ∷ 103 ∷ 97 ∷ 110 ∷ []

-- "Error"
abbrev pub error_title : Text
error_title = 69 ∷ 114 ∷ 114 ∷ 111 ∷ 114 ∷ []

abbrev pub same_text : Text → Text → Bool
same_text [] [] = true
same_text (x ∷ xs) (y ∷ ys) = nat_beq x y && same_text xs ys
same_text _ _ = false

-- `.join('; ')`
abbrev pub join_semicolon : List Text → Text
join_semicolon [] = []
join_semicolon (t ∷ []) = t
join_semicolon (t ∷ u ∷ ts) = t ++ 59 ∷ 32 ∷ join_semicolon (u ∷ ts)

abbrev pub text_of : Option Message → Option Text
text_of none = none
text_of (some (one t)) = some t
text_of (some (several ts)) = some (join_semicolon ts)

-- `detail ? { detail } : {}`: an empty text is left out.
abbrev pub unless_empty : Option Text → Option Text
unless_empty none = none
unless_empty (some []) = none
unless_empty (some (c ∷ cs)) = some (c ∷ cs)

-- Of an error of the server no detail is told.
unfoldable pub hide : Problem → Problem
hide p =
    if leb 500 p.status
    then record p { detail = none; title = internal_title }
    else record p { detail = unless_empty p.detail }

-- `status_name` is the framework's table of the names of statuses.
module _ (status_name : ℕ → Option Text) where
  abbrev pub spaced : ℕ → ℕ
  spaced c = if nat_beq c 95 then 32 else c

  abbrev pub named : Option Text → Text
  named none = error_title
  named (some t) = map spaced t

  unfoldable pub http_title : ℕ → Text
  http_title status = named (status_name status)

  abbrev pub internal : Option Text → Problem
  internal detail = record { status = 500; title = internal_title; detail = detail; errors = none }

  -- A `statusCode` that the error brings along.
  abbrev pub with_status : Text → Option ℕ → Problem
  with_status message none = internal (some message)
  with_status message (some code) =
      if leb 400 code && ltb code 600
      then record { status = code; title = http_title code; detail = some message; errors = none }
      else internal (some message)

  -- The problem before anything is hidden.
  unfoldable pub classify : Exception → Problem
  classify (http_exception status (text t)) = record {
    status = status;
    title = t;
    detail = none;
    errors = none;
  }
  classify (http_exception status (object error message errors)) = record {
    status = status;
    title = or_else error (http_title status);
    detail = text_of message;
    errors = errors;
  }
  classify (known_request_error code message) =
      if same_text code unique_code
      then record {
        status = 409;
        title = conflict_title;
        detail = some conflict_detail;
        errors = none;
      }
      else internal (some message)
  classify (plain_error message code) = with_status message code
  classify other_value = internal none

  unfoldable pub catch_exception : Text → Exception → Handled
  catch_exception url e = record {
    reply_status = (classify e).status;
    body = hide (classify e);
    instance_url = url;
    is_captured = leb 500 (classify e).status;
  }

-- The exception of `ZodValidationPipe` for the issues that the schema found; the texts are its own.
unfoldable pub validation_failed : Text → Text → List FieldError → Exception
validation_failed error message issues =
    http_exception 400 (object (some error) (some (one message)) (some issues))
