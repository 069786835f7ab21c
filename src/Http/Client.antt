-- ===== src/Http/Client.antt =====
-- `request` of apps/web/lib/api.ts, the client that every page uses.
pub mod Sends
use handly_web_app.Prelude.{
  ℕ, Bool, true, false, ◌&&◌, leb, ltb, nat_beq, if◌then◌else◌, Option, none, some, or_else,
  is_some, List, [], ◌++◌,
}
use handly_web_app.Http.Guards.{bearer}
use handly_web_app.Http.Problems.{Text, FieldError, unless_empty}

pub data Method : Type 0 where
  get post patch delete : Method

-- What is sent: the body is the text that `JSON.stringify` has made, and the headers are those that the
-- client sets.
pub record Sent : Type 0 where
  pub method : Method
  pub path : Text
  pub has_content_type : Bool
  pub authorization : Option Text
  pub body : Option Text

pub record RequestOptions : Type 0 where
  pub verb : Method
  pub content : Option Text
  pub auth : Bool

-- The parsed object of a response, as far as the client reads it.
pub record Data : Type 0 where
  pub detail : Option Text
  pub title : Option Text
  pub errors : Option (List FieldError)
  pub json : Text

pub record Response : Type 0 where
  pub status : ℕ
  pub data_read : Option Data

pub data Answer : Type 0 where
  undefined : Answer
  answered : Data → Answer
  api_error : ℕ → Text → Option (List FieldError) → Answer
  network_error : Answer

-- "Bearer " before the access token, when the caller wants it and there is one.
abbrev pub authorization_of : Bool → Option Text → Option Text
authorization_of false token = none
authorization_of true none = none
authorization_of true (some t) = some (bearer ++ t)

-- The access token is the module's variable.
unfoldable pub to_sent : Option Text → Text → RequestOptions → Sent
to_sent access_token path options = record {
  method = options.verb;
  path = path;
  has_content_type = is_some options.content;
  authorization = authorization_of options.auth (unless_empty access_token);
  body = options.content;
}

abbrev pub is_retryable : Method → Bool
is_retryable post = false
is_retryable _ = true

-- What a body that is no JSON is read as.
abbrev pub no_data : Data
no_data = record { detail = none; title = none; errors = none; json = [] }

abbrev pub is_success : ℕ → Bool
is_success status = leb 200 status && ltb status 300

abbrev pub first_text : Option Text → Option Text → Text → Text
first_text none none t = t
first_text none (some b) t = b
first_text (some a) b t = a

-- `unexpected` is the text for an error that says nothing of itself.
module _ (unexpected : Text) where
  unfoldable pub read_data : ℕ → Data → Answer
  read_data status d =
      if is_success status
      then answered d
      else api_error status (first_text (unless_empty d.detail) (unless_empty d.title) unexpected)
          d.errors

  unfoldable pub read_response : Response → Answer
  read_response r =
      if nat_beq r.status 204 then undefined else read_data r.status (or_else r.data_read no_data)

  abbrev pub read_outcome : Option Response → Answer
  read_outcome none = network_error
  read_outcome (some r) = read_response r

  -- `fetch` is the browser's; none is an exception of the network, where no response came.
  module _ {S : Type 0} (fetch : Sent → S → Option Response × S) where
    abbrev pub retry : Sent → Option Response × S → Answer × S
    retry sent (some r, s) = (read_response r, s)
    retry sent (none, s) =
        if is_retryable sent.method
        then (let (r, t) = fetch sent s in (read_outcome r, t))
        else (network_error, s)

    unfoldable pub send : Sent → S → Answer × S
    send sent s = retry sent (fetch sent s)

    unfoldable pub request : Option Text → Text → RequestOptions → S → Answer × S
    request access_token path options s = send (to_sent access_token path options) s
