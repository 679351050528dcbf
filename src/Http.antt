-- ===== src/Http.antt =====
-- What a request brings to a route of client/app/api, and the helpers of client/lib/rate-limit.ts that
-- read it.
pub mod Text
pub mod Limit
use kryon.Common.{
  ℕ, String, ◌<>◌, Bool, true, false, Option, none, some, List, [], ltb, str_eq, if◌then◌else◌,
}
use Text.{trim, before_comma}

-- A field of a JSON object. A number, and an object or an array in `other`, is the text that `String`
-- makes of it.
pub data Value : Type 0 where
  missing null : Value
  boolean : Bool → Value
  number text other : String → Value

-- A body that parses: an object or an array by its fields, of which an array has none that is read.
pub data Json : Type 0 where
  null_body scalar : Json
  object : (String → Value) → Json

-- `body` is `none` where it is no JSON. `content_length` is the number in that header, `none` where the
-- header is missing or holds no finite number.
pub record Request : Type 0 where
  pub body : Option Json
  pub content_length : Option ℕ
  pub connecting_ip : Option String
  pub forwarded_for : Option String
  pub real_ip : Option String

-- The status of a response, its field `ok`, its error or message, and the nonces that it reports with
-- their number.
pub record Response : Type 0 where
  pub status : ℕ
  pub succeeded : Bool
  pub message : String
  pub nonces : List ℕ

abbrev pub refuse : ℕ → String → Response
refuse status e = record { status = status; succeeded = false; message = e; nonces = [] }

abbrev pub answer : String → Response
answer message = record { status = 200; succeeded = true; message = message; nonces = [] }

abbrev pub as_text : Value → Option String
as_text (text s) = some s
as_text missing = none
as_text null = none
as_text (other s) = none
as_text (boolean b) = none
as_text (number s) = none

abbrev pub as_boolean : Value → Option Bool
as_boolean (boolean b) = some b
as_boolean missing = none
as_boolean null = none
as_boolean (other s) = none
as_boolean (text s) = none
as_boolean (number s) = none

-- `String(v ?? "")`
abbrev pub string_of : Value → String
string_of missing = ""
string_of null = ""
string_of (boolean b) = if b then "true" else "false"
string_of (number s) = s
string_of (text s) = s
string_of (other s) = s

unfoldable pub body_too_large : Request → ℕ → Bool
body_too_large req max_bytes = elim req.content_length [ none ↦ false | some n ↦ ltb max_bytes n ]

-- `a || rest` on texts, where a missing or an empty text is falsy
abbrev or_else : Option String → String → String
or_else none rest = rest
or_else (some s) rest = if str_eq s "" then rest else s

abbrev map_text : (String → String) → Option String → Option String
map_text f none = none
map_text f (some s) = some (f s)

unfoldable pub request_key : Request → String → String
request_key req owner =
    owner
    <> ":"
    <> or_else (map_text trim req.connecting_ip) (
        or_else (map_text (λ s. trim (before_comma s)) req.forwarded_for)
          (or_else req.real_ip "unknown"))
