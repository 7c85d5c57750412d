-- ===== src/Api/Client/Routes.antt =====
-- Paths and queries of the client's requests: templates with encoded arguments, `pagePath` and
-- `queryPath`.
use scholarmatch_ai.Base.{ℕ, Bool, true, false, List, [], ◌∷◌, ◌++◌, Option, none, some}
use scholarmatch_ai.Base.Text.{Text, codes}
use scholarmatch_ai.Base.Text.Decimal.{decimal}
use scholarmatch_ai.Base.Url.{form_serialize, encode_uri_component}
use scholarmatch_ai.Api.Errors.{truthy}
use scholarmatch_ai.Api.Client.{Method, RequestOptions}

-- The options of a list method.
pub record PageOptions : Type 0 where
  pub limit : Option ℕ
  pub cursor : Option Text

-- A value of a query: `undefined`, a text, a whole number or a flag.
pub data QueryValue : Type 0 where
  undefined : QueryValue
  text : Text → QueryValue
  number : ℕ → QueryValue
  flag : Bool → QueryValue

-- A part of a path template: text of the program, or an argument under `encodeURIComponent`.
pub data Piece : Type 0 where
  fixed : Text → Piece
  encoded : Text → Piece

-- What a method hands to `request`, its path as a template with the parameters of its query.
pub record Route (Body : Type 0) : Type 0 where
  pub method : Method
  pub template : List Piece
  pub params : List (Text × Text)
  pub body : Option Body
  pub key : Option Text

abbrev limit_param : Option ℕ → List (Text × Text)
limit_param none = []
limit_param (some n) = (codes "limit", decimal n) ∷ []

abbrev param : Text → Option Text → List (Text × Text)
param key none = []
param key (some s) = (key, s) ∷ []

-- The parameters that `pagePath` sets: the limit, and a cursor that is not empty.
unfoldable pub page_params : PageOptions → List (Text × Text)
unfolding decimal
page_params options = limit_param options.limit ++ param (codes "cursor") (truthy options.cursor)

-- `String(value)` of a value that `queryPath` sets, `none` for one that it leaves out.
unfoldable pub query_text : QueryValue → Option Text
unfolding decimal
query_text undefined = none
query_text (text s) = truthy (some s)
query_text (number n) = some (decimal n)
query_text (flag true) = some (codes "true")
query_text (flag false) = some (codes "false")

unfoldable pub query_params : List (Text × QueryValue) → List (Text × Text)
unfolding query_text
query_params [] = []
query_params ((key, value) ∷ entries) = param key (query_text value) ++ query_params entries

-- "query ? `${path}?${query}` : path"
abbrev pub add_query : Text → Text → Text
add_query path [] = path
add_query path (c ∷ query) = path ++ (b'?' ∷ c ∷ query)

abbrev pub prepend : Text → Option Text → Option Text
prepend s none = none
prepend s (some rest) = some (s ++ rest)

abbrev pub prepend_encoded : Option Text → Option Text → Option Text
prepend_encoded none rest = none
prepend_encoded (some e) rest = prepend e rest

-- The path before its query; `none` where `encodeURIComponent` throws.
unfoldable pub render : List Piece → Option Text
unfolding encode_uri_component
render [] = some []
render (fixed s ∷ pieces) = prepend s (render pieces)
render (encoded s ∷ pieces) = prepend_encoded (encode_uri_component s) (render pieces)

module _ {Body : Type 0} where
  -- The argument of `request` once the path is there; no method sets `requireAuth`.
  abbrev pub request_options : Route Body → Text → RequestOptions Body
  request_options route path = record {
    method = route.method;
    path = add_query path (form_serialize route.params);
    body = route.body;
    idempotency_key = route.key;
    require_auth = none;
  }

  unfoldable pub options_of : Route Body → Option (RequestOptions Body)
  unfolding render form_serialize
  options_of route = elim (render route.template) [
    | none ↦ none
    | some path ↦ some (request_options route path)
  ]
