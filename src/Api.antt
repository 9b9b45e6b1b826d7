-- ===== src/Api.antt =====
-- The API server: the handlers of cmd/api/auth (authn.go, authz.go, abort.go) and cmd/api/routers,
-- in the order in which NewServer of cmd/api/main.go sets them up. Texts are lists of bytes.
pub mod Token
pub mod Access
mod Tests
use kubearchive.Prelude.{
  Bool, List, Option, Result, [], err, if◌then◌else◌, length, none, not, ok, some, true, ℕ, ◌++◌,
  ◌==◌, ◌∷◌,
}
use kubearchive.Text.{Text, lit, text_eq}

-- The errors of `extractBearerToken`, the second with the number of parts.
pub data TokenError : Type 0 where
  empty_token : TokenError
  incorrectly_formatted : ℕ → TokenError

-- The messages that the handlers log and send.
pub data Message : Type 0 where
  invalid_token : TokenError → Message
  token_review_error : Text → Message
  authentication_failed : Message
  user_not_found : Message
  unexpected_user_type : Text → Message
  access_review_error : Text → Message
  unauthorized : Message

pub record UserInfo : Type 0 where
  pub username : Text
  pub groups : List Text

-- What a context can hold under "user": a `UserInfo`, or a value of another type, by its name.
pub data UserValue : Type 0 where
  user_info : UserInfo → UserValue
  other_type : Text → UserValue

pub record Resources : Type 0 where
  pub kind : Text
  pub api_version : Text
  pub items : List Text

pub data Body : Type 0 where
  message : Message → Body
  listing : Resources → Body

-- The part of gin.Context that the handlers use: the request, the keys, and what is written.
pub record Context : Type 0 where
  pub authorization : Text
  pub params : List (Text × Text)
  pub user : Option UserValue
  pub responses : List (ℕ × Body)
  pub is_aborted : Bool
  pub log : List Message

-- `c.Param`: a missing parameter reads as the empty text.
unfoldable pub param : Text → List (Text × Text) → Text
param key [] = []
param key ((k, v) ∷ rest) = if text_eq k key then v else param key rest

unfoldable pub json : ℕ → Body → Context → Context
json code body c = record c { responses = c.responses ++ (code, body) ∷ [] }

unfoldable pub abort : Message → ℕ → Context → Context
unfolding json
abort msg code c =
    let logged = record c { log = c.log ++ msg ∷ [] } in
    record (json code (message msg) logged) { is_aborted = true }

-- `strings.Split(header, " ")`.
abbrev pub onto_first : ℕ → List Text → List Text
onto_first c [] = (c ∷ []) ∷ []
onto_first c (part ∷ parts) = (c ∷ part) ∷ parts

unfoldable pub split : Text → List Text
split [] = [] ∷ []
split (c ∷ cs) = let parts = split cs in if c == b' ' then [] ∷ parts else onto_first c parts

-- The second of exactly two parts.
abbrev pub second_of_two : List Text → Result TokenError Text
second_of_two (scheme ∷ token ∷ []) = ok token
second_of_two parts = err (incorrectly_formatted (length parts))

unfoldable pub extract_bearer_token : Text → Result TokenError Text
unfolding split
extract_bearer_token [] = err empty_token
extract_bearer_token (c ∷ cs) = second_of_two (split (c ∷ cs))

-- What a review of a token says: whether it is authenticated, and the user.
pub record TokenStatus : Type 0 where
  pub authenticated : Bool
  pub user : UserInfo

-- `SubjectAccessReviewSpec` with its `ResourceAttributes`.
pub record AccessSpec : Type 0 where
  pub user : Text
  pub groups : List Text
  pub namespace : Text
  pub group : Text
  pub version : Text
  pub resource : Text
  pub verb : Text

unfoldable pub access_spec : UserInfo → Context → AccessSpec
unfolding param
access_spec u c = record {
  user = u.username;
  groups = u.groups;
  namespace = param (lit "namespace") c.params;
  group = param (lit "group") c.params;
  version = param (lit "version") c.params;
  resource = param (lit "resourceType") c.params;
  verb = lit "get";
}

unfoldable pub get_all_resources : Context → Context
unfolding json param
get_all_resources c =
    json 200
      (listing (record {
        kind = param (lit "resourceType") c.params;
        api_version = param (lit "group") c.params ++ (b'/' ∷ param (lit "version") c.params);
        items = lit "resource1" ∷ lit "resource2" ∷ [];
      }))
      c

-- The reviews are answers of the Kubernetes API, an error with its text or a status. `next` is what
-- `c.Next` runs: the handlers that are still to come.
module _ (token_review : Text → Result Text TokenStatus)
    (access_review : AccessSpec → Result Text Bool) (next : Context → Context) where
  unfoldable pub reviewed : Result Text TokenStatus → Context → Context
  unfolding abort
  reviewed (err text) c = abort (token_review_error text) 500 c
  reviewed (ok status) c =
      let known = next (record c { user = some (user_info status.user) }) in
      if not status.authenticated then abort authentication_failed 401 c else known

  unfoldable pub authenticate : Result TokenError Text → Context → Context
  unfolding reviewed
  authenticate (err e) c = abort (invalid_token e) 400 c
  authenticate (ok token) c = reviewed (token_review token) c

  unfoldable pub authentication : Context → Context
  unfolding authenticate extract_bearer_token
  authentication c = authenticate (extract_bearer_token c.authorization) c

  unfoldable pub allowed : Result Text Bool → Context → Context
  unfolding abort
  allowed (err text) c = abort (access_review_error text) 500 c
  allowed (ok is_allowed) c =
      let rest = next c in if not is_allowed then abort unauthorized 401 c else rest

  unfoldable pub authorize : Option UserValue → Context → Context
  unfolding allowed access_spec
  authorize none c = abort user_not_found 500 c
  authorize (some (other_type name)) c = abort (unexpected_user_type name) 500 c
  authorize (some (user_info u)) c = allowed (access_review (access_spec u c)) c

  unfoldable pub rbac_authorization : Context → Context
  unfolding authorize
  rbac_authorization c = authorize c.user c

-- The chain of handlers for `/apis/:group/:version/:resourceType`.
unfoldable pub serve :
    (Text → Result Text TokenStatus) → (AccessSpec → Result Text Bool) → Context → Context
unfolding authentication rbac_authorization get_all_resources
serve token_review access_review =
    authentication token_review access_review
      (rbac_authorization token_review access_review get_all_resources)
