-- ===== src/ApiClient.antt =====
-- frontend/src/lib/apiClient.ts with the tokens of frontend/src/context/AuthContext.tsx: how requests
-- that are under way together share one refresh of the access token.
pub mod Steps
pub mod Kept
pub mod Served
pub mod Weight
pub mod Settled
use servers_manager.Base.{
  ℕ, suc, ◌≤◌, Bool, true, false, not, ◌&&◌, Option, none, some, List, [], ◌∷◌, ◌++◌, map, Text,
  codes, truthy, ◌==◌, leb, if◌then◌else◌, Throws, ok, throw, Error,
}

-- The members of a JSON body that the client reads; a member that is not there is `none`.
pub record Body : Type 0 where
  pub message : Option Text
  pub access_token : Option Text

-- `json` throws where the body cannot be read.
pub record Response : Type 0 where
  pub status : ℕ
  pub status_text : Text
  pub json : Throws Body

-- What the caller of a request gets: a value, `undefined` for one without content, an `ApiError`, or
-- whatever else was thrown.
pub data Outcome : Type 0 where
  received : Option Body → Outcome
  api_error : ℕ → Text → Outcome
  failed : Error → Outcome

-- Where a request stands: its first `fetch` is under way, it waits for the shared refresh, the
-- refresh has told it a token or none, its second `fetch` is under way, or it is over.
pub data Phase : Type 0 where
  first_sent waiting second_sent : Phase
  refreshed : Option Text → Phase
  finished : Outcome → Phase

-- `authorizations` has one entry for each `fetch`: the bearer token that it carried.
pub record Request : Type 0 where
  pub skip_auth : Bool
  pub phase : Phase
  pub authorizations : List (Option Text)

pub record Client : Type 0 where
  -- `configureApiClient` has been called
  pub configured : Bool
  pub access_token : Option Text
  pub refresh_token : Option Text
  -- the refresh token of the refresh under way, which `refreshPromise` stands for
  pub refreshing : Option Text
  pub requests : List Request

-- A token that JavaScript takes for true.
abbrev pub present : Option Text → Option Text
present none = none
present (some token) = if truthy token then some token else none

abbrev pub is_present : Option Text → Bool
is_present none = false
is_present (some token) = truthy token

abbrev pub is_ok : Response → Bool
is_ok response = leb 200 response.status && leb response.status 299

unfoldable pub authorization : Client → Bool → Option Text
authorization client skip_auth =
    if client.configured && not skip_auth then present client.access_token else none

abbrev pub finish : Request → Outcome → Request
finish request outcome = record request { phase = Phase.finished outcome }

unfoldable pub error_message : Response → Throws Body → Text
error_message response (throw e) = response.status_text
error_message response (ok body) = elim (present body.message) [
  | none ↦ response.status_text
  | some message ↦ message
]

abbrev pub read_json : Throws Body → Outcome
read_json (throw e) = Outcome.failed e
read_json (ok body) = Outcome.received (some body)

-- `request` from its last `response` on.
unfoldable pub outcome_of : Response → Outcome
unfolding error_message
outcome_of response =
    if is_ok response
    then (if response.status == 204 then Outcome.received none else read_json response.json)
    else Outcome.api_error response.status (error_message response response.json)

unfoldable pub sent : Client → Bool → Request
unfolding authorization
sent client skip_auth = record {
  skip_auth = skip_auth;
  phase = Phase.first_sent;
  authorizations = authorization client skip_auth ∷ [];
}

-- A refresh under way is waited for, whatever token it was started with.
abbrev pub shared : Option Text → Option Text → Option Text
shared none refresh_token = refresh_token
shared (some token) refresh_token = some token

-- `refreshAccessToken` up to its first wait.
unfoldable pub begin_refresh : Client → Request → Client × Request
begin_refresh client request =
    if client.configured && is_present client.refresh_token
    then (
      record client { refreshing = shared client.refreshing client.refresh_token },
      record request { phase = Phase.waiting },
    )
    else (client, record request { phase = Phase.refreshed none })

unfoldable pub on_answer : Client → Request → Response → Phase → Client × Request
unfolding outcome_of begin_refresh
on_answer client request response Phase.first_sent =
    if response.status == 401 && not request.skip_auth
    then begin_refresh client request
    else (client, finish request (outcome_of response))
on_answer client request response Phase.second_sent = (client, finish request (outcome_of response))
on_answer client request response phase = (client, request)

-- What a request does when its `fetch` is answered or rejected.
unfoldable pub on_response : Client → Request → Throws Response → Client × Request
unfolding on_answer
on_response client request (throw e) = (client, finish request (Outcome.failed e))
on_response client request (ok response) = on_answer client request response request.phase

-- `onAuthExpired` and `logout` of the provider.
abbrev pub forget : Client → Client
forget client = record client { access_token = none; refresh_token = none }

abbrev pub expire : Client → Client
expire client = if client.configured then forget client else client

-- What a request does when the refresh has told it a token or none.
unfoldable pub on_refreshed : Client → Request → Option Text → Client × Request
unfolding authorization
on_refreshed client request token =
    if is_present token
    then (
      client,
      record request {
        phase = Phase.second_sent;
        authorizations = request.authorizations ++ authorization client request.skip_auth ∷ [];
      },
    )
    else (expire client, finish request (Outcome.api_error 401 (codes "Session expired")))

-- The end of the refresh: the token that it gives, none where anything failed.
unfoldable pub token_of : Throws Response → Option Text
token_of (throw e) = none
token_of (ok response) = elim (response.json) [
  | throw e ↦ none
  | ok body ↦ if is_ok response then body.access_token else none
]

unfoldable pub is_read : Throws Response → Bool
is_read (throw e) = false
is_read (ok response) = elim (response.json) [ throw e ↦ false | ok body ↦ is_ok response ]

abbrev pub told_phase : Option Text → Phase → Phase
told_phase token Phase.waiting = Phase.refreshed token
told_phase token phase = phase

abbrev pub told : Option Text → Request → Request
told token request = record request { phase = told_phase token request.phase }

unfoldable pub on_refresh_response : Client → Throws Response → Client
unfolding token_of is_read
on_refresh_response client response = record client {
  access_token = if is_read response then token_of response else client.access_token;
  refreshing = none;
  requests = map (told (token_of response)) client.requests;
}

-- `login` of the provider, when the tokens have come.
abbrev pub sign_in : Client → Text → Text → Client
sign_in client access_token refresh_token = record client {
  access_token = some access_token;
  refresh_token = some refresh_token;
}
