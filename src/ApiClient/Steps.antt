-- ===== src/ApiClient/Steps.antt =====
-- The events of frontend/src/lib/apiClient.ts in whatever order they come.
use servers_manager.Base.{
  ℕ, zero, suc, false, ◌≡◌, Bool, true, Option, none, some, List, [], ◌∷◌, ◌++◌, Text, Throws,
}
use servers_manager.ApiClient.{
  Response, Phase, Request, Client, sent, on_response, on_refreshed, on_refresh_response, forget,
  sign_in,
}

-- The request at a place of the list, and the list with another one there.
abbrev pub get_elem? : List Request → ℕ → Option Request
get_elem? [] i = none
get_elem? (r ∷ rs) zero = some r
get_elem? (r ∷ rs) (suc i) = get_elem? rs i

unfoldable pub write_at : ℕ → Request → List Request → List Request
write_at i new [] = []
write_at zero new (r ∷ rs) = new ∷ rs
write_at (suc i) new (r ∷ rs) = r ∷ write_at i new rs

-- A request has done its part: the client as it leaves it, with the request itself.
unfoldable pub stored : ℕ → Client × Request → Client
unfolding write_at
stored i (client, request) = record client { requests = write_at i request client.requests }

abbrev pub is_under_way : Phase → Bool
is_under_way Phase.first_sent = true
is_under_way Phase.second_sent = true
is_under_way _ = false

-- What carries a request on.
pub data Progress (client : Client) : Client → Type 0 where
  answered :
      (i : ℕ) (request : Request) (response : Throws Response)
      → get_elem? client.requests i ≡ some request
      → is_under_way request.phase ≡ true
      → Progress client (stored i (on_response client request response))
  resumed :
      (i : ℕ) (request : Request) (token : Option Text)
      → get_elem? client.requests i ≡ some request
      → request.phase ≡ Phase.refreshed token
      → Progress client (stored i (on_refreshed client request token))
  refresh_answered :
      (token : Text) (response : Throws Response)
      → client.refreshing ≡ some token
      → Progress client (on_refresh_response client response)

-- That, and what the user does.
pub data Step (client : Client) : Client → Type 0 where
  progress : {client' : Client} → Progress client client' → Step client client'
  requested :
      (skip_auth : Bool)
      → Step client (record client { requests = client.requests ++ sent client skip_auth ∷ [] })
  signed_in :
      (access_token refresh_token : Text) → Step client (sign_in client access_token refresh_token)
  signed_out : Step client (forget client)

pub data Reaches (client : Client) : Client → Type 0 where
  here : Reaches client client
  after : {middle last : Client} → Reaches client middle → Step middle last → Reaches client last
