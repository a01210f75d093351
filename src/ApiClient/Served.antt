-- ===== src/ApiClient/Served.antt =====
-- What holds of the requests of frontend/src/lib/apiClient.ts at every time.
use servers_manager.Base.{
  ℕ, ◌≡◌, refl, Bool, true, false, not, ◌&&◌, Option, none, some, List, [], length, length-append,
  All, Text, ◌==◌, arith, Bool-cases, inl, inr, Throws, ok, throw,
}
use servers_manager.ApiClient.{
  Response, Phase, Request, Client, is_present, authorization, sent, shared, begin_refresh,
  on_answer, on_response, on_refreshed, token_of, on_refresh_response,
}
use servers_manager.ApiClient.Steps.{
  stored, Progress, answered, resumed, refresh_answered, Step, progress, requested, signed_in,
  signed_out, Reaches, here, after,
}
use servers_manager.ApiClient.Kept.{
  is_direct, IsServed, AreServed, All-write_at, All-get_elem?, All-last, All-told, All-begun,
  IsServed-finish,
}

-- What a request leaves behind is served, with itself.
abbrev AreLeft : Client × Request → List Request → Type 0
AreLeft (client, request) rs =
    (client.requests ≡ rs)
    × IsServed client.refreshing request
    × All (IsServed client.refreshing) rs

stored-AreServed :
    (i : ℕ) (left : Client × Request) (rs : List Request)
    → AreLeft left rs
    → AreServed (stored i left)
unfolding stored
stored-AreServed i (client, request) rs (same, s, h) =
    rw same (All-write_at (IsServed client.refreshing) i request rs s h)

shared-some :
    (refreshing token : Option Text)
    → is_present token ≡ true
    → (t : Text) × (shared refreshing token ≡ some t)
shared-some none none e = absurd (ground arith)
shared-some none (some t) e = (t, refl)
shared-some (some t) token e = (t, refl)

begin_refresh-AreLeft :
    (client : Client) (request : Request)
    → request.phase ≡ Phase.first_sent
    → request.skip_auth ≡ false
    → IsServed client.refreshing request
    → AreServed client
    → AreLeft (begin_refresh client request) client.requests
unfolding begin_refresh
begin_refresh-AreLeft client request first auth s h =
    let once : length request.authorizations ≡ 1 = rw first at s.calls in
    elim (Bool-cases (client.configured && is_present client.refresh_token)) [
      | inl e ↦
          let (t, begun) = shared-some client.refreshing client.refresh_token (ground arith) in
          rw (e, begin_refresh)
            (rw begun (
              refl,
              record {
                calls = once;
                bare = s.bare;
                direct = λ skip. absurd (ground arith);
                served = refl;
              },
              All-begun client.refreshing t client.requests h,
            ))
      | inr e ↦
          rw (e, begin_refresh)
            (
              refl,
              record {
                calls = once;
                bare = s.bare;
                direct = λ skip. absurd (ground arith);
                served = tt;
              },
              h,
            )
    ]

on_answer-AreLeft :
    (client : Client) (request : Request) (response : Response) (phase : Phase)
    → request.phase ≡ phase
    → IsServed client.refreshing request
    → AreServed client
    → AreLeft (on_answer client request response phase) client.requests
unfolding on_answer
on_answer-AreLeft client request response Phase.first_sent e s h =
    elim (Bool-cases (response.status == 401 && not request.skip_auth)) [
      | inl k ↦
          let auth : request.skip_auth ≡ false = ground (arith, k) in
          rw (k, on_answer) (begin_refresh-AreLeft client request e auth s h)
      | inr k ↦ rw (k, on_answer) (refl, IsServed-finish _ request _ s, h)
    ]
on_answer-AreLeft client request response Phase.second_sent e s h =
    (refl, IsServed-finish _ request _ s, h)
on_answer-AreLeft client request response Phase.waiting e s h = (refl, s, h)
on_answer-AreLeft client request response (Phase.refreshed t) e s h = (refl, s, h)
on_answer-AreLeft client request response (Phase.finished o) e s h = (refl, s, h)

on_response-AreLeft :
    (client : Client) (request : Request) (response : Throws Response)
    → IsServed client.refreshing request
    → AreServed client
    → AreLeft (on_response client request response) client.requests
unfolding on_response
on_response-AreLeft client request (throw e) s h = (refl, IsServed-finish _ request _ s, h)
on_response-AreLeft client request (ok response) s h =
    on_answer-AreLeft client request response request.phase refl s h

on_refreshed-AreLeft :
    (client : Client) (request : Request) (token t : Option Text)
    → request.phase ≡ Phase.refreshed t
    → IsServed client.refreshing request
    → AreServed client
    → AreLeft (on_refreshed client request token) client.requests
unfolding on_refreshed authorization
on_refreshed-AreLeft client request token t told_it s h = elim (Bool-cases (is_present token)) [
  | inl e ↦
      let once : length request.authorizations ≡ 1 = rw told_it at s.calls in
      let auth : request.skip_auth ≡ true → is_direct (Phase.refreshed t) ≡ true =
        rw told_it at s.direct in
      rw (e, on_refreshed)
        (
          refl,
          record {
            calls = rw length-append (omega arith);
            bare = λ skip. absurd (ground (arith, auth skip));
            direct = λ skip. absurd (ground (arith, auth skip));
            served = tt;
          },
          h,
        )
  | inr e ↦
      rw (e, on_refreshed)
        (elim (Bool-cases client.configured) [
          | inl k ↦ rw k (refl, IsServed-finish _ request _ s, h)
          | inr k ↦ rw k (refl, IsServed-finish _ request _ s, h)
        ])
]

sent-IsServed :
    (client : Client) (skip_auth : Bool) → IsServed client.refreshing (sent client skip_auth)
unfolding sent authorization
sent-IsServed client false = record {
  calls = refl;
  bare = λ e. absurd (ground arith);
  direct = λ e. refl;
  served = tt;
}
sent-IsServed client true = record {
  calls = refl;
  bare = λ e. elim (Bool-cases client.configured) [ inl k ↦ rw k | inr k ↦ rw k ];
  direct = λ e. refl;
  served = tt;
}

pub Progress-AreServed :
    (client client' : Client) → AreServed client → Progress client client' → AreServed client'
unfolding on_refresh_response
Progress-AreServed client _ h (answered i request response there under_way) =
    let s = All-get_elem? (IsServed client.refreshing) i request client.requests h there in
    stored-AreServed i _ client.requests (on_response-AreLeft client request response s h)
Progress-AreServed client _ h (resumed i request token there told_it) =
    let s = All-get_elem? (IsServed client.refreshing) i request client.requests h there in
    stored-AreServed i _ client.requests
      (on_refreshed-AreLeft client request token token told_it s h)
Progress-AreServed client _ h (refresh_answered token response e) =
    All-told client.refreshing (token_of response) client.requests h

Step-AreServed :
    (client client' : Client) → AreServed client → Step client client' → AreServed client'
Step-AreServed client _ h (progress p) = Progress-AreServed client _ h p
Step-AreServed client _ h (requested skip_auth) =
    All-last (IsServed client.refreshing) (sent client skip_auth) client.requests
      (sent-IsServed client skip_auth) h
Step-AreServed client _ h (signed_in a r) = h
Step-AreServed client _ h signed_out = h

-- In whatever order requests are made and answered, refreshes end and the user signs in and out,
-- from a client with no requests on: no request calls fetch more than twice; one without
-- credentials, like the refresh itself, calls it once and carries no token; and none waits for a
-- refresh while none is under way.
pub Reaches-AreServed :
    (client client' : Client) → client.requests ≡ [] → Reaches client client' → AreServed client'
Reaches-AreServed client _ idle here = rw idle tt
Reaches-AreServed client _ idle (after before step) =
    Step-AreServed _ _ (Reaches-AreServed client _ idle before) step
