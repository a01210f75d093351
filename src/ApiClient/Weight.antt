-- ===== src/ApiClient/Weight.antt =====
-- How much the requests of frontend/src/lib/apiClient.ts have yet to go through at most.
use servers_manager.Base.{
  ℕ, zero, suc, ◌+◌, ◌≤◌, ◌<◌, ◌≡◌, refl, ap, true, not, ◌&&◌, Option, none, some, List, [], ◌∷◌,
  map, Text, ◌==◌, arith, Bool-cases, inl, inr, Throws, ok, throw,
}
use servers_manager.ApiClient.{
  Response, Phase, Request, Client, is_present, shared, begin_refresh, on_answer, on_response,
  on_refreshed, told_phase, told, token_of, on_refresh_response,
}
use servers_manager.ApiClient.Steps.{
  get_elem?, write_at, stored, is_under_way, Progress, answered, resumed, refresh_answered,
}

-- How much a request has yet to go through at most.
abbrev pub weight : Phase → ℕ
weight Phase.first_sent = 5
weight Phase.waiting = 3
weight (Phase.refreshed token) = 2
weight Phase.second_sent = 1
weight (Phase.finished outcome) = 0

unfoldable pub total : List Request → ℕ
total [] = 0
total (r ∷ rs) = weight r.phase + total rs

abbrev refresh_weight : Option Text → ℕ
refresh_weight none = 0
refresh_weight (some token) = 1

unfoldable pub to_do : Client → ℕ
unfolding total
to_do client = refresh_weight client.refreshing + total client.requests

total-write_at :
    (i : ℕ) (old new : Request) (rs : List Request)
    → get_elem? rs i ≡ some old
    → total (write_at i new rs) + weight old.phase ≡ total rs + weight new.phase
unfolding total write_at
total-write_at i old new [] e = cc
total-write_at zero old new (r ∷ rs) e =
    let same : r ≡ old = ground arith in rw (← same) (omega arith)
total-write_at (suc i) old new (r ∷ rs) e = omega (arith, total-write_at i old new rs e)

-- What a request leaves is less, with itself in its place.
abbrev IsLess : Client → Request → Client × Request → Type 0
IsLess client old (client', new) =
    (client'.requests ≡ client.requests)
    × (refresh_weight client'.refreshing + weight new.phase
        < refresh_weight client.refreshing + weight old.phase)

stored-to_do :
    (client : Client) (i : ℕ) (old : Request) (left : Client × Request)
    → get_elem? client.requests i ≡ some old
    → IsLess client old left
    → to_do (stored i left) < to_do client
unfolding stored to_do
stored-to_do client i old (client', new) e (same, less) =
    rw same (omega (arith, total-write_at i old new client.requests e, less))

refresh_weight_le : (t : Option Text) → refresh_weight t ≤ 1
refresh_weight_le none = omega arith
refresh_weight_le (some t) = omega arith

begin_refresh-IsLess :
    (client : Client) (request : Request)
    → weight request.phase ≡ 5
    → IsLess client request (begin_refresh client request)
unfolding begin_refresh
begin_refresh-IsLess client request first =
    elim (Bool-cases (client.configured && is_present client.refresh_token)) [
      | inl e ↦
          rw (e, begin_refresh)
            (
              refl,
              omega
                  (arith, first, refresh_weight_le (shared client.refreshing client.refresh_token)),
            )
      | inr e ↦ rw (e, begin_refresh) (refl, omega (arith, first))
    ]

on_answer-IsLess :
    (client : Client) (request : Request) (response : Response) (phase : Phase)
    → request.phase ≡ phase
    → is_under_way phase ≡ true
    → IsLess client request (on_answer client request response phase)
unfolding on_answer
on_answer-IsLess client request response Phase.first_sent e u =
    elim (Bool-cases (response.status == 401 && not request.skip_auth)) [
      | inl k ↦ rw (k, on_answer) (begin_refresh-IsLess client request (ap weight e))
      | inr k ↦ rw (k, on_answer) (refl, omega (arith, ap weight e))
    ]
on_answer-IsLess client request response Phase.second_sent e u = (refl, omega (arith, ap weight e))
on_answer-IsLess client request response Phase.waiting e u = absurd (ground arith)
on_answer-IsLess client request response (Phase.refreshed t) e u = absurd (ground arith)
on_answer-IsLess client request response (Phase.finished o) e u = absurd (ground arith)

under_way-weight : (phase : Phase) → is_under_way phase ≡ true → 1 ≤ weight phase
under_way-weight Phase.first_sent u = omega arith
under_way-weight Phase.second_sent u = omega arith
under_way-weight Phase.waiting u = omega arith
under_way-weight (Phase.refreshed t) u = omega arith
under_way-weight (Phase.finished o) u = absurd (ground arith)

on_response-IsLess :
    (client : Client) (request : Request) (response : Throws Response)
    → is_under_way request.phase ≡ true
    → IsLess client request (on_response client request response)
unfolding on_response
on_response-IsLess client request (throw e) u =
    (refl, omega (arith, under_way-weight request.phase u))
on_response-IsLess client request (ok response) u =
    on_answer-IsLess client request response request.phase refl u

on_refreshed-IsLess :
    (client : Client) (request : Request) (token : Option Text)
    → weight request.phase ≡ 2
    → IsLess client request (on_refreshed client request token)
unfolding on_refreshed
on_refreshed-IsLess client request token e = elim (Bool-cases (is_present token)) [
  | inl k ↦ rw (k, on_refreshed) (refl, omega (arith, e))
  | inr k ↦
      rw (k, on_refreshed)
        (elim (Bool-cases client.configured) [
          | inl c ↦ rw c (refl, omega (arith, e))
          | inr c ↦ rw c (refl, omega (arith, e))
        ])
]

told-weight : (token : Option Text) (phase : Phase) → weight (told_phase token phase) ≤ weight phase
told-weight token Phase.first_sent = omega arith
told-weight token Phase.second_sent = omega arith
told-weight token Phase.waiting = omega arith
told-weight token (Phase.refreshed t) = omega arith
told-weight token (Phase.finished o) = omega arith

total-told : (token : Option Text) (rs : List Request) → total (map (told token) rs) ≤ total rs
unfolding total
total-told token [] = omega arith
total-told token (r ∷ rs) = omega (arith, told-weight token r.phase, total-told token rs)

pub Progress-less :
    (client client' : Client) → Progress client client' → to_do client' < to_do client
unfolding to_do on_refresh_response
Progress-less client _ (answered i request response there under_way) =
    stored-to_do client i request _ there (on_response-IsLess client request response under_way)
Progress-less client _ (resumed i request token there e) =
    stored-to_do client i request _ there (on_refreshed-IsLess client request token (ap weight e))
Progress-less client _ (refresh_answered token response e) =
    rw e (omega (arith, total-told (token_of response) client.requests))
