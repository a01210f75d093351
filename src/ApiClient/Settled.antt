-- ===== src/ApiClient/Settled.antt =====
-- That the requests of frontend/src/lib/apiClient.ts come to an end.
use servers_manager.Base.{
  ℕ, suc, ◌+◌, ◌≤◌, ◌≡◌, ◌⊎◌, refl, ap, Bool, true, false, Option, none, some, List, [], ◌∷◌, All,
  Text, arith, Bool-cases, inl, inr, throw, type_error,
}
use servers_manager.ApiClient.{Phase, Request, Client}
use servers_manager.ApiClient.Steps.{
  get_elem?, is_under_way, Progress, answered, resumed, refresh_answered, Reaches,
}
use servers_manager.ApiClient.Kept.{is_refreshing, IsServed, AreServed, All-get_elem?}
use servers_manager.ApiClient.Served.{Progress-AreServed, Reaches-AreServed}
use servers_manager.ApiClient.Weight.{to_do, Progress-less}

pub data Runs (client : Client) : ℕ → Client → Type 0 where
  none_yet : Runs client 0 client
  then_one :
      {n : ℕ} {middle last : Client}
      → Runs client n middle
      → Progress middle last
      → Runs client (suc n) last

Runs-bounded :
    (client client' : Client) (n : ℕ) → Runs client n client' → n + to_do client' ≤ to_do client
Runs-bounded client _ _ none_yet = omega arith
Runs-bounded client last _ (then_one {n} {middle} before step) =
    omega (arith, Runs-bounded client middle n before, Progress-less middle last step)

Runs-AreServed :
    (client client' : Client) (n : ℕ) → AreServed client → Runs client n client' → AreServed client'
Runs-AreServed client _ _ h none_yet = h
Runs-AreServed client last _ h (then_one {n} {middle} before step) =
    Progress-AreServed middle last (Runs-AreServed client middle n h before) step

abbrev pub is_finished : Phase → Bool
is_finished (Phase.finished outcome) = true
is_finished _ = false

abbrev pub AreFinished : Client → Type 0
AreFinished client = All (λ request. is_finished request.phase ≡ true) client.requests

-- A request of a list that is not over.
record IsOpenIn (rs : List Request) : Type 0 where
  i : ℕ
  request : Request
  there : get_elem? rs i ≡ some request
  is_open : is_finished request.phase ≡ false

open_or_finished : (rs : List Request) → All (λ r. is_finished r.phase ≡ true) rs ⊎ IsOpenIn rs
open_or_finished [] = inl tt
open_or_finished (r ∷ rs) = elim (Bool-cases (is_finished r.phase)) [
  | inr e ↦ inr (record { i = 0; request = r; there = refl; is_open = e })
  | inl e ↦ elim (open_or_finished rs) [
    | inl h ↦ inl (e, h)
    | inr o ↦
        inr (record { i = suc o.i; request = o.request; there = o.there; is_open = o.is_open })
  ]
]

refresh_token_of :
    (refreshing : Option Text)
    → is_refreshing refreshing ≡ true
    → (t : Text) × (refreshing ≡ some t)
refresh_token_of none e = absurd (ground arith)
refresh_token_of (some t) e = (t, refl)

-- Whatever the phase of a request that is not over, something carries the client on.
served-Progress :
    (client : Client) (i : ℕ) (request : Request) (phase : Phase)
    → get_elem? client.requests i ≡ some request
    → request.phase ≡ phase
    → is_finished phase ≡ false
    → IsServed client.refreshing request
    → (next : Client) × Progress client next
served-Progress client i request Phase.first_sent there e o s =
    (_, answered i request (throw type_error) there (ap is_under_way e))
served-Progress client i request Phase.second_sent there e o s =
    (_, answered i request (throw type_error) there (ap is_under_way e))
served-Progress client i request Phase.waiting there e o s =
    let (t, now) = refresh_token_of client.refreshing (rw e at s.served) in
    (_, refresh_answered t (throw type_error) now)
served-Progress client i request (Phase.refreshed t) there e o s = (_, resumed i request t there e)
served-Progress client i request (Phase.finished x) there e o s = absurd (ground arith)

finished_or_Progress :
    (client : Client)
    → AreServed client
    → AreFinished client ⊎ ((next : Client) × Progress client next)
finished_or_Progress client h = elim (open_or_finished client.requests) [
  | inl f ↦ inl f
  | inr o ↦ inr (
      served-Progress client o.i o.request o.request.phase o.there refl o.is_open
        (All-get_elem? (IsServed client.refreshing) o.i o.request client.requests h o.there))
]

-- What comes of the requests that are on when no more are made.
pub record Settles (client : Client) : Type 0 where
  pub bounded : (client' : Client) (n : ℕ) → Runs client n client' → n ≤ to_do client
  pub ends :
      (client' : Client) (n : ℕ)
      → Runs client n client'
      → AreFinished client' ⊎ ((next : Client) × Progress client' next)

-- From every state that a client with no requests on can come to, the answers, the ends of refreshes
-- and what the requests then do are at most as many as the requests and the refresh have to do, and
-- they stop only when every request is over: none is left hanging and none retries for ever.
pub Reaches-Settles :
    (start client : Client) → start.requests ≡ [] → Reaches start client → Settles client
Reaches-Settles start client idle reach = record {
  bounded = λ client' n run. omega (arith, Runs-bounded client client' n run);
  ends = λ client' n run.
      finished_or_Progress client'
        (Runs-AreServed client client' n (Reaches-AreServed start client idle reach) run);
}
