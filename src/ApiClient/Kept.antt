-- ===== src/ApiClient/Kept.antt =====
-- What holds of one request of frontend/src/lib/apiClient.ts at every time.
use servers_manager.Base.{
  ℕ, zero, suc, ◌≤◌, ◌≡◌, refl, Bool, true, false, Option, none, some, List, [], ◌∷◌, ◌++◌, map,
  length, All, Text, arith,
}
use servers_manager.ApiClient.{Outcome, Phase, Request, Client, finish, told_phase, told}
use servers_manager.ApiClient.Steps.{get_elem?, write_at}

-- How often a request has called `fetch`, as far as its phase tells.
abbrev pub IsSentBy : Phase → ℕ → Type 0
IsSentBy Phase.first_sent n = n ≡ 1
IsSentBy Phase.waiting n = n ≡ 1
IsSentBy (Phase.refreshed token) n = n ≡ 1
IsSentBy Phase.second_sent n = n ≡ 2
IsSentBy (Phase.finished outcome) n = (1 ≤ n) × (n ≤ 2)

abbrev pub is_refreshing : Option Text → Bool
is_refreshing none = false
is_refreshing (some token) = true

abbrev pub IsServedIn : Option Text → Phase → Type 0
IsServedIn refreshing Phase.waiting = is_refreshing refreshing ≡ true
IsServedIn refreshing Phase.first_sent = Unit
IsServedIn refreshing Phase.second_sent = Unit
IsServedIn refreshing (Phase.refreshed token) = Unit
IsServedIn refreshing (Phase.finished outcome) = Unit

abbrev pub is_direct : Phase → Bool
is_direct Phase.first_sent = true
is_direct (Phase.finished outcome) = true
is_direct _ = false

-- A request has called `fetch` once or twice, only once without credentials and then with no token;
-- one that waits, waits for a refresh that is under way.
pub record IsServed (refreshing : Option Text) (request : Request) : Type 0 where
  pub calls : IsSentBy request.phase (length request.authorizations)
  pub bare : request.skip_auth ≡ true → request.authorizations ≡ none ∷ []
  pub direct : request.skip_auth ≡ true → is_direct request.phase ≡ true
  pub served : IsServedIn refreshing request.phase

abbrev pub AreServed : Client → Type 0
AreServed client = All (IsServed client.refreshing) client.requests

pub All-write_at {κ} :
    (P : Request → Type κ) (i : ℕ) (new : Request) (rs : List Request)
    → P new
    → All P rs
    → All P (write_at i new rs)
unfolding write_at
All-write_at P i new [] p h = tt
All-write_at P zero new (r ∷ rs) p h = (p, h.1)
All-write_at P (suc i) new (r ∷ rs) p h = (h.0, All-write_at P i new rs p h.1)

pub All-get_elem? {κ} :
    (P : Request → Type κ) (i : ℕ) (request : Request) (rs : List Request)
    → All P rs
    → get_elem? rs i ≡ some request
    → P request
All-get_elem? P i request [] h e = cc
All-get_elem? P zero request (r ∷ rs) h e = let same : r ≡ request = ground arith in rw (← same) h.0
All-get_elem? P (suc i) request (r ∷ rs) h e = All-get_elem? P i request rs h.1 e

pub All-last {κ} :
    (P : Request → Type κ) (new : Request) (rs : List Request)
    → P new
    → All P rs
    → All P (rs ++ new ∷ [])
All-last P new [] p h = (p, tt)
All-last P new (r ∷ rs) p h = (h.0, All-last P new rs p h.1)

-- A request stays served when a refresh is started.
IsServed-begun :
    (refreshing : Option Text) (token : Text) (request : Request)
    → IsServed refreshing request
    → IsServed (some token) request
IsServed-begun refreshing token request s = record {
  calls = s.calls;
  bare = s.bare;
  direct = s.direct;
  served = go request.phase;
}
  where
    go : (phase : Phase) → IsServedIn (some token) phase
    go Phase.waiting = refl
    go Phase.first_sent = tt
    go Phase.second_sent = tt
    go (Phase.refreshed t) = tt
    go (Phase.finished o) = tt

-- The token is told to all that wait, so that the refresh may end.
IsServed-told :
    (refreshing token : Option Text) (request : Request)
    → IsServed refreshing request
    → IsServed none (told token request)
IsServed-told refreshing token request s = record {
  calls = told_calls request.phase (length request.authorizations) s.calls;
  bare = s.bare;
  direct = λ e. told_direct request.phase (s.direct e);
  served = told_served request.phase;
}
  where
    told_calls : (phase : Phase) (n : ℕ) → IsSentBy phase n → IsSentBy (told_phase token phase) n
    told_calls Phase.waiting n h = h
    told_calls Phase.first_sent n h = h
    told_calls Phase.second_sent n h = h
    told_calls (Phase.refreshed t) n h = h
    told_calls (Phase.finished o) n h = h

    told_direct :
        (phase : Phase) → is_direct phase ≡ true → is_direct (told_phase token phase) ≡ true
    told_direct Phase.waiting h = absurd (ground arith)
    told_direct Phase.first_sent h = h
    told_direct Phase.second_sent h = h
    told_direct (Phase.refreshed t) h = h
    told_direct (Phase.finished o) h = h

    told_served : (phase : Phase) → IsServedIn none (told_phase token phase)
    told_served Phase.waiting = tt
    told_served Phase.first_sent = tt
    told_served Phase.second_sent = tt
    told_served (Phase.refreshed t) = tt
    told_served (Phase.finished o) = tt

pub All-told :
    (refreshing token : Option Text) (rs : List Request)
    → All (IsServed refreshing) rs
    → All (IsServed none) (map (told token) rs)
All-told refreshing token [] h = tt
All-told refreshing token (r ∷ rs) h =
    (IsServed-told refreshing token r h.0, All-told refreshing token rs h.1)

pub All-begun :
    (refreshing : Option Text) (token : Text) (rs : List Request)
    → All (IsServed refreshing) rs
    → All (IsServed (some token)) rs
All-begun refreshing token [] h = tt
All-begun refreshing token (r ∷ rs) h =
    (IsServed-begun refreshing token r h.0, All-begun refreshing token rs h.1)

pub IsServed-finish :
    (refreshing : Option Text) (request : Request) (outcome : Outcome)
    → IsServed refreshing request
    → IsServed refreshing (finish request outcome)
IsServed-finish refreshing request outcome s = record {
  calls = go request.phase (length request.authorizations) s.calls;
  bare = s.bare;
  direct = λ e. refl;
  served = tt;
}
  where
    go : (phase : Phase) (n : ℕ) → IsSentBy phase n → (1 ≤ n) × (n ≤ 2)
    go Phase.waiting n h = (omega arith, omega arith)
    go Phase.first_sent n h = (omega arith, omega arith)
    go Phase.second_sent n h = (omega arith, omega arith)
    go (Phase.refreshed t) n h = (omega arith, omega arith)
    go (Phase.finished o) n h = h
