-- ===== src/Auth/Sessions.antt =====
-- What the tokens of src/auth/auth.service.ts are good for.
use servers_manager.Base.{
  ◌<◌, ◌+◌, ℕ, ◌≤◌, ◌≡◌, ap, true, Option, none, some, Text, ◌==◌, ==_refl, count, arith,
  Bool-cases, inl, inr, ok, returned, ◌>>=◌,
}
use servers_manager.Db.{Db, User}
use servers_manager.Db.Table.{find?-once}
use servers_manager.Auth.{
  has_email, find_by_email, find_by_id, JwtAccessPayload, JwtRefreshPayload, TokenPair, AuthPorts,
  access_payload, get_organization_name, to_authenticated_user, validate, check_password,
  validate_credentials, issue_token_pair, read_refresh_token, refresh_user, refresh_access_token,
  login,
}

-- A token says what was signed from the time of its signing until its lifetime is over.
pub record AreSigned (ports : AuthPorts) (access_lifetime refresh_lifetime : ℕ) : Type 0 where
  pub refresh_said :
      (payload : JwtRefreshPayload) (issued now : ℕ)
      → issued ≤ now
      → now < issued + refresh_lifetime
      → ports.verify_refresh now (ports.sign_refresh issued payload) ≡ ok payload
  pub access_said :
      (payload : JwtAccessPayload) (issued now : ℕ)
      → issued ≤ now
      → now < issued + access_lifetime
      → ports.verify_access now (ports.sign_access issued payload) ≡ ok payload

module _ (ports : AuthPorts) (db : Db) (now : ℕ) where
  -- Who signs in with an email and a password.
  record SignsIn (email password : Text) (pair : TokenPair) : Type 0 where
    user : User
    org_name : Text
    found : find_by_email db email ≡ some user
    matches : ports.compare password user.password_hash ≡ true
    belongs : get_organization_name db user.org_id ≡ ok org_name
    issued : issue_token_pair ports now user org_name ≡ pair

  check_password-ok :
      (password : Text) (found : Option User) (user : User)
      → check_password ports password found ≡ ok user
      → (found ≡ some user) × (ports.compare password user.password_hash ≡ true)
  unfolding check_password
  check_password-ok password none user e = cc
  check_password-ok password (some u) user e =
      elim (Bool-cases (ports.compare password u.password_hash)) [
        | inl k ↦ let same : u ≡ user = ground arith in (ap some same, rw (← same) k)
        | inr k ↦ absurd (ground arith)
      ]

  login-inverts :
      (email password : Text) (pair : TokenPair)
      → login ports db now email password ≡ ok pair
      → SignsIn email password pair
  unfolding login validate_credentials
  login-inverts email password pair e =
      let (user, checked, rest) = returned (validate_credentials ports db email password) _ e in
      let (org_name, named, last) = returned (get_organization_name db user.org_id) _ rest in
      let (found, matches) = check_password-ok password (find_by_email db email) user checked in
      record {
        user = user;
        org_name = org_name;
        found = found;
        matches = matches;
        belongs = named;
        issued = ground arith;
      }

-- What a pair of tokens, issued at a time, lets its holder do: with the access token, or with one that
-- the refresh token was exchanged for, act as the user while that token's lifetime lasts.
pub record IsSession (ports : AuthPorts) (access_lifetime refresh_lifetime : ℕ) (db : Db)
    (issued : ℕ) (email : Text) (pair : TokenPair) : Type 0 where
  pub user : User
  pub org_name : Text
  pub found : find_by_email db email ≡ some user
  pub belongs : get_organization_name db user.org_id ≡ ok org_name
  pub acts_as :
      (now : ℕ)
      → issued ≤ now
      → now < issued + access_lifetime
      → (ports.verify_access now pair.access_token >>= (λ payload. ok (validate payload)))
        ≡ ok (to_authenticated_user user org_name)
  pub renewed : ℕ → Text
  pub renews :
      (now : ℕ)
      → issued ≤ now
      → now < issued + refresh_lifetime
      → refresh_access_token ports db now pair.refresh_token ≡ ok (renewed now)
  pub renewed_acts_as :
      (renewal now : ℕ)
      → renewal ≤ now
      → now < renewal + access_lifetime
      → (ports.verify_access now (renewed renewal) >>= (λ payload. ok (validate payload)))
        ≡ ok (to_authenticated_user user org_name)

refresh-issued :
    (ports : AuthPorts) (access_lifetime refresh_lifetime : ℕ) (db : Db) (issued now : ℕ)
    (user : User) (org_name : Text)
    → AreSigned ports access_lifetime refresh_lifetime
    → issued ≤ now
    → now < issued + refresh_lifetime
    → find_by_id db user.id ≡ some user
    → get_organization_name db user.org_id ≡ ok org_name
    → refresh_access_token ports db now (issue_token_pair ports issued user org_name).refresh_token
      ≡ ok (ports.sign_access now (access_payload user org_name))
unfolding refresh_access_token read_refresh_token refresh_user issue_token_pair
refresh-issued ports access_lifetime refresh_lifetime db issued now user org_name signed after_it
      within found belongs =
    rw (signed.refresh_said (record { sub = user.id }) issued now after_it within)
      (rw found (rw belongs))

-- Where a token says what was signed for its lifetime and no two users have one id, a sign-in that
-- succeeds gives an access token with which a request acts, for that lifetime, as the user of the
-- email in the user's own organization; and as long as the lifetime of the refresh token lasts it is
-- exchanged for access tokens with which a request acts, for theirs, as the same user.
pub login-IsSession :
    (ports : AuthPorts) (access_lifetime refresh_lifetime : ℕ) (db : Db) (issued : ℕ)
    (email password : Text) (pair : TokenPair)
    → AreSigned ports access_lifetime refresh_lifetime
    → ((id : ℕ) → count (λ row. row.id == id) db.users ≤ 1)
    → login ports db issued email password ≡ ok pair
    → IsSession ports access_lifetime refresh_lifetime db issued email pair
unfolding find_by_id find_by_email issue_token_pair validate to_authenticated_user
login-IsSession ports access_lifetime refresh_lifetime db issued email password pair signed distinct
      e =
    let i = login-inverts ports db issued email password pair e in
    let by_id =
      find?-once (λ row. row.id == i.user.id) (has_email email) db.users i.user i.found
        (==_refl i.user.id) (distinct i.user.id) in
    rw (← i.issued) (record {
      user = i.user;
      org_name = i.org_name;
      found = i.found;
      belongs = i.belongs;
      acts_as = λ now from until.
          rw (signed.access_said (access_payload i.user i.org_name) issued now from until);
      renewed = λ now. ports.sign_access now (access_payload i.user i.org_name);
      renews = λ now from until.
          refresh-issued ports access_lifetime refresh_lifetime db issued now i.user i.org_name
            signed from until by_id i.belongs;
      renewed_acts_as = λ renewal now from until.
          rw (signed.access_said (access_payload i.user i.org_name) renewal now from until);
    })
