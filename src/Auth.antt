-- ===== src/Auth.antt =====
-- src/auth/auth.service.ts and auth.controller.ts with src/users/users.service.ts, src/organizations/organizations.service.ts,
-- src/auth/strategies/jwt.strategy.ts and src/common/guards/roles.guard.ts: who may sign in as whom.
pub mod Sessions
pub mod Registered
use servers_manager.Base.{
  ℕ, suc, Bool, true, false, Option, none, some, List, [], ◌∷◌, ◌++◌, Text, ◌==◌, text_eq, find?,
  any, if◌then◌else◌, Throws, ok, throw, Error, conflict, unauthorized, unique_violation, ◌>>=◌,
}
use servers_manager.Db.{Db, User, UserRole, Organization}

abbrev pub has_email : Text → User → Bool
has_email email row = text_eq row.email email

unfoldable pub find_by_email : Db → Text → Option User
find_by_email db email = find? (has_email email) db.users

unfoldable pub find_by_id : Db → ℕ → Option User
find_by_id db id = find? (λ row. row.id == id) db.users

unfoldable pub find_organization : Db → ℕ → Option Organization
find_organization db id = find? (λ row. row.id == id) db.organizations

unfoldable pub create_organization : Db → ℕ → Text → Db × Organization
create_organization db now name =
    let organization : Organization = record { id = db.next_id; name = name; created_at = now } in
    (
      record db { organizations = db.organizations ++ organization ∷ []; next_id = suc db.next_id },
      organization,
    )

-- The insert under the unique index on the email; a registration gives no role, so the user is an
-- administrator.
unfoldable pub create_user : Db → ℕ → ℕ → Text → Text → Db × Throws User
unfolding find_by_email
create_user db now org_id email password_hash = elim (find_by_email db email) [
  | some existing ↦ (db, throw unique_violation)
  | none ↦
      let user : User = record {
        id = db.next_id;
        org_id = org_id;
        email = email;
        password_hash = password_hash;
        role = UserRole.admin;
        created_at = now;
      } in
      (record db { users = db.users ++ user ∷ []; next_id = suc db.next_id }, ok user)
]

-- What an access token and a refresh token say.
pub record JwtAccessPayload : Type 0 where
  pub sub : ℕ
  pub org_id : ℕ
  pub org_name : Text
  pub email : Text
  pub role : UserRole

pub record JwtRefreshPayload : Type 0 where
  pub sub : ℕ

pub record TokenPair : Type 0 where
  pub access_token : Text
  pub refresh_token : Text

pub record AuthenticatedUser : Type 0 where
  pub id : ℕ
  pub org_id : ℕ
  pub org_name : Text
  pub email : Text
  pub role : UserRole

-- bcrypt, and the JwtService under the secrets and lifetimes of the configuration, at a time: `sign`
-- stamps the token with it, and `verify` throws on a token that is forged or over by then.
pub record AuthPorts : Type 0 where
  pub hash : Text → Text
  pub compare : (password hash : Text) → Bool
  pub sign_access : ℕ → JwtAccessPayload → Text
  pub sign_refresh : ℕ → JwtRefreshPayload → Text
  pub verify_refresh : ℕ → Text → Throws JwtRefreshPayload
  pub verify_access : ℕ → Text → Throws JwtAccessPayload

abbrev pub access_payload : User → Text → JwtAccessPayload
access_payload user org_name = record {
  sub = user.id;
  org_id = user.org_id;
  org_name = org_name;
  email = user.email;
  role = user.role;
}

unfoldable pub get_organization_name : Db → ℕ → Throws Text
unfolding find_organization
get_organization_name db org_id = elim (find_organization db org_id) [
  | none ↦ throw unauthorized
  | some organization ↦ ok organization.name
]

unfoldable pub to_authenticated_user : User → Text → AuthenticatedUser
to_authenticated_user user org_name = record {
  id = user.id;
  org_id = user.org_id;
  org_name = org_name;
  email = user.email;
  role = user.role;
}

-- `JwtStrategy.validate`: what a request with a verified access token acts as.
unfoldable pub validate : JwtAccessPayload → AuthenticatedUser
validate payload = record {
  id = payload.sub;
  org_id = payload.org_id;
  org_name = payload.org_name;
  email = payload.email;
  role = payload.role;
}

abbrev pub same_role : UserRole → UserRole → Bool
same_role UserRole.admin UserRole.admin = true

-- `RolesGuard.canActivate`; `none` where the handler and its class name no roles.
unfoldable pub can_activate : Option (List UserRole) → AuthenticatedUser → Bool
can_activate none user = true
can_activate (some []) user = true
can_activate (some (role ∷ roles)) user = any (λ r. same_role r user.role) (role ∷ roles)

module _ (ports : AuthPorts) where
  unfoldable pub register : Db → ℕ → Text → Text → Text → Db × Throws User
  unfolding find_by_email create_organization create_user
  register db now email password organization_name = elim (find_by_email db email) [
    | some existing ↦ (db, throw conflict)
    | none ↦
        let founded = create_organization db now organization_name in
        create_user founded.0 now founded.1.id email (ports.hash password)
  ]

  unfoldable pub check_password : Text → Option User → Throws User
  check_password password none = throw unauthorized
  check_password password (some user) =
      if ports.compare password user.password_hash then ok user else throw unauthorized

  unfoldable pub validate_credentials : Db → Text → Text → Throws User
  unfolding check_password find_by_email
  validate_credentials db email password = check_password password (find_by_email db email)

  unfoldable pub issue_token_pair : ℕ → User → Text → TokenPair
  issue_token_pair now user org_name = record {
    access_token = ports.sign_access now (access_payload user org_name);
    refresh_token = ports.sign_refresh now (record { sub = user.id });
  }

  -- The `catch` turns whatever `verify` throws into an `UnauthorizedException`.
  unfoldable pub read_refresh_token : Throws JwtRefreshPayload → Throws JwtRefreshPayload
  read_refresh_token (throw e) = throw unauthorized
  read_refresh_token (ok payload) = ok payload

  unfoldable pub refresh_user : Db → ℕ → Option User → Throws Text
  unfolding get_organization_name
  refresh_user db now none = throw unauthorized
  refresh_user db now (some user) = do
    org_name ← get_organization_name db user.org_id
    ok (ports.sign_access now (access_payload user org_name))

  unfoldable pub refresh_access_token : Db → ℕ → Text → Throws Text
  unfolding read_refresh_token refresh_user find_by_id
  refresh_access_token db now refresh_token = do
    payload ← read_refresh_token (ports.verify_refresh now refresh_token)
    refresh_user db now (find_by_id db payload.sub)

  -- The handlers of `AuthController`.
  unfoldable pub register_response : Text → Db × Throws User → Db × Throws AuthenticatedUser
  unfolding to_authenticated_user
  register_response organization_name (db, throw e) = (db, throw e)
  register_response organization_name (db, ok user) =
      (db, ok (to_authenticated_user user organization_name))

  unfoldable pub post_register : Db → ℕ → Text → Text → Text → Db × Throws AuthenticatedUser
  unfolding register register_response
  post_register db now email password organization_name =
      register_response organization_name (register db now email password organization_name)

  unfoldable pub login : Db → ℕ → Text → Text → Throws TokenPair
  unfolding validate_credentials get_organization_name issue_token_pair
  login db now email password = do
    user ← validate_credentials db email password
    org_name ← get_organization_name db user.org_id
    ok (issue_token_pair now user org_name)
