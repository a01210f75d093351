-- ===== src/Tests/AccountRuns.antt =====
-- A registration with its sign-in, and the connection of a cloud provider.
use servers_manager.Base.{
  ℕ, ◌≡◌, ◌≤◌, ◌++◌, ◌==◌, ◌+◌, ◌<◌, ltb, Bool-cases, inl, inr, if◌then◌else◌, refl, count, length,
  take, drop, take-length-append, drop-length-append, Throws, [], ◌∷◌, Text, codes, text_eq, ok,
  throw, error, arith,
}
use servers_manager.Db.{Db, User, UserRole, CloudProvider, CloudAccount}
use servers_manager.Auth.{
  JwtAccessPayload, JwtRefreshPayload, AuthPorts, find_by_email, find_organization,
  get_organization_name, issue_token_pair, check_password, validate_credentials, login,
}
use servers_manager.Auth.Sessions.{AreSigned, IsSession, login-IsSession}
use servers_manager.CloudAccounts.{ConnectCloudAccountDto, connect, disconnect}
use servers_manager.CloudAccounts.View.{IsUnique}
use servers_manager.CloudAccounts.Connects.{Connects, connect-Connects}
use servers_manager.CloudAccounts.Disconnects.{Disconnects, disconnect-Disconnects}
use servers_manager.Responses.Undisclosed.{IsUndisclosed, resealed-IsUndisclosed}
use servers_manager.Tests.Samples.{db}

abbrev ada : User
ada = record {
  id = 61;
  org_id = 60;
  email = codes "ada";
  password_hash = codes "pw";
  role = UserRole.admin;
  created_at = 0;
}

abbrev db_ada : Db
db_ada = record db {
  users = ada ∷ [];
  organizations = record { id = 60; name = codes "Lab"; created_at = 0 } ∷ [];
  next_id = 62;
}

-- A token starts with the time of its signature.
abbrev in_time : {A : Type 0} → ℕ → ℕ → Text → (Text → Throws A) → Throws A
in_time lifetime now [] read = throw (error (codes "malformed"))
in_time lifetime now (issued ∷ said) read =
    if ltb now (issued + lifetime) then read said else throw (error (codes "expired"))

-- The rest is what it says, one number after another.
abbrev write_access : JwtAccessPayload → Text
write_access payload =
    payload.sub ∷ payload.org_id ∷ length payload.email ∷ (payload.email ++ payload.org_name)

abbrev read_access : Text → Throws JwtAccessPayload
read_access (sub ∷ org_id ∷ size ∷ rest) = ok (record {
  sub = sub;
  org_id = org_id;
  org_name = drop size rest;
  email = take size rest;
  role = UserRole.admin;
})
read_access _ = throw (error (codes "malformed"))

abbrev read_refresh : Text → Throws JwtRefreshPayload
read_refresh (sub ∷ rest) = ok (record { sub = sub })
read_refresh [] = throw (error (codes "malformed"))

abbrev auth_ports : AuthPorts
auth_ports = record {
  hash = λ password. password;
  compare = text_eq;
  sign_access = λ now payload. now ∷ write_access payload;
  sign_refresh = λ now payload. now ∷ payload.sub ∷ [];
  verify_refresh = λ now token. in_time 1000 now token read_refresh;
  verify_access = λ now token. in_time 100 now token read_access;
}

only_role : (role : UserRole) → UserRole.admin ≡ role
only_role UserRole.admin = refl

in_time-within :
    {A : Type 0} (lifetime issued now : ℕ) (said : Text) (read : Text → Throws A)
    → now < issued + lifetime
    → in_time lifetime now (issued ∷ said) read ≡ read said
in_time-within lifetime issued now said read h = elim (Bool-cases (ltb now (issued + lifetime))) [
  | inl e ↦ rw e refl
  | inr e ↦ absurd (ground arith)
]

auth_ports-AreSigned : AreSigned auth_ports 100 1000
auth_ports-AreSigned = record {
  refresh_said = λ payload issued now from until.
      in_time-within 1000 issued now (payload.sub ∷ []) read_refresh until;
  access_said = λ payload issued now from until.
      rw (in_time-within 100 issued now (write_access payload) read_access until) (
        rw (drop-length-append payload.email payload.org_name)
          (rw (take-length-append payload.email payload.org_name) (rw (only_role payload.role))));
}

ada-distinct : (id : ℕ) → count (λ row. row.id == id) db_ada.users ≤ 1
ada-distinct id = ground arith

login-IsSession_example :
    IsSession auth_ports 100 1000 db_ada 5
      (codes "ada")
      (issue_token_pair auth_ports 5 ada (codes "Lab"))
unfolding login validate_credentials check_password get_organization_name find_organization
    find_by_email issue_token_pair text_eq
login-IsSession_example =
    login-IsSession auth_ports 100 1000 db_ada 5 (codes "ada") (codes "pw")
      (issue_token_pair auth_ports 5 ada (codes "Lab")) auth_ports-AreSigned ada-distinct refl

abbrev aws : ConnectCloudAccountDto
aws = record { provider = CloudProvider.aws; label = codes "prod"; api_key = codes "k" }

abbrev aws_account : CloudAccount
aws_account = record {
  id = 63;
  org_id = 1;
  provider = CloudProvider.aws;
  label = codes "old";
  api_key_encrypted = codes "x";
  connected_at = 0;
  created_at = 0;
}

abbrev db_aws : Db
db_aws = record db { cloud_accounts = aws_account ∷ []; next_id = 64 }

db_aws-IsUnique : IsUnique db_aws.cloud_accounts db_aws.next_id
db_aws-IsUnique = record {
  single = λ org_id provider. ground arith;
  distinct = λ id. ground arith;
  fresh = ground arith;
}

connect-Connects_example :
    Connects (λ text. text) 9 1 aws db_aws (connect (λ text. text) db_aws 9 1 aws).0
connect-Connects_example = connect-Connects (λ text. text) db_aws 9 1 aws db_aws-IsUnique

disconnect-Disconnects_example : Disconnects 1 63 db_aws (disconnect db_aws 1 63)
disconnect-Disconnects_example = disconnect-Disconnects db_aws 1 63 db_aws-IsUnique

resealed-IsUndisclosed_example :
    IsUndisclosed
      (λ host. codes "a")
      (λ snapshot. codes "b")
      (λ rule. codes "c")
      (λ account. codes "d")
      db
      1
      10
resealed-IsUndisclosed_example =
    resealed-IsUndisclosed (λ host. codes "a") (λ snapshot. codes "b") (λ rule. codes "c")
      (λ account. codes "d") db 1 10
