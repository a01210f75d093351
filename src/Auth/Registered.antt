-- ===== src/Auth/Registered.antt =====
-- What a registration of src/auth/auth.service.ts lets the new user do.
use servers_manager.Base.{
  ℕ, suc, ◌≤◌, ◌<◌, ◌≡◌, List, [], ◌∷◌, ◌++◌, Text, ◌==◌, count, All, Throws, ok,
}
use servers_manager.Db.{Db, User, UserRole, Organization}
use servers_manager.Auth.{has_email, create_organization, AuthPorts, issue_token_pair, login}

-- What the unique index on the emails and the drawing of ids keep true.
pub record AreEnrolled (users : List User) (organizations : List Organization) (next_id : ℕ)
    : Type 0 where
  pub single : (email : Text) → count (has_email email) users ≤ 1
  pub distinct : (id : ℕ) → count (λ row. row.id == id) users ≤ 1
  pub fresh : All (λ row. row.id < next_id) users
  pub fresh_organizations : All (λ row. row.id < next_id) organizations

-- What a registration with an email that nobody has comes to.
pub record Registers (ports : AuthPorts) (db : Db) (email password organization_name : Text)
    (ran : Db × Throws User) : Type 0 where
  pub user : User
  pub returned : ran.1 ≡ ok user
  pub enrolled : AreEnrolled ran.0.users ran.0.organizations ran.0.next_id
  pub founded_as : Organization
  pub rows : ran.0.users ≡ db.users ++ user ∷ []
  pub organizations : ran.0.organizations ≡ db.organizations ++ founded_as ∷ []
  pub is_new : count (λ row. row.id == founded_as.id) db.organizations ≡ 0
  pub is_named : founded_as.name ≡ organization_name
  pub belongs : user.org_id ≡ founded_as.id
  pub is_admin : user.role ≡ UserRole.admin
  pub has_the_email : user.email ≡ email
  pub signs_in :
      (at : ℕ)
      → login ports ran.0 at email password ≡ ok (issue_token_pair ports at user organization_name)

module _ (ports : AuthPorts) (db : Db) (now : ℕ) (email password organization_name : Text) where
  abbrev founded : Db
  founded = (create_organization db now organization_name).0

  abbrev newcomer : User
  newcomer = record {
    id = suc db.next_id;
    org_id = db.next_id;
    email = email;
    password_hash = ports.hash password;
    role = UserRole.admin;
    created_at = now;
  }

  abbrev organization : Organization
  organization = record { id = db.next_id; name = organization_name; created_at = now }
