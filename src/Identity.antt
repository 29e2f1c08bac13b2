-- ===== src/Identity.antt =====
-- The tables behind access control and teams (backend/app/models: user.py, role.py, permission.py,
-- role_scope.py, team.py, team_member.py, resource_provider.py). A table is the list of its rows;
-- a relationship of the models is a query over the association rows that the foreign keys join.
-- Time stamps and display texts that no operation reads are left out.
use big_bug.Prelude.{
  ℕ, String, Bool, true, false, ◌&&◌, Option, List, text_keys, number_keys, ◌==◌, any, select, find,
}

pub record User : Type 0 where
  pub id : ℕ
  pub username : String
  pub is_active : Bool

pub record Permission : Type 0 where
  pub id : ℕ
  pub name : String

pub record Role : Type 0 where
  pub id : ℕ
  pub name : String
  pub description : Option String
  pub is_custom : Bool
  pub created_by_user_id : Option ℕ

-- role_permissions
pub record RolePermission : Type 0 where
  pub role_id : ℕ
  pub permission_id : ℕ

-- user_roles
pub record UserRole : Type 0 where
  pub user_id : ℕ
  pub role_id : ℕ

-- The five role-scope tables have the same shape; the kind says which table is meant.
pub data ScopeKind : Type 0 where
  source_group credential sync_group provider gitlab_project : ScopeKind

abbrev pub same_kind : ScopeKind → ScopeKind → Bool
same_kind source_group source_group = true
same_kind credential credential = true
same_kind sync_group sync_group = true
same_kind provider provider = true
same_kind gitlab_project gitlab_project = true
same_kind _ _ = false

pub record RoleScope : Type 0 where
  pub kind : ScopeKind
  pub role_id : ℕ
  pub resource_id : ℕ

pub data TeamRole : Type 0 where
  lead member : TeamRole

abbrev pub is_lead : TeamRole → Bool
is_lead lead = true
is_lead member = false

pub record Team : Type 0 where
  pub id : ℕ
  pub name : String
  pub description : Option String
  pub owner_user_id : ℕ
  pub is_deleted : Bool

pub record TeamMember : Type 0 where
  pub team_id : ℕ
  pub user_id : ℕ
  pub role : TeamRole

pub data ProviderVisibility : Type 0 where
  owner team public : ProviderVisibility

pub data ProviderDomain : Type 0 where
  git docker helm : ProviderDomain

pub data ProviderSubtype : Type 0 where
  github gitlab generic_git docker_hub quay gcr ecr acr ghcr harbor generic_registry helm_repo :
      ProviderSubtype

pub data ProviderCategory : Type 0 where
  system public private : ProviderCategory

pub data ProviderDirection : Type 0 where
  external internal : ProviderDirection

pub record ResourceProvider : Type 0 where
  pub id : ℕ
  pub domain : ProviderDomain
  pub subtype : ProviderSubtype
  pub category : ProviderCategory
  pub visibility : ProviderVisibility
  pub direction : ProviderDirection
  pub name : String
  pub base_url : Option String
  pub credential_id : Option ℕ
  pub trust_store_id : Option ℕ
  pub owner_user_id : Option ℕ
  pub team_id : Option ℕ
  pub is_active : Bool
  pub is_default : Bool
  pub is_protected : Bool
  pub verify_ssl : Bool
  pub priority : ℕ
  pub status_flag : ℕ
  pub status_text : Option String
  pub is_deleted : Bool

-- `next_role_id`, `next_team_id` and `next_provider_id` are the sequences of the primary keys. `resources k` are the
-- ids of the rows to which the scope table of kind `k` may refer.
pub record Db : Type 0 where
  pub users : List User
  pub permissions : List Permission
  pub roles : List Role
  pub role_permissions : List RolePermission
  pub user_roles : List UserRole
  pub role_scopes : List RoleScope
  pub resources : ScopeKind → List ℕ
  pub teams : List Team
  pub team_members : List TeamMember
  pub providers : List ResourceProvider
  pub next_role_id : ℕ
  pub next_team_id : ℕ
  pub next_provider_id : ℕ

-- `db.get(User, id)`
unfoldable pub get_user : Db → ℕ → Option User
get_user db id = find (λ u. u.id == id) db.users

unfoldable pub find_role : Db → ℕ → Option Role
find_role db id = find (λ r. r.id == id) db.roles

-- `User.user_roles`
unfoldable pub roles_of_user : Db → ℕ → List UserRole
roles_of_user db user_id = select (λ ur. ur.user_id == user_id) db.user_roles

-- `Role.permissions`, through the secondary table
unfoldable pub permissions_of_role : Db → ℕ → List Permission
permissions_of_role db role_id =
    select (λ p. any (λ rp. rp.role_id == role_id && rp.permission_id == p.id) db.role_permissions)
      db.permissions

-- `Role.source_group_scopes` and its four siblings
unfoldable pub scopes_of_role : Db → ScopeKind → ℕ → List RoleScope
scopes_of_role db kind role_id =
    select (λ s. same_kind s.kind kind && s.role_id == role_id) db.role_scopes
