-- ===== src/Rbac/Roles.antt =====
-- Role queries and role changes of backend/app/services/rbac_service.py. A change returns the new
-- tables beside its result; an error leaves the tables as they were, since `get_db`
-- (backend/app/database.py) rolls the session back.
pub mod Counts
pub mod Grants
pub mod Outcomes
pub mod Keeps
use big_bug.Prelude.{
  ℕ, ◌+◌, String, Bool, true, not, ◌&&◌, Option, none, some, List, [], ◌∷◌, ◌++◌, map,
  if◌then◌else◌, ◌==◌, number_keys, text_keys, is_some, any, all, select, delete_where, contains,
  update_where, first, ◌>>=◌, ◌>>◌, guard, ok, err,
}
use big_bug.Identity.{Db, User, Role, UserRole, Permission, get_user, permissions_of_role}
use big_bug.Rbac.{
  Outcome, permission_not_found, cannot_modify_builtin_role, role_has_users, role_not_found,
  integrity_error,
}

-- `GROUP BY role_id` over the associations of the given roles: one row for each role that has one.
abbrev pub Counts : Type 0
Counts = List (ℕ × ℕ)

count_one : ℕ → Counts → Counts
count_one id [] = (id, 1) ∷ []
count_one id ((key, n) ∷ counts) =
    if key == id then (key, n + 1) ∷ counts else (key, n) ∷ count_one id counts

count_roles : List ℕ → List UserRole → Counts
unfolding count_one
count_roles ids [] = []
count_roles ids (ur ∷ urs) =
    let counts = count_roles ids urs in
    if contains ids ur.role_id then count_one ur.role_id counts else counts

-- `counts.get(role.id, 0)`
abbrev get_count : ℕ → Counts → ℕ
get_count id [] = 0
get_count id ((key, n) ∷ counts) = if key == id then n else get_count id counts

pub record RoleView : Type 0 where
  pub role : Role
  pub permissions : List Permission
  pub users_count : ℕ

annotate : Db → Counts → List Role → List RoleView
annotate db counts [] = []
annotate db counts (r ∷ rs) =
    record {
      role = r;
      permissions = permissions_of_role db r.id;
      users_count = get_count r.id counts;
    }
    ∷ annotate db counts rs

abbrev role_ids : List Role → List ℕ
role_ids = map (λ r. r.id)

unfoldable pub _get_roles_with_users_count : Db → List Role → List RoleView
unfolding count_roles annotate
_get_roles_with_users_count db roles =
    annotate db (count_roles (role_ids roles) db.user_roles) roles

unfoldable pub get_role_by_id : Db → ℕ → Option RoleView
unfolding _get_roles_with_users_count
get_role_by_id db role_id =
    first (_get_roles_with_users_count db (select (λ r. r.id == role_id) db.roles))

unfoldable pub get_role_users : Db → ℕ → List User
get_role_users db role_id =
    select (λ u. any (λ ur. ur.user_id == u.id && ur.role_id == role_id) db.user_roles) db.users

unfoldable pub _resolve_permissions : Db → List String → Outcome (List Permission)
_resolve_permissions db permission_names = do
  let found = select (λ p. contains permission_names p.name) db.permissions
  guard (all (λ n. any (λ p. p.name == n) found) permission_names) permission_not_found
  ok found

-- `role.permissions = permissions`
unfoldable pub replace_permissions : Db → ℕ → List Permission → Db
replace_permissions db role_id permissions = record db {
  role_permissions =
      delete_where (λ rp. rp.role_id == role_id) db.role_permissions
      ++ map (λ p. record { role_id = role_id; permission_id = p.id }) permissions;
}

abbrev name_is_free : Db → String → Bool
name_is_free db name = not (any (λ r. r.name == name) db.roles)

unfoldable pub create_role : Db → String → Option String → List String → ℕ → Outcome (Role × Db)
create_role db name description permission_names created_by_user_id = do
  permissions ← _resolve_permissions db permission_names
  guard (name_is_free db name && is_some (get_user db created_by_user_id)) integrity_error
  let role : Role = record {
    id = db.next_role_id;
    name = name;
    description = description;
    is_custom = true;
    created_by_user_id = some created_by_user_id;
  }
  let added = record db { roles = db.roles ++ role ∷ []; next_role_id = db.next_role_id + 1 }
  ok (role, replace_permissions added role.id permissions)

-- `if value is not None: field = value`
abbrev given_or {ℓ} : {A : Type ℓ} → Option A → A → A
given_or none old = old
given_or (some new) old = new

abbrev given_or_kept : Option String → Option String → Option String
given_or_kept none old = old
given_or_kept (some new) old = some new

-- the permissions are left alone unless a list of names is given
unfoldable pub update_permissions : Db → ℕ → Option (List String) → Outcome Db
update_permissions db role_id none = ok db
update_permissions db role_id (some names) = do
  permissions ← _resolve_permissions db names
  ok (replace_permissions db role_id permissions)

unfoldable pub require_role : Option RoleView → Outcome Role
require_role none = err role_not_found
require_role (some view) = ok view.role

unfoldable pub update_role :
    Db → ℕ → Option String → Option String → Option (List String) → Outcome (Role × Db)
update_role db role_id name description permission_names = do
  role ← require_role (get_role_by_id db role_id)
  guard role.is_custom cannot_modify_builtin_role
  let updated : Role = record role {
    name = given_or name role.name;
    description = given_or_kept description role.description;
  }
  db' ← update_permissions db role_id permission_names
  guard (not (any (λ r. not (r.id == role_id) && r.name == updated.name) db.roles)) integrity_error
  ok (updated, record db' { roles = update_where (λ r. r.id == role_id) (λ _. updated) db'.roles })

-- `db.delete(role)` takes the rows with it that `cascade="all, delete-orphan"` and the secondary
-- table of the model name.
unfoldable pub remove_role : Db → ℕ → Db
remove_role db role_id = record db {
  roles = delete_where (λ r. r.id == role_id) db.roles;
  user_roles = delete_where (λ ur. ur.role_id == role_id) db.user_roles;
  role_permissions = delete_where (λ rp. rp.role_id == role_id) db.role_permissions;
  role_scopes = delete_where (λ s. s.role_id == role_id) db.role_scopes;
}

unfoldable pub delete_role : Db → ℕ → Outcome Db
delete_role db role_id = do
  role ← require_role (get_role_by_id db role_id)
  guard role.is_custom cannot_modify_builtin_role
  guard (not (any (λ ur. ur.role_id == role_id) db.user_roles)) role_has_users
  ok (remove_role db role_id)

unfoldable pub assign_permissions_to_role : Db → ℕ → List String → Outcome (Role × Db)
assign_permissions_to_role db role_id permission_names = do
  role ← require_role (get_role_by_id db role_id)
  permissions ← _resolve_permissions db permission_names
  ok (role, replace_permissions db role_id permissions)
