-- ===== src/Rbac/Tests.antt =====
-- A small set of tables, runs of the operations on it, and the theorems at these inputs.
use big_bug.Prelude.{
  ℕ, String, ◌≡◌, refl, true, false, ◌&&◌, ◌||◌, Option, none, some, List, [], ◌∷◌, if◌then◌else◌,
  text_keys, number_keys, ◌==◌, is_some, contains, distinct, ok, err,
}
use big_bug.Identity.{
  Db, User, Role, ScopeKind, source_group, get_user, find_role, roles_of_user, permissions_of_role,
  scopes_of_role, same_kind,
}
use big_bug.Rbac.{forbidden, cannot_modify_builtin_role, role_has_users, permission_not_found}
use big_bug.Rbac.Permissions.{get_user_permissions, holds_permission}
use big_bug.Rbac.Permissions.Laws.{get_user_permissions_exact}
use big_bug.Rbac.Roles.{
  _resolve_permissions, replace_permissions, create_role, update_role, delete_role, remove_role,
  assign_permissions_to_role, get_role_by_id, require_role, update_permissions,
}
use big_bug.Rbac.Roles.Counts.{view_of, get_role_by_id_exact}
use big_bug.Rbac.Consistent.{IsConsistent}
use big_bug.Rbac.Grants.{GrantsExactly, create_role-grants, assign-grants}
use big_bug.Rbac.Scope.{sorted, get_role_scope, set_role_scope, add_role_scope}
use big_bug.Rbac.Scope.Replace.{set-get_role_scope}
use big_bug.Rbac.Access.{is_admin_user, check_scope_access}
use big_bug.Rbac.Access.Laws.{scoped, check_scope_access_exact, check_scope_access_unknown}
use big_bug.Rbac.Steps.{created, Reach, here, next}
use big_bug.Rbac.Steps.Laws.{builtin_roles, Reach-Kept}
use big_bug.Rbac.Guards.{
  Payload, CurrentUser, get_current_user, require_permission, require_scope_permission,
}
use big_bug.Rbac.Guards.Laws.{permitted, require_scope_permission_exact, get_current_user_active}

abbrev alice : User
alice = record { id = 1; username = "alice"; is_active = true }

abbrev bob : User
bob = record { id = 2; username = "bob"; is_active = true }

abbrev administrators : Role
administrators = record {
  id = 1;
  name = "admin";
  description = none;
  is_custom = false;
  created_by_user_id = none;
}

abbrev auditors : Role
auditors = record {
  id = 2;
  name = "auditor";
  description = none;
  is_custom = true;
  created_by_user_id = some 1;
}

abbrev known_resources : ScopeKind → List ℕ
known_resources source_group = 10 ∷ 11 ∷ 12 ∷ []
known_resources _ = []

abbrev tables : Db
tables = record {
  users = alice ∷ bob ∷ [];
  permissions =
      record { id = 1; name = "roles:read" } ∷ record { id = 2; name = "roles:write" } ∷ [];
  roles = administrators ∷ auditors ∷ [];
  role_permissions =
      record { role_id = 1; permission_id = 1 }
      ∷ record { role_id = 1; permission_id = 2 }
      ∷ record { role_id = 2; permission_id = 1 }
      ∷ [];
  user_roles = record { user_id = 1; role_id = 1 } ∷ record { user_id = 2; role_id = 2 } ∷ [];
  role_scopes = record { kind = source_group; role_id = 2; resource_id = 10 } ∷ [];
  resources = known_resources;
  teams = [];
  team_members = [];
  providers = [];
  next_role_id = 3;
  next_team_id = 1;
  next_provider_id = 1;
}

tables-IsConsistent : IsConsistent tables
tables-IsConsistent = record {
  ids_unique = refl;
  names_unique = refl;
  ids_drawn = refl;
  user_roles_refer = refl;
  role_permissions_refer = refl;
  role_scopes_refer = refl;
}

-- What the tests compute with.
program : Unit {0}
unfolding create_role update_role delete_role assign_permissions_to_role _resolve_permissions
    replace_permissions update_permissions remove_role get_role_by_id require_role
    get_user_permissions get_user find_role roles_of_user permissions_of_role scopes_of_role
    set_role_scope add_role_scope get_role_scope check_scope_access require_permission
    require_scope_permission get_current_user holds_permission
program = tt

bob_permissions : get_user_permissions tables 2 ≡ "roles:read" ∷ []
unfolding program
bob_permissions = refl

get_user_permissions_exact_example :
    (distinct (get_user_permissions tables 1) ≡ true)
    × ((name : String)
        → contains (get_user_permissions tables 1) name ≡ holds_permission tables 1 name)
get_user_permissions_exact_example = get_user_permissions_exact tables 1

get_role_by_id_exact_example : get_role_by_id tables 2 ≡ view_of tables (find_role tables 2)
get_role_by_id_exact_example = get_role_by_id_exact tables 2

abbrev operators : Role
operators = record {
  id = 3;
  name = "ops";
  description = none;
  is_custom = true;
  created_by_user_id = some 1;
}

abbrev with_operators : Db
with_operators = record tables {
  roles = administrators ∷ auditors ∷ operators ∷ [];
  next_role_id = 4;
  role_permissions =
      record { role_id = 1; permission_id = 1 }
      ∷ record { role_id = 1; permission_id = 2 }
      ∷ record { role_id = 2; permission_id = 1 }
      ∷ record { role_id = 3; permission_id = 2 }
      ∷ [];
}

create_operators :
    create_role tables "ops" none ("roles:write" ∷ []) 1 ≡ ok (operators, with_operators)
unfolding program
create_operators = refl

create_role-grants_example :
    GrantsExactly tables with_operators 3 ("roles:write" ∷ [])
    × (operators.is_custom ≡ true)
    × (operators.id ≡ tables.next_role_id)
create_role-grants_example =
    create_role-grants tables "ops" none ("roles:write" ∷ []) 1 refl create_operators

to_operators : Reach tables with_operators
to_operators = next here (created "ops" none ("roles:write" ∷ []) 1 create_operators)

Reach-Kept_example :
    (IsConsistent with_operators) × (builtin_roles with_operators ≡ builtin_roles tables)
Reach-Kept_example = Reach-Kept to_operators tables-IsConsistent

builtin_refused :
    (update_role tables 1 (some "root") none none ≡ err cannot_modify_builtin_role)
    × (delete_role tables 1 ≡ err cannot_modify_builtin_role)
    × (delete_role tables 2 ≡ err role_has_users)
    × (create_role tables "x" none ("no:such" ∷ []) 1 ≡ err permission_not_found)
unfolding program
builtin_refused = (refl, refl, refl, refl)

-- The permissions of a built-in role can be replaced.
abbrev stripped : Db
stripped = record tables {
  role_permissions =
      record { role_id = 2; permission_id = 1 } ∷ record { role_id = 1; permission_id = 1 } ∷ [];
}

assign_builtin :
    assign_permissions_to_role tables 1 ("roles:read" ∷ []) ≡ ok (administrators, stripped)
unfolding program
assign_builtin = refl

assign-grants_example : GrantsExactly tables stripped 1 ("roles:read" ∷ [])
assign-grants_example = assign-grants tables 1 ("roles:read" ∷ []) refl assign_builtin

abbrev rescoped : Db
rescoped = record tables {
  role_scopes =
      record { kind = source_group; role_id = 2; resource_id = 12 }
      ∷ record { kind = source_group; role_id = 2; resource_id = 11 }
      ∷ [];
}

rescope : set_role_scope source_group tables 2 (12 ∷ 11 ∷ []) ≡ ok rescoped
unfolding program
rescope = refl

set-get_role_scope_example :
    (get_role_scope source_group rescoped 2 ≡ sorted (12 ∷ 11 ∷ []))
    × ((other_kind : ScopeKind) (other_id : ℕ)
        → (same_kind source_group other_kind && 2 == other_id) ≡ false
        → scopes_of_role rescoped other_kind other_id ≡ scopes_of_role tables other_kind other_id)
set-get_role_scope_example = set-get_role_scope source_group 2 tables (12 ∷ 11 ∷ []) rescope

bob_exists : is_some (get_user tables 2) ≡ true
unfolding get_user
bob_exists = refl

check_scope_access_exact_example :
    check_scope_access tables 2 "source_group" 10
    ≡ ok (is_admin_user tables (roles_of_user tables 2) || scoped tables source_group 2 10)
check_scope_access_exact_example = check_scope_access_exact tables 2 source_group 10 bob_exists

access_runs :
    (check_scope_access tables 2 "source_group" 10 ≡ ok true)
    × (check_scope_access tables 2 "source_group" 11 ≡ ok false)
    × (check_scope_access tables 1 "source_group" 11 ≡ ok true)
unfolding program
access_runs = (refl, refl, refl)

check_scope_access_unknown_example : check_scope_access tables 2 "pipeline" 7 ≡ ok true
check_scope_access_unknown_example =
    check_scope_access_unknown tables 2 "pipeline" 7 bob_exists refl

abbrev as_bob : CurrentUser
as_bob = record { user = bob; cached_permissions = "roles:read" ∷ [] }

require_scope_permission_exact_example :
    require_scope_permission "roles:read" "source_group" (some 10) tables as_bob ≡ (
      if permitted "roles:read" tables as_bob
        && (is_admin_user tables (roles_of_user tables 2) || scoped tables source_group 2 10)
      then ok true
      else err forbidden)
require_scope_permission_exact_example =
    require_scope_permission_exact "roles:read" source_group 10 tables as_bob bob_exists

abbrev decode : String → Option Payload
decode token =
    if token == "t2" then some (record { sub = some 2; permissions = "roles:read" ∷ [] }) else none

bob_logged_in : get_current_user decode tables "t2" ≡ ok as_bob
unfolding program
bob_logged_in = refl

get_current_user_active_example :
    (payload : Payload) × (decode "t2" ≡ some payload)
    × (payload.sub ≡ some 2)
    × (get_user tables 2 ≡ some bob)
    × (bob.is_active ≡ true)
    × (as_bob.cached_permissions ≡ payload.permissions)
get_current_user_active_example = get_current_user_active decode tables "t2" as_bob bob_logged_in
