-- ===== src/Rbac/Guards/Laws.antt =====
-- What the request guards let through.
use big_bug.Prelude.{
  ℕ, String, ◌≡◌, refl, sym, ap, ◌∙◌, Bool, true, ◌&&◌, ◌||◌, Option, none, some, arith,
  if◌then◌else◌, text_keys, number_keys, is_some, contains, ok, err,
}
use big_bug.Identity.{Db, User, ScopeKind, get_user, roles_of_user}
use big_bug.Rbac.{forbidden}
use big_bug.Rbac.Permissions.{holds_permission}
use big_bug.Rbac.Permissions.Laws.{get_user_permissions_exact, id_of_get_user}
use big_bug.Rbac.Access.{is_admin_user}
use big_bug.Rbac.Access.Laws.{type_name, scoped, check_scope_access_exact}
use big_bug.Rbac.Guards.{
  Payload, CurrentUser, get_current_user, require_admin, require_operator, require_viewer,
  require_permission, require_scope_permission, permissions_for, user_of_payload, active_user,
  user_of_subject,
}

-- A permission counts if the token carries it, or if the tables grant it now.
abbrev pub permitted : String → Db → CurrentUser → Bool
permitted permission db current =
    contains current.cached_permissions permission || holds_permission db current.user.id permission

contains-permissions_for :
    (permission : String) (db : Db) (current : CurrentUser)
    → contains (permissions_for permission db current) permission ≡ permitted permission db current
unfolding permissions_for
contains-permissions_for permission db current =
    ground (arith, (get_user_permissions_exact db current.user.id).1 permission)

-- `require_permission` passes the user on exactly when the token's list has the permission or the
-- tables grant it to the user, and otherwise answers 403.
require_permission_exact :
    (permission : String) (db : Db) (current : CurrentUser)
    → require_permission permission db current
      ≡ (if permitted permission db current then ok current else err forbidden)
unfolding require_permission
require_permission_exact permission db current =
    ground (arith, contains-permissions_for permission db current)

-- With a resource id of a scoped type, `require_scope_permission` lets an existing user through
-- exactly when the permission counts and the user is an admin or has a role that is scoped to the
-- resource; in every other case it answers 403.
pub require_scope_permission_exact :
    (permission : String) (kind : ScopeKind) (resource_id : ℕ) (db : Db) (current : CurrentUser)
    → is_some (get_user db current.user.id) ≡ true
    → require_scope_permission permission (type_name kind) (some resource_id) db current ≡ (
        if permitted permission db current
          && (is_admin_user db (roles_of_user db current.user.id)
              || scoped db kind current.user.id resource_id)
        then ok true
        else err forbidden)
unfolding require_scope_permission
require_scope_permission_exact permission kind resource_id db current there = ground (
  arith,
  contains-permissions_for permission db current,
  check_scope_access_exact db current.user.id kind resource_id there,
)

current_of_user :
    (payload : Payload) (user : Option User) (current : CurrentUser)
    → active_user payload user ≡ ok current
    → (user ≡ some current.user)
      × (current.user.is_active ≡ true)
      × (current.cached_permissions ≡ payload.permissions)
unfolding active_user
current_of_user payload none current h = cc
current_of_user payload (some user) current h = ground arith

abbrev Identifies : Db → Payload → CurrentUser → Type 0
Identifies db payload current =
    (payload.sub ≡ some current.user.id)
    × (get_user db current.user.id ≡ some current.user)
    × (current.user.is_active ≡ true)
    × (current.cached_permissions ≡ payload.permissions)

current_of_subject :
    (db : Db) (payload : Payload) (subject : Option ℕ) (current : CurrentUser)
    → payload.sub ≡ subject
    → user_of_subject db payload subject ≡ ok current
    → Identifies db payload current
unfolding user_of_subject
current_of_subject db payload none current e h = cc
current_of_subject db payload (some user_id) current e h =
    let (found, active, cached) = current_of_user payload (get_user db user_id) current h in
    let i = id_of_get_user db user_id found in
    (e ∙ ap some (sym i), ap (get_user db) i ∙ found, active, cached)

current_of_payload :
    (db : Db) (decoded : Option Payload) (current : CurrentUser)
    → user_of_payload db decoded ≡ ok current
    → (payload : Payload) × (decoded ≡ some payload)
      × (payload.sub ≡ some current.user.id)
      × (get_user db current.user.id ≡ some current.user)
      × (current.user.is_active ≡ true)
      × (current.cached_permissions ≡ payload.permissions)
unfolding user_of_payload
current_of_payload db none current h = cc
current_of_payload db (some payload) current h =
    let (s, u, a, p) = current_of_subject db payload payload.sub current refl h in
    (payload, refl, s, u, a, p)

-- A token gives a current user only when it decodes to a payload whose subject is the id of
-- an active user of the tables, who is the user returned; the cached permissions are those of the payload.
pub get_current_user_active :
    (decode_token : String → Option Payload) (db : Db) (token : String) (current : CurrentUser)
    → get_current_user decode_token db token ≡ ok current
    → (payload : Payload) × (decode_token token ≡ some payload)
      × (payload.sub ≡ some current.user.id)
      × (get_user db current.user.id ≡ some current.user)
      × (current.user.is_active ≡ true)
      × (current.cached_permissions ≡ payload.permissions)
unfolding get_current_user
get_current_user_active decode_token db token current h =
    current_of_payload db (decode_token token) current h

-- Who passes the admin guard passes the operator guard, and who passes that passes the viewer guard.
role_guards_nested :
    (db : Db) (current : CurrentUser)
    → (require_admin db current ≡ ok current → require_operator db current ≡ ok current)
      × (require_operator db current ≡ ok current → require_viewer db current ≡ ok current)
unfolding require_admin require_operator require_viewer
role_guards_nested db current = ground arith
