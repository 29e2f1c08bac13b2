-- ===== src/Rbac/Guards.antt =====
-- The request guards of backend/app/core/rbac.py. Decoding a token is the work of the library
-- `jose`, so the decoder is a parameter; a handler that a guard refuses is not run.
pub mod Laws
use big_bug.Prelude.{
  ℕ, String, Bool, true, false, Option, none, some, List, [], ◌∷◌, if◌then◌else◌, ◌==◌, number_keys,
  text_keys, any, contains, ◌>>=◌, ◌>>◌, guard, ok, err,
}
use big_bug.Identity.{Db, User, Role, UserRole, get_user, find_role, roles_of_user}
use big_bug.Rbac.{Outcome, unauthorized, forbidden}
use big_bug.Rbac.Permissions.{get_user_permissions}
use big_bug.Rbac.Access.{check_scope_access}

pub data RoleName : Type 0 where
  admin operator viewer : RoleName

abbrev pub role_value : RoleName → String
role_value admin = "admin"
role_value operator = "operator"
role_value viewer = "viewer"

pub record Payload : Type 0 where
  pub sub : Option ℕ
  pub permissions : List String

-- The user with `_cached_permissions`.
pub record CurrentUser : Type 0 where
  pub user : User
  pub cached_permissions : List String

active_user : Payload → Option User → Outcome CurrentUser
active_user payload none = err unauthorized
active_user payload (some user) =
    if user.is_active
    then ok (record { user = user; cached_permissions = payload.permissions })
    else err unauthorized

user_of_subject : Db → Payload → Option ℕ → Outcome CurrentUser
unfolding active_user
user_of_subject db payload none = err unauthorized
user_of_subject db payload (some user_id) = active_user payload (get_user db user_id)

user_of_payload : Db → Option Payload → Outcome CurrentUser
unfolding user_of_subject
user_of_payload db none = err unauthorized
user_of_payload db (some payload) = user_of_subject db payload payload.sub

unfoldable pub get_current_user : (String → Option Payload) → Db → String → Outcome CurrentUser
unfolding user_of_payload
get_current_user decode_token db token = user_of_payload db (decode_token token)

-- `{r.name for r in current_user.roles}`
abbrev name_is : String → Option Role → Bool
name_is name none = false
name_is name (some role) = role.name == name

abbrev pub has_role_name : Db → ℕ → String → Bool
has_role_name db user_id name =
    any (λ ur. name_is name (find_role db ur.role_id)) (roles_of_user db user_id)

unfoldable pub require_roles : List RoleName → Db → CurrentUser → Outcome CurrentUser
require_roles roles db current =
    if any (λ role. has_role_name db current.user.id (role_value role)) roles
    then ok current
    else err forbidden

unfoldable pub require_admin : Db → CurrentUser → Outcome CurrentUser
unfolding require_roles
require_admin = require_roles (admin ∷ [])

unfoldable pub require_operator : Db → CurrentUser → Outcome CurrentUser
unfolding require_roles
require_operator = require_roles (admin ∷ operator ∷ [])

unfoldable pub require_viewer : Db → CurrentUser → Outcome CurrentUser
unfolding require_roles
require_viewer = require_roles (admin ∷ operator ∷ viewer ∷ [])

-- A name that the cached list lacks is looked up again in the tables.
permissions_for : String → Db → CurrentUser → List String
permissions_for permission db current =
    if contains current.cached_permissions permission
    then current.cached_permissions
    else get_user_permissions db current.user.id

unfoldable pub require_permission : String → Db → CurrentUser → Outcome CurrentUser
unfolding permissions_for
require_permission permission db current =
    if contains (permissions_for permission db current) permission
    then ok current
    else err forbidden

-- `request.path_params.get(resource_id_param)`: without an id the scope is not checked.
scope_checked : Db → CurrentUser → String → Option ℕ → Outcome Bool
scope_checked db current resource_type none = ok true
scope_checked db current resource_type (some resource_id) = do
  has_access ← check_scope_access db current.user.id resource_type resource_id
  guard has_access forbidden
  ok true

unfoldable pub require_scope_permission :
    String → String → Option ℕ → Db → CurrentUser → Outcome Bool
unfolding permissions_for scope_checked
require_scope_permission permission resource_type resource_id db current =
    if contains (permissions_for permission db current) permission
    then scope_checked db current resource_type resource_id
    else err forbidden
