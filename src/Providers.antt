-- ===== src/Providers.antt =====
-- Who sees and who may change a resource provider (`ProviderService` in
-- backend/app/services/providers/service.py: the permission helpers, the access matrix, listing and
-- reading). The user's labels, descriptions and configurations are left out, and the order of lists.
pub mod Changes
pub mod Updates
pub mod Placed
pub mod Keeps
pub mod Steps
pub mod Access
mod Tests
use big_bug.Prelude.{
  ℕ, String, Bool, true, false, not, ◌&&◌, ◌||◌, Option, none, some, List, [], ◌∷◌, if◌then◌else◌,
  text_keys, number_keys, ◌==◌, any, select, find, contains, guard, ◌>>=◌, ◌>>◌, ok, err,
}
use big_bug.Identity.{Db, ResourceProvider, ProviderCategory, ProviderVisibility}
use big_bug.Rbac.Permissions.{get_user_permissions}
use big_bug.Rbac.Guards.{CurrentUser}
use big_bug.Teams.{Outcome, denied, not_found, is_id}

-- The permissions of the token, if it carries any, and those of the tables otherwise.
unfoldable pub cached_or : List String → List String → List String
cached_or [] stored = stored
cached_or (name ∷ names) stored = name ∷ names

unfoldable pub _permissions_async : Db → CurrentUser → List String
unfolding cached_or get_user_permissions
_permissions_async db user =
    cached_or user.cached_permissions (get_user_permissions db user.user.id)

unfoldable pub has_permission : Db → CurrentUser → String → Bool
unfolding _permissions_async
has_permission db user name = contains (_permissions_async db user) name

abbrev pub is_system : ProviderCategory → Bool
is_system ProviderCategory.system = true
is_system _ = false

abbrev pub is_private : ProviderCategory → Bool
is_private ProviderCategory.private = true
is_private _ = false

abbrev pub is_shared : ProviderVisibility → Bool
is_shared ProviderVisibility.team = true
is_shared _ = false

abbrev pub is_public : ProviderVisibility → Bool
is_public ProviderVisibility.public = true
is_public _ = false

unfoldable pub _is_team_member : Db → ℕ → ℕ → Bool
_is_team_member db team_id user_id =
    any (λ m. m.team_id == team_id && m.user_id == user_id) db.team_members

unfoldable pub in_team : Db → Option ℕ → ℕ → Bool
unfolding _is_team_member
in_team db none user_id = false
in_team db (some team_id) user_id = _is_team_member db team_id user_id

-- `_ensure_can_read`, as a test.
unfoldable pub can_read : Db → ResourceProvider → CurrentUser → Bool
unfolding has_permission in_team
can_read db provider user =
    has_permission db user "providers:read_all"
    || (not (is_private provider.category)
        || (is_id provider.owner_user_id user.user.id
            || is_shared provider.visibility && in_team db provider.team_id user.user.id))

unfoldable pub _ensure_can_read : Db → ResourceProvider → CurrentUser → Outcome (Unit {0})
unfolding can_read
_ensure_can_read db provider user = guard (can_read db provider user) denied

unfoldable pub _ensure_can_set_default : Db → CurrentUser → Outcome (Unit {0})
unfolding has_permission
_ensure_can_set_default db user =
    guard
      (has_permission db user "providers_system:write"
        || has_permission db user "admin:panel:access")
      denied

unfoldable pub can_mutate : Db → ResourceProvider → CurrentUser → Bool
unfolding has_permission
can_mutate db provider user =
    if is_system provider.category
    then has_permission db user "providers_system:write"
    else not (is_private provider.category)
      || (is_id provider.owner_user_id user.user.id || has_permission db user "providers:read_all")

unfoldable pub _ensure_can_mutate : Db → ResourceProvider → CurrentUser → Outcome (Unit {0})
unfolding can_mutate
_ensure_can_mutate db provider user = guard (can_mutate db provider user) denied

unfoldable pub found_live : Option ResourceProvider → Outcome ResourceProvider
found_live none = err not_found
found_live (some provider) = if provider.is_deleted then err not_found else ok provider

unfoldable pub _get_or_404 : Db → ℕ → Outcome ResourceProvider
unfolding found_live
_get_or_404 db provider_id = found_live (find (λ p. p.id == provider_id) db.providers)

-- The conditions of the query for a caller without `providers:read_all`.
unfoldable pub is_listed : Db → CurrentUser → ResourceProvider → Bool
unfolding has_permission in_team
is_listed db user p =
    is_public p.visibility
    || (is_id p.owner_user_id user.user.id
        || (is_shared p.visibility && in_team db p.team_id user.user.id
            || is_system p.category && has_permission db user "providers_system:write"))

unfoldable pub list_providers : Db → CurrentUser → List ResourceProvider
unfolding is_listed
list_providers db user =
    select
      (λ p.
        not p.is_deleted && (has_permission db user "providers:read_all" || is_listed db user p))
      db.providers

unfoldable pub get_provider : Db → ℕ → CurrentUser → Outcome ResourceProvider
unfolding _get_or_404 _ensure_can_read
get_provider db provider_id user = do
  provider ← _get_or_404 db provider_id
  readable ← _ensure_can_read db provider user
  ok provider
