-- ===== src/Rbac/Access.antt =====
-- Effective scopes and the access check of backend/app/services/rbac_service.py.
pub mod Laws
use Prim.Native.String.{◌++◌ as str_append}
use big_bug.Prelude.{
  ℕ, String, Bool, true, false, ◌&&◌, Option, none, some, List, [], ◌∷◌, ◌++◌, map, if◌then◌else◌,
  text_keys, number_keys, ◌==◌, is_some, any, select, contains, ◌>>=◌, ◌>>◌, ok, err,
}
use big_bug.Identity.{
  Db, Role, UserRole, ScopeKind, source_group, credential, sync_group, provider, gitlab_project,
  get_user, find_role, roles_of_user, scopes_of_role, is_lead,
}
use big_bug.Rbac.{Outcome, user_not_found}

-- `None` is unlimited access, a set is the ids that the user may touch.
pub record EffectiveScope : Type 0 where
  pub source_group_ids : Option (List ℕ)
  pub credential_ids : Option (List ℕ)
  pub sync_group_ids : Option (List ℕ)
  pub team_ids : Option (List ℕ)
  pub provider_ids : Option (List ℕ)
  pub gitlab_project_ids : Option (List ℕ)

abbrev role_is_admin : Option Role → Bool
role_is_admin none = false
role_is_admin (some role) = role.name == "admin"

unfoldable pub is_admin_user : Db → List UserRole → Bool
is_admin_user db urs = any (λ ur. role_is_admin (find_role db ur.role_id)) urs

abbrev unlimited : EffectiveScope
unlimited = record {
  source_group_ids = none;
  credential_ids = none;
  sync_group_ids = none;
  team_ids = none;
  provider_ids = none;
  gitlab_project_ids = none;
}

abbrev ids_of_role : Db → ScopeKind → Option Role → List ℕ
ids_of_role db kind none = []
ids_of_role db kind (some role) = map (λ s. s.resource_id) (scopes_of_role db kind role.id)

-- the loop over the user's roles, for one of the five sets
collect_ids : Db → ScopeKind → List UserRole → List ℕ
collect_ids db kind [] = []
collect_ids db kind (ur ∷ urs) =
    ids_of_role db kind (find_role db ur.role_id) ++ collect_ids db kind urs

team_ids_of : Db → ℕ → List ℕ
team_ids_of db user_id = map (λ m. m.team_id) (select (λ m. m.user_id == user_id) db.team_members)

limited : Db → ℕ → List UserRole → EffectiveScope
unfolding collect_ids team_ids_of
limited db user_id urs = record {
  source_group_ids = some (collect_ids db source_group urs);
  credential_ids = some (collect_ids db credential urs);
  sync_group_ids = some (collect_ids db sync_group urs);
  team_ids = some (team_ids_of db user_id);
  provider_ids = some (collect_ids db provider urs);
  gitlab_project_ids = some (collect_ids db gitlab_project urs);
}

unfoldable pub get_user_effective_scope : Db → ℕ → Outcome EffectiveScope
unfolding is_admin_user limited
get_user_effective_scope db user_id =
    let urs = roles_of_user db user_id in
    if is_some (get_user db user_id)
    then ok (if is_admin_user db urs then unlimited else limited db user_id urs)
    else err user_not_found

-- `effective_scope.get(key)`: a key that the dictionary lacks gives `None` as well.
get_key : EffectiveScope → String → Option (List ℕ)
get_key scope key =
    if key == "source_group_ids"
    then scope.source_group_ids
    else if key == "credential_ids"
    then scope.credential_ids
    else if key == "sync_group_ids"
    then scope.sync_group_ids
    else if key == "team_ids"
    then scope.team_ids
    else if key == "provider_ids"
    then scope.provider_ids
    else if key == "gitlab_project_ids"
    then scope.gitlab_project_ids
    else none

abbrev in_id_set : ℕ → Option (List ℕ) → Bool
in_id_set resource_id none = true
in_id_set resource_id (some ids) = contains ids resource_id

unfoldable pub check_scope_access : Db → ℕ → String → ℕ → Outcome Bool
unfolding get_user_effective_scope get_key
check_scope_access db user_id resource_type resource_id = do
  effective_scope ← get_user_effective_scope db user_id
  ok (in_id_set resource_id (get_key effective_scope (str_append resource_type "_ids")))

unfoldable pub is_team_lead : Db → ℕ → ℕ → Bool
is_team_lead db user_id team_id =
    any (λ m. m.team_id == team_id && (m.user_id == user_id && is_lead m.role)) db.team_members
