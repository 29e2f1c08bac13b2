-- ===== src/Rbac/Scope.antt =====
-- Role scopes and effective scopes of backend/app/services/rbac_service.py. The source repeats the
-- four operations on a scope table for four tables; they are written once here, over the kind of
-- the table, and named for each table below.
pub mod Keeps
pub mod Replace
use big_bug.Prelude.{
  ℕ, Bool, not, ◌&&◌, List, [], ◌∷◌, ◌++◌, map, leb, if◌then◌else◌, text_keys, number_keys, ◌==◌,
  is_some, any, delete_where, contains, guard, ◌>>=◌, ◌>>◌, ok,
}
use big_bug.Identity.{
  Db, RoleScope, ScopeKind, source_group, credential, sync_group, provider, same_kind, find_role,
  scopes_of_role,
}
use big_bug.Rbac.{Outcome, integrity_error}
use big_bug.Rbac.Roles.{get_role_by_id, require_role}

-- `sorted(ids)`
insert_sorted : ℕ → List ℕ → List ℕ
insert_sorted a [] = a ∷ []
insert_sorted a (x ∷ xs) = if leb a x then a ∷ x ∷ xs else x ∷ insert_sorted a xs

unfoldable pub sorted : List ℕ → List ℕ
unfolding insert_sorted
sorted [] = []
sorted (x ∷ xs) = insert_sorted x (sorted xs)

module _ (kind : ScopeKind) where
  abbrev pub is_scope_row : ℕ → ℕ → RoleScope → Bool
  is_scope_row role_id resource_id s =
      same_kind s.kind kind && (s.role_id == role_id && s.resource_id == resource_id)

  unfoldable pub get_role_scope : Db → ℕ → List ℕ
  unfolding sorted
  get_role_scope db role_id = sorted (map (λ s. s.resource_id) (scopes_of_role db kind role_id))

  -- The insertion of a row: the primary key is the pair of ids, both are foreign keys.
  unfoldable pub insert_scope : Db → ℕ → ℕ → Outcome Db
  insert_scope db role_id resource_id = do
    guard
        (is_some (find_role db role_id)
          && (contains (db.resources kind) resource_id
              && not (any (is_scope_row role_id resource_id) db.role_scopes)))
        integrity_error
    ok (record db {
      role_scopes =
          db.role_scopes
          ++ record { kind = kind; role_id = role_id; resource_id = resource_id } ∷ [];
    })

  insert_scopes : Db → ℕ → List ℕ → Outcome Db
  unfolding insert_scope
  insert_scopes db role_id [] = ok db
  insert_scopes db role_id (id ∷ ids) =
      insert_scope db role_id id >>= λ db'. insert_scopes db' role_id ids

  unfoldable pub clear_role_scope : Db → ℕ → Db
  clear_role_scope db role_id = record db {
    role_scopes = delete_where (λ s. same_kind s.kind kind && s.role_id == role_id) db.role_scopes;
  }

  unfoldable pub set_role_scope : Db → ℕ → List ℕ → Outcome Db
  unfolding insert_scopes clear_role_scope
  set_role_scope db role_id ids = do
    role ← require_role (get_role_by_id db role_id)
    insert_scopes (clear_role_scope db role_id) role_id ids

  unfoldable pub add_role_scope : Db → ℕ → ℕ → Outcome Db
  unfolding insert_scope
  add_role_scope db role_id resource_id =
      if any (is_scope_row role_id resource_id) db.role_scopes
      then ok db
      else insert_scope db role_id resource_id

  unfoldable pub remove_role_scope : Db → ℕ → ℕ → Db
  remove_role_scope db role_id resource_id = record db {
    role_scopes = delete_where (is_scope_row role_id resource_id) db.role_scopes;
  }

-- The names of the source, one family for each table.
unfoldable pub get_role_scope_source_groups : Db → ℕ → List ℕ
unfolding get_role_scope
get_role_scope_source_groups = get_role_scope source_group

unfoldable pub set_role_scope_source_groups : Db → ℕ → List ℕ → Outcome Db
unfolding set_role_scope
set_role_scope_source_groups = set_role_scope source_group

unfoldable pub add_role_scope_source_group : Db → ℕ → ℕ → Outcome Db
unfolding add_role_scope
add_role_scope_source_group = add_role_scope source_group

unfoldable pub remove_role_scope_source_group : Db → ℕ → ℕ → Db
unfolding remove_role_scope
remove_role_scope_source_group = remove_role_scope source_group

unfoldable pub get_role_scope_credentials : Db → ℕ → List ℕ
unfolding get_role_scope
get_role_scope_credentials = get_role_scope credential

unfoldable pub set_role_scope_credentials : Db → ℕ → List ℕ → Outcome Db
unfolding set_role_scope
set_role_scope_credentials = set_role_scope credential

unfoldable pub add_role_scope_credential : Db → ℕ → ℕ → Outcome Db
unfolding add_role_scope
add_role_scope_credential = add_role_scope credential

unfoldable pub remove_role_scope_credential : Db → ℕ → ℕ → Db
unfolding remove_role_scope
remove_role_scope_credential = remove_role_scope credential

unfoldable pub get_role_scope_sync_groups : Db → ℕ → List ℕ
unfolding get_role_scope
get_role_scope_sync_groups = get_role_scope sync_group

unfoldable pub set_role_scope_sync_groups : Db → ℕ → List ℕ → Outcome Db
unfolding set_role_scope
set_role_scope_sync_groups = set_role_scope sync_group

unfoldable pub add_role_scope_sync_group : Db → ℕ → ℕ → Outcome Db
unfolding add_role_scope
add_role_scope_sync_group = add_role_scope sync_group

unfoldable pub remove_role_scope_sync_group : Db → ℕ → ℕ → Db
unfolding remove_role_scope
remove_role_scope_sync_group = remove_role_scope sync_group

unfoldable pub get_role_scope_providers : Db → ℕ → List ℕ
unfolding get_role_scope
get_role_scope_providers = get_role_scope provider

unfoldable pub set_role_scope_providers : Db → ℕ → List ℕ → Outcome Db
unfolding set_role_scope
set_role_scope_providers = set_role_scope provider

unfoldable pub add_role_scope_provider : Db → ℕ → ℕ → Outcome Db
unfolding add_role_scope
add_role_scope_provider = add_role_scope provider

unfoldable pub remove_role_scope_provider : Db → ℕ → ℕ → Db
unfolding remove_role_scope
remove_role_scope_provider = remove_role_scope provider
