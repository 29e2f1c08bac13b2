-- ===== src/Rbac/Steps.antt =====
-- The changes of the access-control tables as steps, and what every sequence of them keeps.
pub mod Laws
use big_bug.Prelude.{ℕ, String, ◌≡◌, Option, List, number_keys, text_keys, ok}
use big_bug.Identity.{Db, Role, ScopeKind}
use big_bug.Rbac.Roles.{create_role, update_role, delete_role, assign_permissions_to_role}
use big_bug.Rbac.Scope.{set_role_scope, add_role_scope, remove_role_scope}

-- One call of the service that succeeds.
pub data Step (db : Db) : Db → Type 0 where
  created :
      (name : String) (description : Option String) (names : List String) (user_id : ℕ)
      {role : Role} {db' : Db}
      → create_role db name description names user_id ≡ ok (role, db')
      → Step db db'
  updated :
      (role_id : ℕ) (name description : Option String) (names : Option (List String)) {role : Role}
      {db' : Db}
      → update_role db role_id name description names ≡ ok (role, db')
      → Step db db'
  deleted : (role_id : ℕ) {db' : Db} → delete_role db role_id ≡ ok db' → Step db db'
  assigned :
      (role_id : ℕ) (names : List String) {role : Role} {db' : Db}
      → assign_permissions_to_role db role_id names ≡ ok (role, db')
      → Step db db'
  scope_set :
      (kind : ScopeKind) (role_id : ℕ) (ids : List ℕ) {db' : Db}
      → set_role_scope kind db role_id ids ≡ ok db'
      → Step db db'
  scope_added :
      (kind : ScopeKind) (role_id resource_id : ℕ) {db' : Db}
      → add_role_scope kind db role_id resource_id ≡ ok db'
      → Step db db'
  scope_removed :
      (kind : ScopeKind) (role_id resource_id : ℕ) {db' : Db}
      → db' ≡ remove_role_scope kind db role_id resource_id
      → Step db db'

pub data Reach (db : Db) : Db → Type 0 where
  here : Reach db db
  next : {mid last : Db} → Reach db mid → Step mid last → Reach db last
