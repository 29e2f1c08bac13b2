-- ===== src/Rbac/Access/Laws.antt =====
-- What the access check decides, for the resource types that the scopes know and for all others.
use text.Mathlib.TextLemmas.{append_cancel_right}
use big_bug.Prelude.{
  ℕ, String, ◌≡◌, refl, inl, inr, Bool, true, false, ◌&&◌, ◌||◌, Option, none, some, List, [], ◌∷◌,
  map, arith, ◌==◌, number_keys, text_keys, is_some, Bool-cases, any, select, contains,
  contains-append, ok,
}
use big_bug.Identity.{
  Db, Role, UserRole, RoleScope, ScopeKind, source_group, credential, sync_group, provider,
  gitlab_project, same_kind, get_user, find_role, roles_of_user, scopes_of_role,
}
use big_bug.Rbac.Access.{is_admin_user, ids_of_role, collect_ids, check_scope_access, str_append}

-- The spelling of the resource types in the calls of `require_scope_permission`.
abbrev pub type_name : ScopeKind → String
type_name source_group = "source_group"
type_name credential = "credential"
type_name sync_group = "sync_group"
type_name provider = "provider"
type_name gitlab_project = "gitlab_project"

-- The reference: a role of the user has a scope row for the resource.
abbrev pub role_scoped : Db → ScopeKind → ℕ → Option Role → Bool
role_scoped db kind resource_id none = false
role_scoped db kind resource_id (some role) =
    any (λ s. same_kind s.kind kind && (s.role_id == role.id && s.resource_id == resource_id))
      db.role_scopes

abbrev pub scoped : Db → ScopeKind → ℕ → ℕ → Bool
scoped db kind user_id resource_id =
    any (λ ur. role_scoped db kind resource_id (find_role db ur.role_id)) (roles_of_user db user_id)

contains-scopes :
    (kind : ScopeKind) (role_id resource_id : ℕ) (rows : List RoleScope)
    → contains
        (map
          (λ s. s.resource_id)
          (select (λ s. same_kind s.kind kind && s.role_id == role_id) rows))
        resource_id
      ≡ any
          (λ s. same_kind s.kind kind && (s.role_id == role_id && s.resource_id == resource_id))
          rows
contains-scopes kind role_id resource_id [] = refl
contains-scopes kind role_id resource_id (s ∷ rows) =
    ground (arith, contains-scopes kind role_id resource_id rows)

contains-ids_of_role :
    (db : Db) (kind : ScopeKind) (resource_id : ℕ) (role : Option Role)
    → contains (ids_of_role db kind role) resource_id ≡ role_scoped db kind resource_id role
unfolding scopes_of_role
contains-ids_of_role db kind resource_id none = refl
contains-ids_of_role db kind resource_id (some role) =
    contains-scopes kind role.id resource_id db.role_scopes

contains-collect_ids :
    (db : Db) (kind : ScopeKind) (resource_id : ℕ) (urs : List UserRole)
    → contains (collect_ids db kind urs) resource_id
      ≡ any (λ ur. role_scoped db kind resource_id (find_role db ur.role_id)) urs
unfolding collect_ids
contains-collect_ids db kind resource_id [] = refl
contains-collect_ids db kind resource_id (ur ∷ urs) =
    let role = find_role db ur.role_id in
    ground (
      arith,
      contains-append (ids_of_role db kind role) (collect_ids db kind urs) resource_id,
      contains-ids_of_role db kind resource_id role,
      contains-collect_ids db kind resource_id urs,
    )

-- The check of an existing user for a resource of one of the five scoped types holds exactly when
-- the user has an admin role, or some role of the user has a scope row of that type for the resource.
pub check_scope_access_exact :
    (db : Db) (user_id : ℕ) (kind : ScopeKind) (resource_id : ℕ)
    → is_some (get_user db user_id) ≡ true
    → check_scope_access db user_id (type_name kind) resource_id
      ≡ ok (is_admin_user db (roles_of_user db user_id) || scoped db kind user_id resource_id)
unfolding check_scope_access
check_scope_access_exact db user_id source_group resource_id there =
    ground (arith, contains-collect_ids db source_group resource_id (roles_of_user db user_id))
check_scope_access_exact db user_id credential resource_id there =
    ground (arith, contains-collect_ids db credential resource_id (roles_of_user db user_id))
check_scope_access_exact db user_id sync_group resource_id there =
    ground (arith, contains-collect_ids db sync_group resource_id (roles_of_user db user_id))
check_scope_access_exact db user_id provider resource_id there =
    ground (arith, contains-collect_ids db provider resource_id (roles_of_user db user_id))
check_scope_access_exact db user_id gitlab_project resource_id there =
    ground (arith, contains-collect_ids db gitlab_project resource_id (roles_of_user db user_id))

-- The six types whose ids the effective scope holds.
abbrev pub is_known_type : String → Bool
is_known_type t =
    t == "source_group"
    || (t == "credential"
        || (t == "sync_group" || (t == "team" || (t == "provider" || t == "gitlab_project"))))

other_key :
    (t name : String)
    → (t == name) ≡ false
    → (str_append t "_ids" == str_append name "_ids") ≡ false
other_key t name ne = elim (Bool-cases (str_append t "_ids" == str_append name "_ids")) [
  | inl same ↦
      let e : t ≡ name =
        append_cancel_right t name "_ids"
          ((text_keys.agrees (str_append t "_ids") (str_append name "_ids")).0 same) in
      cc (ne, (text_keys.agrees t name).1 e)
  | inr different ↦ different
]

-- A resource type that the effective scope does not hold is granted to every existing user, with
-- or without an admin role, for every resource.
pub check_scope_access_unknown :
    (db : Db) (user_id : ℕ) (t : String) (resource_id : ℕ)
    → is_some (get_user db user_id) ≡ true
    → is_known_type t ≡ false
    → check_scope_access db user_id t resource_id ≡ ok true
unfolding check_scope_access
check_scope_access_unknown db user_id t resource_id there unknown = ground (
  arith,
  other_key t "source_group",
  other_key t "credential",
  other_key t "sync_group",
  other_key t "team",
  other_key t "provider",
  other_key t "gitlab_project",
)
