-- ===== src/Rbac/Roles/Grants.antt =====
-- What a role grants after its permissions were replaced.
use big_bug.Prelude.{
  ℕ, String, ◌≡◌, ◌≢◌, inl, inr, Bool, true, ◌&&◌, List, [], ◌∷◌, map, arith, ◌==◌, number_keys,
  text_keys, Bool-cases, any, all, select, delete_where, any-append, any-select, contains,
  select_congr, unique, any-unique, any_congr, any-map, any-none, any-delete_where,
  any-delete_where_ne, all-contains, ok,
}
use mathlib.Core.List.{Memᴰ}
use big_bug.Identity.{Db, Permission, RolePermission, permissions_of_role}
use big_bug.Rbac.Roles.{_resolve_permissions, replace_permissions}

-- The rows that a list of names asks for.
abbrev pub named : Db → List String → List Permission
named db names = select (λ p. contains names p.name) db.permissions

-- The names that a role grants, as a test.
abbrev pub grants : Db → ℕ → String → Bool
grants db role_id name = any (λ p. p.name == name) (permissions_of_role db role_id)

pub resolve_found :
    (db : Db) (names : List String) {found : List Permission}
    → _resolve_permissions db names ≡ ok found
    → (found ≡ named db names) × (all (λ n. any (λ p. p.name == n) (named db names)) names ≡ true)
unfolding _resolve_permissions
resolve_found db names h = ground arith

named_only :
    (names : List String) (ps : List Permission) (n : String)
    → any (λ p. contains names p.name && p.name == n) ps ≡ true
    → contains names n ≡ true
named_only names [] n h = ground arith
named_only names (p ∷ ps) n h = elim (Bool-cases (contains names p.name && p.name == n)) [
  | inl here ↦ rw (← (text_keys.agrees p.name n).0 (ground arith)) (ground arith)
  | inr there ↦ named_only names ps n (ground arith)
]

pub any-named :
    (db : Db) (names : List String) (n : String)
    → all (λ k. any (λ p. p.name == k) (named db names)) names ≡ true
    → any (λ p. p.name == n) (named db names) ≡ contains names n
any-named db names n found = ground (
  arith,
  all-contains (λ k. any (λ (p : Permission). p.name == k) (named db names)) names n found,
  named_only names db.permissions n,
  any-select (λ (p : Permission). p.name == n) (λ p. contains names p.name) db.permissions,
)

module _ (db : Db) (role_id : ℕ) (c : Permission → Bool) where
  abbrev replaced : Db
  replaced = replace_permissions db role_id (select c db.permissions)

  granted_by_row :
      (p : Permission)
      → unique (λ (q : Permission). q.id) db.permissions ≡ true
      → Memᴰ p db.permissions
      → any (λ rp. rp.role_id == role_id && rp.permission_id == p.id) replaced.role_permissions
        ≡ c p
  unfolding replace_permissions
  granted_by_row p u m =
      let P : RolePermission → Bool = λ rp. rp.role_id == role_id && rp.permission_id == p.id in
      let mk : Permission → RolePermission =
        λ q. record { role_id = role_id; permission_id = q.id } in
      ground (
        arith,
        any-append P (delete_where (λ rp. rp.role_id == role_id) db.role_permissions)
            (map mk (select c db.permissions)),
        any-delete_where P (λ rp. rp.role_id == role_id) db.role_permissions (λ x h. ground arith),
        any-map P mk (select c db.permissions),
        any-select (λ q. P (mk q)) c db.permissions,
        any-unique (λ (q : Permission). q.id) c db.permissions u m,
        any_congr (λ q. c q && P (mk q)) (λ q. c q && q.id == p.id) db.permissions
            (λ q. ground (arith, number_keys.agrees role_id role_id)),
      )

  -- The role has exactly the selected permissions afterwards.
  pub permissions_of_role-replace :
      unique (λ (q : Permission). q.id) db.permissions ≡ true
      → permissions_of_role replaced role_id ≡ select c db.permissions
  unfolding permissions_of_role replace_permissions
  permissions_of_role-replace u = select_congr _ c db.permissions (λ p m. granted_by_row p u m)

  -- Every other role keeps its permissions.
  pub permissions_of_role-replace_ne :
      (other : ℕ)
      → other ≢ role_id
      → permissions_of_role replaced other ≡ permissions_of_role db other
  unfolding permissions_of_role replace_permissions
  permissions_of_role-replace_ne other ne = select_congr _ _ db.permissions λ p m.
      let P : RolePermission → Bool = λ rp. rp.role_id == other && rp.permission_id == p.id in
      let mk : Permission → RolePermission =
        λ q. record { role_id = role_id; permission_id = q.id } in
      ground (
        arith,
        any-append P (delete_where (λ rp. rp.role_id == role_id) db.role_permissions)
            (map mk (select c db.permissions)),
        any-delete_where_ne P (λ rp. rp.role_id == role_id) db.role_permissions
            (λ x h. ground arith),
        any-map P mk (select c db.permissions),
        any-none (λ q. P (mk q)) (select c db.permissions) (λ q. ground arith),
      )
