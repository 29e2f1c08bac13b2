-- ===== src/Rbac/Consistent.antt =====
-- The keys of the access-control tables: what the database and the operations on roles and scopes
-- keep between them.
use big_bug.Prelude.{
  ℕ, ◌<◌, ◌≡◌, refl, Bool, true, false, ◌&&◌, List, [], ◌∷◌, arith, ltb, ◌==◌, number_keys,
  text_keys, any, all, contains, unique,
}
use big_bug.Identity.{Db, Role, RolePermission, RoleScope}

abbrev pub refers : Db → ℕ → Bool
refers db role_id = any (λ r. r.id == role_id) db.roles

abbrev pub permission_refers : Db → RolePermission → Bool
permission_refers db rp = refers db rp.role_id && any (λ p. p.id == rp.permission_id) db.permissions

abbrev pub scope_refers : Db → RoleScope → Bool
scope_refers db s = refers db s.role_id && contains (db.resources s.kind) s.resource_id

-- Role ids and names are unique, every role id was drawn from the sequence, and every association
-- row refers to rows that exist.
pub record IsConsistent (db : Db) : Type 0 where
  pub ids_unique : unique (λ (r : Role). r.id) db.roles ≡ true
  pub names_unique : unique (λ (r : Role). r.name) db.roles ≡ true
  pub ids_drawn : all (λ r. ltb r.id db.next_role_id) db.roles ≡ true
  pub user_roles_refer : all (λ ur. refers db ur.role_id) db.user_roles ≡ true
  pub role_permissions_refer : all (permission_refers db) db.role_permissions ≡ true
  pub role_scopes_refer : all (scope_refers db) db.role_scopes ≡ true

pub undrawn :
    (bound : ℕ) (roles : List Role)
    → all (λ r. ltb r.id bound) roles ≡ true
    → any (λ r. r.id == bound) roles ≡ false
undrawn bound [] h = refl
undrawn bound (r ∷ roles) h = ground (arith, undrawn bound roles)

pub drawn_below :
    (bound id : ℕ) (roles : List Role)
    → all (λ r. ltb r.id bound) roles ≡ true
    → any (λ r. r.id == id) roles ≡ true
    → id < bound
drawn_below bound id [] h m = ground arith
drawn_below bound id (r ∷ roles) h m = ground (arith, drawn_below bound id roles)
