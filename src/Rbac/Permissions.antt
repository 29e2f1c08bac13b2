-- ===== src/Rbac/Permissions.antt =====
-- Permission queries of backend/app/services/rbac_service.py.
pub mod Laws
use big_bug.Prelude.{
  ℕ, zero, suc, ◌+◌, ◌-◌, ◌*◌, ◌≤◌, ◌<◌, String, ◌≡◌, refl, sym, ap, ◌∙◌, subst, ◌≢◌, ◌↔◌, ◌⊎◌, inl,
  inr, Bool, true, false, not, ◌&&◌, ◌||◌, Option, none, some, List, [], ◌∷◌, ◌++◌, map, arith, ltb,
  leb, if◌then◌else◌, same_number_iff, HasEquality, ◌==◌, number_keys, text_keys, is_some,
  Bool-cases, Option-cases, length, any, all, select, delete_where, find, any-append, any-select,
  all-append, all-select, all_mono, find_sound, find-none, contains, contains-append, distinct,
  Result, ◌>>=◌, ◌>>◌, guard, ok, err,
}
use big_bug.Identity.{
  Db, User, Role, UserRole, Permission, get_user, find_role, roles_of_user, permissions_of_role,
}

-- One pass of the inner loop: a name that `seen` lacks is added to both.
abbrev Collected : Type 0
Collected = List String × List String

collect_name : Collected → Permission → Collected
collect_name (names, seen) p =
    if contains seen p.name then (names, seen) else (names ++ p.name ∷ [], p.name ∷ seen)

collect_role : Collected → List Permission → Collected
unfolding collect_name
collect_role acc [] = acc
collect_role acc (p ∷ ps) = collect_role (collect_name acc p) ps

-- `user_role.role is None` skips the association
collect_found : Db → Collected → Option Role → Collected
unfolding collect_role
collect_found db acc none = acc
collect_found db acc (some role) = collect_role acc (permissions_of_role db role.id)

collect_all : Db → Collected → List UserRole → Collected
unfolding collect_found
collect_all db acc [] = acc
collect_all db acc (ur ∷ urs) = collect_all db (collect_found db acc (find_role db ur.role_id)) urs

names_for : Db → Option User → List String
unfolding collect_all
names_for db none = []
names_for db (some user) = (collect_all db ([], []) (roles_of_user db user.id)).0

unfoldable pub get_user_permissions : Db → ℕ → List String
unfolding names_for
get_user_permissions db user_id = names_for db (get_user db user_id)

-- What the query promises: some role of the user has a permission of that name.
abbrev pub role_has_permission : Db → String → Option Role → Bool
role_has_permission db name none = false
role_has_permission db name (some role) = any (λ p. p.name == name) (permissions_of_role db role.id)

unfoldable pub holds_permission : Db → ℕ → String → Bool
holds_permission db user_id name =
    is_some (get_user db user_id)
    && any (λ ur. role_has_permission db name (find_role db ur.role_id)) (roles_of_user db user_id)
