-- ===== src/Rbac/Roles/Counts.antt =====
-- The grouped count of `_get_roles_with_users_count` against a count for each role.
use big_bug.Prelude.{
  ℕ, ◌+◌, ◌≡◌, refl, ap, ◌∙◌, Option, none, some, List, [], ◌∷◌, arith, if◌then◌else◌, ◌==◌,
  number_keys, text_keys, length, select, contains, first, first-select,
}
use big_bug.Identity.{Db, Role, UserRole, find_role, permissions_of_role}
use big_bug.Rbac.Roles.{
  Counts, RoleView, count_one, count_roles, get_count, role_ids, _get_roles_with_users_count,
  get_role_by_id,
}

-- The reference: how many associations name the role.
abbrev pub assigned : ℕ → List UserRole → ℕ
assigned id urs = length (select (λ ur. ur.role_id == id) urs)

get_count-count_one :
    (id k : ℕ) (counts : Counts)
    → get_count id (count_one k counts)
      ≡ (if k == id then get_count id counts + 1 else get_count id counts)
unfolding count_one
get_count-count_one id k [] = ground arith
get_count-count_one id k ((key, n) ∷ counts) = ground (arith, get_count-count_one id k counts)

get_count-count_roles :
    (id : ℕ) (ids : List ℕ) (urs : List UserRole)
    → get_count id (count_roles ids urs) ≡ (if contains ids id then assigned id urs else 0)
unfolding count_roles
get_count-count_roles id ids [] = ground arith
get_count-count_roles id ids (ur ∷ urs) = ground (
  arith,
  get_count-count_roles id ids urs,
  get_count-count_one id ur.role_id (count_roles ids urs),
)

abbrev pub view_of : Db → Option Role → Option RoleView
view_of db none = none
view_of db (some role) = some (record {
  role = role;
  permissions = permissions_of_role db role.id;
  users_count = assigned role.id db.user_roles;
})

first-annotate :
    (db : Db) (roles : List Role)
    → first (_get_roles_with_users_count db roles) ≡ view_of db (first roles)
unfolding _get_roles_with_users_count
first-annotate db [] = refl
first-annotate db (r ∷ rs) =
    ground (arith, get_count-count_roles r.id (role_ids (r ∷ rs)) db.user_roles)

-- `get_role_by_id` returns the role of that id with its permissions and the exact number of its
-- user associations, and nothing when no role has the id.
pub get_role_by_id_exact :
    (db : Db) (role_id : ℕ) → get_role_by_id db role_id ≡ view_of db (find_role db role_id)
unfolding get_role_by_id find_role
get_role_by_id_exact db role_id =
    first-annotate db (select (λ r. r.id == role_id) db.roles)
    ∙ ap (view_of db) (first-select (λ (r : Role). r.id == role_id) db.roles)
