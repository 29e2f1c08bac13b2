-- ===== src/Rbac/Roles/Outcomes.antt =====
-- What a successful change of roles has done, as an equation for the new tables, and which tests
-- it has passed.
use big_bug.Prelude.{
  ℕ, ◌+◌, String, ◌≡◌, refl, Bool, true, false, not, ◌&&◌, Option, none, some, List, [], ◌∷◌, ◌++◌,
  arith, if◌then◌else◌, ◌==◌, number_keys, text_keys, any, all, find_sound, update_where, ◌>>=◌, ok,
  err,
}
use big_bug.Identity.{Db, Role, find_role}
use big_bug.Rbac.{Outcome, role_not_found, permission_not_found}
use big_bug.Rbac.Roles.{
  replace_permissions, create_role, get_role_by_id, require_role, update_permissions, update_role,
  _resolve_permissions, delete_role, assign_permissions_to_role, remove_role,
}
use big_bug.Rbac.Roles.Grants.{named}
use big_bug.Rbac.Roles.Counts.{get_role_by_id_exact}

abbrev pub all_known : Db → List String → Bool
all_known db names = all (λ n. any (λ p. p.name == n) (named db names)) names

pub resolve_lem :
    (db : Db) (names : List String)
    → _resolve_permissions db names
      ≡ (if all_known db names then ok (named db names) else err permission_not_found)
unfolding _resolve_permissions
resolve_lem db names = ground arith

abbrev pub with_role : Db → Role → Db
with_role db role = record db { roles = db.roles ++ role ∷ []; next_role_id = db.next_role_id + 1 }

pub record Created (db : Db) (name : String) (names : List String) (role : Role) (db' : Db)
    : Type 0 where
  pub known : all_known db names ≡ true
  pub free : any (λ r. r.name == name) db.roles ≡ false
  pub id_drawn : role.id ≡ db.next_role_id
  pub name_given : role.name ≡ name
  pub custom : role.is_custom ≡ true
  pub tables : db' ≡ replace_permissions (with_role db role) role.id (named db names)

pub create_role-Created :
    (db : Db) (name : String) (description : Option String) (names : List String) (user_id : ℕ)
    {role : Role} {db' : Db}
    → create_role db name description names user_id ≡ ok (role, db')
    → Created db name names role db'
unfolding create_role
create_role-Created db name description names user_id h =
    let r = resolve_lem db names in
    record {
      known = ground (arith, r);
      free = ground (arith, r);
      id_drawn = ground (arith, r);
      name_given = ground (arith, r);
      custom = ground (arith, r);
      tables = ground (arith, r);
    }

-- `require_role` of the lookup finds the role of that id, or refuses.
abbrev pub required : Option Role → Outcome Role
required none = err role_not_found
required (some role) = ok role

pub require_role_lem :
    (db : Db) (role_id : ℕ)
    → require_role (get_role_by_id db role_id) ≡ required (find_role db role_id)
unfolding require_role
require_role_lem db role_id = rw get_role_by_id_exact (ground arith)

pub id_of_find_role :
    (db : Db) (role_id : ℕ) {role : Role} → find_role db role_id ≡ some role → role.id ≡ role_id
unfolding find_role
id_of_find_role db role_id {role} h =
    (number_keys.agrees role.id role_id).0 (find_sound (λ (r : Role). r.id == role_id) db.roles h)

-- The tables after the permissions of an update were written.
abbrev pub with_names : Db → ℕ → Option (List String) → Db
with_names db role_id none = db
with_names db role_id (some names) = replace_permissions db role_id (named db names)

abbrev pub names_known : Db → Option (List String) → Bool
names_known db none = true
names_known db (some names) = all_known db names

pub update_permissions_lem :
    (db : Db) (role_id : ℕ) (names : Option (List String))
    → update_permissions db role_id names ≡ (
        if names_known db names then ok (with_names db role_id names) else err permission_not_found)
unfolding update_permissions
update_permissions_lem db role_id none = refl
update_permissions_lem db role_id (some names) = ground (arith, resolve_lem db names)

pub roles-with_names :
    (db : Db) (role_id : ℕ) (names : Option (List String))
    → (with_names db role_id names).roles ≡ db.roles
unfolding replace_permissions
roles-with_names db role_id none = refl
roles-with_names db role_id (some names) = refl

pub next-with_names :
    (db : Db) (role_id : ℕ) (names : Option (List String))
    → (with_names db role_id names).next_role_id ≡ db.next_role_id
unfolding replace_permissions
next-with_names db role_id none = refl
next-with_names db role_id (some names) = refl

pub record Updated (db : Db) (role_id : ℕ) (names : Option (List String)) (role : Role) (db' : Db)
    : Type 0 where
  pub old : Role
  pub found : find_role db role_id ≡ some old
  pub custom : old.is_custom ≡ true
  pub still_custom : role.is_custom ≡ true
  pub same_id : role.id ≡ role_id
  pub known : names_known db names ≡ true
  pub free : any (λ r. not (r.id == role_id) && r.name == role.name) db.roles ≡ false
  pub tables : db' ≡ record (with_names db role_id names) {
    roles = update_where (λ r. r.id == role_id) (λ _. role) (with_names db role_id names).roles;
  }

-- What starts with a required lookup succeeds only if there is a role.
found_of_ok :
    {A : Type 0} (f : Role → Outcome A) (db : Db) (role_id : ℕ) {a : A}
    → (require_role (get_role_by_id db role_id) >>= f) ≡ ok a
    → (role : Role) × (find_role db role_id ≡ some role)
found_of_ok f db role_id h = ground (arith, require_role_lem db role_id)

-- The tail of `update_role`, behind the lookup.
pub update_role-Updated :
    (db : Db) (role_id : ℕ) (name description : Option String) (names : Option (List String))
    {role : Role} {db' : Db}
    → update_role db role_id name description names ≡ ok (role, db')
    → Updated db role_id names role db'
unfolding update_role
update_role-Updated db role_id name description names {role} {db'} h =
    let r = require_role_lem db role_id in
    let (old, e) = found_of_ok _ db role_id h in
    let i = id_of_find_role db role_id e in
    let u = update_permissions_lem db role_id names in
    record {
      old = old;
      found = e;
      custom = ground (arith, r, e);
      still_custom = ground (arith, r, e, u);
      same_id = ground (arith, r, e, i, u);
      known = ground (arith, r, e, u);
      free = ground (arith, r, e, u);
      tables = ground (arith, r, e, u);
    }

pub record Deleted (db : Db) (role_id : ℕ) (db' : Db) : Type 0 where
  pub old : Role
  pub found : find_role db role_id ≡ some old
  pub custom : old.is_custom ≡ true
  pub unused : any (λ ur. ur.role_id == role_id) db.user_roles ≡ false
  pub tables : db' ≡ remove_role db role_id

pub delete_role-Deleted :
    (db : Db) (role_id : ℕ) {db' : Db} → delete_role db role_id ≡ ok db' → Deleted db role_id db'
unfolding delete_role
delete_role-Deleted db role_id {db'} h =
    let r = require_role_lem db role_id in
    let (old, e) = found_of_ok _ db role_id h in
    record {
      old = old;
      found = e;
      custom = ground (arith, r, e);
      unused = ground (arith, r, e);
      tables = ground (arith, r, e);
    }

pub record Assigned (db : Db) (role_id : ℕ) (names : List String) (role : Role) (db' : Db)
    : Type 0 where
  pub found : find_role db role_id ≡ some role
  pub known : all_known db names ≡ true
  pub tables : db' ≡ replace_permissions db role_id (named db names)

pub assign-Assigned :
    (db : Db) (role_id : ℕ) (names : List String) {role : Role} {db' : Db}
    → assign_permissions_to_role db role_id names ≡ ok (role, db')
    → Assigned db role_id names role db'
unfolding assign_permissions_to_role
assign-Assigned db role_id names {role} {db'} h =
    let r = require_role_lem db role_id in
    let (old, e) = found_of_ok _ db role_id h in
    let k = resolve_lem db names in
    record {
      found = ground (arith, r, e, k);
      known = ground (arith, r, e, k);
      tables = ground (arith, r, e, k);
    }
