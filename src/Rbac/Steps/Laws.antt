-- ===== src/Rbac/Steps/Laws.antt =====
-- What every sequence of changes of roles and scopes keeps.
use big_bug.Prelude.{
  ℕ, String, ◌≡◌, refl, ap, ◌∙◌, true, false, not, ◌||◌, Option, none, some, List, [], ◌∷◌, arith,
  ◌==◌, number_keys, text_keys, any, all, select, all_mono, is_some-find, select-append,
  select-update_where, select-delete_where, only_row,
}
use mathlib.Core.List.{append-nil}
use big_bug.Identity.{Db, Role, find_role}
use big_bug.Rbac.Consistent.{IsConsistent, refers, drawn_below}
use big_bug.Rbac.Steps.{
  Step, created, updated, deleted, assigned, scope_set, scope_added, scope_removed, Reach, here,
  next,
}
use big_bug.Rbac.Roles.{replace_permissions, remove_role}
use big_bug.Rbac.Roles.Outcomes.{
  Created, create_role-Created, with_role, Updated, update_role-Updated, with_names,
  roles-with_names, Deleted, delete_role-Deleted, assign-Assigned, next-with_names,
}
use big_bug.Rbac.Roles.Keeps.{
  replace_permissions-IsConsistent, grown-IsConsistent, refers-grown_self, remove_role-IsConsistent,
  rewritten-IsConsistent,
}
use big_bug.Rbac.Scope.{remove_role_scope}
use big_bug.Rbac.Scope.Keeps.{
  set_role_scope-IsConsistent, add_role_scope-IsConsistent, remove_role_scope-IsConsistent,
}

-- The built-in roles: seeded, and not custom.
abbrev pub builtin_roles : Db → List Role
builtin_roles db = select (λ r. not r.is_custom) db.roles

refers_of_find :
    (db : Db) (id : ℕ) {role : Role} → find_role db id ≡ some role → refers db id ≡ true
unfolding find_role
refers_of_find db id h = ground (arith, is_some-find (λ (r : Role). r.id == id) db.roles)

-- A step from consistent tables: the tables stay consistent and the built-in roles stay.
abbrev pub Kept : Db → Db → Type 0
Kept db db' = IsConsistent db' × (builtin_roles db' ≡ builtin_roles db)

create-Kept :
    (db db' : Db) (name : String) (names : List String) (role : Role)
    → Created db name names role db'
    → IsConsistent db
    → Kept db db'
unfolding replace_permissions
create-Kept db db' name names role m c =
    let free : any (λ r. r.name == role.name) db.roles ≡ false = rw m.name_given m.free in
    rw m.tables (
      replace_permissions-IsConsistent (with_role db role) role.id _
          (refers-grown_self db role m.id_drawn) (grown-IsConsistent db role m.id_drawn free c),
      ground (
        arith,
        m.custom,
        select-append (λ (r : Role). not r.is_custom) db.roles (role ∷ []),
        append-nil (builtin_roles db),
      ),
    )

with_names-Kept :
    (db : Db) (role_id : ℕ) (names : Option (List String))
    → refers db role_id ≡ true
    → IsConsistent db
    → IsConsistent (with_names db role_id names)
with_names-Kept db role_id none known c = c
with_names-Kept db role_id (some names) known c =
    replace_permissions-IsConsistent db role_id _ known c

-- Under a unique id, the row that the lookup found is the only one of its id: all are custom.
rows_custom :
    (db : Db) (role_id : ℕ) {old : Role}
    → find_role db role_id ≡ some old
    → old.is_custom ≡ true
    → IsConsistent db
    → all (λ r. not (r.id == role_id) || r.is_custom) db.roles ≡ true
unfolding find_role
rows_custom db role_id found custom c =
    only_row (λ (r : Role). r.id) role_id (λ r. r.is_custom) db.roles c.ids_unique found custom

update-Kept :
    (db db' : Db) (role_id : ℕ) (names : Option (List String)) (role : Role)
    → Updated db role_id names role db'
    → IsConsistent db
    → Kept db db'
update-Kept db db' role_id names role m c =
    let mid = with_names db role_id names in
    let same = roles-with_names db role_id names in
    let known = refers_of_find db role_id m.found in
    rw m.tables (
      rewritten-IsConsistent mid role_id role m.same_id (rw same m.free)
          (rw next-with_names (drawn_below _ role_id db.roles c.ids_drawn known))
          (with_names-Kept db role_id names known c),
      rw same (
          select-update_where (λ (r : Role). not r.is_custom) (λ r. r.id == role_id) (λ _. role)
            db.roles
            (all_mono (λ (r : Role). not (r.id == role_id) || r.is_custom) _ db.roles
              (λ r e. ground (arith, m.still_custom)) (rows_custom db role_id m.found m.custom c))),
    )

delete-Kept : (db db' : Db) (role_id : ℕ) → Deleted db role_id db' → IsConsistent db → Kept db db'
unfolding remove_role
delete-Kept db db' role_id m c = rw m.tables (
  remove_role-IsConsistent db role_id c,
  select-delete_where (λ (r : Role). not r.is_custom) (λ r. r.id == role_id) db.roles
      (all_mono (λ (r : Role). not (r.id == role_id) || r.is_custom) _ db.roles
        (λ r e. ground arith) (rows_custom db role_id m.found m.custom c)),
)

scope-Kept : (db db' : Db) → (IsConsistent db') × (db'.roles ≡ db.roles) → Kept db db'
scope-Kept db db' (c, same) = (c, ap (select (λ r. not r.is_custom)) same)

Step-Kept : {db db' : Db} → Step db db' → IsConsistent db → Kept db db'
Step-Kept {db} {db'} (created name description names user_id {role = role} e) c =
    create-Kept db db' name names role (create_role-Created db name description names user_id e) c
Step-Kept {db} {db'} (updated role_id name description names {role = role} e) c =
    update-Kept db db' role_id names role (update_role-Updated db role_id name description names e)
      c
Step-Kept {db} {db'} (deleted role_id e) c =
    delete-Kept db db' role_id (delete_role-Deleted db role_id e) c
Step-Kept {db} {db'} (assigned role_id names {role = role} e) c =
    let m = assign-Assigned db role_id names e in
    rw m.tables (
      replace_permissions-IsConsistent db role_id _ (refers_of_find db role_id m.found) c,
      unfold replace_permissions in refl,
    )
Step-Kept {db} {db'} (scope_set kind role_id ids e) c =
    scope-Kept db db' (set_role_scope-IsConsistent kind db role_id ids e c)
Step-Kept {db} {db'} (scope_added kind role_id id e) c =
    scope-Kept db db' (add_role_scope-IsConsistent kind db role_id id e c)
Step-Kept {db} {db'} (scope_removed kind role_id id e) c = rw e (
    scope-Kept db _
      (remove_role_scope-IsConsistent kind db role_id id c, unfold remove_role_scope in refl))

-- From consistent tables, every sequence of successful role and scope changes leaves the tables
-- consistent (unique role ids and names, ids below the sequence, no dangling association row) and
-- the rows of the built-in roles exactly as they were, in the same order. Their permissions and
-- scopes are rows of other tables and may change.
pub Reach-Kept :
    {db db' : Db}
    → Reach db db'
    → IsConsistent db
    → (IsConsistent db') × (builtin_roles db' ≡ builtin_roles db)
Reach-Kept here c = (c, refl)
Reach-Kept (next r s) c =
    let (c', same) = Reach-Kept r c in let (c'', same') = Step-Kept s c' in (c'', same' ∙ same)
