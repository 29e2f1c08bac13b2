-- ===== src/Rbac/Grants.antt =====
-- The grants of a role after `create_role`, `update_role` and `assign_permissions_to_role`.
use big_bug.Prelude.{
  ℕ, String, ◌≡◌, refl, ap, ◌∙◌, ◌≢◌, true, Option, List, ◌==◌, number_keys, text_keys, any,
  contains, unique, ok,
}
use big_bug.Identity.{Db, Role, Permission, permissions_of_role}
use big_bug.Rbac.Roles.{create_role, assign_permissions_to_role, replace_permissions}
use big_bug.Rbac.Roles.Grants.{
  grants, named, any-named, permissions_of_role-replace, permissions_of_role-replace_ne,
}
use big_bug.Rbac.Roles.Outcomes.{create_role-Created, with_role, assign-Assigned, all_known}

-- The role grants the given names and no other, and all other roles grant what they did.
abbrev pub GrantsExactly : Db → Db → ℕ → List String → Type 0
GrantsExactly db db' role_id names =
    ((name : String) → grants db' role_id name ≡ contains names name)
    × ((other : ℕ) → other ≢ role_id → permissions_of_role db' other ≡ permissions_of_role db other)

replaced-GrantsExactly :
    (db : Db) (role_id : ℕ) (names : List String)
    → unique (λ (p : Permission). p.id) db.permissions ≡ true
    → all_known db names ≡ true
    → GrantsExactly db (replace_permissions db role_id (named db names)) role_id names
replaced-GrantsExactly db role_id names u known = (
  λ name.
      ap (any (λ p. p.name == name)) (permissions_of_role-replace db role_id _ u)
      ∙ any-named db names name known,
  λ other ne. permissions_of_role-replace_ne db role_id _ other ne,
)

-- A created role grants exactly the names that it was created with, is custom, has the id that the
-- sequence gave, and leaves the grants of every other role alone.
pub create_role-grants :
    (db : Db) (name : String) (description : Option String) (names : List String) (user_id : ℕ)
    {role : Role} {db' : Db}
    → unique (λ (p : Permission). p.id) db.permissions ≡ true
    → create_role db name description names user_id ≡ ok (role, db')
    → GrantsExactly db db' role.id names × (role.is_custom ≡ true) × (role.id ≡ db.next_role_id)
create_role-grants db name description names user_id {role} u h =
    let m = create_role-Created db name description names user_id h in
    (
      rw m.tables (
          let (exactly, others) =
            replaced-GrantsExactly (with_role db role) role.id names u m.known in
          (exactly, λ other ne. others other ne ∙ (unfold permissions_of_role in refl))),
      m.custom,
      m.id_drawn,
    )

-- After `assign_permissions_to_role` the role, built-in or custom, grants exactly the given names,
-- and every other role what it granted before.
pub assign-grants :
    (db : Db) (role_id : ℕ) (names : List String) {role : Role} {db' : Db}
    → unique (λ (p : Permission). p.id) db.permissions ≡ true
    → assign_permissions_to_role db role_id names ≡ ok (role, db')
    → GrantsExactly db db' role_id names
assign-grants db role_id names u h =
    let m = assign-Assigned db role_id names h in
    rw m.tables (replaced-GrantsExactly db role_id names u m.known)
