-- ===== src/Rbac/Roles/Keeps.antt =====
-- Each change of roles keeps the tables consistent.
use big_bug.Prelude.{
  ℕ, ◌+◌, ◌<◌, String, ◌≡◌, refl, sym, ap, ◌∙◌, subst, ◌⊎◌, inl, inr, Bool, true, false, not, ◌&&◌,
  List, [], ◌∷◌, ◌++◌, map, arith, ltb, ◌==◌, number_keys, text_keys, Bool-cases, any, all, select,
  delete_where, any-append, all-append, all-select, all_mono, update_where, mem-any, unique,
  unique-append_one, unique-select, any-delete_where_ne, all_mem, all-map, all-update_where,
}
use big_bug.Identity.{Db, Role, Permission, RolePermission}
use big_bug.Rbac.Consistent.{IsConsistent, refers, permission_refers, scope_refers, undrawn}
use big_bug.Rbac.Roles.{replace_permissions, remove_role}

-- A row of the permission table is found by its id among the rows selected from that table.
all-any_self :
    (c : Permission → Bool) (ps : List Permission)
    → all (λ p. any (λ q. q.id == p.id) ps) (select c ps) ≡ true
all-any_self c ps =
    all-select (λ p. any (λ q. q.id == p.id) ps) c ps
      (all_mem (λ p. any (λ q. q.id == p.id) ps) ps
        λ p m. mem-any (λ q. q.id == p.id) ps m ((number_keys.agrees p.id p.id).1 refl))

module _ (db : Db) (role_id : ℕ) (c : Permission → Bool) (known : refers db role_id ≡ true) where
  rows_refer :
      all (permission_refers db) db.role_permissions ≡ true
      → all
          (permission_refers db)
          (replace_permissions db role_id (select c db.permissions)).role_permissions
        ≡ true
  unfolding replace_permissions
  rows_refer h =
      let mk : Permission → RolePermission =
        λ p. record { role_id = role_id; permission_id = p.id } in
      let D : RolePermission → Bool = λ rp. rp.role_id == role_id in
      ground (
        arith,
        all-append (permission_refers db) (delete_where D db.role_permissions)
            (map mk (select c db.permissions)),
        all-select (permission_refers db) (λ rp. not (D rp)) db.role_permissions,
        all-map (permission_refers db) mk (select c db.permissions),
        all_mono (λ p. any (λ q. q.id == p.id) db.permissions) (λ p. permission_refers db (mk p))
            (select c db.permissions) (λ p e. ground arith) (all-any_self c db.permissions),
      )

  pub replace_permissions-IsConsistent :
      IsConsistent db → IsConsistent (replace_permissions db role_id (select c db.permissions))
  unfolding replace_permissions
  replace_permissions-IsConsistent h = record {
    ids_unique = h.ids_unique;
    names_unique = h.names_unique;
    ids_drawn = h.ids_drawn;
    user_roles_refer = h.user_roles_refer;
    role_permissions_refer = rows_refer h.role_permissions_refer;
    role_scopes_refer = h.role_scopes_refer;
  }

-- A role that is appended under the next id of the sequence, with a name that is free.
module _ (db : Db) (role : Role) (drawn : role.id ≡ db.next_role_id) where
  abbrev grown : Db
  grown = record db { roles = db.roles ++ role ∷ []; next_role_id = db.next_role_id + 1 }

  refers-grown : (id : ℕ) → refers db id ≡ true → refers grown id ≡ true
  refers-grown id h = ground (arith, any-append (λ (r : Role). r.id == id) db.roles (role ∷ []))

  pub refers-grown_self : refers grown role.id ≡ true
  refers-grown_self = ground (
    arith,
    any-append (λ (r : Role). r.id == role.id) db.roles (role ∷ []),
    (number_keys.agrees role.id role.id).1 refl,
  )

  drawn_more :
      all (λ r. ltb r.id db.next_role_id) db.roles ≡ true
      → all (λ r. ltb r.id (db.next_role_id + 1)) grown.roles ≡ true
  drawn_more h = ground (
    arith,
    all-append (λ (r : Role). ltb r.id (db.next_role_id + 1)) db.roles (role ∷ []),
    all_mono (λ (r : Role). ltb r.id db.next_role_id) (λ r. ltb r.id (db.next_role_id + 1)) db.roles
        (λ r e. ground arith) h,
  )

  pub grown-IsConsistent :
      any (λ r. r.name == role.name) db.roles ≡ false → IsConsistent db → IsConsistent grown
  grown-IsConsistent free h = record {
    ids_unique =
        unique-append_one (λ (r : Role). r.id) db.roles role h.ids_unique
          (rw drawn (undrawn db.next_role_id db.roles h.ids_drawn));
    names_unique = unique-append_one (λ (r : Role). r.name) db.roles role h.names_unique free;
    ids_drawn = drawn_more h.ids_drawn;
    user_roles_refer =
        all_mono (λ ur. refers db ur.role_id) (λ ur. refers grown ur.role_id) db.user_roles
          (λ ur. refers-grown ur.role_id) h.user_roles_refer;
    role_permissions_refer =
        all_mono (permission_refers db) (permission_refers grown) db.role_permissions
          (λ rp e. ground (arith, refers-grown rp.role_id)) h.role_permissions_refer;
    role_scopes_refer =
        all_mono (scope_refers db) (scope_refers grown) db.role_scopes
          (λ s e. ground (arith, refers-grown s.role_id)) h.role_scopes_refer;
  }

-- Deleting a role with the rows that hang on it.
module _ (db : Db) (role_id : ℕ) where
  abbrev other : Role → Bool
  other r = not (r.id == role_id)

  still_refers :
      (id : ℕ) → (id == role_id) ≡ false → refers db id ≡ refers (remove_role db role_id) id
  unfolding remove_role
  still_refers id ne = sym (
      any-delete_where_ne (λ (r : Role). r.id == id) (λ r. r.id == role_id) db.roles
        (λ r e. ground arith))

  rows_still :
      {A : Type 0} (p q : A → Bool) (key : A → ℕ) (xs : List A)
      → ((x : A) → p x ≡ true → (key x == role_id) ≡ false → q x ≡ true)
      → all p xs ≡ true
      → all q (delete_where (λ x. key x == role_id) xs) ≡ true
  rows_still p q key [] imp h = refl
  rows_still p q key (x ∷ xs) imp h = ground (arith, imp x, rows_still p q key xs imp)

  pub remove_role-IsConsistent : IsConsistent db → IsConsistent (remove_role db role_id)
  unfolding remove_role
  remove_role-IsConsistent h = record {
    ids_unique = unique-select (λ (r : Role). r.id) other db.roles h.ids_unique;
    names_unique = unique-select (λ (r : Role). r.name) other db.roles h.names_unique;
    ids_drawn = all-select (λ r. ltb r.id db.next_role_id) other db.roles h.ids_drawn;
    user_roles_refer =
        rows_still (λ ur. refers db ur.role_id) (λ ur. refers (remove_role db role_id) ur.role_id)
          (λ ur. ur.role_id) db.user_roles (λ ur e ne. sym (still_refers ur.role_id ne) ∙ e)
          h.user_roles_refer;
    role_permissions_refer =
        rows_still (permission_refers db) (permission_refers (remove_role db role_id))
          (λ rp. rp.role_id) db.role_permissions
          (λ rp e ne. ground (arith, still_refers rp.role_id ne)) h.role_permissions_refer;
    role_scopes_refer =
        rows_still (scope_refers db) (scope_refers (remove_role db role_id)) (λ s. s.role_id)
          db.role_scopes (λ s e ne. ground (arith, still_refers s.role_id ne)) h.role_scopes_refer;
  }

-- Writing new values into the row of one role, whose id stays.
module _ (db : Db) (role_id : ℕ) (updated : Role) (kept : updated.id ≡ role_id) where
  abbrev rewritten : Db
  rewritten = record db { roles = update_where (λ r. r.id == role_id) (λ _. updated) db.roles }

  abbrev rewrite_roles : List Role → List Role
  rewrite_roles = update_where (λ r. r.id == role_id) (λ _. updated)

  any_id-rewrite :
      (id : ℕ) (roles : List Role)
      → any (λ r. r.id == id) (rewrite_roles roles) ≡ any (λ r. r.id == id) roles
  any_id-rewrite id [] = refl
  any_id-rewrite id (r ∷ roles) = ground (arith, any_id-rewrite id roles)

  unique_ids :
      (roles : List Role)
      → unique (λ (r : Role). r.id) roles ≡ true
      → unique (λ (r : Role). r.id) (rewrite_roles roles) ≡ true
  unique_ids [] h = refl
  unique_ids (r ∷ roles) h = elim (Bool-cases (r.id == role_id)) [
    | inl same ↦ rw same (
        ground (
          arith,
          unique_ids roles,
          any_id-rewrite updated.id roles,
          any_id-rewrite r.id roles,
          ap (λ (k : ℕ). any (λ (x : Role). x.id == k) roles)
              (kept ∙ sym ((number_keys.agrees r.id role_id).0 same)),
        ))
    | inr else_id ↦ rw else_id (ground (arith, unique_ids roles, any_id-rewrite r.id roles))
  ]

  -- A name that neither the new row nor an old row of another id has.
  any_name-rewrite :
      (name : String) (roles : List Role)
      → ((updated.name == name) ≡ false) ⊎ (any (λ r. r.id == role_id) roles ≡ false)
      → any (λ r. not (r.id == role_id) && r.name == name) roles ≡ false
      → any (λ r. r.name == name) (rewrite_roles roles) ≡ false
  any_name-rewrite name [] e f = refl
  any_name-rewrite name (r ∷ roles) (inl e) f = ground (arith, any_name-rewrite name roles (inl e))
  any_name-rewrite name (r ∷ roles) (inr e) f =
      ground (arith, any_name-rewrite name roles (inr (ground arith)))

  any_name-elsewhere :
      (name : String) (roles : List Role)
      → any (λ r. r.name == name) roles ≡ false
      → any (λ r. not (r.id == role_id) && r.name == name) roles ≡ false
  any_name-elsewhere name [] h = refl
  any_name-elsewhere name (r ∷ roles) h = ground (arith, any_name-elsewhere name roles)

  unique_names :
      (roles : List Role)
      → unique (λ (r : Role). r.id) roles ≡ true
      → unique (λ (r : Role). r.name) roles ≡ true
      → any (λ r. not (r.id == role_id) && r.name == updated.name) roles ≡ false
      → unique (λ (r : Role). r.name) (rewrite_roles roles) ≡ true
  unique_names [] i h free = refl
  unique_names (r ∷ roles) i h free = elim (Bool-cases (r.id == role_id)) [
    | inl same ↦
        let absent : any (λ (x : Role). x.id == role_id) roles ≡ false =
          subst (λ k. any (λ (x : Role). x.id == k) roles ≡ false)
            ((number_keys.agrees r.id role_id).0 same) (ground arith) in
        rw same
          (ground (arith, unique_names roles, any_name-rewrite updated.name roles (inr absent)))
    | inr else_id ↦ rw else_id (
        ground (
          arith,
          unique_names roles,
          any_name-rewrite r.name roles,
          any_name-elsewhere r.name roles,
          text_keys.agrees updated.name r.name,
          text_keys.agrees r.name updated.name,
        ))
  ]

  pub rewritten-IsConsistent :
      any (λ r. not (r.id == role_id) && r.name == updated.name) db.roles ≡ false
      → role_id < db.next_role_id
      → IsConsistent db
      → IsConsistent rewritten
  rewritten-IsConsistent free below h = record {
    ids_unique = unique_ids db.roles h.ids_unique;
    names_unique = unique_names db.roles h.ids_unique h.names_unique free;
    ids_drawn =
        all-update_where (λ (r : Role). ltb r.id db.next_role_id) (λ r. r.id == role_id)
          (λ _. updated) db.roles (λ r e f. ground arith) h.ids_drawn;
    user_roles_refer =
        all_mono (λ ur. refers db ur.role_id) (λ ur. refers rewritten ur.role_id) db.user_roles
          (λ ur e. any_id-rewrite ur.role_id db.roles ∙ e) h.user_roles_refer;
    role_permissions_refer =
        all_mono (permission_refers db) (permission_refers rewritten) db.role_permissions
          (λ rp e. ground (arith, any_id-rewrite rp.role_id db.roles)) h.role_permissions_refer;
    role_scopes_refer =
        all_mono (scope_refers db) (scope_refers rewritten) db.role_scopes
          (λ s e. ground (arith, any_id-rewrite s.role_id db.roles)) h.role_scopes_refer;
  }
