-- ===== src/Rbac/Scope/Keeps.antt =====
-- The changes of role scopes keep the tables consistent and leave all other tables alone.
use big_bug.Prelude.{
  ℕ, ◌≡◌, refl, ◌∙◌, inl, inr, true, false, not, ◌&&◌, List, [], ◌∷◌, ◌++◌, arith, ◌==◌,
  number_keys, text_keys, is_some, Bool-cases, any, all, all-append, all-select, contains,
  is_some-find, ok_of_bind, ok,
}
use big_bug.Identity.{Db, Role, RoleScope, ScopeKind, find_role, same_kind}
use big_bug.Rbac.Consistent.{IsConsistent, refers, scope_refers}
use big_bug.Rbac.Scope.{
  is_scope_row, insert_scope, insert_scopes, remove_role_scope, set_role_scope, add_role_scope,
  clear_role_scope, require_role, get_role_by_id,
}

-- Only the scope rows changed.
abbrev pub with_scopes : Db → List RoleScope → Db
with_scopes db rows = record db { role_scopes = rows }

pub with_scopes-IsConsistent :
    (db : Db) (rows : List RoleScope)
    → all (scope_refers db) rows ≡ true
    → IsConsistent db
    → IsConsistent (with_scopes db rows)
with_scopes-IsConsistent db rows ok_rows h = record {
  ids_unique = h.ids_unique;
  names_unique = h.names_unique;
  ids_drawn = h.ids_drawn;
  user_roles_refer = h.user_roles_refer;
  role_permissions_refer = h.role_permissions_refer;
  role_scopes_refer = ok_rows;
}

refers-find_role : (db : Db) (id : ℕ) → is_some (find_role db id) ≡ refers db id
unfolding find_role
refers-find_role db id = is_some-find (λ (r : Role). r.id == id) db.roles

module _ (kind : ScopeKind) where
  abbrev pub new_row : ℕ → ℕ → RoleScope
  new_row role_id id = record { kind = kind; role_id = role_id; resource_id = id }

  pub insert_scope_lem :
      (db : Db) (role_id id : ℕ) {db' : Db}
      → insert_scope kind db role_id id ≡ ok db'
      → (db' ≡ with_scopes db (db.role_scopes ++ new_row role_id id ∷ []))
        × (refers db role_id ≡ true)
        × (contains (db.resources kind) id ≡ true)
        × (any (is_scope_row kind role_id id) db.role_scopes ≡ false)
  unfolding insert_scope
  insert_scope_lem db role_id id h = ground (arith, refers-find_role db role_id)

  insert_scope-IsConsistent :
      (db : Db) (role_id id : ℕ) {db' : Db}
      → insert_scope kind db role_id id ≡ ok db'
      → IsConsistent db
      → (IsConsistent db') × (db'.roles ≡ db.roles)
  insert_scope-IsConsistent db role_id id h c =
      let (e, known, there, fresh) = insert_scope_lem db role_id id h in
      let rows = db.role_scopes ++ new_row role_id id ∷ [] in
      rw e (
        with_scopes-IsConsistent db rows
            (ground (
              arith,
              all-append (scope_refers db) db.role_scopes (new_row role_id id ∷ []),
              c.role_scopes_refer,
            ))
            c,
        refl,
      )

  insert_scopes-IsConsistent :
      (db : Db) (role_id : ℕ) (ids : List ℕ) {db' : Db}
      → insert_scopes kind db role_id ids ≡ ok db'
      → IsConsistent db
      → (IsConsistent db') × (db'.roles ≡ db.roles)
  unfolding insert_scopes
  insert_scopes-IsConsistent db role_id [] h c = ground arith
  insert_scopes-IsConsistent db role_id (id ∷ ids) h c =
      let (mid, e, rest) = ok_of_bind (insert_scope kind db role_id id) _ h in
      let (c', same) = insert_scope-IsConsistent db role_id id e c in
      let (c'', same') = insert_scopes-IsConsistent mid role_id ids rest c' in (c'', same' ∙ same)

  clear-IsConsistent :
      (db : Db) (role_id : ℕ) → IsConsistent db → IsConsistent (clear_role_scope kind db role_id)
  unfolding clear_role_scope
  clear-IsConsistent db role_id c =
      with_scopes-IsConsistent db _
        (all-select (scope_refers db) (λ s. not (same_kind s.kind kind && s.role_id == role_id))
          db.role_scopes c.role_scopes_refer)
        c

  pub set_role_scope-IsConsistent :
      (db : Db) (role_id : ℕ) (ids : List ℕ) {db' : Db}
      → set_role_scope kind db role_id ids ≡ ok db'
      → IsConsistent db
      → (IsConsistent db') × (db'.roles ≡ db.roles)
  unfolding set_role_scope
  set_role_scope-IsConsistent db role_id ids h c =
      let (role, e, rest) = ok_of_bind (require_role (get_role_by_id db role_id)) _ h in
      insert_scopes-IsConsistent (clear_role_scope kind db role_id) role_id ids rest
        (clear-IsConsistent db role_id c)

  pub add_role_scope-IsConsistent :
      (db : Db) (role_id id : ℕ) {db' : Db}
      → add_role_scope kind db role_id id ≡ ok db'
      → IsConsistent db
      → (IsConsistent db') × (db'.roles ≡ db.roles)
  unfolding add_role_scope
  add_role_scope-IsConsistent db role_id id {db'} h c =
      elim (Bool-cases (any (is_scope_row kind role_id id) db.role_scopes)) [
        | inl old ↦ ground arith
        | inr new ↦ insert_scope-IsConsistent db role_id id (ground arith) c
      ]

  pub remove_role_scope-IsConsistent :
      (db : Db) (role_id id : ℕ)
      → IsConsistent db
      → IsConsistent (remove_role_scope kind db role_id id)
  unfolding remove_role_scope
  remove_role_scope-IsConsistent db role_id id c =
      with_scopes-IsConsistent db _
        (all-select (scope_refers db) (λ s. not (is_scope_row kind role_id id s)) db.role_scopes
          c.role_scopes_refer)
        c
