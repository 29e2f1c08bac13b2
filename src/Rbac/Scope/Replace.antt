-- ===== src/Rbac/Scope/Replace.antt =====
-- `set_role_scope_*` replaces exactly the scope of one role in one table.
use big_bug.Prelude.{
  ℕ, ◌≡◌, refl, ap, ◌∙◌, Bool, true, false, ◌&&◌, List, [], ◌∷◌, ◌++◌, map, arith, ◌==◌,
  number_keys, text_keys, select, delete_where, select-append, ok_of_bind, ok,
}
use mathlib.Core.List.{append-nil, append_assoc}
use big_bug.Identity.{Db, RoleScope, ScopeKind, same_kind, scopes_of_role}
use big_bug.Rbac.Roles.{require_role, get_role_by_id}
use big_bug.Rbac.Scope.{
  sorted, get_role_scope, insert_scope, insert_scopes, clear_role_scope, set_role_scope,
}
use big_bug.Rbac.Scope.Keeps.{new_row, with_scopes, insert_scope_lem}

select-delete_self :
    (p : RoleScope → Bool) (rows : List RoleScope) → select p (delete_where p rows) ≡ []
select-delete_self p [] = refl
select-delete_self p (s ∷ rows) = ground (arith, select-delete_self p rows)

select-delete_ne :
    (p q : RoleScope → Bool) (rows : List RoleScope)
    → ((s : RoleScope) → q s ≡ true → p s ≡ false)
    → select p (delete_where q rows) ≡ select p rows
select-delete_ne p q [] h = refl
select-delete_ne p q (s ∷ rows) h = ground (arith, h s, select-delete_ne p q rows h)

same_kind_refl : (kind : ScopeKind) → same_kind kind kind ≡ true
same_kind_refl kind = ground arith

same_kind-eq : (a b : ScopeKind) → same_kind a b ≡ true → a ≡ b
same_kind-eq a b h = ground arith

module _ (kind : ScopeKind) (role_id : ℕ) where
  abbrev new_rows : List ℕ → List RoleScope
  new_rows = map (new_row kind role_id)

  insert_scopes_lem :
      (db : Db) (ids : List ℕ) {db' : Db}
      → insert_scopes kind db role_id ids ≡ ok db'
      → db' ≡ with_scopes db (db.role_scopes ++ new_rows ids)
  unfolding insert_scopes
  insert_scopes_lem db [] h = ground (arith, append-nil db.role_scopes)
  insert_scopes_lem db (id ∷ ids) {db'} h =
      let (mid, e, rest) = ok_of_bind (insert_scope kind db role_id id) _ h in
      let (m, _, _, _) = insert_scope_lem kind db role_id id e in
      ground (
        arith,
        m,
        insert_scopes_lem mid ids rest,
        append_assoc db.role_scopes (new_row kind role_id id ∷ []) (new_rows ids),
      )

  select-new_rows :
      (ids : List ℕ)
      → select (λ s. same_kind s.kind kind && s.role_id == role_id) (new_rows ids) ≡ new_rows ids
  select-new_rows [] = refl
  select-new_rows (id ∷ ids) =
      ground (
        arith,
        select-new_rows ids,
        same_kind_refl kind,
        (number_keys.agrees role_id role_id).1 refl,
      )

  map-new_rows : (ids : List ℕ) → map (λ (s : RoleScope). s.resource_id) (new_rows ids) ≡ ids
  map-new_rows [] = refl
  map-new_rows (id ∷ ids) = ground (arith, map-new_rows ids)

  -- The scope rows of another role, or of another table, are no rows of this scope.
  select-elsewhere :
      (other_kind : ScopeKind) (other_id : ℕ) (ids : List ℕ)
      → (same_kind kind other_kind && role_id == other_id) ≡ false
      → select (λ s. same_kind s.kind other_kind && s.role_id == other_id) (new_rows ids) ≡ []
  select-elsewhere other_kind other_id [] h = refl
  select-elsewhere other_kind other_id (id ∷ ids) h =
      ground (arith, select-elsewhere other_kind other_id ids)

  set_rows :
      (db : Db) (ids : List ℕ) {db' : Db}
      → set_role_scope kind db role_id ids ≡ ok db'
      → db'.role_scopes
        ≡ delete_where (λ s. same_kind s.kind kind && s.role_id == role_id) db.role_scopes
          ++ new_rows ids
  unfolding set_role_scope
  set_rows db ids h =
      let (role, e, rest) = ok_of_bind (require_role (get_role_by_id db role_id)) _ h in
      ap (λ (d : Db). d.role_scopes) (insert_scopes_lem (clear_role_scope kind db role_id) ids rest)

  abbrev here : RoleScope → Bool
  here s = same_kind s.kind kind && s.role_id == role_id

  rows_here :
      (rows : List RoleScope) (ids : List ℕ)
      → select here (delete_where here rows ++ new_rows ids) ≡ new_rows ids
  rows_here rows ids = ground (
    arith,
    select-append here (delete_where here rows) (new_rows ids),
    select-delete_self here rows,
    select-new_rows ids,
  )

  rows_elsewhere :
      (rows : List RoleScope) (ids : List ℕ) (other_kind : ScopeKind) (other_id : ℕ)
      → (same_kind kind other_kind && role_id == other_id) ≡ false
      → select
          (λ s. same_kind s.kind other_kind && s.role_id == other_id)
          (delete_where here rows ++ new_rows ids)
        ≡ select (λ s. same_kind s.kind other_kind && s.role_id == other_id) rows
  rows_elsewhere rows ids other_kind other_id ne =
      let p : RoleScope → Bool = λ s. same_kind s.kind other_kind && s.role_id == other_id in
      ground (
        arith,
        select-append p (delete_where here rows) (new_rows ids),
        select-delete_ne p here rows (λ s e. ground (arith, same_kind-eq s.kind kind)),
        select-elsewhere other_kind other_id ids,
        append-nil (select p rows),
      )

  -- After a successful replacement the role has exactly the given ids in that table, and the scope
  -- of every other role and every other table has the rows that it had.
  pub set-get_role_scope :
      (db : Db) (ids : List ℕ) {db' : Db}
      → set_role_scope kind db role_id ids ≡ ok db'
      → (get_role_scope kind db' role_id ≡ sorted ids)
        × ((other_kind : ScopeKind) (other_id : ℕ)
            → (same_kind kind other_kind && role_id == other_id) ≡ false
            → scopes_of_role db' other_kind other_id ≡ scopes_of_role db other_kind other_id)
  unfolding scopes_of_role get_role_scope
  set-get_role_scope db ids {db'} h =
      let rows = set_rows db ids h in
      (
        ap (λ l. sorted (map (λ s. s.resource_id) (select here l))) rows
            ∙ ap (λ l. sorted (map (λ (s : RoleScope). s.resource_id) l))
                (rows_here db.role_scopes ids)
            ∙ ap sorted (map-new_rows ids),
        λ other_kind other_id ne.
            ap (select (λ s. same_kind s.kind other_kind && s.role_id == other_id)) rows
            ∙ rows_elsewhere db.role_scopes ids other_kind other_id ne,
      )
