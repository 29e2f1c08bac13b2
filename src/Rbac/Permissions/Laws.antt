-- ===== src/Rbac/Permissions/Laws.antt =====
-- What `get_user_permissions` returns: exactly the names that the user's roles grant, each once.
use big_bug.Prelude.{
  ℕ, String, ◌≡◌, refl, inl, inr, true, false, ◌&&◌, ◌||◌, Option, none, some, List, [], ◌∷◌, ◌++◌,
  arith, ◌==◌, number_keys, text_keys, is_some, Bool-cases, any, find_sound, contains,
  contains-append, distinct,
}
use big_bug.Identity.{
  Permission, get_user, Db, UserRole, User, Role, find_role, roles_of_user, permissions_of_role,
}
use big_bug.Rbac.Permissions.{
  Collected, collect_name, names_for, collect_role, get_user_permissions, collect_all,
  collect_found, holds_permission, role_has_permission,
}

-- `seen` holds the same names as the list, and no name stands twice in the list.
record IsCollected (acc : Collected) : Type 0 where
  same : (n : String) → contains acc.0 n ≡ contains acc.1 n
  once : distinct acc.0 ≡ true

distinct-append_one :
    (xs : List String) (a : String)
    → distinct xs ≡ true
    → contains xs a ≡ false
    → distinct (xs ++ a ∷ []) ≡ true
distinct-append_one [] a h f = refl
distinct-append_one (x ∷ xs) a h f = ground (
  arith,
  distinct-append_one xs a,
  contains-append xs (a ∷ []) x,
  text_keys.agrees a x,
  text_keys.agrees x a,
)

-- Adding a permission adds its name and no other, whether or not it was there.
contains-collect_name :
    (acc : Collected) (p : Permission) (n : String)
    → IsCollected acc
    → contains (collect_name acc p).0 n ≡ (contains acc.0 n || p.name == n)
unfolding collect_name
contains-collect_name acc p n h =
    ground (arith, h.same p.name, contains-append acc.0 (p.name ∷ []) n, text_keys.agrees p.name n)

collect_name-IsCollected :
    (acc : Collected) (p : Permission) → IsCollected acc → IsCollected (collect_name acc p)
unfolding collect_name
collect_name-IsCollected acc p h = elim (Bool-cases (contains acc.1 p.name)) [
  | inl old ↦ rw old h
  | inr new ↦ rw new (record {
    same = λ n. ground (arith, h.same n, contains-append acc.0 (p.name ∷ []) n);
    once = distinct-append_one acc.0 p.name h.once (ground (arith, h.same p.name));
  })
]

collect_role-IsCollected :
    (acc : Collected) (ps : List Permission) → IsCollected acc → IsCollected (collect_role acc ps)
unfolding collect_role
collect_role-IsCollected acc [] h = h
collect_role-IsCollected acc (p ∷ ps) h =
    collect_role-IsCollected (collect_name acc p) ps (collect_name-IsCollected acc p h)

contains-collect_role :
    (acc : Collected) (ps : List Permission) (n : String)
    → IsCollected acc
    → contains (collect_role acc ps).0 n ≡ (contains acc.0 n || any (λ p. p.name == n) ps)
unfolding collect_role
contains-collect_role acc [] n h = ground arith
contains-collect_role acc (p ∷ ps) n h = ground (
  arith,
  contains-collect_role (collect_name acc p) ps n (collect_name-IsCollected acc p h),
  contains-collect_name acc p n h,
)

collect_found-IsCollected :
    (db : Db) (acc : Collected) (role : Option Role)
    → IsCollected acc
    → IsCollected (collect_found db acc role)
unfolding collect_found
collect_found-IsCollected db acc none h = h
collect_found-IsCollected db acc (some role) h =
    collect_role-IsCollected acc (permissions_of_role db role.id) h

contains-collect_found :
    (db : Db) (acc : Collected) (role : Option Role) (n : String)
    → IsCollected acc
    → contains (collect_found db acc role).0 n ≡ (contains acc.0 n || role_has_permission db n role)
unfolding collect_found
contains-collect_found db acc none n h = ground arith
contains-collect_found db acc (some role) n h =
    contains-collect_role acc (permissions_of_role db role.id) n h

collect_all-IsCollected :
    (db : Db) (acc : Collected) (urs : List UserRole)
    → IsCollected acc
    → IsCollected (collect_all db acc urs)
unfolding collect_all
collect_all-IsCollected db acc [] h = h
collect_all-IsCollected db acc (ur ∷ urs) h =
    collect_all-IsCollected db (collect_found db acc (find_role db ur.role_id)) urs
      (collect_found-IsCollected db acc (find_role db ur.role_id) h)

contains-collect_all :
    (db : Db) (acc : Collected) (urs : List UserRole) (n : String)
    → IsCollected acc
    → contains (collect_all db acc urs).0 n
      ≡ (contains acc.0 n || any (λ ur. role_has_permission db n (find_role db ur.role_id)) urs)
unfolding collect_all
contains-collect_all db acc [] n h = ground arith
contains-collect_all db acc (ur ∷ urs) n h =
    let found = find_role db ur.role_id in
    ground (
      arith,
      contains-collect_all db (collect_found db acc found) urs n
          (collect_found-IsCollected db acc found h),
      contains-collect_found db acc found n h,
    )

nothing-IsCollected : IsCollected ([], [])
nothing-IsCollected = record { same = λ n. refl; once = refl }

pub id_of_get_user :
    (db : Db) (user_id : ℕ) {u : User} → get_user db user_id ≡ some u → u.id ≡ user_id
unfolding get_user
id_of_get_user db user_id {u} h =
    (number_keys.agrees u.id user_id).0 (find_sound (λ (v : User). v.id == user_id) db.users h)

names_for-distinct : (db : Db) (user : Option User) → distinct (names_for db user) ≡ true
unfolding names_for
names_for-distinct db none = refl
names_for-distinct db (some user) =
    (collect_all-IsCollected db ([], []) (roles_of_user db user.id) nothing-IsCollected).once

contains-names_for :
    (db : Db) (user_id : ℕ) (user : Option User) (n : String)
    → get_user db user_id ≡ user
    → contains (names_for db user) n ≡ (
        is_some user
        && any
            (λ ur. role_has_permission db n (find_role db ur.role_id))
            (roles_of_user db user_id))
unfolding names_for
contains-names_for db user_id none n e = refl
contains-names_for db user_id (some user) n e =
    rw (← id_of_get_user db user_id e)
      (contains-collect_all db ([], []) (roles_of_user db user.id) n nothing-IsCollected)

-- The names that `get_user_permissions` returns hold no duplicates, and a name is among them
-- exactly when the user exists and some existing role of the user has a permission of that name.
pub get_user_permissions_exact :
    (db : Db) (user_id : ℕ)
    → (distinct (get_user_permissions db user_id) ≡ true)
      × ((name : String)
          → contains (get_user_permissions db user_id) name ≡ holds_permission db user_id name)
unfolding get_user_permissions
get_user_permissions_exact db user_id = (
  names_for-distinct db (get_user db user_id),
  λ name. unfold holds_permission in contains-names_for db user_id (get_user db user_id) name refl,
)
