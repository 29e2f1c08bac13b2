-- ===== src/Teams/Led/Rows.antt =====
-- Creating and deleting a team, and adding and removing a member, keep the lead invariant.
use big_bug.Prelude.{
  ℕ, ◌+◌, String, ◌≡◌, refl, sym, subst, inl, true, false, not, ◌&&◌, ◌||◌, Option, List, [], ◌∷◌,
  ◌++◌, arith, ltb, text_keys, number_keys, ◌==◌, any, all, delete_where, all-append, all-select,
  all_mono, update_where, unique-append_one, any-delete_where_ne, only_row, all_both, ok_of_bind,
  ok_injective, ok,
}
use big_bug.Identity.{Db, Team, TeamMember, lead, ResourceProvider, member, is_lead}
use big_bug.Rbac.Guards.{CurrentUser}
use big_bug.Teams.{
  create_team, delete_team, add_member, remove_member, _get_or_404, has_key, is_id, unshare,
}
use big_bug.Teams.Led.{IsLed, led_by, created-led, drawn_grows, led_by-append}
use big_bug.Teams.Led.Saved.{get_or_404_lem, get_or_404_found, unmoved-IsLed}

any-none_of :
    (bound : ℕ) (teams : List Team) (t : Team)
    → t.id ≡ bound
    → all (λ x. ltb x.id bound) teams ≡ true
    → any (λ x. x.id == t.id) teams ≡ false
any-none_of bound [] t e h = refl
any-none_of bound (x ∷ teams) t e h = ground (arith, any-none_of bound teams t e)

abbrev owner_row : Team → TeamMember
owner_row t = record { team_id = t.id; user_id = t.owner_user_id; role = lead }

abbrev with_team : Db → Team → Db
with_team db t = record db {
  teams = db.teams ++ t ∷ [];
  team_members = db.team_members ++ owner_row t ∷ [];
  next_team_id = db.next_team_id + 1;
}

create_team_lem :
    (db : Db) (name : String) (description : Option String) (owner_user_id : ℕ) {team : Team}
    {db' : Db}
    → create_team db name description owner_user_id ≡ ok (team, db')
    → (team.id ≡ db.next_team_id) × (db' ≡ with_team db team)
unfolding create_team
create_team_lem db name description owner_user_id h = (ground arith, ground arith)

with_team-IsLed : (db : Db) (t : Team) → t.id ≡ db.next_team_id → IsLed db → IsLed (with_team db t)
with_team-IsLed db t fresh l = record {
  led = created-led db.next_team_id db.team_members db.teams t fresh l.rows_drawn l.ids_drawn l.led;
  ids_unique =
      unique-append_one (λ (x : Team). x.id) db.teams t l.ids_unique
        (any-none_of db.next_team_id db.teams t fresh l.ids_drawn);
  ids_drawn = ground (
    arith,
    fresh,
    all-append (λ (x : Team). ltb x.id (db.next_team_id + 1)) db.teams (t ∷ []),
    all_mono (λ (x : Team). ltb x.id db.next_team_id) (λ x. ltb x.id (db.next_team_id + 1)) db.teams
        (λ x e. ground arith) l.ids_drawn,
  );
  rows_drawn = ground (
    arith,
    fresh,
    all-append (λ (x : TeamMember). ltb x.team_id (db.next_team_id + 1)) db.team_members
        (owner_row t ∷ []),
    drawn_grows db.next_team_id db.team_members l.rows_drawn,
  );
}

pub create-IsLed :
    (db : Db) (name : String) (description : Option String) (owner_user_id : ℕ) {team : Team}
    {db' : Db}
    → create_team db name description owner_user_id ≡ ok (team, db')
    → IsLed db
    → IsLed db'
create-IsLed db name description owner_user_id {team} {db'} h l =
    let (fresh, e) = create_team_lem db name description owner_user_id h in
    subst IsLed (sym e) (with_team-IsLed db team fresh l)

pub delete-IsLed :
    (db : Db) (team_id : ℕ) {db' : Db} → delete_team db team_id ≡ ok db' → IsLed db → IsLed db'
unfolding delete_team
delete-IsLed db team_id {db'} h l =
    let (t, found, h1) = ok_of_bind (_get_or_404 db team_id) _ h in
    let (_, leads, below) = get_or_404_lem db team_id found l in
    let done =
      unmoved-IsLed
        (record db { providers = update_where (λ p. is_id p.team_id team_id) unshare db.providers })
        (record t { is_deleted = true }) below leads
        (record {
          led = l.led;
          ids_unique = l.ids_unique;
          ids_drawn = l.ids_drawn;
          rows_drawn = l.rows_drawn;
        }) in
    subst IsLed (ok_injective h1) done

rows-IsLed :
    (db : Db) (rows : List TeamMember) (providers : List ResourceProvider)
    → all (λ m. ltb m.team_id db.next_team_id) rows ≡ true
    → ((t : Team) → led_by db.team_members t ≡ true → led_by rows t ≡ true)
    → IsLed db
    → IsLed (record db { team_members = rows; providers = providers })
rows-IsLed db rows providers drawn keeps l = record {
  led = all_mono (led_by db.team_members) (led_by rows) db.teams keeps l.led;
  ids_unique = l.ids_unique;
  ids_drawn = l.ids_drawn;
  rows_drawn = drawn;
}

pub add-IsLed :
    (db : Db) (team_id user_id : ℕ) {row : TeamMember} {db' : Db}
    → add_member db team_id user_id ≡ ok (row, db')
    → IsLed db
    → IsLed db'
unfolding add_member
add-IsLed db team_id user_id {row} {db'} h l =
    let (t, found, h1) = ok_of_bind (_get_or_404 db team_id) _ h in
    let (same, leads, below) = get_or_404_lem db team_id found l in
    let m : TeamMember = record { team_id = team_id; user_id = user_id; role = member } in
    let rows = db.team_members ++ m ∷ [] in
    let e : record db { team_members = rows } ≡ db' = ground arith in
    subst IsLed e (
      rows-IsLed db rows db.providers
        (ground (
          arith,
          all-append (λ (x : TeamMember). ltb x.team_id db.next_team_id) db.team_members (m ∷ []),
          l.rows_drawn,
        ))
        (λ x old. led_by-append db.team_members m x (inl (ground arith)) old) l)

led_by-delete :
    (team_id user_id : ℕ) (rows : List TeamMember) (t : Team)
    → (t.id == team_id && t.owner_user_id == user_id) ≡ false
    → led_by rows t ≡ true
    → led_by (delete_where (has_key team_id user_id) rows) t ≡ true
led_by-delete team_id user_id rows t ne h = ground (
  arith,
  any-delete_where_ne (λ m. has_key t.id t.owner_user_id m && is_lead m.role)
      (has_key team_id user_id) rows (λ m e. ground arith),
  all-select (λ m. not (m.team_id == t.id && is_lead m.role) || m.user_id == t.owner_user_id)
      (λ m. not (has_key team_id user_id m)) rows,
)

pub remove-IsLed :
    (db : Db) (team_id user_id : ℕ) (actor : CurrentUser) {db' : Db}
    → remove_member db team_id user_id actor ≡ ok db'
    → IsLed db
    → IsLed db'
unfolding remove_member
remove-IsLed db team_id user_id actor {db'} h l =
    let (t, found, h1) = ok_of_bind (_get_or_404 db team_id) _ h in
    let (row, _) = get_or_404_found db team_id found in
    let other : (t.owner_user_id == user_id) ≡ false = ground arith in
    let owners =
      only_row (λ (x : Team). x.id) team_id (λ x. not (x.owner_user_id == user_id)) db.teams
        l.ids_unique row (ground arith) in
    let rows = delete_where (has_key team_id user_id) db.team_members in
    let gone : Db = record db {
      team_members = rows;
      providers =
          update_where (λ p. is_id p.team_id team_id && is_id p.owner_user_id user_id) unshare
            db.providers;
    } in
    let e : gone ≡ db' = ground arith in
    subst IsLed e (record {
      led =
          all_both _ (led_by db.team_members) (led_by rows) db.teams
            (λ x o old. led_by-delete team_id user_id db.team_members x (ground arith) old) owners
            l.led;
      ids_unique = l.ids_unique;
      ids_drawn = l.ids_drawn;
      rows_drawn = all-select _ (λ m. not (has_key team_id user_id m)) db.team_members l.rows_drawn;
    })
