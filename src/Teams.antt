-- ===== src/Teams.antt =====
-- Teams and memberships (backend/app/services/team.py). A method returns its result and the new
-- tables; a `DomainError` is its status code, and leaves the tables as they were.
pub mod Led
pub mod Steps
pub mod Members
pub mod Cards
pub mod Deleted
mod Tests
use big_bug.Prelude.{
  ℕ, ◌+◌, String, Bool, true, false, not, ◌&&◌, ◌||◌, Option, none, some, List, [], ◌∷◌, ◌++◌,
  if◌then◌else◌, text_keys, number_keys, ◌==◌, is_some, length, any, select, delete_where, find,
  contains, update_where, Result, guard, ◌>>=◌, ◌>>◌, ok, err,
}
use big_bug.Identity.{
  Db, User, Team, TeamMember, TeamRole, lead, member, is_lead, ResourceProvider, ProviderVisibility,
  owner, get_user,
}
use big_bug.Rbac.Permissions.{get_user_permissions}
use big_bug.Rbac.Guards.{CurrentUser}

pub data TeamError : Type 0 where
  domain : ℕ → TeamError

abbrev pub Outcome : Type 0 → Type 0
Outcome A = Result TeamError A

abbrev pub not_found : TeamError
not_found = domain 404

abbrev pub denied : TeamError
denied = domain 403

abbrev pub unknown_user : TeamError
unknown_user = domain 422

abbrev pub conflict : TeamError
conflict = domain 409

abbrev pub lead_stays : TeamError
lead_stays = domain 400

-- `value == id` for a nullable column
abbrev pub is_id : Option ℕ → ℕ → Bool
is_id none id = false
is_id (some a) id = a == id

abbrev active_or_404 : Option Team → Outcome Team
active_or_404 none = err not_found
active_or_404 (some t) = if t.is_deleted then err not_found else ok t

unfoldable pub _get_or_404 : Db → ℕ → Outcome Team
_get_or_404 db team_id = active_or_404 (find (λ t. t.id == team_id) db.teams)

abbrev pub has_key : ℕ → ℕ → TeamMember → Bool
has_key team_id user_id m = m.team_id == team_id && m.user_id == user_id

unfoldable pub _get_member : Db → ℕ → ℕ → Option TeamMember
_get_member db team_id user_id = find (has_key team_id user_id) db.team_members

-- A cached list of permissions is asked first, when it is not empty.
abbrev all_providers : String
all_providers = "providers:read_all"

admin_by : List String → Db → ℕ → Bool
admin_by [] db user_id = contains (get_user_permissions db user_id) all_providers
admin_by (p ∷ ps) db user_id = contains (p ∷ ps) all_providers

unfoldable pub _is_admin : Db → CurrentUser → Bool
unfolding admin_by
_is_admin db user = admin_by user.cached_permissions db user.user.id

unfoldable pub _members_count : Db → ℕ → ℕ
_members_count db team_id = length (select (λ m. m.team_id == team_id) db.team_members)

abbrev member_or_403 : Option TeamMember → Outcome TeamMember
member_or_403 none = err denied
member_or_403 (some m) = ok m

unfoldable pub _ensure_member : Db → ℕ → CurrentUser → Outcome TeamMember
_ensure_member db team_id user = member_or_403 (_get_member db team_id user.user.id)

abbrev pub name_taken : Db → String → Bool
name_taken db name = any (λ t. t.name == name && not t.is_deleted) db.teams

unfoldable pub create_team : Db → String → Option String → ℕ → Outcome (Team × Db)
create_team db name description owner_user_id = do
  guard (is_some (get_user db owner_user_id)) unknown_user
  guard (not (name_taken db name)) conflict
  let team : Team = record {
    id = db.next_team_id;
    name = name;
    description = description;
    owner_user_id = owner_user_id;
    is_deleted = false;
  }
  ok (
    team,
    record db {
      teams = db.teams ++ team ∷ [];
      team_members =
          db.team_members
          ++ record { team_id = team.id; user_id = owner_user_id; role = lead } ∷ [];
      next_team_id = db.next_team_id + 1;
    },
  )

-- `if name is not None and name != team.name`
unfoldable pub renamed : Db → Team → Option String → Outcome Team
renamed db team none = ok team
renamed db team (some name) =
    if name == team.name
    then ok team
    else (do guard (not (name_taken db name)) conflict; ok (record team { name = name }))

unfoldable pub described : Team → Option String → Team
described team none = team
described team (some description) = record team { description = some description }

abbrev with_role : TeamRole → TeamMember → TeamMember
with_role role m = record m { role = role }

unfoldable pub promote : ℕ → ℕ → List TeamMember → List TeamMember
promote team_id user_id rows =
    if any (has_key team_id user_id) rows
    then update_where (has_key team_id user_id) (with_role lead) rows
    else rows ++ record { team_id = team_id; user_id = user_id; role = lead } ∷ []

unfoldable pub demote : ℕ → ℕ → List TeamMember → List TeamMember
demote team_id user_id = update_where (has_key team_id user_id) (with_role member)

-- The atomic lead transfer: the new owner becomes lead, the old owner a member.
unfoldable pub transferred : Db → Team → Option ℕ → Outcome (Team × Db)
unfolding promote demote
transferred db team none = ok (team, db)
transferred db team (some new_owner) =
    if new_owner == team.owner_user_id then ok (team, db) else (do
      guard (is_some (get_user db new_owner)) unknown_user
      ok (
        record team { owner_user_id = new_owner },
        record db {
          team_members =
              demote team.id team.owner_user_id (promote team.id new_owner db.team_members);
        },
      ))

unfoldable pub save_team : Team → Db → Db
save_team team db = record db { teams = update_where (λ t. t.id == team.id) (λ _. team) db.teams }

unfoldable pub update_team : Db → ℕ → Option String → Option String → Option ℕ → Outcome (Team × Db)
update_team db team_id name description owner_user_id = do
  team ← _get_or_404 db team_id
  team' ← renamed db team name
  (team'', db') ← transferred db (described team' description) owner_user_id
  ok (team'', save_team team'' db')

abbrev pub unshare : ResourceProvider → ResourceProvider
unshare p = record p { visibility = owner; team_id = none }

unfoldable pub delete_team : Db → ℕ → Outcome Db
delete_team db team_id = do
  team ← _get_or_404 db team_id
  ok (
      save_team (record team { is_deleted = true })
        (record db {
          providers = update_where (λ p. is_id p.team_id team_id) unshare db.providers;
        }))

unfoldable pub list_teams : Db → CurrentUser → Bool → List Team
list_teams db user all_teams =
    select
      (λ t.
        not t.is_deleted
        && (all_teams
            || (_is_admin db user
                || any (λ m. m.user_id == user.user.id && m.team_id == t.id) db.team_members)))
      db.teams

pub record TeamCard : Type 0 where
  pub team : Team
  pub owner : Option User
  pub members_count : ℕ
  pub my_role : Option TeamRole

role_of : Option TeamMember → Option TeamRole
role_of none = none
role_of (some m) = some m.role

unfoldable pub get_team_card : Db → ℕ → CurrentUser → Outcome TeamCard
unfolding role_of
get_team_card db team_id user = do
  team ← _get_or_404 db team_id
  let mine = _get_member db team_id user.user.id
  guard (_is_admin db user || is_some mine) denied
  ok (record {
    team = team;
    owner = get_user db team.owner_user_id;
    members_count = _members_count db team.id;
    my_role = role_of mine;
  })

unfoldable pub add_member : Db → ℕ → ℕ → Outcome (TeamMember × Db)
add_member db team_id user_id = do
  team ← _get_or_404 db team_id
  guard (is_some (get_user db user_id)) unknown_user
  guard (not (is_some (_get_member db team_id user_id))) conflict
  let row : TeamMember = record { team_id = team_id; user_id = user_id; role = member }
  ok (row, record db { team_members = db.team_members ++ row ∷ [] })

unfoldable pub leads : Option TeamMember → Bool
leads none = false
leads (some m) = is_lead m.role

unfoldable pub remove_member : Db → ℕ → ℕ → CurrentUser → Outcome Db
unfolding leads
remove_member db team_id user_id actor = do
  team ← _get_or_404 db team_id
  guard (is_some (_get_member db team_id user_id)) not_found
  guard (not (user_id == team.owner_user_id)) lead_stays
  guard
      (user_id == actor.user.id
        || (leads (_get_member db team_id actor.user.id) || _is_admin db actor))
      denied
  ok (record db {
    team_members = delete_where (has_key team_id user_id) db.team_members;
    providers =
        update_where (λ p. is_id p.team_id team_id && is_id p.owner_user_id user_id) unshare
          db.providers;
  })

unfoldable pub list_members : Db → ℕ → Outcome (List TeamMember)
list_members db team_id = do
  team ← _get_or_404 db team_id
  ok (select (λ m. m.team_id == team_id) db.team_members)

unfoldable pub list_team_providers : Db → ℕ → Outcome (List ResourceProvider)
list_team_providers db team_id = do
  team ← _get_or_404 db team_id
  ok (select (λ p. is_id p.team_id team_id && not p.is_deleted) db.providers)
