-- ===== src/Teams/Steps.antt =====
-- Sequences of successful team operations (backend/app/services/team.py).
use big_bug.Prelude.{ℕ, String, ◌≡◌, Option, text_keys, number_keys, ok}
use big_bug.Identity.{Db, Team, TeamMember}
use big_bug.Rbac.Guards.{CurrentUser}
use big_bug.Teams.{create_team, update_team, delete_team, add_member, remove_member}
use big_bug.Teams.Led.{IsLed}
use big_bug.Teams.Led.Updates.{update-IsLed}
use big_bug.Teams.Led.Rows.{create-IsLed, delete-IsLed, add-IsLed, remove-IsLed}

pub data Step (db : Db) : Db → Type 0 where
  created :
      (name : String) (description : Option String) (owner_user_id : ℕ) {team : Team} {db' : Db}
      → create_team db name description owner_user_id ≡ ok (team, db')
      → Step db db'
  updated :
      (team_id : ℕ) (name description : Option String) (owner_user_id : Option ℕ) {team : Team}
      {db' : Db}
      → update_team db team_id name description owner_user_id ≡ ok (team, db')
      → Step db db'
  deleted : (team_id : ℕ) {db' : Db} → delete_team db team_id ≡ ok db' → Step db db'
  added :
      (team_id user_id : ℕ) {row : TeamMember} {db' : Db}
      → add_member db team_id user_id ≡ ok (row, db')
      → Step db db'
  removed :
      (team_id user_id : ℕ) (actor : CurrentUser) {db' : Db}
      → remove_member db team_id user_id actor ≡ ok db'
      → Step db db'

pub data Reach (db : Db) : Db → Type 0 where
  here : Reach db db
  next : {mid last : Db} → Reach db mid → Step mid last → Reach db last

-- A successful call keeps every team led by its owner.
pub Step-IsLed : (db : Db) {db' : Db} → Step db db' → IsLed db → IsLed db'
Step-IsLed db (created name description owner_user_id e) l =
    create-IsLed db name description owner_user_id e l
Step-IsLed db (updated team_id name description owner_user_id e) l =
    update-IsLed db team_id name description owner_user_id e l
Step-IsLed db (deleted team_id e) l = delete-IsLed db team_id e l
Step-IsLed db (added team_id user_id e) l = add-IsLed db team_id user_id e l
Step-IsLed db (removed team_id user_id actor e) l = remove-IsLed db team_id user_id actor e l

-- From tables in which every team's owner is its one lead and in which the team ids, also those
-- that membership rows name, come from the sequence, every sequence of successful team creations,
-- updates, deletions, member additions and member removals leads to such tables again.
pub Reach-IsLed : (db : Db) {db' : Db} → Reach db db' → IsLed db → IsLed db'
Reach-IsLed db here l = l
Reach-IsLed db (next before s) l = Step-IsLed _ s (Reach-IsLed db before l)
