-- ===== src/Teams/Cards.antt =====
-- Who sees a team (backend/app/services/team.py): the list of teams and the card of one team agree.
use big_bug.Prelude.{
  ℕ, ◌≡◌, sym, ◌∙◌, inl, inr, Bool, true, false, not, ◌&&◌, ◌||◌, none, some, arith, text_keys,
  number_keys, ◌==◌, is_some, Option-cases, any, find, any-select, find_sound, unique, any-found,
  is_ok, any_congr, is_some-find,
}
use big_bug.Identity.{Db, Team}
use big_bug.Rbac.Guards.{CurrentUser}
use big_bug.Teams.{has_key, _get_member, _get_or_404, _is_admin, list_teams, get_team_card}

visible : Db → CurrentUser → Team → Bool
visible db user t =
    not t.is_deleted
    && (_is_admin db user
        || any (λ m. m.user_id == user.user.id && m.team_id == t.id) db.team_members)

member_lem :
    (db : Db) (team_id user_id : ℕ)
    → is_some (_get_member db team_id user_id)
      ≡ any (λ m. m.user_id == user_id && m.team_id == team_id) db.team_members
unfolding _get_member
member_lem db team_id user_id =
    is_some-find (has_key team_id user_id) db.team_members
    ∙ any_congr (has_key team_id user_id) (λ m. m.user_id == user_id && m.team_id == team_id)
        db.team_members (λ m. ground arith)

card_lem :
    (db : Db) (team_id : ℕ) (user : CurrentUser)
    → is_ok (get_team_card db team_id user) ≡ elim (find (λ (t : Team). t.id == team_id) db.teams) [
      | none ↦ false
      | some t ↦ visible db user t
    ]
unfolding get_team_card _get_or_404 visible
card_lem db team_id user = elim (Option-cases (find (λ (t : Team). t.id == team_id) db.teams)) [
  | inl e ↦ ground (arith, e)
  | inr (t, e) ↦
      let same : t.id ≡ team_id =
        ground (arith, find_sound (λ (t : Team). t.id == team_id) db.teams e) in
      rw e (rw same (ground (arith, member_lem db team_id user.user.id)))
]

list_lem :
    (db : Db) (team_id : ℕ) (user : CurrentUser)
    → any (λ t. t.id == team_id) (list_teams db user false)
      ≡ any (λ t. visible db user t && t.id == team_id) db.teams
unfolding list_teams visible
list_lem db team_id user = any-select (λ (t : Team). t.id == team_id) (visible db user) db.teams

-- When team ids are unique, a user gets the card of a team exactly when `list_teams` lists it.
pub get_team_card-list_teams :
    (db : Db) (team_id : ℕ) (user : CurrentUser)
    → unique (λ (t : Team). t.id) db.teams ≡ true
    → is_ok (get_team_card db team_id user) ≡ any (λ t. t.id == team_id) (list_teams db user false)
get_team_card-list_teams db team_id user u =
    card_lem db team_id user
    ∙ sym (any-found (λ (t : Team). t.id) team_id (visible db user) db.teams u)
    ∙ sym (list_lem db team_id user)
