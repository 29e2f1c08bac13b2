-- ===== src/Teams/Members.antt =====
-- What removing and adding a member leaves (backend/app/services/team.py).
use big_bug.Prelude.{
  ℕ, ◌≡◌, refl, subst, inl, inr, Bool, true, false, not, ◌&&◌, none, List, [], ◌∷◌, ◌++◌, arith,
  text_keys, number_keys, ◌==◌, Bool-cases, any, all, delete_where, find, any-append, update_where,
  ok_of_bind, is_some-find, any_mono, ok,
}
use big_bug.Identity.{Db, Team, TeamMember, member, is_lead, ResourceProvider}
use big_bug.Rbac.Guards.{CurrentUser}
use big_bug.Teams.{is_id, has_key, unshare, _get_member, _get_or_404, add_member, remove_member}
use big_bug.Teams.Led.{IsLed, led_by}
use big_bug.Teams.Led.Saved.{get_or_404_lem}

find-delete_where :
    (p q : TeamMember → Bool) (rows : List TeamMember)
    → ((m : TeamMember) → p m ≡ true → q m ≡ false)
    → find p (delete_where q rows) ≡ find p rows
find-delete_where p q [] h = refl
find-delete_where p q (m ∷ rows) h = ground (arith, h m, find-delete_where p q rows h)

find-deleted :
    (q : TeamMember → Bool) (rows : List TeamMember) → find q (delete_where q rows) ≡ none
find-deleted q [] = refl
find-deleted q (m ∷ rows) = ground (arith, find-deleted q rows)

all-updated :
    (p : ResourceProvider → Bool) (f : ResourceProvider → ResourceProvider)
    (rows : List ResourceProvider)
    → ((x : ResourceProvider) → p (f x) ≡ false)
    → all (λ x. not (p x)) (update_where p f rows) ≡ true
all-updated p f [] h = refl
all-updated p f (x ∷ rows) h = ground (arith, h x, all-updated p f rows h)

-- When a member is removed, the user is no member of the team, every other membership is found as
-- before, and no provider of the user is shared with the team.
pub remove_member_effect :
    (db : Db) (team_id user_id : ℕ) (actor : CurrentUser) {db' : Db}
    → remove_member db team_id user_id actor ≡ ok db'
    → (_get_member db' team_id user_id ≡ none)
      × ((other_team other_user : ℕ)
          → (other_team == team_id && other_user == user_id) ≡ false
          → _get_member db' other_team other_user ≡ _get_member db other_team other_user)
      × (all (λ p. not (is_id p.team_id team_id && is_id p.owner_user_id user_id)) db'.providers
          ≡ true)
unfolding remove_member _get_member
remove_member_effect db team_id user_id actor {db'} h =
    let (t, found, h1) = ok_of_bind (_get_or_404 db team_id) _ h in
    let gone : Db = record db {
      team_members = delete_where (has_key team_id user_id) db.team_members;
      providers =
          update_where (λ p. is_id p.team_id team_id && is_id p.owner_user_id user_id) unshare
            db.providers;
    } in
    let e : gone ≡ db' = ground arith in
    subst
      (λ (d : Db).
        (find (has_key team_id user_id) d.team_members ≡ none)
        × ((other_team other_user : ℕ)
            → (other_team == team_id && other_user == user_id) ≡ false
            → find (has_key other_team other_user) d.team_members
              ≡ find (has_key other_team other_user) db.team_members)
        × (all (λ p. not (is_id p.team_id team_id && is_id p.owner_user_id user_id)) d.providers
            ≡ true))
      e
      (
        find-deleted (has_key team_id user_id) db.team_members,
        (λ other_team other_user ne.
            find-delete_where (has_key other_team other_user) (has_key team_id user_id)
              db.team_members (λ m k. ground arith)),
        all-updated (λ p. is_id p.team_id team_id && is_id p.owner_user_id user_id) unshare
            db.providers (λ x. refl),
      )

no_match_deleted :
    (q : TeamMember → Bool) (rows : List TeamMember) (m : TeamMember)
    → any q rows ≡ false
    → q m ≡ true
    → delete_where q (rows ++ m ∷ []) ≡ rows
no_match_deleted q [] m h e = ground arith
no_match_deleted q (x ∷ rows) m h e = ground (arith, no_match_deleted q rows m)

abbrev plain_row : ℕ → ℕ → TeamMember
plain_row team_id user_id = record { team_id = team_id; user_id = user_id; role = member }

abbrev with_row : Db → TeamMember → Db
with_row db m = record db { team_members = db.team_members ++ m ∷ [] }

add_member_lem :
    (db : Db) (team_id user_id : ℕ) {row : TeamMember} {db' : Db}
    → add_member db team_id user_id ≡ ok (row, db')
    → ((t : Team) × (_get_or_404 db team_id ≡ ok t))
      × (with_row db (plain_row team_id user_id) ≡ db')
      × (any (has_key team_id user_id) db.team_members ≡ false)
unfolding add_member _get_member
add_member_lem db team_id user_id h =
    let (t, found, h1) = ok_of_bind (_get_or_404 db team_id) _ h in
    let there = is_some-find (has_key team_id user_id) db.team_members in
    ((t, found), ground arith, ground (arith, there))

not_owner :
    (rows : List TeamMember) (t : Team) (team_id user_id : ℕ)
    → t.id ≡ team_id
    → any (has_key team_id user_id) rows ≡ false
    → led_by rows t ≡ true
    → (user_id == t.owner_user_id) ≡ false
not_owner rows t team_id user_id same absent leads =
    elim (Bool-cases (user_id == t.owner_user_id)) [
      | inl e ↦
          let owns =
            any_mono (λ m. has_key t.id t.owner_user_id m && is_lead m.role)
              (has_key team_id user_id) rows (λ m k. ground arith) (ground arith) in
          ground (arith, owns)
      | inr e ↦ e
    ]

without_row : Db → ℕ → ℕ → Db
without_row db team_id user_id = record db {
  team_members = delete_where (has_key team_id user_id) db.team_members;
  providers =
      update_where (λ p. is_id p.team_id team_id && is_id p.owner_user_id user_id) unshare
        db.providers;
}

leave_lem :
    (db : Db) (team_id : ℕ) (t : Team) (actor : CurrentUser)
    → _get_or_404 db team_id ≡ ok t
    → any (has_key team_id actor.user.id) db.team_members ≡ true
    → (actor.user.id == t.owner_user_id) ≡ false
    → remove_member db team_id actor.user.id actor ≡ ok (without_row db team_id actor.user.id)
unfolding remove_member _get_member without_row
leave_lem db team_id t actor found present ne =
    ground (arith, is_some-find (has_key team_id actor.user.id) db.team_members)

joined_lem :
    (db : Db) (team_id : ℕ) (t : Team) (actor : CurrentUser)
    → _get_or_404 db team_id ≡ ok t
    → any (has_key team_id actor.user.id) db.team_members ≡ false
    → (actor.user.id == t.owner_user_id) ≡ false
    → (last : Db) × (remove_member
          (with_row db (plain_row team_id actor.user.id))
          team_id
          actor.user.id
          actor
        ≡ ok last)
      × (last.team_members ≡ db.team_members)
unfolding without_row _get_or_404
joined_lem db team_id t actor found absent ne =
    let m = plain_row team_id actor.user.id in
    let key = has_key team_id actor.user.id in
    (
      without_row (with_row db m) team_id actor.user.id,
      leave_lem (with_row db m) team_id t actor found
          (ground (arith, any-append key db.team_members (m ∷ []))) ne,
      no_match_deleted key db.team_members m absent (ground arith),
    )

-- In tables where teams are led by their owners, a user who is added to a team can leave it again,
-- and that leaves all membership rows as they were before.
pub add-remove_member :
    (db : Db) (team_id : ℕ) (actor : CurrentUser) {row : TeamMember} {db' : Db}
    → IsLed db
    → add_member db team_id actor.user.id ≡ ok (row, db')
    → (last : Db) × (remove_member db' team_id actor.user.id actor ≡ ok last)
      × (last.team_members ≡ db.team_members)
add-remove_member db team_id actor {row} {db'} l h =
    let ((t, found), e, absent) = add_member_lem db team_id actor.user.id h in
    let (same, leads, _) = get_or_404_lem db team_id found l in
    let ne = not_owner db.team_members t team_id actor.user.id same absent leads in
    subst
      (λ d.
        (last : Db) × (remove_member d team_id actor.user.id actor ≡ ok last)
        × (last.team_members ≡ db.team_members))
      e (joined_lem db team_id t actor found absent ne)
