-- ===== src/Teams/Led/Saved.antt =====
-- Saving a team (`save_team`), and the team that `_get_or_404` finds.
use big_bug.Prelude.{
  ℕ, ◌<◌, ◌≡◌, subst, ◌≢◌, inl, inr, true, false, some, List, arith, ltb, text_keys, number_keys,
  ◌==◌, Option-cases, all, find, find_sound, all_over_update, all-find, unique-overwrite, ok,
}
use big_bug.Identity.{Db, Team, TeamMember}
use big_bug.Teams.{_get_or_404, save_team}
use big_bug.Teams.Led.{IsLed, led_by}

-- `_get_or_404` finds a team that is led, under a drawn id.
pub get_or_404_lem :
    (db : Db) (team_id : ℕ) {team : Team}
    → _get_or_404 db team_id ≡ ok team
    → IsLed db
    → (team.id ≡ team_id) × (led_by db.team_members team ≡ true) × (team.id < db.next_team_id)
unfolding _get_or_404
get_or_404_lem db team_id {team} h l =
    elim (Option-cases (find (λ (t : Team). t.id == team_id) db.teams)) [
      | inl e ↦ ground arith
      | inr (t, e) ↦
          let same : t ≡ team = ground arith in
          let hit = find_sound (λ (t : Team). t.id == team_id) db.teams e in
          let below =
            all-find (λ (x : Team). ltb x.id db.next_team_id) (λ t. t.id == team_id) db.teams
              l.ids_drawn e in
          let leads = all-find (led_by db.team_members) (λ t. t.id == team_id) db.teams l.led e in
          subst
            (λ x. (x.id ≡ team_id) × (led_by db.team_members x ≡ true) × (x.id < db.next_team_id))
            same (ground arith, leads, ground arith)
    ]

pub get_or_404_found :
    (db : Db) (team_id : ℕ) {t : Team}
    → _get_or_404 db team_id ≡ ok t
    → (find (λ (x : Team). x.id == team_id) db.teams ≡ some t) × (t.is_deleted ≡ false)
unfolding _get_or_404
get_or_404_found db team_id {t} h =
    elim (Option-cases (find (λ (t : Team). t.id == team_id) db.teams)) [
      | inl e ↦ ground arith
      | inr (x, e) ↦
          let same : x ≡ t = ground arith in
          subst
            (λ x. (find (λ (x : Team). x.id == team_id) db.teams ≡ some x) × (x.is_deleted ≡ false))
            same (e, ground arith)
    ]

-- Saving a team under its id, beside rows by which it is led and the other teams still are.
pub save_team-IsLed :
    (db : Db) (t : Team) (rows : List TeamMember)
    → all (λ m. ltb m.team_id db.next_team_id) rows ≡ true
    → t.id < db.next_team_id
    → led_by rows t ≡ true
    → ((x : Team) → x.id ≢ t.id → led_by db.team_members x ≡ true → led_by rows x ≡ true)
    → IsLed db
    → IsLed (save_team t (record db { team_members = rows }))
unfolding save_team
save_team-IsLed db t rows drawn below leads others l = record {
  led =
      all_over_update (led_by db.team_members) (led_by rows) (λ x. x.id == t.id) (λ _. t) db.teams
        (λ x old. ground (arith, others x)) l.led;
  ids_unique = unique-overwrite (λ (x : Team). x.id) t db.teams l.ids_unique;
  ids_drawn =
      all_over_update (λ (x : Team). ltb x.id db.next_team_id) (λ x. ltb x.id db.next_team_id)
        (λ x. x.id == t.id) (λ _. t) db.teams (λ x old. ground arith) l.ids_drawn;
  rows_drawn = drawn;
}

pub unmoved-IsLed :
    (db : Db) (t : Team)
    → t.id < db.next_team_id
    → led_by db.team_members t ≡ true
    → IsLed db
    → IsLed (save_team t db)
unmoved-IsLed db t below leads l =
    save_team-IsLed db t db.team_members l.rows_drawn below leads (λ x ne old. old) l
