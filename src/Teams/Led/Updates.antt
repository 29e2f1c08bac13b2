-- ===== src/Teams/Led/Updates.antt =====
-- `update_team` keeps the lead invariant, a transfer of the lead included.
use big_bug.Prelude.{
  ℕ, ◌<◌, String, ◌≡◌, refl, sym, ◌∙◌, subst, ◌≢◌, inl, inr, Bool, true, Option, none, some, List,
  [], ◌∷◌, arith, ltb, text_keys, number_keys, ◌==◌, Bool-cases, any, all, all-append,
  all_over_update, ok_of_bind, ok,
}
use big_bug.Identity.{Db, Team, TeamMember, lead, TeamRole, member}
use big_bug.Teams.{
  update_team, _get_or_404, save_team, demote, transferred, promote, has_key, with_role, renamed,
  described,
}
use big_bug.Teams.Led.{IsLed, led_by, swapped_here, swapped_elsewhere}
use big_bug.Teams.Led.Saved.{get_or_404_lem, save_team-IsLed, unmoved-IsLed}

swapped_drawn :
    (bound team_id old new : ℕ) (rows : List TeamMember)
    → team_id < bound
    → all (λ m. ltb m.team_id bound) rows ≡ true
    → all (λ m. ltb m.team_id bound) (demote team_id old (promote team_id new rows)) ≡ true
unfolding demote promote
swapped_drawn bound team_id old new rows below h =
    let q : TeamMember → Bool = λ m. ltb m.team_id bound in
    let step = λ (user_id : ℕ) (role : TeamRole) (xs : List TeamMember).
      all_over_update q q (has_key team_id user_id) (with_role role) xs (λ x e. ground arith) in
    elim (Bool-cases (any (has_key team_id new) rows)) [
      | inl there ↦ rw there (step old member _ (step new lead rows h))
      | inr missing ↦ rw missing (
          step old member _ (
            ground (
              arith,
              all-append q rows (record { team_id = team_id; user_id = new; role = lead } ∷ []),
              h,
            )))
    ]

stays :
    (db : Db) (t : Team) {t' : Team} {db' : Db}
    → t ≡ t'
    → db ≡ db'
    → IsLed (save_team t db)
    → IsLed (save_team t' db')
stays db t {t'} {db'} et ed h =
    subst (λ d. IsLed (save_team t' d)) ed (subst (λ x. IsLed (save_team x db)) et h)

transfer : Db → Team → ℕ → Db
transfer db t new = record db {
  team_members = demote t.id t.owner_user_id (promote t.id new db.team_members);
}

transfer-IsLed :
    (db : Db) (t : Team) (new : ℕ)
    → new ≢ t.owner_user_id
    → t.id < db.next_team_id
    → led_by db.team_members t ≡ true
    → IsLed db
    → IsLed (save_team (record t { owner_user_id = new }) (transfer db t new))
unfolding transfer
transfer-IsLed db t new ne below leads l =
    let moved : t.owner_user_id ≢ new = λ e. ne (sym e) in
    save_team-IsLed db (record t { owner_user_id = new })
      (demote t.id t.owner_user_id (promote t.id new db.team_members))
      (swapped_drawn db.next_team_id t.id t.owner_user_id new db.team_members below l.rows_drawn)
      below
      (swapped_here t.id t.owner_user_id new moved db.team_members
        (record t { owner_user_id = new }) refl refl (ground arith))
      (swapped_elsewhere t.id t.owner_user_id new moved db.team_members) l

transferred-IsLed :
    (db : Db) (t : Team) (owner_user_id : Option ℕ) {t' : Team} {db' : Db}
    → transferred db t owner_user_id ≡ ok (t', db')
    → t.id < db.next_team_id
    → led_by db.team_members t ≡ true
    → IsLed db
    → IsLed (save_team t' db')
unfolding transferred transfer
transferred-IsLed db t none {t'} {db'} h below leads l =
    stays db t (ground arith) (ground arith) (unmoved-IsLed db t below leads l)
transferred-IsLed db t (some new) {t'} {db'} h below leads l =
    elim (Bool-cases (new == t.owner_user_id)) [
      | inl e ↦ stays db t (ground arith) (ground arith) (unmoved-IsLed db t below leads l)
      | inr e ↦
          stays (transfer db t new) (record t { owner_user_id = new }) (ground arith) (ground arith)
            (transfer-IsLed db t new (ground arith) below leads l)
    ]

renamed_lem :
    (db : Db) (t : Team) (name : Option String) {t' : Team}
    → renamed db t name ≡ ok t'
    → (t'.id ≡ t.id) × (t'.owner_user_id ≡ t.owner_user_id)
unfolding renamed
renamed_lem db t none h = ground arith
renamed_lem db t (some name) h = ground arith

described_lem :
    (t : Team) (description : Option String)
    → ((described t description).id ≡ t.id)
      × ((described t description).owner_user_id ≡ t.owner_user_id)
unfolding described
described_lem t none = (refl, refl)
described_lem t (some d) = (refl, refl)

same_lead :
    (rows : List TeamMember) (t t' : Team)
    → t'.id ≡ t.id
    → t'.owner_user_id ≡ t.owner_user_id
    → led_by rows t ≡ true
    → led_by rows t' ≡ true
same_lead rows t t' ei eo h = rw ei (rw eo h)

pub update-IsLed :
    (db : Db) (team_id : ℕ) (name description : Option String) (owner_user_id : Option ℕ)
    {team : Team} {db' : Db}
    → update_team db team_id name description owner_user_id ≡ ok (team, db')
    → IsLed db
    → IsLed db'
unfolding update_team
update-IsLed db team_id name description owner_user_id {team} {db'} h l =
    let (t, found, h1) = ok_of_bind (_get_or_404 db team_id) _ h in
    let (t1, named, h2) = ok_of_bind (renamed db t name) _ h1 in
    let ((t2, db2), moved, h3) =
      ok_of_bind (transferred db (described t1 description) owner_user_id) _ h2 in
    let (_, leads, below) = get_or_404_lem db team_id found l in
    let (i1, o1) = renamed_lem db t name named in
    let (i2, o2) = described_lem t1 description in
    let t0 = described t1 description in
    let done =
      transferred-IsLed db t0 owner_user_id moved (ground arith)
        (same_lead db.team_members t t0 (i2 ∙ i1) (o2 ∙ o1) leads) l in
    let e : save_team t2 db2 ≡ db' = ground arith in subst IsLed e done
