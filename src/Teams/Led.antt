-- ===== src/Teams/Led.antt =====
-- The lead invariant of backend/app/services/team.py: a team's owner is its one lead.
pub mod Saved
pub mod Updates
pub mod Rows
use big_bug.Prelude.{
  ℕ, ◌+◌, ◌≡◌, ◌∙◌, ◌≢◌, ◌⊎◌, inl, inr, Bool, true, false, not, ◌&&◌, ◌||◌, List, [], ◌∷◌, ◌++◌,
  arith, ltb, if◌then◌else◌, text_keys, number_keys, ◌==◌, Bool-cases, any, all, any-append,
  all-append, all_mono, update_where, unique, any-update_where, any_congr, all-update_where,
  all_both, any_mono, all_over_update,
}
use big_bug.Identity.{Db, Team, TeamMember, TeamRole, lead, member, is_lead}
use big_bug.Teams.{has_key, with_role, promote, demote}

-- The owner has a lead row of the team, and no other user has one.
abbrev pub led_by : List TeamMember → Team → Bool
led_by rows t =
    any (λ m. has_key t.id t.owner_user_id m && is_lead m.role) rows
    && all (λ m. not (m.team_id == t.id && is_lead m.role) || m.user_id == t.owner_user_id) rows

-- Ids of teams come from the sequence, also those that membership rows name.
pub record IsLed (db : Db) : Type 0 where
  pub led : all (led_by db.team_members) db.teams ≡ true
  pub ids_unique : unique (λ (t : Team). t.id) db.teams ≡ true
  pub ids_drawn : all (λ t. ltb t.id db.next_team_id) db.teams ≡ true
  pub rows_drawn : all (λ m. ltb m.team_id db.next_team_id) db.team_members ≡ true

-- Rows of other teams, and member rows, make no difference.
pub led_by-append :
    (rows : List TeamMember) (m : TeamMember) (t : Team)
    → ((m.team_id == t.id && is_lead m.role) ≡ false) ⊎ (m.user_id ≡ t.owner_user_id)
    → led_by rows t ≡ true
    → led_by (rows ++ m ∷ []) t ≡ true
led_by-append rows m t (inl e) h = ground (
  arith,
  any-append (λ x. has_key t.id t.owner_user_id x && is_lead x.role) rows (m ∷ []),
  all-append (λ x. not (x.team_id == t.id && is_lead x.role) || x.user_id == t.owner_user_id) rows
      (m ∷ []),
)
led_by-append rows m t (inr e) h = ground (
  arith,
  any-append (λ x. has_key t.id t.owner_user_id x && is_lead x.role) rows (m ∷ []),
  all-append (λ x. not (x.team_id == t.id && is_lead x.role) || x.user_id == t.owner_user_id) rows
      (m ∷ []),
)

-- No row of a team whose id is not drawn.
no_rows :
    (bound : ℕ) (rows : List TeamMember)
    → all (λ m. ltb m.team_id bound) rows ≡ true
    → (user_id : ℕ)
    → all (λ m. not (m.team_id == bound && is_lead m.role) || m.user_id == user_id) rows ≡ true
no_rows bound rows h user_id =
    all_mono (λ (m : TeamMember). ltb m.team_id bound) _ rows (λ m e. ground arith) h

pub drawn_grows :
    (bound : ℕ) (rows : List TeamMember)
    → all (λ m. ltb m.team_id bound) rows ≡ true
    → all (λ m. ltb m.team_id (bound + 1)) rows ≡ true
drawn_grows bound rows h =
    all_mono (λ (m : TeamMember). ltb m.team_id bound) (λ m. ltb m.team_id (bound + 1)) rows
      (λ m e. ground arith) h

-- `create_team`: the new team is led by its owner, the others as before.
pub created-led :
    (bound : ℕ) (rows : List TeamMember) (teams : List Team) (t : Team)
    → t.id ≡ bound
    → all (λ m. ltb m.team_id bound) rows ≡ true
    → all (λ x. ltb x.id bound) teams ≡ true
    → all (led_by rows) teams ≡ true
    → all
        (led_by (rows ++ record { team_id = t.id; user_id = t.owner_user_id; role = lead } ∷ []))
        (teams ++ t ∷ [])
      ≡ true
created-led bound rows teams t fresh drawn ids h =
    let m : TeamMember = record { team_id = t.id; user_id = t.owner_user_id; role = lead } in
    ground (
      arith,
      all-append (led_by (rows ++ m ∷ [])) teams (t ∷ []),
      all_both (λ (x : Team). ltb x.id bound) (led_by rows) (led_by (rows ++ m ∷ [])) teams
          (λ x below old. led_by-append rows m x (inl (ground arith)) old) ids h,
      all-append (λ x. not (x.team_id == t.id && is_lead x.role) || x.user_id == t.owner_user_id)
          rows (m ∷ []),
      any-append (λ x. has_key t.id t.owner_user_id x && is_lead x.role) rows (m ∷ []),
      no_rows bound rows drawn t.owner_user_id,
    )

abbrev lead_row : Team → TeamMember → Bool
lead_row t m = has_key t.id t.owner_user_id m && is_lead m.role

abbrev no_other_lead : Team → TeamMember → Bool
no_other_lead t m = not (m.team_id == t.id && is_lead m.role) || m.user_id == t.owner_user_id

-- A role written in another team's row.
led_by-elsewhere :
    (team_id user_id : ℕ) (role : TeamRole) (rows : List TeamMember) (t : Team)
    → t.id ≢ team_id
    → led_by rows t ≡ true
    → led_by (update_where (has_key team_id user_id) (with_role role) rows) t ≡ true
led_by-elsewhere team_id user_id role rows t ne h =
    let q = has_key team_id user_id in
    ground (
      arith,
      any-update_where (lead_row t) q (with_role role) rows,
      any_congr (λ x. if q x then lead_row t (with_role role x) else lead_row t x) (lead_row t) rows
          (λ x. ground arith),
      all-update_where (no_other_lead t) q (with_role role) rows (λ x e old. ground arith),
    )

-- Promoting the new owner and then demoting the old one moves the lead of that team.
module _ (team_id old new : ℕ) (moved : old ≢ new) where
  abbrev swap_rows : List TeamMember → List TeamMember
  swap_rows rows = demote team_id old (promote team_id new rows)

  promoted_elsewhere :
      (rows : List TeamMember) (t : Team)
      → t.id ≢ team_id
      → led_by rows t ≡ true
      → led_by (promote team_id new rows) t ≡ true
  unfolding promote
  promoted_elsewhere rows t ne h = elim (Bool-cases (any (has_key team_id new) rows)) [
    | inl there ↦ rw there (led_by-elsewhere team_id new lead rows t ne h)
    | inr missing ↦ rw missing (led_by-append rows _ t (inl (ground arith)) h)
  ]

  -- Another team keeps its lead.
  pub swapped_elsewhere :
      (rows : List TeamMember) (t : Team)
      → t.id ≢ team_id
      → led_by rows t ≡ true
      → led_by (swap_rows rows) t ≡ true
  unfolding demote
  swapped_elsewhere rows t ne h =
      led_by-elsewhere team_id old member (promote team_id new rows) t ne
        (promoted_elsewhere rows t ne h)

  abbrev new_row : TeamMember
  new_row = record { team_id = team_id; user_id = new; role = lead }

  abbrev lead_of : ℕ → TeamMember → Bool
  lead_of user_id m = has_key team_id user_id m && is_lead m.role

  abbrev old_or_new : TeamMember → Bool
  old_or_new m =
      not (m.team_id == team_id && is_lead m.role) || (m.user_id == old || m.user_id == new)

  promoted_lead : (rows : List TeamMember) → any (lead_of new) (promote team_id new rows) ≡ true
  unfolding promote
  promoted_lead rows = elim (Bool-cases (any (has_key team_id new) rows)) [
    | inl there ↦ rw there (
        any-update_where (lead_of new) (has_key team_id new) (with_role lead) rows
        ∙ any_mono (has_key team_id new)
            (λ x. if has_key team_id new x then lead_of new (with_role lead x) else lead_of new x)
            rows (λ x e. ground arith) there)
    | inr missing ↦ rw missing (ground (arith, any-append (lead_of new) rows (new_row ∷ [])))
  ]

  promoted_only :
      (rows : List TeamMember)
      → all (λ m. not (m.team_id == team_id && is_lead m.role) || m.user_id == old) rows ≡ true
      → all old_or_new (promote team_id new rows) ≡ true
  unfolding promote
  promoted_only rows h = elim (Bool-cases (any (has_key team_id new) rows)) [
    | inl there ↦ rw there (
        all_over_update (λ m. not (m.team_id == team_id && is_lead m.role) || m.user_id == old)
          old_or_new (has_key team_id new) (with_role lead) rows (λ x e. ground arith) h)
    | inr missing ↦ rw missing (
        ground (
          arith,
          all-append old_or_new rows (new_row ∷ []),
          all_mono (λ m. not (m.team_id == team_id && is_lead m.role) || m.user_id == old)
              old_or_new rows (λ x e. ground arith) h,
        ))
  ]

  -- The team has its new lead.
  pub swapped_here :
      (rows : List TeamMember) (t : Team)
      → t.id ≡ team_id
      → t.owner_user_id ≡ new
      → all (λ m. not (m.team_id == team_id && is_lead m.role) || m.user_id == old) rows ≡ true
      → led_by (swap_rows rows) t ≡ true
  unfolding demote
  swapped_here rows t same owned h =
      let mid = promote team_id new rows in
      let q = has_key team_id old in
      ground (
        arith,
        any-update_where (lead_row t) q (with_role member) mid,
        any_mono (lead_of new) (λ x. if q x then lead_row t (with_role member x) else lead_row t x)
            mid (λ x e. ground arith) (promoted_lead rows),
        all_over_update old_or_new (no_other_lead t) q (with_role member) mid (λ x e. ground arith)
            (promoted_only rows h),
      )
