-- ===== src/Teams/Deleted.antt =====
-- What deleting a team leaves (backend/app/services/team.py).
use big_bug.Prelude.{
  ℕ, ◌≡◌, refl, ◌∙◌, subst, inl, inr, true, false, not, ◌&&◌, ◌||◌, some, List, [], ◌∷◌, arith,
  if◌then◌else◌, text_keys, number_keys, ◌==◌, Bool-cases, Option-cases, any, select, find,
  find_sound, update_where, ok_of_bind, ok_injective, find-update_where, all_mem,
  select-update_where, ok, err,
}
use big_bug.Identity.{Db, Team, ResourceProvider}
use big_bug.Teams.{is_id, unshare, save_team, _get_or_404, delete_team, not_found}
use big_bug.Teams.Led.Saved.{get_or_404_found}

abbrev without_team : Db → ℕ → Team → Db
without_team db team_id t =
    save_team (record t { is_deleted = true })
      (record db { providers = update_where (λ p. is_id p.team_id team_id) unshare db.providers })

found_after :
    (db : Db) (team_id id : ℕ) (t : Team)
    → find (λ (x : Team). x.id == team_id) db.teams ≡ some t
    → find (λ (x : Team). x.id == id) (without_team db team_id t).teams ≡ (
        if id == team_id
        then some (record t { is_deleted = true })
        else find (λ (x : Team). x.id == id) db.teams)
unfolding save_team
found_after db team_id id t e =
    let d : Team = record t { is_deleted = true } in
    let same = find_sound (λ (x : Team). x.id == team_id) db.teams e in
    find-update_where (λ (x : Team). x.id == id) (λ x. x.id == d.id) (λ _. d) db.teams
      (λ x k. ground arith)
    ∙ elim (Bool-cases (id == team_id)) [
      | inl hit ↦ let both : id ≡ team_id = ground arith in rw both (rw e (ground (arith, same)))
      | inr miss ↦ elim (Option-cases (find (λ (x : Team). x.id == id) db.teams)) [
        | inl nothing ↦ ground (arith, nothing)
        | inr (x, there) ↦
            let key = find_sound (λ (x : Team). x.id == id) db.teams there in
            ground (arith, there, key, same)
      ]
    ]

other_provider :
    (p : ResourceProvider) (team_id other : ℕ)
    → (other == team_id) ≡ false
    → (not (is_id p.team_id team_id)
        || not (is_id p.team_id other) && not (is_id (unshare p).team_id other))
      ≡ true
other_provider p team_id other ne = ground arith

none_shared :
    (team_id : ℕ) (rows : List ResourceProvider)
    → any (λ p. is_id p.team_id team_id) (update_where (λ p. is_id p.team_id team_id) unshare rows)
      ≡ false
none_shared team_id [] = refl
none_shared team_id (p ∷ rows) = ground (arith, none_shared team_id rows)

-- After a team is deleted, it is not found any more and no provider is shared with it, while every
-- other team is found, or not found, as before and the providers shared with it are the same.
pub delete_team_effect :
    (db : Db) (team_id : ℕ) {db' : Db}
    → delete_team db team_id ≡ ok db'
    → (_get_or_404 db' team_id ≡ err not_found)
      × (any (λ p. is_id p.team_id team_id) db'.providers ≡ false)
      × ((other : ℕ)
          → (other == team_id) ≡ false
          → (_get_or_404 db' other ≡ _get_or_404 db other)
            × (select (λ p. is_id p.team_id other) db'.providers
                ≡ select (λ p. is_id p.team_id other) db.providers))
unfolding delete_team _get_or_404 save_team
delete_team_effect db team_id {db'} h =
    let (t, found, h1) = ok_of_bind (_get_or_404 db team_id) _ h in
    let (row, _) = get_or_404_found db team_id found in
    subst
      (λ (d : Db).
        (_get_or_404 d team_id ≡ err not_found)
        × (any (λ p. is_id p.team_id team_id) d.providers ≡ false)
        × ((other : ℕ)
            → (other == team_id) ≡ false
            → (_get_or_404 d other ≡ _get_or_404 db other)
              × (select (λ p. is_id p.team_id other) d.providers
                  ≡ select (λ p. is_id p.team_id other) db.providers)))
      (ok_injective h1)
      (
        rw (found_after db team_id team_id t row) (ground arith),
        none_shared team_id db.providers,
        (λ other ne. (
          rw (found_after db team_id other t row) (rw ne refl),
          select-update_where (λ p. is_id p.team_id other) (λ p. is_id p.team_id team_id) unshare
              db.providers (all_mem _ db.providers (λ p _. other_provider p team_id other ne)),
        )),
      )
