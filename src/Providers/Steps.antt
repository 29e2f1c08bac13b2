-- ===== src/Providers/Steps.antt =====
-- Sequences of operations on providers and teams (backend/app/services/providers/service.py,
-- backend/app/services/team.py).
use big_bug.Prelude.{
  ℕ, ◌+◌, ◌≡◌, refl, ap, ◌∙◌, subst, Bool, true, false, not, ◌&&◌, ◌||◌, Option, none, some, [],
  ◌∷◌, arith, ltb, text_keys, number_keys, ◌==◌, is_some, unique_among-update_where, any, select,
  all-append, update_where, unique-append_one, sequence-fresh, sequence-next, unique-update_where,
  ok_of_bind, guard_passed, ok_injective, all_mem, all-update_where, select-append, ok,
}
use mathlib.Core.List.{append-nil}
use big_bug.Identity.{Db, ResourceProvider, ProviderCategory, ProviderVisibility}
use big_bug.Rbac.Guards.{CurrentUser}
use big_bug.Teams.{
  _get_or_404, delete_team, remove_member, is_id, unshare, denied, conflict, save_team, _get_member,
  lead_stays, leads, _is_admin,
}
use big_bug.Providers.{is_system, is_private, is_shared, is_public, not_found}
use big_bug.Providers.Changes.{
  scope_of, scope_keys, ProviderCreate, create_provider, team_on_create, new_provider,
  visibility_on_create, owner_of, team_given, scope_of,
}
use big_bug.Providers.Updates.{
  ProviderUpdate, update_provider, share_provider, unshare_provider, delete_provider,
}
use big_bug.Providers.Placed.{IsPlaced, placed_well, is_live_default, id_of, is_open}
use big_bug.Providers.Keeps.{
  update_provider-IsPlaced, share_provider-IsPlaced, unshare_provider-IsPlaced,
  delete_provider-IsPlaced,
}

-- Where a new provider that is not of the system is placed.
create_place :
    (db : Db) (user : CurrentUser) (category : ProviderCategory) (v : ProviderVisibility)
    (given : Option ℕ) {team_id : Option ℕ}
    → is_system category ≡ false
    → team_on_create db user category v given ≡ ok team_id
    → ((not (is_private category) || is_some (owner_of category user.user.id))
        && ((not (is_shared (visibility_on_create category v))
              || is_some team_id && is_private category)
            && ((not (is_some team_id) || is_shared (visibility_on_create category v))
                && (not (is_open category) || is_public (visibility_on_create category v)))))
      ≡ true
unfolding team_on_create
create_place db user ProviderCategory.system v given n h = ground arith
create_place db user ProviderCategory.private ProviderVisibility.team none n h = cc
create_place db user ProviderCategory.private ProviderVisibility.team (some t) n h =
    let (team, _, h1) = ok_of_bind (team_given db user (some t)) _ h in rw (← ok_injective h1) refl
create_place db user ProviderCategory.private ProviderVisibility.owner given n h =
    rw (← ok_injective h) refl
create_place db user ProviderCategory.private ProviderVisibility.public given n h =
    rw (← ok_injective h) refl
create_place db user ProviderCategory.public ProviderVisibility.team none n h = cc
create_place db user ProviderCategory.public ProviderVisibility.team (some t) n h = cc
create_place db user ProviderCategory.public ProviderVisibility.owner given n h =
    rw (← ok_injective h) refl
create_place db user ProviderCategory.public ProviderVisibility.public given n h =
    rw (← ok_injective h) refl

create_provider-IsPlaced :
    (db : Db) (user : CurrentUser) (payload : ProviderCreate) {p : ResourceProvider} {db' : Db}
    → create_provider db user payload ≡ ok (p, db')
    → IsPlaced db
    → IsPlaced db'
unfolding create_provider
create_provider-IsPlaced db user payload h s =
    let (n, h1) = guard_passed (not (is_system payload.category)) denied h in
    let (_, h2) =
      guard_passed (not (any (λ p. p.name == payload.name && not p.is_deleted) db.providers))
        conflict h1 in
    let (team_id, t, h3) =
      ok_of_bind (team_on_create db user payload.category payload.visibility payload.team_id) _
        h2 in
    let row : ResourceProvider =
      new_provider db.next_provider_id payload
        (visibility_on_create payload.category payload.visibility)
        (owner_of payload.category user.user.id) team_id in
    let placing : placed_well row ≡ true =
      create_place db user payload.category payload.visibility payload.team_id (ground arith) t in
    let below : ltb db.next_provider_id (db.next_provider_id + 1) ≡ true = ground arith in
    subst IsPlaced (ap (λ r. r.1) (ok_injective h3)) (record {
      ids =
          unique-append_one id_of db.providers row s.ids
            (sequence-fresh id_of db.next_provider_id db.providers s.sequence);
      sequence =
          all-append (λ p. ltb p.id (db.next_provider_id + 1)) db.providers (row ∷ [])
          ∙ rw (sequence-next id_of db.next_provider_id db.providers s.sequence, below) refl;
      places = all-append placed_well db.providers (row ∷ []) ∙ rw (s.places, placing) refl;
      one_default =
          rw (select-append is_live_default db.providers (row ∷ []))
            (rw (append-nil (select is_live_default db.providers)) s.one_default);
    })

-- Taking providers back from a team.
unshare-IsPlaced :
    (db db' : Db) (q : ResourceProvider → Bool)
    → ((p : ResourceProvider) → q p ≡ true → is_some p.team_id ≡ true)
    → db'.providers ≡ update_where q unshare db.providers
    → db'.next_provider_id ≡ db.next_provider_id
    → IsPlaced db
    → IsPlaced db'
unshare-IsPlaced db db' q shared rows next s = record {
  ids = rw rows (unique-update_where id_of q unshare (λ p. refl) db.providers s.ids);
  sequence = rw (rows, next) (all-update_where _ q unshare db.providers (λ p t h. h) s.sequence);
  places = rw rows (
      all-update_where placed_well q unshare db.providers (λ p t h. ground (arith, shared p))
        s.places);
  one_default = rw rows (
      unique_among-update_where scope_of is_live_default q unshare db.providers
        (all_mem _ db.providers
          (λ p m. ground (arith, (scope_keys.agrees (scope_of p) (scope_of p)).1 refl)))
        s.one_default);
}

team_id_there : (o : Option ℕ) (id : ℕ) → is_id o id ≡ true → is_some o ≡ true
team_id_there none id h = h
team_id_there (some k) id h = refl

delete_team-IsPlaced :
    (db : Db) (team_id : ℕ) {db' : Db}
    → delete_team db team_id ≡ ok db'
    → IsPlaced db
    → IsPlaced db'
unfolding delete_team save_team
delete_team-IsPlaced db team_id h s =
    let (team, _, h1) = ok_of_bind (_get_or_404 db team_id) _ h in
    subst IsPlaced (ok_injective h1) (
      unshare-IsPlaced db _ (λ p. is_id p.team_id team_id) (λ p. team_id_there p.team_id team_id)
        refl refl s)

remove_member-IsPlaced :
    (db : Db) (team_id user_id : ℕ) (actor : CurrentUser) {db' : Db}
    → remove_member db team_id user_id actor ≡ ok db'
    → IsPlaced db
    → IsPlaced db'
unfolding remove_member
remove_member-IsPlaced db team_id user_id actor h s =
    let (team, _, h1) = ok_of_bind (_get_or_404 db team_id) _ h in
    let (_, h2) = guard_passed (is_some (_get_member db team_id user_id)) not_found h1 in
    let (_, h3) = guard_passed (not (user_id == team.owner_user_id)) lead_stays h2 in
    let (_, h4) =
      guard_passed
        (user_id == actor.user.id
          || (leads (_get_member db team_id actor.user.id) || _is_admin db actor))
        denied h3 in
    subst IsPlaced (ok_injective h4) (
      unshare-IsPlaced db _ (λ p. is_id p.team_id team_id && is_id p.owner_user_id user_id)
        (λ p t. team_id_there p.team_id team_id (ground arith)) refl refl s)

pub data Step (db : Db) : Db → Type 0 where
  created :
      (user : CurrentUser) (payload : ProviderCreate) {p : ResourceProvider} {db' : Db}
      → create_provider db user payload ≡ ok (p, db')
      → Step db db'
  updated :
      (provider_id : ℕ) (user : CurrentUser) (payload : ProviderUpdate) {db' : Db}
      → update_provider db provider_id user payload ≡ ok db'
      → Step db db'
  shared :
      (provider_id team_id : ℕ) (user : CurrentUser) {db' : Db}
      → share_provider db provider_id team_id user ≡ ok db'
      → Step db db'
  unshared :
      (provider_id : ℕ) (user : CurrentUser) {db' : Db}
      → unshare_provider db provider_id user ≡ ok db'
      → Step db db'
  deleted :
      (provider_id : ℕ) (user : CurrentUser) (used : Bool) {db' : Db}
      → delete_provider db provider_id user used ≡ ok db'
      → Step db db'
  team_deleted : (team_id : ℕ) {db' : Db} → delete_team db team_id ≡ ok db' → Step db db'
  member_removed :
      (team_id user_id : ℕ) (actor : CurrentUser) {db' : Db}
      → remove_member db team_id user_id actor ≡ ok db'
      → Step db db'

pub data Reach (db : Db) : Db → Type 0 where
  here : Reach db db
  next : {mid last : Db} → Reach db mid → Step mid last → Reach db last

Step-IsPlaced : (db : Db) {db' : Db} → Step db db' → IsPlaced db → IsPlaced db'
Step-IsPlaced db (created user payload e) s = create_provider-IsPlaced db user payload e s
Step-IsPlaced db (updated id user payload e) s = update_provider-IsPlaced db id user payload e s
Step-IsPlaced db (shared id team_id user e) s = share_provider-IsPlaced db id team_id user e s
Step-IsPlaced db (unshared id user e) s = unshare_provider-IsPlaced db id user e s
Step-IsPlaced db (deleted id user used e) s = delete_provider-IsPlaced db id user used e s
Step-IsPlaced db (team_deleted team_id e) s = delete_team-IsPlaced db team_id e s
Step-IsPlaced db (member_removed team_id user_id actor e) s =
    remove_member-IsPlaced db team_id user_id actor e s

-- From tables with unique provider ids below the sequence, in which private providers have an owner,
-- exactly the shared ones have a team and are private, those of the public category are public, and
-- each scope of domain, subtype, category and direction has at most one live default, every sequence
-- of successful creations, updates, sharings, unsharings and deletions of providers, deletions of
-- teams and removals of team members leads to such tables again.
pub Reach-IsPlaced : (db : Db) {db' : Db} → Reach db db' → IsPlaced db → IsPlaced db'
Reach-IsPlaced db here s = s
Reach-IsPlaced db (next before step) s = Step-IsPlaced _ step (Reach-IsPlaced db before s)
