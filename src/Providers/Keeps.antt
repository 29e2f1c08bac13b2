-- ===== src/Providers/Keeps.antt =====
-- The operations on providers keep the rules of their table
-- (backend/app/services/providers/service.py).
use big_bug.Prelude.{
  ℕ, ◌≡◌, refl, sym, ap, subst, inl, inr, Bool, true, false, not, ◌||◌, Option, none, some, List,
  arith, if◌then◌else◌, text_keys, number_keys, ◌==◌, is_some, Bool-cases, find, find_sound,
  ok_of_bind, guard_passed, ok_injective, all-find, ok,
}
use big_bug.Identity.{Db, ResourceProvider, ProviderVisibility}
use big_bug.Rbac.Guards.{CurrentUser}
use big_bug.Teams.{Outcome, denied, conflict, unshare}
use big_bug.Providers.{
  _get_or_404, found_live, _ensure_can_mutate, _ensure_can_set_default, is_private, is_shared,
}
use big_bug.Providers.Changes.{bad_request, team_given}
use big_bug.Providers.Updates.{
  ProviderUpdate, update_provider, share_provider, unshare_provider, delete_provider, plain_update,
  visibility_if_given, _apply_visibility, with_visibility, default_if_given, may_share,
  owns_or_admin, share_with, same_category, set_or_keep, set_if_given,
}
use big_bug.Providers.Placed.{
  IsPlaced, IsChange, placed_well, save_provider-IsPlaced, _unset_previous_default-IsPlaced,
}

found_live_ok :
    (o : Option ResourceProvider) {p : ResourceProvider}
    → found_live o ≡ ok p
    → (o ≡ some p) × (p.is_deleted ≡ false)
unfolding found_live
found_live_ok none h = cc
found_live_ok (some q) {p} h = elim (Bool-cases q.is_deleted) [
  | inl gone ↦ ground arith
  | inr lives ↦
      let same : q ≡ p = ground arith in
      (ap some same, subst (λ (x : ResourceProvider). x.is_deleted ≡ false) same lives)
]

-- A provider that is read is the live row with its id.
pub get_or_404_lem :
    (db : Db) (provider_id : ℕ) {p : ResourceProvider}
    → _get_or_404 db provider_id ≡ ok p
    → (find (λ (x : ResourceProvider). x.id == p.id) db.providers ≡ some p) × (p.is_deleted ≡ false)
unfolding _get_or_404
get_or_404_lem db provider_id {p} h =
    let (found, lives) = found_live_ok (find (λ p. p.id == provider_id) db.providers) h in
    let same : p.id ≡ provider_id =
      (number_keys.agrees p.id provider_id).0
        (find_sound (λ (x : ResourceProvider). x.id == provider_id) db.providers found) in
    (
      subst (λ k. find (λ (x : ResourceProvider). x.id == k) db.providers ≡ some p) (sym same)
          found,
      lives,
    )

plain_update-IsChange :
    (payload : ProviderUpdate) (p : ResourceProvider)
    → placed_well p ≡ true
    → IsChange p (plain_update payload p)
unfolding plain_update
plain_update-IsChange payload p h = record {
  id = refl;
  scope = refl;
  default = refl;
  deleted = λ e. e;
  placing = h;
}

with_visibility-IsChange :
    (db : Db) (user : CurrentUser) (v : ProviderVisibility) (team_id : Option ℕ)
    (old p : ResourceProvider) {a : ResourceProvider}
    → is_private p.category ≡ true
    → IsChange old p
    → with_visibility db user v team_id p ≡ ok a
    → IsChange old a
unfolding with_visibility
with_visibility-IsChange db user ProviderVisibility.team team_id old p private c h =
    let (team, _, h1) = ok_of_bind (team_given db user team_id) _ h in
    subst (IsChange old) (ok_injective h1) (record {
      id = c.id;
      scope = c.scope;
      default = c.default;
      deleted = c.deleted;
      placing = ground (arith, c.placing);
    })
with_visibility-IsChange db user ProviderVisibility.owner team_id old p private c h =
    subst (IsChange old) (ok_injective h) (record {
      id = c.id;
      scope = c.scope;
      default = c.default;
      deleted = c.deleted;
      placing = ground (arith, c.placing);
    })
with_visibility-IsChange db user ProviderVisibility.public team_id old p private c h =
    subst (IsChange old) (ok_injective h) (record {
      id = c.id;
      scope = c.scope;
      default = c.default;
      deleted = c.deleted;
      placing = ground (arith, c.placing);
    })

visibility_if_given-IsChange :
    (db : Db) (user : CurrentUser) (payload : ProviderUpdate) (old p : ResourceProvider)
    {a : ResourceProvider}
    → IsChange old p
    → visibility_if_given db user payload p ≡ ok a
    → IsChange old a
unfolding visibility_if_given _apply_visibility
visibility_if_given-IsChange db user payload old p {a} c h =
    elim (Bool-cases (is_some payload.visibility || is_some payload.team_id)) [
      | inr none_given ↦
          subst (IsChange old)
            (ok_injective (subst (λ b. (if b then applied else ok p) ≡ ok a) none_given h)) c
      | inl some_given ↦
          let h0 : applied ≡ ok a =
            subst (λ b. (if b then applied else ok p) ≡ ok a) some_given h in
          let (_, h1) = guard_passed (may_share db user) denied h0 in
          let (private, h2) = guard_passed (is_private p.category) bad_request h1 in
          with_visibility-IsChange db user (set_or_keep payload.visibility p.visibility)
            (set_if_given payload.team_id p.team_id) old p private c h2
    ]
  where
    applied : Outcome ResourceProvider
    applied = _apply_visibility db user payload.visibility payload.team_id p

default_lem :
    (db : Db) (user : CurrentUser) (given_default : Option Bool) (old a : ResourceProvider)
    {rows : List ResourceProvider}
    → find (λ (x : ResourceProvider). x.id == old.id) db.providers ≡ some old
    → IsChange old a
    → IsPlaced db
    → default_if_given db user given_default a ≡ ok rows
    → IsPlaced (record db { providers = rows })
unfolding default_if_given
default_lem db user none old a found c s h =
    subst (λ r. IsPlaced (record db { providers = r })) (ok_injective h)
      (save_provider-IsPlaced db old a found c s)
default_lem db user (some false) old a found c s h =
    let (_, _, h1) = ok_of_bind (_ensure_can_set_default db user) _ h in
    subst (λ r. IsPlaced (record db { providers = r })) (ok_injective h1)
      (save_provider-IsPlaced db old a found c s)
default_lem db user (some true) old a found c s h =
    let (_, _, h1) = ok_of_bind (_ensure_can_set_default db user) _ h in
    subst (λ r. IsPlaced (record db { providers = r })) (ok_injective h1)
      (_unset_previous_default-IsPlaced db old a found c s)

pub update_provider-IsPlaced :
    (db : Db) (provider_id : ℕ) (user : CurrentUser) (payload : ProviderUpdate) {db' : Db}
    → update_provider db provider_id user payload ≡ ok db'
    → IsPlaced db
    → IsPlaced db'
unfolding update_provider
update_provider-IsPlaced db provider_id user payload h s =
    let (old, e, h1) = ok_of_bind (_get_or_404 db provider_id) _ h in
    let (found, lives) = get_or_404_lem db provider_id e in
    let (_, _, h2) = ok_of_bind (_ensure_can_mutate db old user) _ h1 in
    let (_, h3) = guard_passed (same_category payload.category old.category) bad_request h2 in
    let (a, v, h4) =
      ok_of_bind (visibility_if_given db user payload (plain_update payload old)) _ h3 in
    let (rows, r, h5) = ok_of_bind (default_if_given db user payload.is_default a) _ h4 in
    let placing = all-find placed_well _ db.providers s.places found in
    let c =
      visibility_if_given-IsChange db user payload old _ (plain_update-IsChange payload old placing)
        v in
    subst IsPlaced (ok_injective h5) (default_lem db user payload.is_default old a found c s r)

pub share_provider-IsPlaced :
    (db : Db) (provider_id team_id : ℕ) (user : CurrentUser) {db' : Db}
    → share_provider db provider_id team_id user ≡ ok db'
    → IsPlaced db
    → IsPlaced db'
unfolding share_provider
share_provider-IsPlaced db provider_id team_id user h s =
    let (old, e, h1) = ok_of_bind (_get_or_404 db provider_id) _ h in
    let (found, lives) = get_or_404_lem db provider_id e in
    let (_, h2) = guard_passed (may_share db user) denied h1 in
    let (_, h3) = guard_passed (owns_or_admin db user old) denied h2 in
    let (private, h4) = guard_passed (is_private old.category) bad_request h3 in
    let (_, h5) = guard_passed (not (is_shared old.visibility)) conflict h4 in
    let (_, _, h6) = ok_of_bind (team_given db user (some team_id)) _ h5 in
    let placing = all-find placed_well _ db.providers s.places found in
    subst IsPlaced (ok_injective h6) (
      save_provider-IsPlaced db old (share_with team_id old) found
        (record {
          id = refl;
          scope = refl;
          default = refl;
          deleted = λ d. d;
          placing = ground arith;
        })
        s)

pub unshare_provider-IsPlaced :
    (db : Db) (provider_id : ℕ) (user : CurrentUser) {db' : Db}
    → unshare_provider db provider_id user ≡ ok db'
    → IsPlaced db
    → IsPlaced db'
unfolding unshare_provider
unshare_provider-IsPlaced db provider_id user h s =
    let (old, e, h1) = ok_of_bind (_get_or_404 db provider_id) _ h in
    let (found, lives) = get_or_404_lem db provider_id e in
    let (_, h2) = guard_passed (may_share db user) denied h1 in
    let (_, h3) = guard_passed (owns_or_admin db user old) denied h2 in
    let (shared, h4) = guard_passed (is_shared old.visibility) conflict h3 in
    let placing = all-find placed_well _ db.providers s.places found in
    subst IsPlaced (ok_injective h4) (
      save_provider-IsPlaced db old (unshare old) found
        (record {
          id = refl;
          scope = refl;
          default = refl;
          deleted = λ d. d;
          placing = ground arith;
        })
        s)

pub delete_provider-IsPlaced :
    (db : Db) (provider_id : ℕ) (user : CurrentUser) (used : Bool) {db' : Db}
    → delete_provider db provider_id user used ≡ ok db'
    → IsPlaced db
    → IsPlaced db'
unfolding delete_provider
delete_provider-IsPlaced db provider_id user used h s =
    let (old, e, h1) = ok_of_bind (_get_or_404 db provider_id) _ h in
    let (found, lives) = get_or_404_lem db provider_id e in
    let (_, _, h2) = ok_of_bind (_ensure_can_mutate db old user) _ h1 in
    let (_, h3) = guard_passed (not old.is_protected) conflict h2 in
    let (_, h4) = guard_passed (not used) conflict h3 in
    let placing = all-find placed_well _ db.providers s.places found in
    subst IsPlaced (ok_injective h4) (
      save_provider-IsPlaced db old (record old { is_deleted = true }) found
        (record {
          id = refl;
          scope = refl;
          default = refl;
          deleted = λ d. lives;
          placing = placing;
        })
        s)
