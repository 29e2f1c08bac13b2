-- ===== src/Providers/Access.antt =====
-- The list of providers and the reading of one provider (`list_providers` and `get_provider` in
-- backend/app/services/providers/service.py) compared.
use big_bug.Prelude.{
  ◌≡◌, refl, sym, ap, ◌∙◌, inl, inr, Bool, true, false, not, ◌&&◌, ◌||◌, some, arith, text_keys,
  number_keys, ◌==◌, Bool-cases, any, find, any-select, unique, any-found, is_ok, all-find,
}
use big_bug.Identity.{Db, ResourceProvider, ProviderCategory}
use big_bug.Rbac.Guards.{CurrentUser}
use big_bug.Teams.{is_id}
use big_bug.Providers.{
  has_permission, is_public, can_read, is_listed, list_providers, get_provider, _get_or_404,
  _ensure_can_read, found_live, is_private, is_shared, in_team,
}
use big_bug.Providers.Placed.{placed_well, id_of, IsPlaced}

-- How a provider appears in the list, from its category, whether its visibility is public, whether it
-- can be read, and whether the caller manages or owns it.
abbrev pub appears : ProviderCategory → Bool → Bool → Bool → Bool
appears ProviderCategory.private is_public readable manages = is_public || readable
appears ProviderCategory.public is_public readable manages = readable
appears ProviderCategory.system is_public readable manages = readable && (is_public || manages)

abbrev pub manages : Db → CurrentUser → ResourceProvider → Bool
manages db user p =
    has_permission db user "providers:read_all"
    || (has_permission db user "providers_system:write" || is_id p.owner_user_id user.user.id)

read_lem :
    (db : Db) (user : CurrentUser) (p : ResourceProvider)
    → find (λ (x : ResourceProvider). x.id == p.id) db.providers ≡ some p
    → p.is_deleted ≡ false
    → is_ok (get_provider db p.id user) ≡ can_read db p user
unfolding get_provider _get_or_404 found_live _ensure_can_read
read_lem db user p found lives =
    rw (found, lives)
      (elim (Bool-cases (can_read db p user)) [ inl e ↦ rw e refl | inr e ↦ rw e refl ])

listed_lem :
    (db : Db) (user : CurrentUser) (p : ResourceProvider)
    → unique id_of db.providers ≡ true
    → find (λ (x : ResourceProvider). x.id == p.id) db.providers ≡ some p
    → p.is_deleted ≡ false
    → any (λ (x : ResourceProvider). x.id == p.id) (list_providers db user)
      ≡ (has_permission db user "providers:read_all" || is_listed db user p)
unfolding list_providers
listed_lem db user p u found lives =
    any-select (λ (x : ResourceProvider). x.id == p.id)
      (λ x.
        not x.is_deleted && (has_permission db user "providers:read_all" || is_listed db user x))
      db.providers
    ∙ (any-found id_of p.id
          (λ x.
            not x.is_deleted
            && (has_permission db user "providers:read_all" || is_listed db user x))
          db.providers u
        ∙ rw (found, lives) refl)

agree :
    (db : Db) (user : CurrentUser) (p : ResourceProvider) (c : ProviderCategory)
    → p.category ≡ c
    → placed_well p ≡ true
    → (has_permission db user "providers:read_all" || is_listed db user p)
      ≡ appears c (is_public p.visibility) (can_read db p user) (manages db user p)
unfolding is_listed can_read
agree db user p ProviderCategory.private e h = ground arith
agree db user p ProviderCategory.public e h = ground arith
agree db user p ProviderCategory.system e h = ground arith

-- In tables with unique ids and well-placed rows, a live provider can be read exactly by holders of
-- `providers:read_all`, by everyone if it is not private, by its owner, and by the members of the team
-- that it is shared with. It is listed as follows: a private one for those who can read it, and for
-- everyone if its visibility is public; one of the public category for those who can read it; a system
-- one for everyone if its visibility is public, and otherwise for holders of `providers:read_all` or
-- `providers_system:write` and its owner.
pub list_providers-get_provider :
    (db : Db) (user : CurrentUser) (p : ResourceProvider)
    → IsPlaced db
    → find (λ (x : ResourceProvider). x.id == p.id) db.providers ≡ some p
    → p.is_deleted ≡ false
    → (is_ok (get_provider db p.id user) ≡ (
        has_permission db user "providers:read_all"
        || (not (is_private p.category)
            || (is_id p.owner_user_id user.user.id
                || is_shared p.visibility && in_team db p.team_id user.user.id))))
      × (any (λ (x : ResourceProvider). x.id == p.id) (list_providers db user)
          ≡ appears p.category
              (is_public p.visibility)
              (is_ok (get_provider db p.id user))
              (manages db user p))
unfolding can_read
list_providers-get_provider db user p s found lives =
    let placing = all-find placed_well _ db.providers s.places found in
    let readable = read_lem db user p found lives in
    (
      readable,
      listed_lem db user p s.ids found lives
          ∙ (agree db user p p.category refl placing
              ∙ ap (λ b. appears p.category (is_public p.visibility) b (manages db user p))
                  (sym readable)),
    )
