-- ===== src/Providers/Placed.antt =====
-- The rules that the table of resource providers obeys: the check constraints and the unique index on
-- defaults of backend/app/models/resource_provider.py, and what
-- backend/app/services/providers/service.py adds to them.
use big_bug.Prelude.{
  ℕ, ◌≡◌, refl, sym, subst, Bool, true, false, not, ◌&&◌, ◌||◌, some, List, arith, ltb, text_keys,
  number_keys, ◌==◌, is_some, keeps_key, unique_among-update_where, key_free,
  unique_among-overwrite, all, select, find, update_where, unique, only_row, unique-overwrite,
  unique-update_where, all_mem, all-update_where, all_over_update, all-find,
}
use big_bug.Identity.{Db, ResourceProvider, ProviderCategory}
use big_bug.Providers.{is_private, is_shared, is_public}
use big_bug.Providers.Changes.{scope_of, scope_keys}
use big_bug.Providers.Updates.{other_default, not_default, save_provider, _unset_previous_default}

abbrev pub is_open : ProviderCategory → Bool
is_open ProviderCategory.public = true
is_open _ = false

-- A private provider has an owner, a shared one is private and has a team, only a shared one has a
-- team, and a provider of the public category is public.
abbrev pub placed_well : ResourceProvider → Bool
placed_well p =
    (not (is_private p.category) || is_some p.owner_user_id)
    && ((not (is_shared p.visibility) || is_some p.team_id && is_private p.category)
        && ((not (is_some p.team_id) || is_shared p.visibility)
            && (not (is_open p.category) || is_public p.visibility)))

abbrev pub is_live_default : ResourceProvider → Bool
is_live_default p = p.is_default && not p.is_deleted

abbrev pub id_of : ResourceProvider → ℕ
id_of p = p.id

pub record IsPlaced (db : Db) : Type 0 where
  pub ids : unique id_of db.providers ≡ true
  pub sequence : all (λ p. ltb p.id db.next_provider_id) db.providers ≡ true
  pub places : all placed_well db.providers ≡ true
  pub one_default : unique scope_of (select is_live_default db.providers) ≡ true

-- What a change of one row keeps: its id, its scope and its flags; and it is placed well again.
pub record IsChange (old a : ResourceProvider) : Type 0 where
  pub id : a.id ≡ old.id
  pub scope : scope_of a ≡ scope_of old
  pub default : a.is_default ≡ old.is_default
  pub deleted : a.is_deleted ≡ false → old.is_deleted ≡ false
  pub placing : placed_well a ≡ true

module _ (db : Db) (old a : ResourceProvider)
    (found : find (λ (p : ResourceProvider). p.id == old.id) db.providers ≡ some old)
    (change : IsChange old a) (s : IsPlaced db) where
  in_sequence : ltb a.id db.next_provider_id ≡ true
  in_sequence =
      rw change.id (all-find (λ p. ltb p.id db.next_provider_id) _ db.providers s.sequence found)

  kept : (not (is_live_default a) || is_live_default old && scope_of a == scope_of old) ≡ true
  kept = ground (
    arith,
    (scope_keys.agrees (scope_of a) (scope_of old)).1 change.scope,
    change.default,
    change.deleted,
  )

  kept_defaults :
      all (keeps_key scope_of is_live_default (λ p. p.id == a.id) (λ _. a)) db.providers ≡ true
  kept_defaults =
      subst
        (λ k.
          all
            (λ (p : ResourceProvider).
              not (p.id == k)
              || (not (is_live_default a) || is_live_default p && scope_of a == scope_of p))
            db.providers
          ≡ true)
        (sym change.id)
        (only_row id_of old.id
          (λ p. not (is_live_default a) || is_live_default p && scope_of a == scope_of p)
          db.providers s.ids found kept)

  pub save_provider-IsPlaced : IsPlaced (record db { providers = save_provider a db.providers })
  save_provider-IsPlaced = record {
    ids = unique-overwrite id_of a db.providers s.ids;
    sequence =
        all-update_where _ (λ p. p.id == a.id) (λ _. a) db.providers (λ p t h. in_sequence)
          s.sequence;
    places =
        all-update_where _ (λ p. p.id == a.id) (λ _. a) db.providers (λ p t h. change.placing)
          s.places;
    one_default =
        unique_among-update_where scope_of is_live_default (λ p. p.id == a.id) (λ _. a) db.providers
          kept_defaults s.one_default;
  }

  cleared : List ResourceProvider
  cleared = update_where (other_default a) not_default db.providers

  cleared_free :
      all (key_free scope_of is_live_default id_of (record a { is_default = true })) cleared ≡ true
  unfolding cleared
  cleared_free =
      all_over_update (λ _. true) _ (other_default a) not_default db.providers (λ p h. ground arith)
        (all_mem (λ _. true) db.providers (λ p m. refl))

  pub _unset_previous_default-IsPlaced :
      IsPlaced (record db { providers = _unset_previous_default a db.providers })
  unfolding cleared
  _unset_previous_default-IsPlaced =
      let a' : ResourceProvider = record a { is_default = true } in
      let ids : unique id_of cleared ≡ true =
        unique-update_where id_of (other_default a) not_default (λ p. refl) db.providers s.ids in
      record {
        ids = unique-overwrite id_of a' cleared ids;
        sequence =
            all-update_where _ (λ p. p.id == a'.id) (λ _. a') cleared (λ p t h. in_sequence)
              (all-update_where _ (other_default a) not_default db.providers (λ p t h. h)
                s.sequence);
        places =
            all-update_where _ (λ p. p.id == a'.id) (λ _. a') cleared (λ p t h. change.placing)
              (all-update_where _ (other_default a) not_default db.providers (λ p t h. h) s.places);
        one_default =
            unique_among-overwrite scope_of is_live_default id_of a' cleared ids cleared_free (
              unique_among-update_where scope_of is_live_default (other_default a) not_default
                db.providers (all_mem _ db.providers (λ p m. ground arith)) s.one_default);
      }
