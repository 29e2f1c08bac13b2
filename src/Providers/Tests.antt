-- ===== src/Providers/Tests.antt =====
-- Examples of the theorems on resource providers, at small tables.
use big_bug.Prelude.{
  ℕ, String, ◌≡◌, refl, Bool, true, false, not, ◌&&◌, ◌||◌, none, some, List, [], ◌∷◌, text_keys,
  number_keys, ◌==◌, any, is_ok, ok, err,
}
use big_bug.Identity.{
  Db, ResourceProvider, ProviderCategory, ProviderVisibility, ProviderDomain, ProviderSubtype,
  ProviderDirection,
}
use big_bug.Rbac.Guards.{CurrentUser}
use big_bug.Teams.{denied, is_id}
use big_bug.Providers.{
  has_permission, is_private, is_shared, is_public, in_team, list_providers, get_provider, can_read,
  _permissions_async, cached_or, _get_or_404, found_live, _ensure_can_read, _ensure_can_mutate,
  can_mutate, _ensure_can_set_default,
}
use big_bug.Providers.Updates.{
  ProviderUpdate, update_provider, plain_update, stripped_url, rstrip_slash, visibility_if_given,
  default_if_given,
}
use big_bug.Providers.Placed.{IsPlaced}
use big_bug.Providers.Steps.{here, next, updated, Reach-IsPlaced}
use big_bug.Providers.Access.{list_providers-get_provider, appears, manages}

abbrev hub : ℕ → Bool → ResourceProvider
hub id is_default = record {
  id = id;
  domain = ProviderDomain.docker;
  subtype = ProviderSubtype.docker_hub;
  category = ProviderCategory.private;
  visibility = ProviderVisibility.owner;
  direction = ProviderDirection.external;
  name = "hub";
  base_url = none;
  credential_id = none;
  trust_store_id = none;
  owner_user_id = some 1;
  team_id = none;
  is_active = true;
  is_default = is_default;
  is_protected = false;
  verify_ssl = true;
  priority = 0;
  status_flag = 4;
  status_text = none;
  is_deleted = false;
}

-- A provider that its owner made public.
abbrev published : ResourceProvider
published = record (hub 3 false) { visibility = ProviderVisibility.public }

abbrev tables : Db
tables = record {
  users = [];
  permissions = [];
  roles = [];
  role_permissions = [];
  user_roles = [];
  role_scopes = [];
  resources = λ _. [];
  teams = [];
  team_members = [];
  providers = hub 1 true ∷ hub 2 false ∷ published ∷ [];
  next_role_id = 1;
  next_team_id = 1;
  next_provider_id = 4;
}

tables-IsPlaced : IsPlaced tables
tables-IsPlaced = record { ids = refl; sequence = refl; places = refl; one_default = refl }

abbrev caller : ℕ → List String → CurrentUser
caller id permissions = record {
  user = record { id = id; username = "user"; is_active = true };
  cached_permissions = permissions;
}

abbrev nothing : ProviderUpdate
nothing = record {
  category = none;
  base_url = none;
  credential_id = none;
  trust_store_id = none;
  is_active = none;
  is_default = none;
  verify_ssl = none;
  priority = none;
  visibility = none;
  team_id = none;
}

abbrev make_default : ProviderUpdate
make_default = record nothing {
  base_url = some "https://registry.example//";
  is_default = some true;
}

abbrev admin : CurrentUser
admin = caller 1 ("providers_system:write" ∷ [])

abbrev second_default : Db
second_default = record tables {
  providers =
      hub 1 false
      ∷ record (hub 2 true) { base_url = some "https://registry.example" }
      ∷ published
      ∷ [];
}

default_moved : update_provider tables 2 admin make_default ≡ ok second_default
unfolding update_provider _get_or_404 found_live _ensure_can_mutate can_mutate has_permission
    _permissions_async cached_or plain_update stripped_url rstrip_slash visibility_if_given
    default_if_given _ensure_can_set_default
default_moved = refl

-- `False` is accepted and dropped.
not_cleared :
    update_provider tables 1 admin (record nothing { is_default = some false }) ≡ ok tables
unfolding update_provider _get_or_404 found_live _ensure_can_mutate can_mutate has_permission
    _permissions_async cached_or plain_update stripped_url visibility_if_given default_if_given
    _ensure_can_set_default
not_cleared = refl

listed_but_denied : get_provider tables 3 (caller 9 ("providers:read" ∷ [])) ≡ err denied
unfolding get_provider _get_or_404 found_live _ensure_can_read can_read has_permission
    _permissions_async cached_or
listed_but_denied = refl

Reach-IsPlaced_example : IsPlaced second_default
Reach-IsPlaced_example =
    Reach-IsPlaced tables (next here (updated 2 admin make_default default_moved)) tables-IsPlaced

abbrev visitor : CurrentUser
visitor = caller 9 ("providers:read" ∷ [])

list_providers-get_provider_example :
    (is_ok (get_provider tables 3 visitor) ≡ (
      has_permission tables visitor "providers:read_all"
      || (not (is_private published.category)
          || (is_id published.owner_user_id 9
              || is_shared published.visibility && in_team tables published.team_id 9))))
    × (any (λ (x : ResourceProvider). x.id == 3) (list_providers tables visitor)
        ≡ appears published.category
            (is_public published.visibility)
            (is_ok (get_provider tables 3 visitor))
            (manages tables visitor published))
list_providers-get_provider_example =
    list_providers-get_provider tables visitor published tables-IsPlaced refl refl
