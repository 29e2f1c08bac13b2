-- ===== src/Providers/Updates.antt =====
-- Updating, sharing and deleting resource providers (`ProviderService` in
-- backend/app/services/providers/service.py). `used` says whether `get_usage` finds a pipeline, source
-- repository, image source, chart source or project that refers to the provider.
use Prim.Native.Char.{code}
use big_bug.Prelude.{
  ℕ, String, Bool, true, false, not, ◌&&◌, ◌||◌, Option, none, some, List, if◌then◌else◌, text_keys,
  number_keys, ◌==◌, is_some, update_where, overwrite, guard, ◌>>=◌, ◌>>◌, ok,
}
use big_bug.Identity.{Db, ResourceProvider, ProviderCategory, ProviderVisibility}
use big_bug.Rbac.Guards.{CurrentUser}
use big_bug.Teams.{Outcome, denied, conflict, is_id, unshare}
use big_bug.Providers.{
  _get_or_404, _ensure_can_mutate, _ensure_can_set_default, has_permission, is_private, is_shared,
}
use big_bug.Providers.Changes.{bad_request, team_given, scope_of, category_value, scope_keys}

-- `base_url.rstrip("/")`
unfoldable pub rstrip_slash : String → String
rstrip_slash String.[] = ""
rstrip_slash (String.◌∷◌ c text) =
    let rest = rstrip_slash text in if code c == b'/' && rest == "" then "" else String.◌∷◌ c rest

pub record ProviderUpdate : Type 0 where
  pub category : Option ProviderCategory
  pub base_url : Option String
  pub credential_id : Option ℕ
  pub trust_store_id : Option (Option ℕ)
  pub is_active : Option Bool
  pub is_default : Option Bool
  pub verify_ssl : Option Bool
  pub priority : Option ℕ
  pub visibility : Option ProviderVisibility
  pub team_id : Option ℕ

abbrev pub set_or_keep {ℓ} : {A : Type ℓ} → Option A → A → A
set_or_keep none old = old
set_or_keep (some new) old = new

abbrev pub set_if_given {ℓ} : {A : Type ℓ} → Option A → Option A → Option A
set_if_given none old = old
set_if_given (some new) old = some new

unfoldable pub stripped_url : Option String → Option String
unfolding rstrip_slash
stripped_url none = none
stripped_url (some url) = some (rstrip_slash url)

-- The columns that an update sets without further checks.
unfoldable pub plain_update : ProviderUpdate → ResourceProvider → ResourceProvider
unfolding stripped_url
plain_update payload p = record p {
  base_url = set_if_given (stripped_url payload.base_url) p.base_url;
  credential_id = set_if_given payload.credential_id p.credential_id;
  trust_store_id = set_or_keep payload.trust_store_id p.trust_store_id;
  is_active = set_or_keep payload.is_active p.is_active;
  verify_ssl = set_or_keep payload.verify_ssl p.verify_ssl;
  priority = set_or_keep payload.priority p.priority;
}

unfoldable pub with_visibility :
    Db → CurrentUser → ProviderVisibility → Option ℕ → ResourceProvider → Outcome ResourceProvider
unfolding team_given
with_visibility db user ProviderVisibility.team team_id p = do
  team ← team_given db user team_id
  ok (record p { visibility = ProviderVisibility.team; team_id = some team })
with_visibility db user ProviderVisibility.owner team_id p =
    ok (record p { visibility = ProviderVisibility.owner; team_id = none })
with_visibility db user ProviderVisibility.public team_id p =
    ok (record p { visibility = ProviderVisibility.public; team_id = none })

unfoldable pub may_share : Db → CurrentUser → Bool
unfolding has_permission
may_share db user =
    has_permission db user "providers:share" || has_permission db user "providers:read_all"

unfoldable pub _apply_visibility :
    Db
    → CurrentUser
    → Option ProviderVisibility
    → Option ℕ
    → ResourceProvider
    → Outcome ResourceProvider
unfolding may_share with_visibility
_apply_visibility db user visibility team_id p = do
  guard (may_share db user) denied
  guard (is_private p.category) bad_request
  with_visibility db user (set_or_keep visibility p.visibility) (set_if_given team_id p.team_id) p

unfoldable pub visibility_if_given :
    Db → CurrentUser → ProviderUpdate → ResourceProvider → Outcome ResourceProvider
unfolding _apply_visibility
visibility_if_given db user payload p =
    if is_some payload.visibility || is_some payload.team_id
    then _apply_visibility db user payload.visibility payload.team_id p
    else ok p

-- Another live default of the same scope.
abbrev pub other_default : ResourceProvider → ResourceProvider → Bool
other_default provider p =
    scope_of p == scope_of provider
    && (p.is_default && (not (p.id == provider.id) && not p.is_deleted))

abbrev pub not_default : ResourceProvider → ResourceProvider
not_default p = record p { is_default = false }

abbrev pub save_provider : ResourceProvider → List ResourceProvider → List ResourceProvider
save_provider = overwrite (λ p. p.id)

abbrev pub _unset_previous_default :
    ResourceProvider → List ResourceProvider → List ResourceProvider
_unset_previous_default provider rows =
    save_provider (record provider { is_default = true })
      (update_where (other_default provider) not_default rows)

-- Only `True` is applied: `False` is checked for its permission and then dropped.
unfoldable pub default_if_given :
    Db → CurrentUser → Option Bool → ResourceProvider → Outcome (List ResourceProvider)
unfolding _ensure_can_set_default
default_if_given db user none provider = ok (save_provider provider db.providers)
default_if_given db user (some false) provider = do
  allowed ← _ensure_can_set_default db user
  ok (save_provider provider db.providers)
default_if_given db user (some true) provider = do
  allowed ← _ensure_can_set_default db user
  ok (_unset_previous_default provider db.providers)

abbrev pub same_category : Option ProviderCategory → ProviderCategory → Bool
same_category none old = true
same_category (some new) old = category_value new == category_value old

unfoldable pub update_provider : Db → ℕ → CurrentUser → ProviderUpdate → Outcome Db
unfolding _get_or_404 _ensure_can_mutate plain_update visibility_if_given default_if_given
update_provider db provider_id user payload = do
  provider ← _get_or_404 db provider_id
  allowed ← _ensure_can_mutate db provider user
  guard (same_category payload.category provider.category) bad_request
  changed ← visibility_if_given db user payload (plain_update payload provider)
  rows ← default_if_given db user payload.is_default changed
  ok (record db { providers = rows })

abbrev pub share_with : ℕ → ResourceProvider → ResourceProvider
share_with team_id p = record p { visibility = ProviderVisibility.team; team_id = some team_id }

abbrev pub owns_or_admin : Db → CurrentUser → ResourceProvider → Bool
owns_or_admin db user p =
    is_id p.owner_user_id user.user.id || has_permission db user "providers:read_all"

unfoldable pub share_provider : Db → ℕ → ℕ → CurrentUser → Outcome Db
unfolding _get_or_404 may_share team_given
share_provider db provider_id team_id user = do
  provider ← _get_or_404 db provider_id
  guard (may_share db user) denied
  guard (owns_or_admin db user provider) denied
  guard (is_private provider.category) bad_request
  guard (not (is_shared provider.visibility)) conflict
  member ← team_given db user (some team_id)
  ok (record db { providers = save_provider (share_with team_id provider) db.providers })

unfoldable pub unshare_provider : Db → ℕ → CurrentUser → Outcome Db
unfolding _get_or_404 may_share
unshare_provider db provider_id user = do
  provider ← _get_or_404 db provider_id
  guard (may_share db user) denied
  guard (owns_or_admin db user provider) denied
  guard (is_shared provider.visibility) conflict
  ok (record db { providers = save_provider (unshare provider) db.providers })

unfoldable pub delete_provider : Db → ℕ → CurrentUser → Bool → Outcome Db
unfolding _get_or_404 _ensure_can_mutate
delete_provider db provider_id user used = do
  provider ← _get_or_404 db provider_id
  allowed ← _ensure_can_mutate db provider user
  guard (not provider.is_protected) conflict
  guard (not used) conflict
  ok (record db { providers = save_provider (record provider { is_deleted = true }) db.providers })
