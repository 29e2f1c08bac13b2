-- ===== src/Providers/Changes.antt =====
-- Creating, changing, sharing and deleting resource providers (`ProviderService` in
-- backend/app/services/providers/service.py). `used` is what `get_usage` counts: whether a pipeline,
-- source repository, image source, chart source or project refers to the provider.
use big_bug.Prelude.{
  ℕ, ◌+◌, String, ◌≡◌, subst, ◌↔◌, Bool, true, false, not, ◌&&◌, ◌||◌, Option, none, some, [], ◌∷◌,
  ◌++◌, arith, HasEquality, text_keys, number_keys, ◌==◌, any, guard, ◌>>=◌, ◌>>◌, ok, err,
}
use big_bug.Identity.{
  Db, ResourceProvider, ProviderCategory, ProviderVisibility, ProviderDomain, ProviderSubtype,
  ProviderDirection,
}
use big_bug.Rbac.Guards.{CurrentUser}
use big_bug.Teams.{Outcome, domain, denied, conflict, TeamError}
use big_bug.Providers.{_is_team_member, has_permission, is_system, is_private}

abbrev pub bad_request : TeamError
bad_request = domain 400

abbrev pub unprocessable : TeamError
unprocessable = domain 422

pub record ProviderCreate : Type 0 where
  pub domain : ProviderDomain
  pub subtype : ProviderSubtype
  pub category : ProviderCategory
  pub visibility : ProviderVisibility
  pub direction : ProviderDirection
  pub name : String
  pub base_url : Option String
  pub credential_id : Option ℕ
  pub trust_store_id : Option ℕ
  pub team_id : Option ℕ

abbrev pub owner_of : ProviderCategory → ℕ → Option ℕ
owner_of ProviderCategory.private user_id = some user_id
owner_of _ user_id = none

-- The checks of a team that a provider is to be shared with.
unfoldable pub team_given : Db → CurrentUser → Option ℕ → Outcome ℕ
unfolding _is_team_member has_permission
team_given db user none = err unprocessable
team_given db user (some team_id) = do
  guard (_is_team_member db team_id user.user.id || has_permission db user "providers:read_all")
      unprocessable
  ok team_id

-- `if visibility == team: …`, with the team that the new row gets.
unfoldable pub team_on_create :
    Db → CurrentUser → ProviderCategory → ProviderVisibility → Option ℕ → Outcome (Option ℕ)
unfolding team_given
team_on_create db user category ProviderVisibility.team none = err unprocessable
team_on_create db user category ProviderVisibility.team (some team_id) = do
  guard (is_private category) unprocessable
  given ← team_given db user (some team_id)
  ok (some given)
team_on_create db user category _ team_id = ok none

abbrev pub visibility_on_create : ProviderCategory → ProviderVisibility → ProviderVisibility
visibility_on_create ProviderCategory.public visibility = ProviderVisibility.public
visibility_on_create ProviderCategory.system visibility = ProviderVisibility.owner
visibility_on_create ProviderCategory.private visibility = visibility

abbrev pub new_provider :
    ℕ → ProviderCreate → ProviderVisibility → Option ℕ → Option ℕ → ResourceProvider
new_provider id payload visibility owner_user_id team_id = record {
  id = id;
  domain = payload.domain;
  subtype = payload.subtype;
  category = payload.category;
  visibility = visibility;
  direction = payload.direction;
  name = payload.name;
  base_url = payload.base_url;
  credential_id = payload.credential_id;
  trust_store_id = payload.trust_store_id;
  owner_user_id = owner_user_id;
  team_id = team_id;
  is_active = true;
  is_default = false;
  is_protected = is_system payload.category;
  verify_ssl = true;
  priority = 0;
  status_flag = 4;
  status_text = none;
  is_deleted = false;
}

unfoldable pub create_provider : Db → CurrentUser → ProviderCreate → Outcome (ResourceProvider × Db)
unfolding team_on_create
create_provider db user payload = do
  guard (not (is_system payload.category)) denied
  guard (not (any (λ p. p.name == payload.name && not p.is_deleted) db.providers)) conflict
  team_id ← team_on_create db user payload.category payload.visibility payload.team_id
  let provider : ResourceProvider =
      new_provider db.next_provider_id payload
        (visibility_on_create payload.category payload.visibility)
        (owner_of payload.category user.user.id) team_id
  ok (
    provider,
    record db {
      providers = db.providers ++ provider ∷ [];
      next_provider_id = db.next_provider_id + 1;
    },
  )

-- The columns `domain`, `subtype`, `category` and `direction` by their values.
abbrev pub domain_value : ProviderDomain → String
domain_value ProviderDomain.git = "git"
domain_value ProviderDomain.docker = "docker"
domain_value ProviderDomain.helm = "helm"

abbrev pub subtype_value : ProviderSubtype → String
subtype_value ProviderSubtype.github = "github"
subtype_value ProviderSubtype.gitlab = "gitlab"
subtype_value ProviderSubtype.generic_git = "generic_git"
subtype_value ProviderSubtype.docker_hub = "docker_hub"
subtype_value ProviderSubtype.quay = "quay"
subtype_value ProviderSubtype.gcr = "gcr"
subtype_value ProviderSubtype.ecr = "ecr"
subtype_value ProviderSubtype.acr = "acr"
subtype_value ProviderSubtype.ghcr = "ghcr"
subtype_value ProviderSubtype.harbor = "harbor"
subtype_value ProviderSubtype.generic_registry = "generic_registry"
subtype_value ProviderSubtype.helm_repo = "helm_repo"

abbrev pub category_value : ProviderCategory → String
category_value ProviderCategory.system = "system"
category_value ProviderCategory.public = "public"
category_value ProviderCategory.private = "private"

abbrev pub direction_value : ProviderDirection → String
direction_value ProviderDirection.external = "external"
direction_value ProviderDirection.internal = "internal"

-- The scope within which one provider may be the default.
pub record DefaultScope : Type 0 where
  pub domain : String
  pub subtype : String
  pub category : String
  pub direction : String

abbrev pub scope_of : ResourceProvider → DefaultScope
scope_of p = record {
  domain = domain_value p.domain;
  subtype = subtype_value p.subtype;
  category = category_value p.category;
  direction = direction_value p.direction;
}

abbrev pub same_scope : DefaultScope → DefaultScope → Bool
same_scope s t =
    s.domain == t.domain
    && (s.subtype == t.subtype && (s.category == t.category && s.direction == t.direction))

pub same_scope_iff : (s t : DefaultScope) → (same_scope s t ≡ true) ↔ (s ≡ t)
same_scope_iff s t = (
  (λ e. λ i. record {
    domain = (text_keys.agrees s.domain t.domain).0 (ground arith) i;
    subtype = (text_keys.agrees s.subtype t.subtype).0 (ground arith) i;
    category = (text_keys.agrees s.category t.category).0 (ground arith) i;
    direction = (text_keys.agrees s.direction t.direction).0 (ground arith) i;
  }),
  (λ e.
      subst (λ u. same_scope s u ≡ true) e
        (ground (
          arith,
          text_keys.agrees s.domain s.domain,
          text_keys.agrees s.subtype s.subtype,
          text_keys.agrees s.category s.category,
          text_keys.agrees s.direction s.direction,
        ))),
)

instance abbrev pub scope_keys : HasEquality DefaultScope
scope_keys = record { test = same_scope; agrees = same_scope_iff }
