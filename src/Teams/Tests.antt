-- ===== src/Teams/Tests.antt =====
-- A small set of tables, runs of the team operations on it, and the theorems at these inputs.
use big_bug.Prelude.{
  ◌≡◌, refl, true, false, none, some, [], ◌∷◌, text_keys, number_keys, ◌==◌, any, is_ok, ok, err,
}
use big_bug.Identity.{
  Db, User, Team, lead, member, ResourceProvider, ProviderVisibility, docker, harbor, private,
  external, get_user,
}
use big_bug.Rbac.Guards.{CurrentUser}
use big_bug.Teams.{
  Outcome, update_team, delete_team, add_member, remove_member, _get_or_404, _get_member, _is_admin,
  renamed, described, transferred, promote, demote, save_team, list_teams, get_team_card, conflict,
  denied, lead_stays, not_found,
}
use big_bug.Teams.Led.{IsLed}
use big_bug.Teams.Steps.{here, next, updated, removed, Reach-IsLed}
use big_bug.Teams.Members.{remove_member_effect, add-remove_member}
use big_bug.Teams.Cards.{get_team_card-list_teams}
use big_bug.Teams.Deleted.{delete_team_effect}

abbrev ann : User
ann = record { id = 1; username = "ann"; is_active = true }

abbrev ben : User
ben = record { id = 2; username = "ben"; is_active = true }

abbrev cora : User
cora = record { id = 3; username = "cora"; is_active = true }

abbrev platform : Team
platform = record {
  id = 7;
  name = "platform";
  description = none;
  owner_user_id = 1;
  is_deleted = false;
}

abbrev registry : ResourceProvider
registry = record {
  id = 4;
  domain = docker;
  subtype = harbor;
  category = private;
  visibility = ProviderVisibility.team;
  direction = external;
  name = "registry";
  base_url = some "https://registry.example";
  credential_id = none;
  trust_store_id = none;
  owner_user_id = some 2;
  team_id = some 7;
  is_active = true;
  is_default = false;
  is_protected = false;
  verify_ssl = true;
  priority = 0;
  status_flag = 4;
  status_text = none;
  is_deleted = false;
}

abbrev office : Db
office = record {
  users = ann ∷ ben ∷ cora ∷ [];
  permissions = [];
  roles = [];
  role_permissions = [];
  user_roles = [];
  role_scopes = [];
  resources = λ k. [];
  teams = platform ∷ [];
  team_members =
      record { team_id = 7; user_id = 1; role = lead }
      ∷ record { team_id = 7; user_id = 2; role = member }
      ∷ [];
  providers = registry ∷ [];
  next_role_id = 1;
  next_team_id = 8;
  next_provider_id = 5;
}

abbrev as_user : User → CurrentUser
as_user u = record { user = u; cached_permissions = "teams:read" ∷ [] }

office-IsLed : IsLed office
office-IsLed = record { led = refl; ids_unique = refl; ids_drawn = refl; rows_drawn = refl }

abbrev value_or : Db → Outcome Db → Db
value_or db (ok x) = x
value_or db (err e) = db

abbrev second_or : {A : Type 0} → Db → Outcome (A × Db) → Db
second_or db (ok x) = x.1
second_or db (err e) = db

-- Ben becomes the lead and Ann stays as a member.
abbrev after_transfer : Db
after_transfer = second_or office (update_team office 7 none none (some 2))

abbrev after_leaving : Db
after_leaving = value_or after_transfer (remove_member after_transfer 7 1 (as_user ann))

transferred_rows :
    after_transfer.team_members
    ≡ record { team_id = 7; user_id = 1; role = member }
      ∷ record { team_id = 7; user_id = 2; role = lead }
      ∷ []
unfolding update_team _get_or_404 renamed described transferred promote demote save_team get_user
transferred_rows = refl

left_rows : after_leaving.team_members ≡ record { team_id = 7; user_id = 2; role = lead } ∷ []
unfolding update_team _get_or_404 renamed described transferred promote demote save_team get_user
    remove_member _get_member
left_rows = refl

owner_stays : remove_member office 7 1 (as_user ann) ≡ err lead_stays
unfolding remove_member _get_or_404 _get_member
owner_stays = refl

stranger_denied : remove_member office 7 2 (as_user cora) ≡ err denied
unfolding remove_member _get_or_404 _get_member _is_admin
stranger_denied = refl

twice : add_member office 7 2 ≡ err conflict
unfolding add_member _get_or_404 _get_member get_user
twice = refl

Reach-IsLed_example : IsLed after_leaving
unfolding update_team _get_or_404 renamed described transferred promote demote save_team get_user
    remove_member _get_member
Reach-IsLed_example =
    Reach-IsLed office
      (next
        (next here
          (updated 7 none none (some 2) {team = record platform { owner_user_id = 2 }} refl))
        (removed 7 1 (as_user ann) refl))
      office-IsLed

remove_member_effect_example :
    _get_member (value_or office (remove_member office 7 2 (as_user ann))) 7 2 ≡ none
unfolding remove_member _get_or_404 _get_member
remove_member_effect_example =
    (remove_member_effect office 7 2 (as_user ann)
      {db' = value_or office (remove_member office 7 2 (as_user ann))} refl).0

-- Cora joins, and leaves again.
abbrev after_joining : Db
after_joining = second_or office (add_member office 7 3)

add-remove_member_example :
    (last : Db) × (remove_member after_joining 7 3 (as_user cora) ≡ ok last)
    × (last.team_members ≡ office.team_members)
unfolding add_member _get_or_404 _get_member get_user
add-remove_member_example =
    add-remove_member office 7 (as_user cora)
      {row = record { team_id = 7; user_id = 3; role = member }} {db' = after_joining} office-IsLed
      refl

get_team_card-list_teams_example :
    is_ok (get_team_card office 7 (as_user cora))
    ≡ any (λ t. t.id == 7) (list_teams office (as_user cora) false)
get_team_card-list_teams_example = get_team_card-list_teams office 7 (as_user cora) refl

cora_sees_none : list_teams office (as_user cora) false ≡ []
unfolding list_teams _is_admin
cora_sees_none = refl

abbrev after_deletion : Db
after_deletion = value_or office (delete_team office 7)

delete_team_effect_example : _get_or_404 after_deletion 7 ≡ err not_found
unfolding delete_team _get_or_404 save_team
delete_team_effect_example = (delete_team_effect office 7 {db' = after_deletion} refl).0
