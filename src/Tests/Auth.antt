-- ===== src/Tests/Auth.antt =====
-- Two accounts, one of them disabled, with a token each, and a hash that is the token itself.
use goblin_king.Base.{
  List, String, ◌≡◌, refl, Bool, true, false, none, some, [], ◌∷◌, ok, raise, ◌⊎◌, ◌↔◌,
}
use goblin_king.Contracts.{str, arr, obj, nil, cons, Fields, field, end, get_field}
use goblin_king.Table.{select_where, get_row}
use goblin_king.Auth.{
  invalid_token, user_disabled, local, jupyterhub, Principal, ApiTokenRecord, UserRecord, is_admin,
  require_project_access, JupyterHubConfig, authenticate_jupyterhub_token, jupyterhub_user_model,
  jupyterhub_groups, jupyterhub_user_allowed, jupyterhub_role, jupyterhub_project_id, group_names,
}
use goblin_king.Auth.Tokens.{
  Accounts, revoke_api_token, authenticate_token, get_api_token_by_hash, by_token, by_user,
  get_user,
}
use goblin_king.Auth.Revoked.{TokenCall, save, revoke, make_all, revoke_api_token-refused}
use goblin_king.Auth.Access.{
  no_providers, IsIssued, authenticate_token-IsIssued, require_project_access-reaches,
}

abbrev token_of : (id user_id : String) → ApiTokenRecord
token_of id user_id = record {
  id = id;
  name = "token";
  token_hash = user_id;
  created_at = 1;
  user_id = user_id;
  project_id = some "p1";
  role = "member";
  revoked_at = none;
}

abbrev user_of : (id : String) → Bool → UserRecord
user_of id disabled = record {
  id = id;
  email = id;
  display_name = id;
  created_at = 1;
  disabled = disabled;
}

abbrev accounts : Accounts
accounts = record {
  tokens = token_of "t1" "ann" ∷ token_of "t2" "bob" ∷ [];
  users = user_of "ann" false ∷ user_of "bob" true ∷ [];
}

abbrev ann : Principal
ann = record { user_id = "ann"; token_id = local "t1"; role = "member"; project_id = some "p1" }

ann_authenticated :
    authenticate_token (λ token. token) "ann" "secret" no_providers accounts ≡ ok ann
unfolding authenticate_token get_api_token_by_hash select_where by_token by_user get_user get_row
ann_authenticated = refl

bob_refused :
    authenticate_token (λ token. token) "bob" "secret" no_providers accounts ≡ raise user_disabled
unfolding authenticate_token get_api_token_by_hash select_where by_token by_user get_user get_row
bob_refused = refl

authenticate_token-IsIssued_example : IsIssued "ann" accounts ann
authenticate_token-IsIssued_example =
    authenticate_token-IsIssued (λ token. token) "ann" "secret" accounts ann refl ann_authenticated

-- Later, a token of bob's is saved, and another is revoked.
abbrev later_calls : List TokenCall
later_calls = save (record (token_of "t3" "bob") { token_hash = "bob3" }) ∷ revoke "t2" 6 ∷ []

revoke_api_token-refused_example :
    authenticate_token
      (λ token. token)
      "ann"
      "secret"
      no_providers
      (make_all later_calls (revoke_api_token "t1" 5 accounts).0)
    ≡ raise invalid_token
revoke_api_token-refused_example =
    revoke_api_token-refused (λ token. token) "ann" "secret" "t1" 5 accounts later_calls refl refl
      refl

ann_reach : (require_project_access ann (some "p2") ≡ ok tt) ↔ (
    (is_admin ann ≡ true) ⊎ ((own : String) × (ann.project_id ≡ some own) × (some "p2" ≡ some own)))
ann_reach = require_project_access-reaches ann (some "p2")

-- A Hub user whose group maps to a project.
abbrev hub : JupyterHubConfig
hub = record {
  allowed_users = [];
  allowed_groups = "lab" ∷ [];
  admin_groups = "ops" ∷ [];
  viewer_groups = [];
  project_groups = ("lab", "p2") ∷ [];
  default_project_id = none;
}

abbrev hub_answer : Fields
hub_answer =
    field "name" (str "cat")
      (field "groups" (arr (cons (obj (field "name" (str "lab") end)) nil)) end)

hub_run :
    authenticate_jupyterhub_token hub "h" (ok hub_answer)
    ≡ ok (record {
      user_id = "cat";
      token_id = jupyterhub "h";
      role = "member";
      project_id = some "p2";
    })
unfolding authenticate_jupyterhub_token jupyterhub_user_model jupyterhub_groups
    jupyterhub_user_allowed jupyterhub_role jupyterhub_project_id group_names get_field
hub_run = refl
