-- ===== src/Auth.antt =====
-- Who a request's token stands for, and what it may do (auth.py): local tokens, OIDC claims and
-- JupyterHub users.
pub mod Tokens
pub mod Access
pub mod Revoked
use goblin_king.Base.{
  ℕ, String, ◌==◌, Bool, true, false, not, ◌&&◌, ◌||◌, Option, none, some, List, [], ◌∷◌, any, leb,
  same_text, is_some, or_option, Result, ok, raise, ◌>>=◌, ◌>>◌, raise_if, if◌then◌else◌,
}
use goblin_king.Contracts.{
  Json, null, bool, num, str, arr, obj, Items, nil, cons, Fields, get_field,
}

-- AuthError by its message, and the status of its response.
pub data AuthError : Type 0 where
  invalid_token : AuthError
  user_disabled : AuthError
  -- SQLAlchemy's MultipleResultsFound
  several_tokens : AuthError
  missing_claim : (claim : String) → AuthError
  missing_user_name : AuthError
  not_authorized : AuthError
  not_a_user : AuthError
  admin_required : AuthError
  project_denied : AuthError
  -- of the validation of a JWT, and of the calls of the Hub
  remote : (status_code : ℕ) → AuthError

abbrev pub status_code : AuthError → ℕ
status_code invalid_token = 401
status_code user_disabled = 403
status_code several_tokens = 500
status_code (missing_claim claim) = 401
status_code missing_user_name = 401
status_code not_authorized = 403
status_code not_a_user = 403
status_code admin_required = 403
status_code project_denied = 403
status_code (remote code) = code

-- How a request was authenticated; the id of a local token, or what an id is made from.
pub data TokenId : Type 0 where
  bootstrap : TokenId
  local : (id : String) → TokenId
  oidc : (user_id : String) → TokenId
  jupyterhub : (token_hash : String) → TokenId

pub record Principal : Type 0 where
  pub user_id : String
  pub token_id : TokenId
  pub role : String
  pub project_id : Option String

abbrev pub is_admin : Principal → Bool
is_admin principal = principal.role == "admin"

pub record ApiTokenRecord : Type 0 where
  pub id : String
  pub name : String
  pub token_hash : String
  pub created_at : ℕ
  pub user_id : String
  pub project_id : Option String
  pub role : String
  pub revoked_at : Option ℕ

pub record UserRecord : Type 0 where
  pub id : String
  pub email : String
  pub display_name : String
  pub created_at : ℕ
  pub disabled : Bool

pub record OidcConfig : Type 0 where
  pub user_claim : String
  pub role_claim : String
  pub project_claim : String
  pub admin_roles : List String

pub record JupyterHubConfig : Type 0 where
  pub allowed_users : List String
  pub allowed_groups : List String
  pub admin_groups : List String
  pub viewer_groups : List String
  -- a dict
  pub project_groups : List (String × String)
  pub default_project_id : Option String

-- `value in values`
abbrev pub among : String → List String → Bool
among value values = any (λ v. v == value) values

-- `bool(set(xs).intersection(ys))`
abbrev pub share : List String → List String → Bool
share xs ys = any (λ x. among x ys) xs

-- `value if isinstance(value, str) and value else None`
abbrev pub nonempty : Option Json → Option String
nonempty (some (str value)) = if value == "" then none else some value
nonempty _ = none

unfoldable pub claim_as_string : Fields → (key : String) → Option String
claim_as_string claims key = nonempty (get_field key claims)

-- The texts of a list.
unfoldable pub texts_of : Items → List String
texts_of nil = []
texts_of (cons (str value) items) = value ∷ texts_of items
texts_of (cons _ items) = texts_of items

unfoldable pub claim_values : Option Json → List String
unfolding texts_of
claim_values (some (str value)) = value ∷ []
claim_values (some (arr items)) = texts_of items
claim_values _ = []

unfoldable pub role_from_claims : Fields → OidcConfig → String
unfolding claim_values
role_from_claims claims config =
    let values = claim_values (get_field config.role_claim claims) in
    if share values config.admin_roles
    then "admin"
    else if among "viewer" values
    then "viewer"
    else "member"

-- `authenticate_oidc_token`, with the decoded claims, or the error of `_decode_oidc_jwt`.
unfoldable pub authenticate_oidc_token :
    OidcConfig → Result AuthError Fields → Result AuthError Principal
unfolding claim_as_string
authenticate_oidc_token config decoded = do
  claims ← decoded
  elim (claim_as_string claims config.user_claim) [
    | none ↦ raise (missing_claim config.user_claim)
    | some user_id ↦ ok (record {
      user_id = user_id;
      token_id = oidc user_id;
      role = role_from_claims claims config;
      project_id = claim_as_string claims config.project_claim;
    })
  ]

abbrev pub user_part : Fields → Option Json → Fields
user_part model (some (obj user)) = user
user_part model _ = model

-- `kind is not None and kind != "user"`
abbrev pub is_other_kind : Option Json → Bool
is_other_kind none = false
is_other_kind (some null) = false
is_other_kind (some (str kind)) = not (kind == "user")
is_other_kind (some _) = true

unfoldable pub jupyterhub_user_model : Fields → Result AuthError Fields
jupyterhub_user_model model =
    let user = user_part model (get_field "user" model) in
    if is_other_kind (get_field "kind" user) then raise not_a_user else ok user

-- The name of a group, or of a group's model.
abbrev pub named : Option Json → List String → List String
named (some (str name)) names = name ∷ names
named _ names = names

unfoldable pub group_names : Items → List String
group_names nil = []
group_names (cons (str name) items) = name ∷ group_names items
group_names (cons (obj group) items) = named (get_field "name" group) (group_names items)
group_names (cons _ items) = group_names items

abbrev pub groups_in : Option Json → List String
groups_in (some (arr items)) = group_names items
groups_in _ = []

unfoldable pub jupyterhub_groups : Fields → List String
jupyterhub_groups model = groups_in (get_field "groups" model)

abbrev pub is_empty_list : List String → Bool
is_empty_list [] = true
is_empty_list (_ ∷ _) = false

unfoldable pub jupyterhub_user_allowed :
    (user_id : String) (groups : List String) → JupyterHubConfig → Bool
jupyterhub_user_allowed user_id groups config =
    if is_empty_list config.allowed_users && is_empty_list config.allowed_groups
    then true
    else among user_id config.allowed_users || share groups config.allowed_groups

-- `model.get("admin") is True`
abbrev pub is_true : Option Json → Bool
is_true (some (bool b)) = b
is_true _ = false

unfoldable pub jupyterhub_role : Fields → List String → JupyterHubConfig → String
jupyterhub_role model groups config =
    if is_true (get_field "admin" model) || share groups config.admin_groups
    then "admin"
    else if share groups config.viewer_groups
    then "viewer"
    else "member"

abbrev pub project_of_group : String → List (String × String) → Option String
project_of_group group [] = none
project_of_group group ((g, project_id) ∷ rest) =
    if g == group
    then (if project_id == "" then none else some project_id)
    else project_of_group group rest

unfoldable pub jupyterhub_project_id : List String → JupyterHubConfig → Option String
jupyterhub_project_id [] config = config.default_project_id
jupyterhub_project_id (group ∷ groups) config =
    or_option (project_of_group group config.project_groups) (jupyterhub_project_id groups config)

-- `authenticate_jupyterhub_token`, with the Hub's answer or the error of its call.
unfoldable pub authenticate_jupyterhub_token :
    JupyterHubConfig → (token_hash : String) → Result AuthError Fields → Result AuthError Principal
unfolding jupyterhub_user_model
authenticate_jupyterhub_token config token_hash identified = do
  model ← identified
  user ← jupyterhub_user_model model
  elim (nonempty (get_field "name" user)) [
    | none ↦ raise missing_user_name
    | some user_id ↦ do
      let groups = jupyterhub_groups user
      raise_if (not (jupyterhub_user_allowed user_id groups config)) not_authorized
      ok (record {
        user_id = user_id;
        token_id = jupyterhub token_hash;
        role = jupyterhub_role user groups config;
        project_id = jupyterhub_project_id groups config;
      })
  ]

unfoldable pub require_admin : Principal → Result AuthError (Unit {0})
require_admin principal = raise_if (not (is_admin principal)) admin_required

-- `principal.project_id is None or project_id != principal.project_id`
unfoldable pub require_project_access : Principal → Option String → Result AuthError (Unit {0})
require_project_access principal project_id =
    if is_admin principal
    then ok tt
    else raise_if
        (not (is_some principal.project_id) || not (same_text project_id principal.project_id))
        project_denied
