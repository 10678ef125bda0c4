-- ===== src/Auth/Tokens.antt =====
-- The tables of API tokens and users (store.py), and the authentication of a bearer token (auth.py).
use goblin_king.Base.{
  ℕ, String, ◌==◌, not, ◌&&◌, Option, none, some, List, [], ◌∷◌, leb, is_some, Result, ok, raise,
  if◌then◌else◌,
}
use goblin_king.Contracts.{Fields}
use goblin_king.Table.{select_where, update_where, get_row, insert_row}
use goblin_king.Auth.{
  AuthError, invalid_token, user_disabled, several_tokens, status_code, bootstrap, local, Principal,
  ApiTokenRecord, UserRecord, OidcConfig, JupyterHubConfig, authenticate_oidc_token,
  authenticate_jupyterhub_token,
}

pub record Accounts : Type 0 where
  pub tokens : List ApiTokenRecord
  pub users : List UserRecord

abbrev pub token_key : ApiTokenRecord → String
token_key token = token.id

abbrev pub user_key : UserRecord → String
user_key user = user.id

-- `none` is the IntegrityError of a second row under one id.
unfoldable pub save_api_token : ApiTokenRecord → Accounts → Option Accounts
save_api_token token accounts = elim (insert_row token_key token accounts.tokens) [
  | none ↦ none
  | some tokens ↦ some (record accounts { tokens = tokens })
]

unfoldable pub get_user : String → Accounts → Option UserRecord
get_user user_id accounts = get_row user_key user_id accounts.users

-- `.one_or_none()`
abbrev pub one_or_none : List ApiTokenRecord → Result AuthError (Option ApiTokenRecord)
one_or_none [] = ok none
one_or_none (token ∷ []) = ok (some token)
one_or_none (_ ∷ _ ∷ _) = raise several_tokens

unfoldable pub get_api_token_by_hash :
    (token_hash : String) → Accounts → Result AuthError (Option ApiTokenRecord)
get_api_token_by_hash token_hash accounts = one_or_none (
    select_where (λ row. row.token_hash == token_hash && not (is_some row.revoked_at))
      accounts.tokens)

unfoldable pub revoke_api_token :
    (token_id : String) (revoked_at : ℕ) → Accounts → Accounts × Option ApiTokenRecord
revoke_api_token token_id revoked_at accounts =
    let tokens =
      update_where (λ row. row.id == token_id) (λ row. record row { revoked_at = some revoked_at })
        accounts.tokens in
    (record accounts { tokens = tokens }, get_row token_key token_id tokens)

-- The identity providers that are enabled, each with its answer for the request's token.
pub record Providers : Type 0 where
  pub oidc : Option (OidcConfig × Result AuthError Fields)
  pub jupyterhub : Option (JupyterHubConfig × Result AuthError Fields)

-- JupyterHub, where it is enabled.
abbrev pub by_jupyterhub :
    (token_hash : String)
    → Option (JupyterHubConfig × Result AuthError Fields)
    → AuthError
    → Result AuthError Principal
by_jupyterhub token_hash none error = raise error
by_jupyterhub token_hash (some (config, answer)) error =
    authenticate_jupyterhub_token config token_hash answer

-- A server's error of OIDC ends the search.
abbrev pub after_oidc :
    (token_hash : String)
    → Option (JupyterHubConfig × Result AuthError Fields)
    → Result AuthError Principal
    → Result AuthError Principal
after_oidc token_hash hub (ok principal) = ok principal
after_oidc token_hash hub (raise error) =
    if leb 500 (status_code error) then raise error else by_jupyterhub token_hash hub error

-- A token that is in no row.
unfoldable pub by_provider : (token_hash : String) → Providers → Result AuthError Principal
by_provider token_hash providers = elim providers.oidc [
  | none ↦ by_jupyterhub token_hash providers.jupyterhub invalid_token
  | some (config, answer) ↦
      after_oidc token_hash providers.jupyterhub (authenticate_oidc_token config answer)
]

unfoldable pub by_user : ApiTokenRecord → Option UserRecord → Result AuthError Principal
by_user token none = raise user_disabled
by_user token (some user) =
    if user.disabled
    then raise user_disabled
    else ok (record {
      user_id = token.user_id;
      token_id = local token.id;
      role = token.role;
      project_id = token.project_id;
    })

unfoldable pub by_token :
    Accounts
    → (token_hash : String) → Providers
    → Result AuthError (Option ApiTokenRecord)
    → Result AuthError Principal
unfolding by_provider by_user get_user
by_token accounts token_hash providers (raise error) = raise error
by_token accounts token_hash providers (ok none) = by_provider token_hash providers
by_token accounts token_hash providers (ok (some token)) =
    by_user token (get_user token.user_id accounts)

-- `hash_api_token` is SHA-256.
unfoldable pub authenticate_token :
    (hash_api_token : String → String) (token bootstrap_token : String)
    → Providers
    → Accounts
    → Result AuthError Principal
unfolding by_token get_api_token_by_hash
authenticate_token hash_api_token token bootstrap_token providers accounts =
    let token_hash = hash_api_token token in
    if token == bootstrap_token
    then ok (record {
      user_id = "bootstrap-admin";
      token_id = bootstrap;
      role = "admin";
      project_id = none;
    })
    else by_token accounts token_hash providers (get_api_token_by_hash token_hash accounts)
