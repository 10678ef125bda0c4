-- ===== src/Auth/Access.antt =====
-- What a token gives access to.
use goblin_king.Base.{
  ℕ, String, ◌==◌, eq_iff, eq_refl, ◌≡◌, refl, sym, ap, ◌∙◌, ◌++◌, Bool, true, false, not, ◌&&◌,
  ◌||◌, Option, none, some, List, [], ◌∷◌, is_some, same_text, Result, ok, raise, raise_if, arith,
  Bool-cases, Option-cases, inl, inr, ◌⊎◌, ◌↔◌, all,
}
use goblin_king.Table.{select_where, update_where}
use goblin_king.Auth.{
  AuthError, Principal, ApiTokenRecord, UserRecord, is_admin, project_denied,
  require_project_access,
}
use goblin_king.Auth.Tokens.{
  Accounts, Providers, get_user, one_or_none, get_api_token_by_hash, by_provider, by_user, by_token,
  authenticate_token,
}

-- Where no provider is enabled.
abbrev pub no_providers : Providers
no_providers = record { oidc = none; jupyterhub = none }

-- The tokens of one hash are all under one id.
abbrev pub is_only : (token_hash token_id : String) → List ApiTokenRecord → Bool
is_only token_hash token_id tokens =
    all (λ row. not (row.token_hash == token_hash) || row.id == token_id) tokens

pub none_left :
    (token_hash token_id : String) (revoked_at : ℕ) (tokens : List ApiTokenRecord)
    → is_only token_hash token_id tokens ≡ true
    → select_where
        (λ row. row.token_hash == token_hash && not (is_some row.revoked_at))
        (update_where
          (λ row. row.id == token_id)
          (λ row. record row { revoked_at = some revoked_at })
          tokens)
      ≡ []
unfolding select_where update_where
none_left token_hash token_id revoked_at [] only = refl
none_left token_hash token_id revoked_at (row ∷ tokens) only =
    let others : is_only token_hash token_id tokens ≡ true = ground arith in
    let rest = none_left token_hash token_id revoked_at tokens others in
    elim (Bool-cases (row.id == token_id)) [
      | inl e ↦ ground arith
      | inr e ↦ let other : (row.token_hash == token_hash) ≡ false = ground arith in ground arith
    ]

-- A principal that a stored token gave.
pub record IsIssued (token_hash : String) (accounts : Accounts) (principal : Principal)
    : Type 0 where
  pub token : ApiTokenRecord
  pub user : UserRecord
  pub hash : (token.token_hash == token_hash) ≡ true
  pub valid : is_some token.revoked_at ≡ false
  pub older : List ApiTokenRecord
  pub newer : List ApiTokenRecord
  pub stored : accounts.tokens ≡ older ++ token ∷ newer
  pub owner : get_user token.user_id accounts ≡ some user
  pub enabled : user.disabled ≡ false
  pub scope :
      (principal.user_id ≡ token.user_id)
      × (principal.role ≡ token.role)
      × (principal.project_id ≡ token.project_id)

module _ (token_hash : String) where
  abbrev usable : ApiTokenRecord → Bool
  usable row = row.token_hash == token_hash && not (is_some row.revoked_at)

  selected :
      (tokens : List ApiTokenRecord) (token : ApiTokenRecord) (rest : List ApiTokenRecord)
      → select_where usable tokens ≡ token ∷ rest
      → (usable token ≡ true)
        × (older : List ApiTokenRecord) × (newer : List ApiTokenRecord) × (tokens
            ≡ older ++ token ∷ newer)
  unfolding select_where
  selected [] token rest h = absurd (ground arith)
  selected (row ∷ tokens) token rest h = elim (Bool-cases (usable row)) [
    | inl e ↦
        let same : row ≡ token = ground arith in
        (ap usable (sym same) ∙ e, [], tokens, ap (λ t. t ∷ tokens) same)
    | inr e ↦
        let later : select_where usable tokens ≡ token ∷ rest = ground arith in
        let (fits, older, newer, split) = selected tokens token rest later in
        (fits, row ∷ older, newer, ap (λ l. row ∷ l) split)
  ]

  one_found :
      (rows : List ApiTokenRecord) (token : ApiTokenRecord)
      → one_or_none rows ≡ ok (some token)
      → rows ≡ token ∷ []
  one_found [] token h = ground arith
  one_found (row ∷ []) token h = ground arith
  one_found (row ∷ other ∷ rows) token h = ground arith

  found-IsIssued :
      (accounts : Accounts) (principal : Principal)
      (found : Result AuthError (Option ApiTokenRecord))
      → get_api_token_by_hash token_hash accounts ≡ found
      → by_token accounts token_hash no_providers found ≡ ok principal
      → IsIssued token_hash accounts principal
  unfolding by_token by_provider by_user get_api_token_by_hash
  found-IsIssued accounts principal (raise e) looked h = ground arith
  found-IsIssued accounts principal (ok none) looked h = ground arith
  found-IsIssued accounts principal (ok (some token)) looked h =
      let one = one_found (select_where usable accounts.tokens) token looked in
      let (is_usable, older, newer, stored) = selected accounts.tokens token [] one in
      elim (Option-cases (get_user token.user_id accounts)) [
        | inl missing ↦ ground arith
        | inr (user, owner) ↦ record {
          token = token;
          user = user;
          hash = ground arith;
          valid = ground arith;
          older = older;
          newer = newer;
          stored = stored;
          owner = owner;
          enabled = ground arith;
          scope = ground arith;
        }
      ]

-- Where no provider is enabled, a token that is not the bootstrap token authenticates only by a
-- stored token of its hash that is not revoked, whose user is there and not disabled; the caller has
-- that token's user, role and project.
pub authenticate_token-IsIssued :
    (hash_api_token : String → String) (token bootstrap_token : String) (accounts : Accounts)
    (principal : Principal)
    → (token == bootstrap_token) ≡ false
    → authenticate_token hash_api_token token bootstrap_token no_providers accounts ≡ ok principal
    → IsIssued (hash_api_token token) accounts principal
unfolding authenticate_token
authenticate_token-IsIssued hash_api_token token bootstrap_token accounts principal other h =
    let token_hash = hash_api_token token in
    let by : by_token accounts token_hash no_providers (get_api_token_by_hash token_hash accounts)
        ≡ ok principal =
      ground arith in
    found-IsIssued token_hash accounts principal (get_api_token_by_hash token_hash accounts) refl by

denied_unless_own :
    (own project_id : Option String)
    → raise_if (not (is_some own) || not (same_text project_id own)) project_denied ≡ ok tt
    → (mine : String) × (own ≡ some mine) × (project_id ≡ some mine)
denied_unless_own none project_id h = absurd (ground arith)
denied_unless_own (some mine) none h = absurd (ground arith)
denied_unless_own (some mine) (some project_id) h =
    let same : (project_id == mine) ≡ true = ground arith in
    (mine, refl, ap some ((eq_iff project_id mine).0 same))

own_allowed :
    (own project_id : Option String) (mine : String)
    → own ≡ some mine
    → project_id ≡ some mine
    → raise_if (not (is_some own) || not (same_text project_id own)) project_denied ≡ ok tt
own_allowed own project_id mine a b = rw (a, b, eq_refl mine) refl

-- A principal reaches a project exactly if it is an administrator or the project is its own.
pub require_project_access-reaches :
    (principal : Principal) (project_id : Option String)
    → (require_project_access principal project_id ≡ ok tt) ↔ (
        (is_admin principal ≡ true)
        ⊎ ((own : String) × (principal.project_id ≡ some own) × (project_id ≡ some own)))
unfolding require_project_access
require_project_access-reaches principal project_id = (
  λ h. elim (Bool-cases (is_admin principal)) [
    | inl e ↦ inl e
    | inr e ↦ inr (denied_unless_own principal.project_id project_id (ground arith))
  ],
  λ h. elim (Bool-cases (is_admin principal)) [
    | inl e ↦ rw e refl
    | inr e ↦ elim h [
      | inl admin ↦ absurd (ground arith)
      | inr (mine, a, b) ↦ rw e (own_allowed principal.project_id project_id mine a b)
    ]
  ],
)
