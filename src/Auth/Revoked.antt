-- ===== src/Auth/Revoked.antt =====
-- A revoked token stays refused, whatever tokens are saved and revoked later.
use goblin_king.Base.{
  ℕ, String, ◌==◌, ◌≡◌, refl, Bool, true, false, not, ◌&&◌, Option, none, some, List, [], ◌∷◌, ◌++◌,
  is_some, raise, arith, Bool-cases, Option-cases, inl, inr, all,
}
use goblin_king.Table.{select_where, update_where, insert_row}
use goblin_king.Table.Laws.{insert_row-eq_some}
use goblin_king.Auth.{invalid_token, ApiTokenRecord}
use goblin_king.Auth.Tokens.{
  Accounts, token_key, save_api_token, get_api_token_by_hash, revoke_api_token, by_provider,
  by_token, authenticate_token,
}
use goblin_king.Auth.Access.{no_providers, is_only, none_left}

pub data TokenCall : Type 0 where
  save : ApiTokenRecord → TokenCall
  revoke : (token_id : String) (revoked_at : ℕ) → TokenCall

-- A token that is not saved leaves the accounts as they were.
abbrev saved_or : Accounts → Option Accounts → Accounts
saved_or accounts none = accounts
saved_or accounts (some saved) = saved

unfoldable pub make : TokenCall → Accounts → Accounts
make (save token) accounts = saved_or accounts (save_api_token token accounts)
make (revoke token_id revoked_at) accounts = (revoke_api_token token_id revoked_at accounts).0

unfoldable pub make_all : List TokenCall → Accounts → Accounts
unfolding make
make_all [] accounts = accounts
make_all (call ∷ calls) accounts = make_all calls (make call accounts)

-- No call saves a token of the hash.
abbrev pub spares : String → TokenCall → Bool
spares token_hash (save token) = not (token.token_hash == token_hash)
spares token_hash (revoke token_id revoked_at) = true

module _ (token_hash : String) where
  abbrev usable : ApiTokenRecord → Bool
  usable row = row.token_hash == token_hash && not (is_some row.revoked_at)

  -- No token of the hash is usable.
  abbrev IsDead : Accounts → Type 0
  IsDead accounts = select_where usable accounts.tokens ≡ []

  append-dead :
      (tokens : List ApiTokenRecord) (token : ApiTokenRecord)
      → (token.token_hash == token_hash) ≡ false
      → select_where usable tokens ≡ []
      → select_where usable (tokens ++ token ∷ []) ≡ []
  unfolding select_where
  append-dead [] token other dead = ground arith
  append-dead (row ∷ tokens) token other dead = elim (Bool-cases (usable row)) [
    | inl e ↦ absurd (ground arith)
    | inr e ↦ ground (arith, append-dead tokens token other)
  ]

  revoked-dead :
      (token_id : String) (revoked_at : ℕ) (tokens : List ApiTokenRecord)
      → select_where usable tokens ≡ []
      → select_where usable (
          update_where
            (λ row. row.id == token_id)
            (λ row. record row { revoked_at = some revoked_at })
            tokens)
        ≡ []
  unfolding select_where update_where
  revoked-dead token_id revoked_at [] dead = refl
  revoked-dead token_id revoked_at (row ∷ tokens) dead = elim (Bool-cases (usable row)) [
    | inl e ↦ absurd (ground arith)
    | inr e ↦ ground (arith, revoked-dead token_id revoked_at tokens)
  ]

  make-IsDead :
      (call : TokenCall) (accounts : Accounts)
      → spares token_hash call ≡ true
      → IsDead accounts
      → IsDead (make call accounts)
  unfolding make
  make-IsDead (save token) accounts other dead =
      elim (Option-cases (insert_row token_key token accounts.tokens)) [
        | inl e ↦ unfold save_api_token in ground arith
        | inr (tokens, e) ↦
            let (_, same) = insert_row-eq_some token_key token accounts.tokens tokens e in
            let still = append-dead accounts.tokens token (ground arith) dead in
            unfold save_api_token in ground arith
      ]
  make-IsDead (revoke token_id revoked_at) accounts other dead =
      unfold revoke_api_token in revoked-dead token_id revoked_at accounts.tokens dead

  make_all-IsDead :
      (calls : List TokenCall) (accounts : Accounts)
      → all (spares token_hash) calls ≡ true
      → IsDead accounts
      → IsDead (make_all calls accounts)
  unfolding make_all
  make_all-IsDead [] accounts other dead = dead
  make_all-IsDead (call ∷ calls) accounts other dead =
      make_all-IsDead calls (make call accounts) (ground arith)
        (make-IsDead call accounts (ground arith) dead)

IsDead-refused :
    (hash_api_token : String → String) (token bootstrap_token : String) (accounts : Accounts)
    → (token == bootstrap_token) ≡ false
    → IsDead (hash_api_token token) accounts
    → authenticate_token hash_api_token token bootstrap_token no_providers accounts
      ≡ raise invalid_token
unfolding authenticate_token get_api_token_by_hash by_token by_provider
IsDead-refused hash_api_token token bootstrap_token accounts other dead = rw (other, dead) refl

-- After a revocation, and any later savings and revocations of tokens that save none of the revoked
-- token's hash, the token is refused, where it is not the bootstrap token, no provider is enabled, and
-- the tokens of its hash were all under the revoked id.
pub revoke_api_token-refused :
    (hash_api_token : String → String) (token bootstrap_token token_id : String) (revoked_at : ℕ)
    (accounts : Accounts) (calls : List TokenCall)
    → (token == bootstrap_token) ≡ false
    → is_only (hash_api_token token) token_id accounts.tokens ≡ true
    → all (spares (hash_api_token token)) calls ≡ true
    → authenticate_token hash_api_token token bootstrap_token no_providers
        (make_all calls (revoke_api_token token_id revoked_at accounts).0)
      ≡ raise invalid_token
revoke_api_token-refused hash_api_token token bootstrap_token token_id revoked_at accounts calls
      other only spared =
    let revoked = (revoke_api_token token_id revoked_at accounts).0 in
    let dead : IsDead (hash_api_token token) revoked =
      unfold revoke_api_token in
      none_left (hash_api_token token) token_id revoked_at accounts.tokens only in
    IsDead-refused hash_api_token token bootstrap_token (make_all calls revoked) other
      (make_all-IsDead (hash_api_token token) calls revoked spared dead)
