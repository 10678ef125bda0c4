-- ===== src/Table.antt =====
-- Database tables as lists of rows in storage order, and the SQL statements that the store
-- issues against them (store.py, store_run_lifecycle.py): SELECT .. WHERE, UPDATE .. WHERE with
-- its row count, DELETE .. WHERE, INSERT under a primary key, ORDER BY and LIMIT.
pub mod Laws
pub mod Sorted
pub mod Keyed
pub mod Search
use goblin_king.Base.{
  ℕ, suc, zero, String, ◌==◌, Bool, true, false, not, Option, none, some, List, [], ◌∷◌, ◌++◌,
  if◌then◌else◌, any,
}

module _ {ℓ} {A : Type ℓ} where
  unfoldable pub select_where : (A → Bool) → List A → List A
  select_where p [] = []
  select_where p (x ∷ t) = if p x then x ∷ select_where p t else select_where p t

  unfoldable pub update_where : (A → Bool) → (A → A) → List A → List A
  update_where p f [] = []
  update_where p f (x ∷ t) = (if p x then f x else x) ∷ update_where p f t

  -- The row count that an UPDATE or a DELETE reports, and what SELECT count() returns.
  unfoldable pub row_count : (A → Bool) → List A → ℕ
  row_count p [] = 0
  row_count p (x ∷ t) = if p x then suc (row_count p t) else row_count p t

  unfoldable pub delete_where : (A → Bool) → List A → List A
  unfolding select_where
  delete_where p t = select_where (λ x. not (p x)) t

  -- ORDER BY: a stable insertion sort; rows that the order does not tell apart keep their order.
  unfoldable pub place : (A → A → Bool) → A → List A → List A
  place before x [] = x ∷ []
  place before x (y ∷ t) = if before x y then x ∷ y ∷ t else y ∷ place before x t

  unfoldable pub order_by : (A → A → Bool) → List A → List A
  unfolding place
  order_by before [] = []
  order_by before (x ∷ t) = place before x (order_by before t)

module _ {ℓ} {A : Type ℓ} (key : A → String) where
  -- The row under a primary key, `.one_or_none()`.
  unfoldable pub get_row : String → List A → Option A
  get_row k [] = none
  get_row k (x ∷ t) = if key x == k then some x else get_row k t

  -- `none` is the IntegrityError of a second row under one primary key.
  unfoldable pub insert_row : A → List A → Option (List A)
  insert_row x t = if any (λ y. key y == key x) t then none else some (t ++ x ∷ [])

module _ {ℓ} {A : Type ℓ} where
  -- The first row that passes, `.first()` or, where at most one row passes, `.one_or_none()`.
  unfoldable pub find_where : (A → Bool) → List A → Option A
  find_where p [] = none
  find_where p (x ∷ t) = if p x then some x else find_where p t
