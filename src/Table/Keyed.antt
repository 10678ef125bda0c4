-- ===== src/Table/Keyed.antt =====
-- Selecting, sorting and limiting rows whose keys are distinct: each row that comes out is the row
-- under its key, and keys stay distinct.
use goblin_king.Base.{
  ℕ, suc, zero, String, ◌==◌, eq_iff, eq_refl, ◌≡◌, refl, Bool, true, false, none, some, List, [],
  ◌∷◌, arith, if◌then◌else◌, All, All-map, Bool-cases, inl, inr, take, any,
}
use goblin_king.Table.{select_where, place, order_by, get_row}
use goblin_king.Table.Laws.{IsKeyed}

module _ {ℓ} {A : Type ℓ} (key : A → String) where
  pub get_row-select_none :
      (k : String) (p : A → Bool) (t : List A)
      → get_row key k t ≡ none
      → get_row key k (select_where p t) ≡ none
  unfolding get_row select_where
  get_row-select_none k p [] h = refl
  get_row-select_none k p (x ∷ t) h = ground (arith, get_row-select_none k p t)

  pub select_where-IsKeyed :
      (p : A → Bool) (t : List A) → IsKeyed key t → IsKeyed key (select_where p t)
  unfolding select_where
  select_where-IsKeyed p [] u = tt
  select_where-IsKeyed p (x ∷ t) u = elim (Bool-cases (p x)) [
    | inl e ↦ rw e (get_row-select_none (key x) p t u.0, select_where-IsKeyed p t u.1)
    | inr e ↦ rw e (select_where-IsKeyed p t u.1)
  ]

  -- Each row is the one that a lookup of its key finds.
  abbrev pub AreRows : List A → List A → Type ℓ
  AreRows t rows = All (λ row. get_row key (key row) t ≡ some row) rows

  pub AreRows-self : (t : List A) → IsKeyed key t → AreRows t t
  unfolding get_row
  AreRows-self [] u = tt
  AreRows-self (x ∷ t) u = (
    rw (eq_refl (key x)) refl,
    All-map _ _ (λ row e. ground (arith, eq_iff (key x) (key row))) t (AreRows-self t u.1),
  )

  pub All-select_where {κ} :
      (P : A → Type κ) (p : A → Bool) (t : List A) → All P t → All P (select_where p t)
  unfolding select_where
  All-select_where P p [] h = tt
  All-select_where P p (x ∷ t) h = elim (Bool-cases (p x)) [
    | inl e ↦ rw e (h.0, All-select_where P p t h.1)
    | inr e ↦ rw e (All-select_where P p t h.1)
  ]

  get_row-place :
      (before : A → A → Bool) (k : String) (x : A) (t : List A)
      → get_row key (key x) t ≡ none
      → get_row key k (place before x t) ≡ (if key x == k then some x else get_row key k t)
  unfolding get_row place
  get_row-place before k x [] h = refl
  get_row-place before k x (y ∷ t) h = ground (
    arith,
    eq_iff (key x) k,
    eq_iff (key y) k,
    eq_iff (key y) (key x),
    get_row-place before k x t,
  )

  place-IsKeyed :
      (before : A → A → Bool) (x : A) (t : List A)
      → get_row key (key x) t ≡ none
      → IsKeyed key t
      → IsKeyed key (place before x t)
  unfolding place get_row
  place-IsKeyed before x [] h u = (refl, tt)
  place-IsKeyed before x (y ∷ t) h u = elim (Bool-cases (before x y)) [
    | inl e ↦ rw e (h, u)
    | inr e ↦ rw e (
      ground
          (arith, eq_iff (key y) (key x), eq_iff (key x) (key y), get_row-place before (key y) x t),
      place-IsKeyed before x t (ground arith) u.1,
    )
  ]

  pub get_row-order_by :
      (before : A → A → Bool) (k : String) (t : List A)
      → IsKeyed key t
      → get_row key k (order_by before t) ≡ get_row key k t
  unfolding order_by get_row
  get_row-order_by before k [] u = refl
  get_row-order_by before k (x ∷ t) u = ground (
    arith,
    get_row-order_by before k t u.1,
    get_row-order_by before (key x) t u.1,
    get_row-place before k x (order_by before t),
  )

  pub order_by-IsKeyed :
      (before : A → A → Bool) (t : List A) → IsKeyed key t → IsKeyed key (order_by before t)
  unfolding order_by
  order_by-IsKeyed before [] u = tt
  order_by-IsKeyed before (x ∷ t) u =
      place-IsKeyed before x (order_by before t)
        (ground (arith, get_row-order_by before (key x) t u.1)) (order_by-IsKeyed before t u.1)

  get_row-take :
      (n : ℕ) (k : String) (t : List A) → get_row key k t ≡ none → get_row key k (take n t) ≡ none
  unfolding get_row
  get_row-take zero k t h = refl
  get_row-take (suc n) k [] h = refl
  get_row-take (suc n) k (x ∷ t) h = ground (arith, get_row-take n k t)

  pub take-IsKeyed : (n : ℕ) (t : List A) → IsKeyed key t → IsKeyed key (take n t)
  take-IsKeyed zero t u = tt
  take-IsKeyed (suc n) [] u = tt
  take-IsKeyed (suc n) (x ∷ t) u = (get_row-take n (key x) t u.0, take-IsKeyed n t u.1)

  pub All-take {κ} : (P : A → Type κ) (n : ℕ) (t : List A) → All P t → All P (take n t)
  All-take P zero t h = tt
  All-take P (suc n) [] h = tt
  All-take P (suc n) (x ∷ t) h = (h.0, All-take P n t h.1)

  -- Every row's key is among the keys.
  pub any_self : (t : List A) → All (λ x. any (λ y. key y == key x) t ≡ true) t
  any_self [] = tt
  any_self (x ∷ t) =
      (ground (arith, eq_refl (key x)), All-map _ _ (λ y e. ground arith) t (any_self t))

  pub get_row-none-All :
      (k : String) (t : List A) → get_row key k t ≡ none → All (λ x. (key x == k) ≡ false) t
  unfolding get_row
  get_row-none-All k [] h = tt
  get_row-none-All k (x ∷ t) h = (ground arith, get_row-none-All k t (ground arith))
