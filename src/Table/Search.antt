-- ===== src/Table/Search.antt =====
-- How a lookup by a condition (`find_where`) sees each statement.
use mathlib.Core.Option
use goblin_king.Base.{
  String, ◌==◌, eq_iff, ◌≡◌, refl, Bool, true, false, none, some, List, [], ◌∷◌, ◌++◌, arith,
  if◌then◌else◌, All, All-map, Bool-cases, inl, inr, subst,
}
use goblin_king.Table.{update_where, get_row, find_where, select_where}
use goblin_king.Table.Laws.{IsKeyed}
use goblin_king.Table.Keyed.{AreRows-self}

module _ {ℓ} {A : Type ℓ} where
  -- An UPDATE that does not change which rows pass acts on the row that the lookup finds.
  pub find_where-update_where :
      (p q : A → Bool) (f : A → A) (t : List A)
      → All (λ x. q x ≡ true → p (f x) ≡ p x) t
      → find_where p (update_where q f t)
        ≡ Option.map (λ x. if q x then f x else x) (find_where p t)
  unfolding find_where update_where
  find_where-update_where p q f [] h = refl
  find_where-update_where p q f (x ∷ t) h = ground (arith, h.0, find_where-update_where p q f t h.1)

  -- A row that is found is found again in a longer table.
  pub find_where-append :
      (p : A → Bool) (t more : List A) (x : A)
      → find_where p t ≡ some x
      → find_where p (t ++ more) ≡ some x
  unfolding find_where
  find_where-append p [] more x h = cc
  find_where-append p (y ∷ t) more x h = ground (arith, find_where-append p t more x)

  pub find_where-passes : (p : A → Bool) (t : List A) (x : A) → find_where p t ≡ some x → p x ≡ true
  unfolding find_where
  find_where-passes p [] x h = cc
  find_where-passes p (y ∷ t) x h = ground (arith, find_where-passes p t x)

  pub find_where-All {κ} :
      (P : A → Type κ) (p : A → Bool) (t : List A) (x : A) → All P t → find_where p t ≡ some x → P x
  unfolding find_where
  find_where-All P p [] x a h = cc
  find_where-All P p (y ∷ t) x a h = elim (Bool-cases (p y)) [
    | inl e ↦ subst P (ground arith) a.0
    | inr e ↦ find_where-All P p t x a.1 (ground arith)
  ]

module _ {ℓ} {A : Type ℓ} (key : A → String) where
  -- In a keyed table, the row of a key is the only one.
  pub get_row-only :
      (k : String) (t : List A) (x : A)
      → IsKeyed key t
      → get_row key k t ≡ some x
      → All (λ y. (key y == k) ≡ true → y ≡ x) t
  get_row-only k t x u h =
      All-map _ _ (λ y e m. ground (arith, eq_iff (key y) k)) t (AreRows-self key t u)

module _ {ℓ} {A : Type ℓ} where
  pub update_where-All {κ} :
      (P : A → Type κ) (p : A → Bool) (f : A → A) (t : List A)
      → ((x : A) → p x ≡ true → P x → P (f x))
      → All P t
      → All P (update_where p f t)
  unfolding update_where
  update_where-All P p f [] h a = tt
  update_where-All P p f (x ∷ t) h a = elim (Bool-cases (p x)) [
    | inl e ↦ rw e (h x e a.0, update_where-All P p f t h a.1)
    | inr e ↦ rw e (a.0, update_where-All P p f t h a.1)
  ]

module _ {ℓ} {A : Type ℓ} where
  -- What holds of each selected row holds of each row that passes.
  pub select_where-All {κ} :
      (P : A → Type κ) (p : A → Bool) (t : List A)
      → All P (select_where p t)
      → All (λ x. p x ≡ true → P x) t
  unfolding select_where
  select_where-All P p [] a = tt
  select_where-All P p (x ∷ t) a = elim (Bool-cases (p x)) [
    | inl e ↦ let both = rw e at a in ((λ _. both.0), select_where-All P p t both.1)
    | inr e ↦ ((λ m. ground arith), select_where-All P p t (rw e at a))
  ]

module _ {ℓ} {A : Type ℓ} where
  -- A DELETE that spares every row that passes leaves the lookup as it was.
  pub find_where-select_where :
      (p q : A → Bool) (t : List A)
      → ((x : A) → p x ≡ true → q x ≡ true)
      → find_where p (select_where q t) ≡ find_where p t
  unfolding find_where select_where
  find_where-select_where p q [] h = refl
  find_where-select_where p q (x ∷ t) h = ground (arith, h x, find_where-select_where p q t h)

  pub select_where-passes : (q : A → Bool) (t : List A) → All (λ x. q x ≡ true) (select_where q t)
  unfolding select_where
  select_where-passes q [] = tt
  select_where-passes q (x ∷ t) = elim (Bool-cases (q x)) [
    | inl e ↦ rw e (e, select_where-passes q t)
    | inr e ↦ rw e (select_where-passes q t)
  ]

module _ {ℓ} {A : Type ℓ} (key : A → String) where
  pub get_row-select_where :
      (k : String) (q : A → Bool) (t : List A)
      → ((x : A) → key x ≡ k → q x ≡ true)
      → get_row key k (select_where q t) ≡ get_row key k t
  unfolding get_row select_where
  get_row-select_where k q [] h = refl
  get_row-select_where k q (x ∷ t) h =
      ground (arith, h x, eq_iff (key x) k, get_row-select_where k q t h)

  pub get_row-select_where-none :
      (k : String) (q : A → Bool) (t : List A)
      → ((x : A) → key x ≡ k → q x ≡ false)
      → get_row key k (select_where q t) ≡ none
  unfolding get_row select_where
  get_row-select_where-none k q [] h = refl
  get_row-select_where-none k q (x ∷ t) h =
      ground (arith, h x, eq_iff (key x) k, get_row-select_where-none k q t h)
