-- ===== src/Table/Laws.antt =====
-- How a lookup by primary key sees each statement.
use mathlib.Core.Option
use goblin_king.Base.{
  String, ◌==◌, eq_iff, ◌≡◌, refl, Bool, true, ◌&&◌, none, some, List, [], ◌∷◌, ◌++◌, arith,
  if◌then◌else◌, any, is_some, Option-cases, inl, inr,
}
use goblin_king.Table.{update_where, row_count, get_row, insert_row}

module _ {ℓ} {A : Type ℓ} (key : A → String) where
  -- No two rows share a key.
  abbrev pub IsKeyed : List A → Type ℓ
  IsKeyed [] = Unit
  IsKeyed (x ∷ t) = (get_row key (key x) t ≡ none) × IsKeyed t

  -- An UPDATE that leaves the key alone acts on the row that a lookup finds.
  pub get_row-update_where :
      (k : String) (p : A → Bool) (f : A → A) (t : List A)
      → ((x : A) → p x ≡ true → key (f x) ≡ key x)
      → get_row key k (update_where p f t)
        ≡ Option.map (λ x. if p x then f x else x) (get_row key k t)
  unfolding get_row update_where
  get_row-update_where k p f [] h = refl
  get_row-update_where k p f (x ∷ t) h = ground (arith, h x, get_row-update_where k p f t h)

  pub update_where-IsKeyed :
      (p : A → Bool) (f : A → A) (t : List A)
      → ((x : A) → p x ≡ true → key (f x) ≡ key x)
      → IsKeyed t
      → IsKeyed (update_where p f t)
  unfolding update_where
  update_where-IsKeyed p f [] h u = tt
  update_where-IsKeyed p f (x ∷ t) h u =
      ground (arith, h x, get_row-update_where (key x) p f t h, update_where-IsKeyed p f t h u.1)

  -- An UPDATE of one key counts one row exactly when the row is there and passes the test.
  pub row_count-key :
      (k : String) (p : A → Bool) (t : List A)
      → IsKeyed t
      → row_count (λ x. key x == k && p x) t
        ≡ elim (get_row key k t) [ none ↦ 0 | some x ↦ if p x then 1 else 0 ]
  unfolding get_row row_count
  row_count-key k p [] u = refl
  row_count-key k p (x ∷ t) u = ground (arith, eq_iff (key x) k, row_count-key k p t u.1)

  pub get_row-key : (k : String) (t : List A) (x : A) → get_row key k t ≡ some x → key x ≡ k
  unfolding get_row
  get_row-key k [] x e = cc
  get_row-key k (y ∷ t) x e = ground (arith, eq_iff (key y) k, get_row-key k t x)

  any-key : (k : String) (t : List A) → any (λ y. key y == k) t ≡ is_some (get_row key k t)
  unfolding get_row
  any-key k [] = refl
  any-key k (y ∷ t) = ground (arith, any-key k t)

  get_row-snoc :
      (k : String) (x : A) (t : List A)
      → get_row key k (t ++ x ∷ []) ≡ (
          if is_some (get_row key k t)
          then get_row key k t
          else if key x == k
          then some x
          else none)
  unfolding get_row
  get_row-snoc k x [] = refl
  get_row-snoc k x (y ∷ t) = ground (arith, get_row-snoc k x t)

  -- An INSERT fails exactly on a taken key, and otherwise adds the one row.
  pub insert_row-taken :
      (x : A) (t : List A) → is_some (get_row key (key x) t) ≡ true → insert_row key x t ≡ none
  unfolding insert_row
  insert_row-taken x t h = rw (any-key (key x) t, h)

  pub insert_row-free :
      (x : A) (t : List A) → get_row key (key x) t ≡ none → insert_row key x t ≡ some (t ++ x ∷ [])
  unfolding insert_row
  insert_row-free x t h = rw (any-key (key x) t, h)

  pub insert_row-eq_some :
      (x : A) (t t' : List A)
      → insert_row key x t ≡ some t'
      → (get_row key (key x) t ≡ none) × (t' ≡ t ++ x ∷ [])
  unfolding insert_row
  insert_row-eq_some x t t' h = elim (Option-cases (get_row key (key x) t)) [
    | inl e ↦ ground (arith, any-key (key x) t)
    | inr (y, e) ↦ ground (arith, any-key (key x) t)
  ]

  pub get_row-insert_row :
      (k : String) (x : A) (t t' : List A)
      → insert_row key x t ≡ some t'
      → get_row key k t' ≡ (if key x == k then some x else get_row key k t)
  get_row-insert_row k x t t' h =
      let (free, e) = insert_row-eq_some x t t' h in
      ground (arith, eq_iff (key x) k, get_row-snoc k x t)

  snoc-IsKeyed :
      (x : A) (t : List A) → get_row key (key x) t ≡ none → IsKeyed t → IsKeyed (t ++ x ∷ [])
  unfolding get_row
  snoc-IsKeyed x [] h u = (refl, tt)
  snoc-IsKeyed x (y ∷ t) h u = ground (
    arith,
    eq_iff (key x) (key y),
    eq_iff (key y) (key x),
    get_row-snoc (key y) x t,
    snoc-IsKeyed x t,
  )

  pub insert_row-IsKeyed :
      (x : A) (t t' : List A) → insert_row key x t ≡ some t' → IsKeyed t → IsKeyed t'
  insert_row-IsKeyed x t t' h u =
      let (free, e) = insert_row-eq_some x t t' h in ground (arith, snoc-IsKeyed x t free u)
