-- ===== src/Table/Sorted.antt =====
-- ORDER BY sorts and keeps the rows; LIMIT takes the rows that come first.
use mathlib.Core.List.Perm
use mathlib.Core.List.{Perm}
use goblin_king.Base.{
  ℕ, zero, suc, ◌≡◌, Bool, true, false, List, [], ◌∷◌, All, All-map, Bool-cases, inl, inr, take,
  drop,
}
use goblin_king.Table.{place, order_by}

module _ {ℓ} {A : Type ℓ} (before : A → A → Bool) where
  -- Every row comes before those behind it.
  abbrev pub IsSorted : List A → Type 0
  IsSorted [] = Unit
  IsSorted (x ∷ t) = All (λ y. before x y ≡ true) t × IsSorted t

  All-place {κ} : (P : A → Type κ) (x : A) (t : List A) → P x → All P t → All P (place before x t)
  unfolding place
  All-place P x [] px h = (px, tt)
  All-place P x (y ∷ t) px h = elim (Bool-cases (before x y)) [
    | inl e ↦ rw e (px, h)
    | inr e ↦ rw e (h.0, All-place P x t px h.1)
  ]

  pub All-order_by {κ} : (P : A → Type κ) (t : List A) → All P t → All P (order_by before t)
  unfolding order_by
  All-order_by P [] h = tt
  All-order_by P (x ∷ t) h = All-place P x (order_by before t) h.0 (All-order_by P t h.1)

  place-perm : (x : A) (t : List A) → Perm (place before x t) (x ∷ t)
  unfolding place
  place-perm x [] = Perm.refl (x ∷ [])
  place-perm x (y ∷ t) = elim (Bool-cases (before x y)) [
    | inl e ↦ rw e (Perm.refl (x ∷ y ∷ t))
    | inr e ↦ rw e (Perm.trans (Perm.cons y (place-perm x t)) (Perm.swap x y t))
  ]

  -- Sorting neither loses nor repeats a row.
  pub order_by-perm : (t : List A) → Perm (order_by before t) t
  unfolding order_by
  order_by-perm [] = Perm.refl []
  order_by-perm (x ∷ t) =
      Perm.trans (place-perm x (order_by before t)) (Perm.cons x (order_by-perm t))

  module _ (total : (x y : A) → before x y ≡ false → before y x ≡ true)
      (trans : (x y z : A) → before x y ≡ true → before y z ≡ true → before x z ≡ true) where
    place-IsSorted : (x : A) (t : List A) → IsSorted t → IsSorted (place before x t)
    unfolding place
    place-IsSorted x [] h = (tt, tt)
    place-IsSorted x (y ∷ t) h = elim (Bool-cases (before x y)) [
      | inl e ↦ rw e ((e, All-map _ _ (λ z yz. trans x y z e yz) t h.0), h)
      | inr e ↦ rw e (All-place _ x t (total x y e) h.0, place-IsSorted x t h.1)
    ]

    pub order_by-IsSorted : (t : List A) → IsSorted (order_by before t)
    unfolding order_by
    order_by-IsSorted [] = tt
    order_by-IsSorted (x ∷ t) = place-IsSorted x (order_by before t) (order_by-IsSorted t)

  All-drop : (P : A → Type 0) (m : ℕ) (s : List A) → All P s → All P (drop m s)
  All-drop P zero s a = a
  All-drop P (suc m) [] a = tt
  All-drop P (suc m) (y ∷ s) a = All-drop P m s a.1

  -- In a sorted table, each of the first n rows comes before each of the others.
  pub take-before-drop :
      (n : ℕ) (t : List A)
      → IsSorted t
      → All (λ x. All (λ y. before x y ≡ true) (drop n t)) (take n t)
  take-before-drop zero t h = tt
  take-before-drop (suc n) [] h = tt
  take-before-drop (suc n) (x ∷ t) h = (All-drop _ n t h.0, take-before-drop n t h.1)

  place-All {κ} : (P : A → Type κ) (x : A) (t : List A) → All P (place before x t) → P x × All P t
  unfolding place
  place-All P x [] h = (h.0, tt)
  place-All P x (y ∷ t) h = elim (Bool-cases (before x y)) [
    | inl e ↦ let (px, rest) = rw e at h in (px, rest)
    | inr e ↦
        let (py, rest) = rw e at h in let (px, later) = place-All P x t rest in (px, (py, later))
  ]

  pub order_by-All {κ} : (P : A → Type κ) (t : List A) → All P (order_by before t) → All P t
  unfolding order_by
  order_by-All P [] h = tt
  order_by-All P (x ∷ t) h =
      let (px, rest) = place-All P x (order_by before t) h in (px, order_by-All P t rest)
