-- ===== src/RunEvents/Ascending.antt =====
-- The second loop of read_run_event_entries: from sorted events it takes an ascending page.
use goblin_king.Base.{
  ℕ, zero, suc, String, ◌≡◌, refl, ap, sym, ◌<◌, ◌⊎◌, inl, inr, Bool, true, false, List, [], ◌∷◌,
  take, any, All, length, leb, eqb, subst, All-both, arith, Bool-cases,
}
use goblin_king.Table.Sorted.{IsSorted}
use goblin_king.RunEvents.{RunEventEnvelope, monotonic, by_sequence}

abbrev pub Item : Type 0
Item = String × RunEventEnvelope

-- Each event comes strictly after the one before it, the first after a sequence.
abbrev pub IsAscending : ℕ → List Item → Type 0
IsAscending last [] = Unit
IsAscending last (item ∷ items) = (last < item.1.sequence) × IsAscending item.1.sequence items

abbrev pub has_sequence : ℕ → List Item → Bool
has_sequence n items = any (λ item. eqb item.1.sequence n) items

-- A page has an event with the sequence, or is full of earlier events.
abbrev pub AccountsFor : (limit : ℕ) (page : List Item) → ℕ → Type 0
AccountsFor limit page n =
    (has_sequence n page ≡ true) ⊎ ((length page ≡ limit) × All (λ item. item.1.sequence < n) page)

pub monotonic-IsAscending : (last : ℕ) (items : List Item) → IsAscending last (monotonic last items)
unfolding monotonic
monotonic-IsAscending last [] = tt
monotonic-IsAscending last (item ∷ items) =
    ground (arith, monotonic-IsAscending last items, monotonic-IsAscending item.1.sequence items)

pub take-IsAscending :
    (n last : ℕ) (items : List Item) → IsAscending last items → IsAscending last (take n items)
take-IsAscending zero last items h = tt
take-IsAscending (suc n) last [] h = tt
take-IsAscending (suc n) last (item ∷ items) h = (h.0, take-IsAscending n item.1.sequence items h.1)

-- What holds of every decoded event holds of every event of the page.
pub All-monotonic :
    (P : Item → Type 0) (last : ℕ) (items : List Item) → All P items → All P (monotonic last items)
unfolding monotonic
All-monotonic P last [] h = tt
All-monotonic P last (item ∷ items) h =
    ground (arith, All-monotonic P last items h.1, All-monotonic P item.1.sequence items h.1)

pub All-take : (P : Item → Type 0) (n : ℕ) (items : List Item) → All P items → All P (take n items)
All-take P zero items h = tt
All-take P (suc n) [] h = tt
All-take P (suc n) (item ∷ items) h = (h.0, All-take P n items h.1)

abbrev pub IsCovered : (last : ℕ) (page : List Item) → Item → Type 0
IsCovered last page item = last < item.1.sequence → has_sequence item.1.sequence page ≡ true

monotonic-later :
    (last : ℕ) (item : Item) (items : List Item)
    → leb item.1.sequence last ≡ false
    → monotonic last (item ∷ items) ≡ item ∷ monotonic item.1.sequence items
unfolding monotonic
monotonic-later last item items e = rw e refl

monotonic-earlier :
    (last : ℕ) (item : Item) (items : List Item)
    → leb item.1.sequence last ≡ true
    → monotonic last (item ∷ items) ≡ monotonic last items
unfolding monotonic
monotonic-earlier last item items e = rw e refl

IsCovered-cons :
    (last : ℕ) (item x : Item) (page : List Item)
    → by_sequence item x ≡ true
    → IsCovered item.1.sequence page x
    → IsCovered last (item ∷ page) x
IsCovered-cons last item x page first covered above = ground (arith, covered)

-- The second loop keeps an event of each sequence above the last one.
pub monotonic-has_sequence :
    (last : ℕ) (items : List Item)
    → IsSorted by_sequence items
    → All (IsCovered last (monotonic last items)) items
monotonic-has_sequence last [] h = tt
monotonic-has_sequence last (item ∷ items) (first, sorted) =
    elim (Bool-cases (leb item.1.sequence last)) [
      | inl e ↦
          subst (λ page. All (IsCovered last page) (item ∷ items))
            (sym (monotonic-earlier last item items e))
            ((λ above. ground arith), monotonic-has_sequence last items sorted)
      | inr e ↦
          subst (λ page. All (IsCovered last page) (item ∷ items))
            (sym (monotonic-later last item items e))
            (
              (λ above. ground arith),
              All-both _ _ _ (λ x. IsCovered-cons last item x (monotonic item.1.sequence items))
                  items first (monotonic-has_sequence item.1.sequence items sorted),
            )
    ]

has_sequence-above :
    (n last : ℕ) (items : List Item)
    → IsAscending last items
    → has_sequence n items ≡ true
    → last < n
has_sequence-above n last [] h k = ground arith
has_sequence-above n last (item ∷ items) h k =
    ground (arith, has_sequence-above n item.1.sequence items h.1)

-- The first events of an ascending list account for each sequence of the list.
pub take-AccountsFor :
    (n limit last : ℕ) (items : List Item)
    → IsAscending last items
    → has_sequence n items ≡ true
    → AccountsFor limit (take limit items) n
take-AccountsFor n zero last items h k = inr (refl, tt)
take-AccountsFor n (suc limit) last [] h k = ground arith
take-AccountsFor n (suc limit) last (item ∷ items) h k = elim (Bool-cases (eqb item.1.sequence n)) [
  | inl e ↦ inl (ground arith)
  | inr e ↦
      let later : has_sequence n items ≡ true = ground arith in
      elim (take-AccountsFor n limit item.1.sequence items h.1 later) [
        | inl found ↦ inl (ground arith)
        | inr (full, below) ↦
            inr (ap suc full, (has_sequence-above n item.1.sequence items h.1 later, below))
      ]
]
