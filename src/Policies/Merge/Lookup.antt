-- ===== src/Policies/Merge/Lookup.antt =====
-- What a merged policy document holds under a path of keys (`_deep_merge`).
use goblin_king.Base.{
  ◌||◌, String, ◌==◌, eq_iff, eq_refl, ◌≡◌, refl, sym, ap, subst, Bool, true, false, Option, none,
  some, List, [], ◌∷◌, arith, Bool-cases, Option-cases, inl, inr, if◌then◌else◌,
}
use goblin_king.Contracts.{
  Json, null, bool, num, str, arr, obj, Fields, end, field, get_field, set_field,
  get_field-set_field_same, get_field-set_field_other,
}
use goblin_king.Policies.Merge.{deep_merge, merge_value}

-- A Python dict lists each key once, at every depth.
unfoldable mutual
  pub IsDict : Fields → Type 0
  IsDict end = Unit
  IsDict (field key value fields) = (get_field key fields ≡ none) × IsValue value × IsDict fields

  pub IsValue : Json → Type 0
  IsValue (obj fields) = IsDict fields
  IsValue _ = Unit

-- `document[key][key']...`
unfoldable pub get_path : List String → Json → Option Json
get_path [] value = some value
get_path (key ∷ path) (obj fields) = elim (get_field key fields) [
  | none ↦ none
  | some value ↦ get_path path value
]
get_path (key ∷ path) _ = none

abbrev pub is_object : Json → Bool
is_object (obj fields) = true
is_object _ = false

-- Following the path leaves the document at a key that an object of it does not have.
unfoldable pub misses : List String → Json → Bool
misses [] value = false
misses (key ∷ path) (obj fields) = elim (get_field key fields) [
  | none ↦ true
  | some value ↦ misses path value
]
misses (key ∷ path) _ = false

abbrev merged_value : Option Json → Option Json → Option Json
merged_value base none = base
merged_value base (some value) = some (merge_value base value)

get_field-deep_merge :
    (override : Fields) (base : Fields) (key : String)
    → IsDict override
    → get_field key (deep_merge base override)
      ≡ merged_value (get_field key base) (get_field key override)
unfolding deep_merge get_field IsDict
get_field-deep_merge end base key dict = refl
get_field-deep_merge (field name value override) base key (absent, _, dict) =
    let value' = merge_value (get_field name base) value in
    let base' = set_field name value' base in
    let ih = get_field-deep_merge override base' key dict in
    elim (Bool-cases (name == key)) [
      | inl e ↦
          let it = (eq_iff name key).0 e in
          let same = get_field-set_field_same name value' base in
          let ih' = get_field-deep_merge override base' name dict in
          subst
            (λ k.
              get_field k (deep_merge base' override)
              ≡ merged_value (get_field k base) (get_field k (field name value override)))
            it (rw (ih', absent, same, eq_refl name) refl)
      | inr apart ↦
          let kept = get_field-set_field_other name key value' base apart in
          rw (ih, kept, apart) refl
    ]

IsDict-IsValue :
    (fields : Fields) (key : String) (value : Json)
    → IsDict fields
    → get_field key fields ≡ some value
    → IsValue value
unfolding IsDict get_field
IsDict-IsValue end key value dict found = ground arith
IsDict-IsValue (field name old fields) key value (_, whole, dict) found =
    elim (Bool-cases (name == key)) [
      | inl e ↦ let same : some old ≡ some value = ground arith in ground arith
      | inr apart ↦
          let rest : get_field key fields ≡ some value = ground arith in
          IsDict-IsValue fields key value dict rest
    ]

-- A value that is no object, or nothing at all.
abbrev pub is_leaf : Option Json → Bool
is_leaf none = true
is_leaf (some (obj fields)) = false
is_leaf (some _) = true

abbrev path_in : List String → Option Json → Option Json
path_in path none = none
path_in path (some value) = get_path path value

merge_value-replaces :
    (base : Option Json) (value : Json)
    → (is_leaf base || is_leaf (some value)) ≡ true
    → merge_value base value ≡ value
unfolding merge_value
merge_value-replaces none value h = refl
merge_value-replaces (some null) value h = refl
merge_value-replaces (some (bool b)) value h = refl
merge_value-replaces (some (num n)) value h = refl
merge_value-replaces (some (str s)) value h = refl
merge_value-replaces (some (arr a)) value h = refl
merge_value-replaces (some (obj base)) null h = refl
merge_value-replaces (some (obj base)) (bool b) h = refl
merge_value-replaces (some (obj base)) (num n) h = refl
merge_value-replaces (some (obj base)) (str s) h = refl
merge_value-replaces (some (obj base)) (arr a) h = refl
merge_value-replaces (some (obj base)) (obj override) h = ground arith

misses-none :
    (path : List String) (value : Json) → misses path value ≡ true → get_path path value ≡ none
unfolding misses get_path
misses-none [] value h = ground arith
misses-none (key ∷ path) (obj fields) h = elim (Option-cases (get_field key fields)) [
  | inl absent ↦ ground arith
  | inr (value, found) ↦
      let missed : misses path value ≡ true = ground arith in
      let deeper = misses-none path value missed in ground arith
]
misses-none (key ∷ path) null h = ground arith
misses-none (key ∷ path) (bool b) h = ground arith
misses-none (key ∷ path) (num n) h = ground arith
misses-none (key ∷ path) (str s) h = ground arith
misses-none (key ∷ path) (arr a) h = ground arith

-- A path that goes on finds nothing in a value that is no object.
path_in-leaf :
    (key : String) (path : List String) (base : Option Json)
    → is_leaf base ≡ true
    → path_in (key ∷ path) base ≡ none
unfolding get_path
path_in-leaf key path none h = refl
path_in-leaf key path (some null) h = refl
path_in-leaf key path (some (bool b)) h = refl
path_in-leaf key path (some (num n)) h = refl
path_in-leaf key path (some (str s)) h = refl
path_in-leaf key path (some (arr a)) h = refl
path_in-leaf key path (some (obj fields)) h = ground arith

misses-leaf :
    (path : List String) (value : Json) → is_leaf (some value) ≡ true → misses path value ≡ false
unfolding misses
misses-leaf [] value h = refl
misses-leaf (key ∷ path) null h = refl
misses-leaf (key ∷ path) (bool b) h = refl
misses-leaf (key ∷ path) (num n) h = refl
misses-leaf (key ∷ path) (str s) h = refl
misses-leaf (key ∷ path) (arr a) h = refl
misses-leaf (key ∷ path) (obj fields) h = ground arith

-- What the merged document has under a path, by what the two documents have there.
abbrev pub layered : List String → Option Json → Json → Option Json
layered path base value = if misses path value then path_in path base else get_path path value

replaced-layered :
    (key : String) (path : List String) (base : Option Json) (value : Json)
    → (is_leaf base || is_leaf (some value)) ≡ true
    → get_path (key ∷ path) (merge_value base value) ≡ layered (key ∷ path) base value
replaced-layered key path base value either =
    rw (merge_value-replaces base value either) (elim (Bool-cases (misses (key ∷ path) value)) [
      | inr kept ↦ rw kept refl
      | inl missed ↦
          let nothing = misses-none (key ∷ path) value missed in
          let below : is_leaf base ≡ true → path_in (key ∷ path) base ≡ none =
            path_in-leaf key path base in
          let leaf : is_leaf (some value) ≡ true → misses (key ∷ path) value ≡ false =
            misses-leaf (key ∷ path) value in
          let outside : path_in (key ∷ path) base ≡ none = elim (Bool-cases (is_leaf base)) [
            | inl e ↦ below e
            | inr e ↦
                let held : is_leaf (some value) ≡ true = ground arith in
                let no = leaf held in ground arith
          ] in
          rw (missed, nothing) (sym outside)
    ])

one_level :
    (path : List String) (merged base override : Option Json)
    → merged ≡ merged_value base override
    → ((value : Json)
        → override ≡ some value
        → get_path path (merge_value base value) ≡ layered path base value)
    → path_in path merged ≡ (
        if (elim override [ none ↦ true | some value ↦ misses path value ])
        then path_in path base
        else path_in path override)
one_level path merged base none same deeper = rw same refl
one_level path merged base (some value) same deeper = rw same (deeper value refl)

get_path-merge_value :
    (path : List String) (base : Option Json) (value : Json)
    → IsValue value
    → is_leaf (get_path path value) ≡ true
    → get_path path (merge_value base value) ≡ layered path base value
unfolding get_path misses merge_value IsDict
get_path-merge_value [] base value whole leaf =
    let either : (is_leaf base || is_leaf (some value)) ≡ true = ground arith in
    let same = merge_value-replaces base value either in ap some same
get_path-merge_value (key ∷ path) (some (obj fields)) (obj override) whole leaf =
    one_level path (get_field key (deep_merge fields override)) (get_field key fields)
      (get_field key override) (get_field-deep_merge override fields key whole)
      (λ value found.
        let part = IsDict-IsValue override key value whole found in
        let end_leaf : is_leaf (get_path path value) ≡ true = ground arith in
        get_path-merge_value path (get_field key fields) value part end_leaf)
get_path-merge_value (key ∷ path) none value whole leaf = replaced-layered key path none value refl
get_path-merge_value (key ∷ path) (some null) value whole leaf =
    replaced-layered key path (some null) value refl
get_path-merge_value (key ∷ path) (some (bool b)) value whole leaf =
    replaced-layered key path (some (bool b)) value refl
get_path-merge_value (key ∷ path) (some (num n)) value whole leaf =
    replaced-layered key path (some (num n)) value refl
get_path-merge_value (key ∷ path) (some (str s)) value whole leaf =
    replaced-layered key path (some (str s)) value refl
get_path-merge_value (key ∷ path) (some (arr a)) value whole leaf =
    replaced-layered key path (some (arr a)) value refl
get_path-merge_value (key ∷ path) (some (obj f)) null whole leaf =
    replaced-layered key path (some (obj f)) null refl
get_path-merge_value (key ∷ path) (some (obj f)) (bool b) whole leaf =
    replaced-layered key path (some (obj f)) (bool b) refl
get_path-merge_value (key ∷ path) (some (obj f)) (num n) whole leaf =
    replaced-layered key path (some (obj f)) (num n) refl
get_path-merge_value (key ∷ path) (some (obj f)) (str s) whole leaf =
    replaced-layered key path (some (obj f)) (str s) refl
get_path-merge_value (key ∷ path) (some (obj f)) (arr a) whole leaf =
    replaced-layered key path (some (obj f)) (arr a) refl

-- Under a path where the override has no object, the merged document has what the override has
-- there, and, where the override lacks a key on the way, what the base has there; the override lists
-- each key once.
pub deep_merge-path :
    (path : List String) (base override : Fields)
    → IsDict override
    → is_leaf (get_path path (obj override)) ≡ true
    → get_path path (obj (deep_merge base override)) ≡ layered path (some (obj base)) (obj override)
unfolding merge_value IsDict
deep_merge-path path base override whole leaf =
    get_path-merge_value path (some (obj base)) (obj override) whole leaf
