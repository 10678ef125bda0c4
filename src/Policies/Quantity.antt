-- ===== src/Policies/Quantity.antt =====
-- Quantities of a policy: memory in bytes and processor cores (`_parse_bytes`, `_parse_cpu`).
pub mod RoundTrip
use Prim.Native.Char.{code}
use Prim.Native.String.{String}
use goblin_king.Base.{
  ℕ, ◌+◌, ◌-◌, ◌*◌, Bool, true, false, ◌&&◌, Option, none, some, List, [], ◌∷◌, leb, eqb,
  if◌then◌else◌,
}

-- The code points of a text.
abbrev pub codes : String → List ℕ
codes String.[] = []
codes (String.◌∷◌ c s) = code c ∷ codes s

-- `[0-9]`
abbrev pub is_digit : ℕ → Bool
is_digit c = leb b'0' c && leb c b'9'

-- `[0-9]+`, greedily: the number read so far, with the rest of the text.
unfoldable pub read_number : (number : ℕ) → List ℕ → ℕ × List ℕ
read_number number [] = (number, [])
read_number number (c ∷ text) =
    if is_digit c then read_number (10 * number + (c - b'0')) text else (number, c ∷ text)

-- `$` matches at the end, and before a newline at the end.
abbrev pub at_end : List ℕ → Bool
at_end [] = true
at_end (c ∷ []) = eqb c b'\n'
at_end (_ ∷ _ ∷ _) = false

-- _BYTE_MULTIPLIERS of a one-letter unit, and of one with an `i`.
abbrev pub decimal_unit : ℕ → Option ℕ
decimal_unit c =
    if eqb c b'K'
    then some 1000
    else if eqb c b'M'
    then some 1000000
    else if eqb c b'G'
    then some 1000000000
    else if eqb c b'T'
    then some 1000000000000
    else none

abbrev pub binary_unit : ℕ → Option ℕ
binary_unit c =
    if eqb c b'K'
    then some 1024
    else if eqb c b'M'
    then some 1048576
    else if eqb c b'G'
    then some 1073741824
    else if eqb c b'T'
    then some 1099511627776
    else none

-- `(Ki|Mi|Gi|Ti|K|M|G|T)?$`: the multiplier.
unfoldable pub read_unit : List ℕ → Option ℕ
read_unit [] = some 1
read_unit (c ∷ []) = if eqb c b'\n' then some 1 else decimal_unit c
read_unit (c ∷ i ∷ text) =
    if eqb i b'i' && at_end text
    then binary_unit c
    else if at_end (i ∷ text)
    then decimal_unit c
    else none

-- The number times its unit's multiplier.
unfoldable pub scaled : ℕ × List ℕ → Option ℕ
unfolding read_unit
scaled (number, unit) = elim (read_unit unit) [
  | none ↦ none
  | some multiplier ↦ some (number * multiplier)
]

-- `_parse_bytes` of a text that is there; `none` is the ResourcePolicyError.
unfoldable pub parse_bytes : List ℕ → Option ℕ
unfolding read_number scaled
parse_bytes [] = none
parse_bytes (c ∷ text) = if is_digit c then scaled (read_number 0 (c ∷ text)) else none

-- Python's floats: `none` is the ValueError of `float`.
pub record Floats (F : Type 0) : Type 0 where
  pub float : List ℕ → Option F
  -- `value / 1000`
  pub thousandth : F → F
  -- `value > max_value`
  pub gt : F → F → Bool

-- A text that ends in `m`, without it.
unfoldable pub without_m : List ℕ → Option (List ℕ)
without_m [] = none
without_m (c ∷ []) = if eqb c b'm' then some [] else none
without_m (c ∷ d ∷ text) = elim (without_m (d ∷ text)) [ none ↦ none | some rest ↦ some (c ∷ rest) ]

-- `_parse_cpu` of a text that is there.
unfoldable pub parse_cpu : {F : Type 0} → Floats F → List ℕ → Option F
unfolding without_m
parse_cpu floats value = elim (without_m value) [
  | none ↦ floats.float value
  | some milli ↦ elim (floats.float milli) [
    | none ↦ none
    | some cores ↦ some (floats.thousandth cores)
  ]
]
