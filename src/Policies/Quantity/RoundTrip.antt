-- ===== src/Policies/Quantity/RoundTrip.antt =====
-- Byte quantities written out and read back (`_parse_bytes`).
use mathlib.Core.List.{append_assoc}
use goblin_king.Base.{
  ℕ, zero, suc, ◌+◌, ◌-◌, ◌*◌, ◌/◌, ◌%◌, ◌<◌, ◌≡◌, refl, ap, ◌∙◌, Bool, true, false, some, List, [],
  ◌∷◌, ◌++◌, ltb, ltb→lt, if◌then◌else◌, arith, Bool-cases, inl, inr,
}
use goblin_king.Policies.Quantity.{is_digit, read_number, read_unit, scaled, parse_bytes}

-- A number's decimal digits; a digit for each unit of fuel.
unfoldable pub decimal : (fuel number : ℕ) → List ℕ
decimal zero number = []
decimal (suc fuel) number =
    let higher = decimal fuel (number / 10) in
    if ltb number 10 then (b'0' + number) ∷ [] else higher ++ (b'0' + number % 10) ∷ []

pub data ByteUnit : Type 0 where
  bytes kilo mega giga tera kibi mebi gibi tebi : ByteUnit

abbrev pub unit_text : ByteUnit → List ℕ
unit_text bytes = []
unit_text kilo = b'K' ∷ []
unit_text mega = b'M' ∷ []
unit_text giga = b'G' ∷ []
unit_text tera = b'T' ∷ []
unit_text kibi = b'K' ∷ b'i' ∷ []
unit_text mebi = b'M' ∷ b'i' ∷ []
unit_text gibi = b'G' ∷ b'i' ∷ []
unit_text tebi = b'T' ∷ b'i' ∷ []

abbrev pub unit_size : ByteUnit → ℕ
unit_size bytes = 1
unit_size kilo = 1000
unit_size mega = 1000000
unit_size giga = 1000000000
unit_size tera = 1000000000000
unit_size kibi = 1024
unit_size mebi = 1048576
unit_size gibi = 1073741824
unit_size tebi = 1099511627776

-- The digits of a number, enough fuel given, and a unit.
abbrev pub quantity : ℕ → ByteUnit → List ℕ
quantity number unit = decimal (suc number) number ++ unit_text unit

digit_code : (digit : ℕ) → digit < 10 → is_digit (b'0' + digit) ≡ true
digit_code digit h = ground arith

read_digit :
    (number digit : ℕ) (text : List ℕ)
    → digit < 10
    → read_number number ((b'0' + digit) ∷ text) ≡ read_number (10 * number + digit) text
unfolding read_number
read_digit number digit text h =
    let value : b'0' + digit - b'0' ≡ digit = omega arith in rw (digit_code digit h, value) refl

read_number-decimal :
    (fuel number : ℕ) (text : List ℕ)
    → number < fuel
    → read_number 0 (decimal fuel number ++ text) ≡ read_number number text
unfolding decimal
read_number-decimal zero number text h = ground arith
read_number-decimal (suc fuel) number text h = elim (Bool-cases (ltb number 10)) [
  | inl small ↦
      let below = ltb→lt number 10 small in
      let alone : 10 * 0 + number ≡ number = omega arith in
      rw small (read_digit 0 number text below ∙ ap (λ n. read_number n text) alone)
  | inr large ↦
      let fits : number / 10 < fuel = ground arith in
      let digit : number % 10 < 10 = omega arith in
      let whole : 10 * (number / 10) + number % 10 ≡ number = omega arith in
      let ih = read_number-decimal fuel (number / 10) ((b'0' + number % 10) ∷ text) fits in
      rw (large, append_assoc (decimal fuel (number / 10)) ((b'0' + number % 10) ∷ []) text)
        (ih
          ∙ read_digit (number / 10) (number % 10) text digit
          ∙ ap (λ n. read_number n text) whole)
]

abbrev starts_number : List ℕ → Bool
starts_number [] = false
starts_number (c ∷ text) = is_digit c

starts_number-decimal :
    (fuel number : ℕ) (text : List ℕ)
    → number < fuel
    → starts_number (decimal fuel number ++ text) ≡ true
unfolding decimal
starts_number-decimal zero number text h = ground arith
starts_number-decimal (suc fuel) number text h = elim (Bool-cases (ltb number 10)) [
  | inl small ↦ rw small (digit_code number (ltb→lt number 10 small))
  | inr large ↦
      let fits : number / 10 < fuel = ground arith in
      let ih = starts_number-decimal fuel (number / 10) ((b'0' + number % 10) ∷ text) fits in
      rw (large, append_assoc (decimal fuel (number / 10)) ((b'0' + number % 10) ∷ []) text) ih
]

parse_bytes-scaled :
    (text : List ℕ) → starts_number text ≡ true → parse_bytes text ≡ scaled (read_number 0 text)
unfolding parse_bytes
parse_bytes-scaled [] h = ground arith
parse_bytes-scaled (c ∷ text) h = rw h refl

scaled-unit_text :
    (number : ℕ) (unit : ByteUnit)
    → scaled (read_number number (unit_text unit)) ≡ some (number * unit_size unit)
unfolding scaled read_number read_unit
scaled-unit_text number bytes = refl
scaled-unit_text number kilo = refl
scaled-unit_text number mega = refl
scaled-unit_text number giga = refl
scaled-unit_text number tera = refl
scaled-unit_text number kibi = refl
scaled-unit_text number mebi = refl
scaled-unit_text number gibi = refl
scaled-unit_text number tebi = refl

-- A number in decimal digits with one of the units, or with none, is read as the number times the
-- unit's size.
pub parse_bytes-quantity :
    (number : ℕ) (unit : ByteUnit)
    → parse_bytes (quantity number unit) ≡ some (number * unit_size unit)
parse_bytes-quantity number unit =
    let enough : number < suc number = omega arith in
    parse_bytes-scaled (quantity number unit)
      (starts_number-decimal (suc number) number (unit_text unit) enough)
    ∙ ap scaled (read_number-decimal (suc number) number (unit_text unit) enough)
    ∙ scaled-unit_text number unit
