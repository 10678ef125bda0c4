-- ===== src/Contracts/Lookup.antt =====
-- Lookups in JSON objects after a field was set.
use goblin_king.Base.{String, ◌==◌, eq_iff, eq_refl, ◌≡◌, false, some, arith}
use goblin_king.Contracts.Documents.{Json, Fields, end, field, get_field, set_field}

pub get_field-set_field_same :
    (key : String) (value : Json) (fields : Fields)
    → get_field key (set_field key value fields) ≡ some value
unfolding get_field set_field
get_field-set_field_same key value end = ground (arith, eq_refl key)
get_field-set_field_same key value (field other old fields) =
    let ih = get_field-set_field_same key value fields in ground arith

pub get_field-set_field_other :
    (key other : String) (value : Json) (fields : Fields)
    → (key == other) ≡ false
    → get_field other (set_field key value fields) ≡ get_field other fields
unfolding get_field set_field
get_field-set_field_other key other value end apart = ground arith
get_field-set_field_other key other value (field name old fields) apart =
    let ih = get_field-set_field_other key other value fields apart in
    ground (arith, eq_iff name key, eq_iff name other, eq_iff key other)
