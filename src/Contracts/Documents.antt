-- ===== src/Contracts/Documents.antt =====
-- JSON documents: job inputs, metadata, event payloads and proofs. Numbers are integers here.
use goblin_king.Base.{String, ◌==◌, Bool, true, false, Option, none, some, if◌then◌else◌}
use goblin_king.Base.Int.{ℤ}

mutual
  pub data Json : Type 0 where
    null : Json
    bool : Bool → Json
    num : ℤ → Json
    str : String → Json
    arr : Items → Json
    obj : Fields → Json

  pub data Items : Type 0 where
    nil : Items
    cons : Json → Items → Items

  pub data Fields : Type 0 where
    end : Fields
    field : String → Json → Fields → Fields

-- `payload.get(key)`; a key is listed once.
unfoldable pub get_field : String → Fields → Option Json
get_field k end = none
get_field k (field j v fs) = if j == k then some v else get_field k fs

-- `{**payload, key: value}`
unfoldable pub set_field : String → Json → Fields → Fields
set_field k v end = field k v end
set_field k v (field j w fs) = if j == k then field j v fs else field j w (set_field k v fs)

-- the truth value of a dict: empty dicts are falsy
abbrev pub is_empty : Fields → Bool
is_empty end = true
is_empty (field k v fs) = false
