-- ===== src/Store/Events.antt =====
-- The events table: durable events with a store-wide sequence, in causal order (store.py).
pub mod Causal
use goblin_king.Base.{
  ℕ, suc, ◌+◌, String, ◌==◌, Bool, true, ◌&&◌, Option, none, some, List, [], ◌∷◌, leb, is_text,
  Result, ok, raise, if◌then◌else◌,
}
use goblin_king.Contracts.{EventRecord}
use goblin_king.CausalTime.{utc, causally_after}
use goblin_king.Table.{select_where, order_by, insert_row}
use goblin_king.Store.State.{Store, StoreError, integrity_error}

abbrev pub event_key : EventRecord → String
event_key event = event.id

-- ORDER BY sequence DESC LIMIT 1
abbrev pub newer : EventRecord → EventRecord → Bool
newer a b = leb b.sequence a.sequence

abbrev pub first {ℓ} : {A : Type ℓ} → List A → Option A
first [] = none
first (x ∷ t) = some x

unfoldable pub newest_event : List EventRecord → Option EventRecord
newest_event events = first (order_by newer events)

abbrev pub created_at_of : Option EventRecord → Option ℕ
created_at_of none = none
created_at_of (some event) = some event.created_at

-- The event as it is stored: the next sequence, and a time after the newest event's.
unfoldable pub sequenced : Store → EventRecord → EventRecord
sequenced store event = record event {
  sequence = store.event_sequence + 1;
  created_at =
      causally_after
        (elim (newest_event store.events) [
          | none ↦ none ∷ []
          | some previous ↦ some (utc previous.created_at) ∷ []
        ])
        (utc event.created_at);
}

unfoldable pub persist_event : EventRecord → Store → Result StoreError (Store × EventRecord)
persist_event event store =
    let stored = sequenced store event in
    elim (insert_row event_key stored store.events) [
      | none ↦ raise integrity_error
      | some events ↦
          ok (record store { events = events; event_sequence = store.event_sequence + 1 }, stored)
    ]

-- A filter that is None lets every event through.
abbrev pub admits : Option String → Option String → Bool
admits none value = true
admits (some wanted) value = is_text value wanted

unfoldable pub latest_event_created_at : (job_id event_type : Option String) → Store → Option ℕ
latest_event_created_at job_id event_type store = created_at_of (
    newest_event (
      select_where
        (λ event. admits job_id event.job_id && admits event_type (some event.event_type))
        store.events))
