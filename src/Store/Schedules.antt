-- ===== src/Store/Schedules.antt =====
-- Schedules and fanout batches (store.py).
use goblin_king.Base.{ℕ, String, ◌==◌, Bool, ◌&&◌, Option, none, some, List, leb, Result, ok, raise}
use goblin_king.Contracts.{ScheduleRecord, FanoutRecord}
use goblin_king.Table.{select_where, update_where, order_by, get_row, insert_row}
use goblin_king.Store.State.{Store, StoreError, integrity_error}

abbrev pub schedule_key : ScheduleRecord → String
schedule_key schedule = schedule.id

abbrev pub fanout_key : FanoutRecord → String
fanout_key fanout = fanout.id

unfoldable pub save_schedule : ScheduleRecord → Store → Result StoreError Store
save_schedule schedule store = elim (insert_row schedule_key schedule store.schedules) [
  | none ↦ raise integrity_error
  | some schedules ↦ ok (record store { schedules = schedules })
]

unfoldable pub get_schedule : String → Store → Option ScheduleRecord
get_schedule schedule_id store = get_row schedule_key schedule_id store.schedules

-- Every column but the id and the creation time is replaced.
unfoldable pub update_schedule : ScheduleRecord → Store → Store
update_schedule schedule store = record store {
  schedules =
      update_where (λ row. row.id == schedule.id)
        (λ row. record schedule { id = row.id; created_at = row.created_at }) store.schedules;
}

abbrev pub runs_before : ScheduleRecord → ScheduleRecord → Bool
runs_before a b = leb a.next_run_at b.next_run_at

unfoldable pub list_schedules : Store → List ScheduleRecord
list_schedules store = order_by runs_before store.schedules

unfoldable pub list_due_schedules : (now : ℕ) → Store → List ScheduleRecord
list_due_schedules now store =
    order_by runs_before
      (select_where (λ row. row.enabled && leb row.next_run_at now) store.schedules)

unfoldable pub update_schedule_after_materialize :
    (schedule_id : String) (last_materialized_at next_run_at : ℕ) → Store → Store
update_schedule_after_materialize schedule_id last_materialized_at next_run_at store =
    record store {
      schedules =
          update_where (λ row. row.id == schedule_id)
            (λ row. record row {
              last_materialized_at = some last_materialized_at;
              next_run_at = next_run_at;
            })
            store.schedules;
    }

unfoldable pub save_fanout : FanoutRecord → Store → Result StoreError Store
save_fanout fanout store = elim (insert_row fanout_key fanout store.fanouts) [
  | none ↦ raise integrity_error
  | some fanouts ↦ ok (record store { fanouts = fanouts })
]

unfoldable pub get_fanout : String → Store → Option FanoutRecord
get_fanout fanout_id store = get_row fanout_key fanout_id store.fanouts

unfoldable pub list_fanouts : Store → List FanoutRecord
list_fanouts store = order_by (λ a b. leb a.created_at b.created_at) store.fanouts
