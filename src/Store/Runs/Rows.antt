-- ===== src/Store/Runs/Rows.antt =====
-- What the statements of the run lifecycle do to the tables.
use mathlib.Core.Option
use goblin_king.Base.{
  String, ◌==◌, eq_iff, ◌≡◌, refl, Option, none, some, [], ◌∷◌, ◌++◌, arith, if◌then◌else◌,
  Option-cases, inl, inr, ok,
}
use goblin_king.Contracts.{RunRecord}
use goblin_king.Table.{get_row, insert_row}
use goblin_king.Table.Laws.{get_row-update_where, get_row-insert_row, insert_row-free}
use goblin_king.Store.State.{Store}
use goblin_king.Store.Runs.{run_key, run_values, insert_run, insert_run_children, replace_run}

-- The row under one id in the runs table.
abbrev pub run_row : String → Store → Option RunRecord
run_row run_id store = get_row run_key run_id store.runs

-- Insertion adds the run's row under a free id and leaves the other rows and the jobs alone.
pub insert_run-ok :
    (run : RunRecord) (store store' : Store)
    → insert_run run store ≡ ok store'
    → ((k : String)
        → run_row k store' ≡ (if run.id == k then some (run_values run) else run_row k store))
      × (store'.jobs ≡ store.jobs)
unfolding insert_run insert_run_children run_values
insert_run-ok run store store' h =
    elim (Option-cases (insert_row run_key (run_values run) store.runs)) [
      | inl e ↦ absurd (ground arith)
      | inr (runs, e) ↦ (
        λ k. ground (arith, get_row-insert_row run_key k (run_values run) store.runs runs e),
        ground arith,
      )
    ]

pub insert_run-free :
    (run : RunRecord) (store : Store)
    → run_row run.id store ≡ none
    → (store' : Store) × (insert_run run store ≡ ok store')
unfolding insert_run run_values
insert_run-free run store free = (
  insert_run_children run (record store { runs = store.runs ++ run_values run ∷ [] }),
  ground (arith, insert_row-free run_key (run_values run) store.runs free),
)

pub replace_run-row :
    (run : RunRecord) (store : Store) (k : String)
    → run_row k (replace_run run store)
      ≡ Option.map (λ row. if row.id == run.id then run_values run else row) (run_row k store)
unfolding replace_run insert_run_children run_values
replace_run-row run store k =
    get_row-update_where run_key k (λ row. row.id == run.id) (λ _. run_values run) store.runs
      (λ row e. ground (arith, eq_iff row.id run.id))

pub replace_run-jobs : (run : RunRecord) (store : Store) → (replace_run run store).jobs ≡ store.jobs
unfolding replace_run insert_run_children
replace_run-jobs run store = refl
