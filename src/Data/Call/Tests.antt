-- ===== src/Data/Call/Tests.antt =====
-- An update on one assertion that holds.
use summer21_rusty_workers.Prelude.{some, [], ◌∷◌, ltb}
use summer21_rusty_workers.Data.Table.Tests.{Rows, rows_table, put_row, no_rows}
use summer21_rusty_workers.Data.Kv.{unconfirmed}
use summer21_rusty_workers.Data.Call.{DataCall, worker_data_cmpupdate, Circumstance, exec}
use summer21_rusty_workers.Data.Call.Refinement.{Refines, exec-Refines}

abbrev circumstance : Circumstance
circumstance = record { now = 5; later = 6; works = λ i. ltb i 9; fate = unconfirmed }

abbrev rows : Rows
rows = put_row (1 ∷ []) (2 ∷ []) (some (record { value = 3 ∷ []; expiration = 0 })) no_rows

abbrev call : DataCall
call = worker_data_cmpupdate (1 ∷ []) ((2 ∷ [], 3 ∷ []) ∷ []) ((2 ∷ [], 4 ∷ []) ∷ []) 100

exec-Refines_example :
    Refines rows_table circumstance call rows (exec rows_table circumstance call rows)
exec-Refines_example = exec-Refines rows_table circumstance call rows
