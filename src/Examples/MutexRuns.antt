-- ===== src/Examples/MutexRuns.antt =====
-- A mutex and its rivals on a table.
use apicrud.Prelude.{false, [], ◌∷◌, ◌≡◌, refl, arith}
use apicrud.Python.Result.{ok}
use apicrud.Redis.{Redis}
use apicrud.Redis.Table.{table, Table, empty_table}
use apicrud.Session.{Content}
use apicrud.Mutex.{Mutex, attempt, release}
use apicrud.Mutex.Exclusion.{tries, passes, run, exclusion}

abbrev store : Redis Content
store = table Content

abbrev empty : Table Content
empty = empty_table Content

abbrev mutex : Mutex
mutex = record { lock_signature = "x-abc"; lockname = "job"; maxwait = 20; ttl = 10 }

exclusion_example :
    ((run store mutex
        (passes 4 ∷ tries "x-other" 10 ∷ passes 5 ∷ [])
        (attempt store mutex empty).0).1
      ≡ false)
    × ((release store mutex
          (λ t. t)
          (run store mutex
            (passes 4 ∷ tries "x-other" 10 ∷ passes 5 ∷ [])
            (attempt store mutex empty).0).0).1
        ≡ ok tt)
unfolding attempt
exclusion_example =
    exclusion store mutex empty (passes 4 ∷ tries "x-other" 10 ∷ passes 5 ∷ []) refl (omega arith)
