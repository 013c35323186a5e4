-- ===== src/Examples/Pools.antt =====
-- internal/worker/pool.go: two jobs through a pool with an unbuffered queue and one token.
use go_task_q.Pool.{start, Config}
use go_task_q.Pool.Events.{
  submits, waits, acquires, finishes, closes, receives, receives, finishes, acquires, submits, step,
  Event, begin, run,
}
use go_task_q.Pool.Fifo.{run-begin-InOrder, InOrder}
use go_task_q.Base.{refl, [], ◌∷◌, true, false, ◌≡◌, List}
use go_task_q.Pool.Bounds.{Inv, run-begin-Inv}
use go_task_q.Examples.Data.{a_job}

abbrev narrow : Config
narrow = record { concurrency = 1; queue_size = 0 }

abbrev some_events : List Event
some_events =
    submits false false true a_job
    ∷ submits false false true a_job
    ∷ acquires
    ∷ waits false false true (record a_job { id = "b" })
    ∷ acquires
    ∷ finishes 0
    ∷ acquires
    ∷ closes
    ∷ receives
    ∷ []

run-begin-Inv_example : Inv (run (begin narrow) some_events).pool
run-begin-Inv_example = run-begin-Inv narrow some_events

run-begin-InOrder_example : InOrder (run (begin narrow) some_events)
run-begin-InOrder_example = run-begin-InOrder narrow some_events

-- The second submission is rejected, the third waits for the first job's token.
both_start : (run (begin narrow) some_events).started ≡ a_job ∷ record a_job { id = "b" } ∷ []
unfolding run step start
both_start = refl
