-- ===== src/Pool/Events.antt =====
-- internal/worker/pool.go: any interleaving of the pool's steps, with what it has accepted and
-- what it has started so far. A step that is not ready changes nothing.
use go_task_q.Pool.{
  panicked, rejected, accepted, Sent, Pool, Config, start, submit, submit_blocking, receive, quit,
  acquire, finish, close,
}
use go_task_q.Base.{drop, length, ◌++◌, none, some, ◌∷◌, ℕ, List, Option, Bool, []}
use go_task_q.Models.{Job}

pub data Event : Type 0 where
  submits waits : Bool → Bool → Bool → Job → Event
  receives quits acquires closes : Event
  finishes : ℕ → Event

pub record Run : Type 0 where
  pub pool : Pool
  pub taken_in : List Job
  pub started : List Job

abbrev pub begin : Config → Run
begin c = record { pool = start c; taken_in = []; started = [] }

-- The jobs that a step has started: those that run behind as many as ran before it, since no step
-- both ends and starts jobs.
abbrev pub fresh : Pool → Pool → List Job
fresh p q = drop (length p.running) q.running

abbrev pub noted : Job → Sent × Pool → Run → Run
noted job (accepted, q) s = record s {
  pool = q;
  taken_in = s.taken_in ++ job ∷ [];
  started = s.started ++ fresh s.pool q;
}
noted job (rejected, q) s = record s { pool = q }
noted job (panicked, q) s = record s { pool = q }

abbrev pub noted_waiting : Job → Option (Sent × Pool) → Run → Run
noted_waiting job none s = s
noted_waiting job (some o) s = noted job o s

abbrev pub becomes : Option Pool → Run → Run
becomes none s = s
becomes (some q) s = record s { pool = q; started = s.started ++ fresh s.pool q }

unfoldable pub step : Run → Event → Run
unfolding submit submit_blocking receive quit acquire finish close
step s (submits ctx_err picks_done parked job) =
    noted job (submit ctx_err picks_done parked job s.pool) s
step s (waits ctx_err picks_done parked job) =
    noted_waiting job (submit_blocking ctx_err picks_done parked job s.pool) s
step s receives = becomes (receive s.pool) s
step s quits = becomes (quit s.pool) s
step s acquires = becomes (acquire s.pool) s
step s (finishes i) = becomes (finish i s.pool) s
step s closes = becomes (close s.pool) s

unfoldable pub run : Run → List Event → Run
run s [] = s
run s (e ∷ es) = run (step s e) es
