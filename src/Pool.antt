-- ===== src/Pool.antt =====
-- internal/worker/pool.go: the bounded queue, the dispatcher that takes jobs from it, and the
-- semaphore. Every channel operation is one step; `sync.WaitGroup` counts the dispatcher until it
-- has ended and the running jobs.
pub mod Events
pub mod Bounds
pub mod Fifo
use go_task_q.Base.{
  zero, ◌++◌, suc, ◌+◌, length, ◌==◌, ◌∷◌, ◌-◌, ltb, ◌||◌, true, if◌then◌else◌, some, ◌&&◌, none,
  false, List, Option, ℕ, [], Bool,
}
use go_task_q.Models.{Job}

-- `make` refuses negative sizes, so both are sizes here.
pub record Config : Type 0 where
  pub concurrency : ℕ
  pub queue_size : ℕ

-- Where the dispatcher's loop stands: at its `select`, at `p.semaphore <- struct{}{}` with a job in
-- its hands, or behind its `return`.
pub data Dispatcher : Type 0 where
  receiving ended : Dispatcher
  acquiring : Job → Dispatcher

-- `running` are the jobs whose goroutines have started and not ended, `tokens` the semaphore's length.
pub record Pool : Type 0 where
  pub cfg : Config
  pub jobs : List Job
  pub closed : Bool
  pub dispatcher : Dispatcher
  pub tokens : ℕ
  pub running : List Job

-- `NewPool` and the beginning of `Start`.
unfoldable pub start : Config → Pool
start c = record {
  cfg = c;
  jobs = [];
  closed = false;
  dispatcher = receiving;
  tokens = 0;
  running = [];
}

pub data Sent : Type 0 where
  accepted rejected panicked : Sent

-- A send on a full queue succeeds only where it hands its job to a dispatcher that is parked at an
-- unbuffered channel; `none` is a send that is not ready.
abbrev pub hand_over : Dispatcher → Bool → Job → Pool → Option Pool
hand_over receiving true job p =
    if p.cfg.queue_size == 0 then some (record p { dispatcher = acquiring job }) else none
hand_over _ _ job p = none

abbrev pub send : Bool → Job → Pool → Option Pool
send parked job p =
    if ltb (length p.jobs) p.cfg.queue_size
    then some (record p { jobs = p.jobs ++ job ∷ [] })
    else hand_over p.dispatcher parked job p

abbrev pub sent_now : Pool → Option Pool → Sent × Pool
sent_now p none = (rejected, p)
sent_now p (some q) = (accepted, q)

abbrev pub sent_later : Option Pool → Option (Sent × Pool)
sent_later none = none
sent_later (some q) = some (accepted, q)

-- `ctx_err` is `ctx.Err() != nil`; `picks_done` tells that the context ends in the meantime and the
-- `select` takes that case. A send on a closed channel panics.
unfoldable pub submit : Bool → Bool → Bool → Job → Pool → Sent × Pool
submit ctx_err picks_done parked job p =
    if ctx_err || picks_done
    then (rejected, p)
    else if p.closed
    then (panicked, p)
    else sent_now p (send parked job p)

-- `none`: it goes on waiting.
unfoldable pub submit_blocking : Bool → Bool → Bool → Job → Pool → Option (Sent × Pool)
submit_blocking ctx_err picks_done parked job p =
    if ctx_err || picks_done
    then some (rejected, p)
    else if p.closed
    then some (panicked, p)
    else sent_later (send parked job p)

-- `case job, ok := <-p.jobs`; a receive of a closed and empty channel ends the loop.
abbrev pub receive_from : List Job → Pool → Option Pool
receive_from [] p = if p.closed then some (record p { dispatcher = ended }) else none
receive_from (job ∷ rest) p = some (record p { jobs = rest; dispatcher = acquiring job })

abbrev pub receive_at : Dispatcher → Pool → Option Pool
receive_at receiving p = receive_from p.jobs p
receive_at _ p = none

unfoldable pub receive : Pool → Option Pool
receive p = receive_at p.dispatcher p

-- `case <-ctx.Done()`.
abbrev pub quit_at : Dispatcher → Pool → Option Pool
quit_at receiving p = some (record p { dispatcher = ended })
quit_at _ p = none

unfoldable pub quit : Pool → Option Pool
quit p = quit_at p.dispatcher p

-- `p.semaphore <- struct{}{}`, and the goroutine of the job.
abbrev pub acquire_at : Dispatcher → Pool → Option Pool
acquire_at (acquiring job) p =
    if ltb p.tokens p.cfg.concurrency
    then some (record p {
      dispatcher = receiving;
      tokens = p.tokens + 1;
      running = p.running ++ job ∷ [];
    })
    else none
acquire_at _ p = none

unfoldable pub acquire : Pool → Option Pool
acquire p = acquire_at p.dispatcher p

abbrev pub with_first : Job → Option (List Job) → Option (List Job)
with_first job none = none
with_first job (some jobs) = some (job ∷ jobs)

abbrev pub remove_at : ℕ → List Job → Option (List Job)
remove_at i [] = none
remove_at zero (job ∷ rest) = some rest
remove_at (suc i) (job ∷ rest) = with_first job (remove_at i rest)

abbrev pub give_back : Pool → Option (List Job) → Option Pool
give_back p none = none
give_back p (some rest) = some (record p { tokens = p.tokens - 1; running = rest })

-- A goroutine ends, also by a panic of its runner, which is recovered: it gives its token back.
unfoldable pub finish : ℕ → Pool → Option Pool
finish i p = give_back p (remove_at i p.running)

-- `close(p.jobs)`, which panics (`none`) when the channel is closed already.
unfoldable pub close : Pool → Option Pool
close p = if p.closed then none else some (record p { closed = true })

-- `p.wg.Wait()` returns.
abbrev pub has_ended : Dispatcher → Bool
has_ended ended = true
has_ended _ = false

abbrev pub is_empty : List Job → Bool
is_empty [] = true
is_empty _ = false

unfoldable pub is_drained : Pool → Bool
is_drained p = has_ended p.dispatcher && is_empty p.running
