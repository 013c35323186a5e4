-- ===== src/Examples/Kafkas.antt =====
-- internal/queue/kafka.go: three messages for a worker pool with a queue for one job.
use go_task_q.Kafka.{
  handle, Session, Message, message, Turn, handled, failed, Claim, take_message, consume_claim,
}
use go_task_q.Kafka.Positions.{IsSession, refused_skipped, at_once}
use go_task_q.Pool.{submit, Pool, receiving}
use Prim.Native.Nat.{max}
use go_task_q.Examples.Data.{a_job}
use go_task_q.Base.{
  arith, ◌∙◌, ap, refl, ◌≡◌, [], true, ◌∷◌, false, some, if◌then◌else◌, ◌+◌, ◌<◌, Bool, List, ℕ,
}
use go_task_q.Models.{Job}

abbrev in_memory : Session
in_memory = record { Marks = ℕ; mark_message = λ o m. max (o + 1) m }

in_memory-IsSession : IsSession in_memory
in_memory-IsSession = record { position = λ m. m; position_mark = λ o m. refl }

abbrev pool_with : List Job → Pool
pool_with jobs = record {
  cfg = record { concurrency = 1; queue_size = 1 };
  jobs = jobs;
  closed = false;
  dispatcher = receiving;
  tokens = 0;
  running = [];
}

-- Before the second message the dispatcher has emptied the queue.
abbrev turn : Bool → Turn
turn emptied = record {
  before = λ p. if emptied then pool_with [] else p;
  ctx_err = false;
  picks_done = false;
  parked = false;
}

abbrev at_offset : ℕ → Message
at_offset o = record { offset = o; decoded = some a_job }

abbrev claimed : Claim in_memory
claimed = record { marks = 5; pool = pool_with (a_job ∷ []); refused = [] }

first_fails :
    handle (turn false) (some a_job) (pool_with (a_job ∷ [])) ≡ failed (pool_with (a_job ∷ []))
unfolding handle submit
first_fails = refl

second_handled :
    handle (turn true) (some a_job) (pool_with (a_job ∷ [])) ≡ handled (pool_with (a_job ∷ []))
unfolding handle submit
second_handled = refl

first_left :
    (take_message in_memory (turn false) (at_offset 5) claimed).pool ≡ pool_with (a_job ∷ [])
unfolding handle submit
first_left = refl

refused_skipped_example :
    ((take_message in_memory (turn false) (at_offset 5) claimed).marks ≡ claimed.marks)
    × (5
        < (consume_claim in_memory
            ((turn false, message (at_offset 5)) ∷ (turn true, message (at_offset 6)) ∷ [])
            claimed).marks)
unfolding in_memory-IsSession
refused_skipped_example =
    refused_skipped in_memory in_memory-IsSession (turn false) (at_offset 5) (at_offset 6)
      ((turn true, message (at_offset 6)) ∷ []) claimed (pool_with (a_job ∷ [])) first_fails
      (at_once (pool_with (a_job ∷ []))
        (ap (handle (turn true) (some a_job)) first_left ∙ second_handled))
      (omega arith)
