-- ===== src/Kafka.antt =====
-- internal/queue/kafka.go: `ConsumeClaim`, with `kafkaJobHandler` of cmd/server/main.go as its
-- handler. What sarama keeps of the marked messages is a parameter, and so is the decoding of JSON.
pub mod Positions
use go_task_q.Models.{Job}
use go_task_q.Pool.{Pool, Sent, accepted, rejected, panicked, submit}
use go_task_q.Base.{none, [], false, some, true, if◌then◌else◌, ◌∷◌, Bool, ℕ, Option, List}

pub record Session : Type 1 where
  pub Marks : Type 0
  pub mark_message : ℕ → Marks → Marks

-- A message has its offset in the partition; `decoded` is what `json.Unmarshal` makes of it.
pub record Message : Type 0 where
  pub offset : ℕ
  pub decoded : Option Job

-- The end of the claim's channel and the end of the session stop the loop.
pub data Event : Type 0 where
  message : Message → Event
  channel_closed session_done : Event

-- What happens in the pool until a message is handled, and what its submission meets.
pub record Turn : Type 0 where
  pub before : Pool → Pool
  pub ctx_err : Bool
  pub picks_done : Bool
  pub parked : Bool

pub data Handled : Type 0 where
  handled : Pool → Handled
  failed : Pool → Handled
  crashed : Pool → Handled

abbrev pub after_submit : Sent × Pool → Handled
after_submit (accepted, p) = handled p
after_submit (rejected, p) = failed p
after_submit (panicked, p) = crashed p

-- `kafkaJobHandler.Handle`: what cannot be decoded is logged and counts as handled.
unfoldable pub handle : Turn → Option Job → Pool → Handled
handle t none p = handled (t.before p)
handle t (some job) p = after_submit (submit t.ctx_err t.picks_done t.parked job (t.before p))

module _ (s : Session) where
  -- The marks and the pool, and the offsets of the messages whose handler has failed.
  pub record Claim : Type 0 where
    pub marks : s.Marks
    pub pool : Pool
    pub refused : List ℕ

  abbrev pub settle : Message → Handled → Claim → Claim
  settle m (handled p) c = record c { marks = s.mark_message m.offset c.marks; pool = p }
  settle m (failed p) c = record c { pool = p; refused = m.offset ∷ c.refused }
  settle m (crashed p) c = record c { pool = p; refused = m.offset ∷ c.refused }

  abbrev pub is_crash : Handled → Bool
  is_crash (crashed p) = true
  is_crash _ = false

  -- One message; the loop goes on unless the handler panics.
  abbrev pub take_message : Turn → Message → Claim → Claim
  take_message t m c = settle m (handle t m.decoded c.pool) c

  -- `ConsumeClaim` over the events that its `select` sees, each with the surroundings of its message.
  unfoldable pub consume_claim : List (Turn × Event) → Claim → Claim
  unfolding handle
  consume_claim [] c = c
  consume_claim ((t, channel_closed) ∷ es) c = c
  consume_claim ((t, session_done) ∷ es) c = c
  consume_claim ((t, message m) ∷ es) c =
      let rest = consume_claim es (take_message t m c) in
      if is_crash (handle t m.decoded c.pool) then take_message t m c else rest
