-- ===== src/Kafka/Positions.antt =====
-- internal/queue/kafka.go: from which message on the next consumer of the partition reads.
use Prim.Native.Nat.{max}
use go_task_q.Kafka.{
  session_done, channel_closed, crashed, Session, Message, Event, message, Turn, Handled, handled,
  failed, handle, Claim, take_message, is_crash, consume_claim, settle,
}
use go_task_q.Pool.{Pool}
use go_task_q.Base.{[], refl, if_both, false, ◌+◌, ◌∷◌, ◌<◌, arith, ◌≡◌, List, ℕ, ◌≤◌}

-- What sarama documents of `MarkMessage`: the position is behind the message, and never goes back.
pub record IsSession (s : Session) : Type 0 where
  pub position : s.Marks → ℕ
  pub position_mark :
      (o : ℕ) (m : s.Marks) → position (s.mark_message o m) ≡ max (o + 1) (position m)

module _ (s : Session) (l : IsSession s) where
  -- In the run over the events, the message is handled.
  pub data Handles (m : Message) : List (Turn × Event) → Claim s → Type 0 where
    at_once :
        {t : Turn} {es : List (Turn × Event)} {c : Claim s} (p : Pool)
        → handle t m.decoded c.pool ≡ handled p
        → Handles m ((t, message m) ∷ es) c
    behind :
        {t : Turn} {es : List (Turn × Event)} {c : Claim s} (n : Message)
        → is_crash s (handle t n.decoded c.pool) ≡ false
        → Handles m es (take_message s t n c)
        → Handles m ((t, message n) ∷ es) c

  settle-forward :
      (m : Message) (h : Handled) (c : Claim s)
      → l.position c.marks ≤ l.position (settle s m h c).marks
  settle-forward m (handled p) c = omega (arith, l.position_mark m.offset c.marks)
  settle-forward m (failed p) c = omega arith
  settle-forward m (crashed p) c = omega arith

  consume_claim-forward :
      (es : List (Turn × Event)) (c : Claim s)
      → l.position c.marks ≤ l.position (consume_claim s es c).marks
  unfolding consume_claim
  consume_claim-forward [] c = omega arith
  consume_claim-forward ((t, channel_closed) ∷ es) c = omega arith
  consume_claim-forward ((t, session_done) ∷ es) c = omega arith
  consume_claim-forward ((t, message m) ∷ es) c =
      let h = handle t m.decoded c.pool in
      let one = settle-forward m h c in
      if_both (λ (d : Claim s). l.position c.marks ≤ l.position d.marks) (is_crash s h) one
        (omega (arith, one, consume_claim-forward es (take_message s t m c)))

  consume_claim-next :
      (t : Turn) (m : Message) (es : List (Turn × Event)) (c : Claim s)
      → is_crash s (handle t m.decoded c.pool) ≡ false
      → consume_claim s ((t, message m) ∷ es) c ≡ consume_claim s es (take_message s t m c)
  unfolding consume_claim
  consume_claim-next t m es c h = rw h refl

  settle-handled :
      (m : Message) (h : Handled) (c : Claim s) (p : Pool)
      → h ≡ handled p
      → (is_crash s h ≡ false) × (m.offset < l.position (settle s m h c).marks)
  settle-handled m (handled q) c p e = (refl, omega (arith, l.position_mark m.offset c.marks))
  settle-handled m (failed q) c p e = cc
  settle-handled m (crashed q) c p e = cc

  Handles-position :
      (m : Message) {es : List (Turn × Event)} {c : Claim s}
      → Handles m es c
      → m.offset < l.position (consume_claim s es c).marks
  Handles-position m (at_once {t} {es} {c} p e) =
      let (going, past) = settle-handled m (handle t m.decoded c.pool) c p e in
      rw (consume_claim-next t m es c going)
        (omega (arith, past, consume_claim-forward es (take_message s t m c)))
  Handles-position m (behind {t} {es} {c} n going h) =
      rw (consume_claim-next t n es c going) (Handles-position m h)

  settle-failed : (h : Handled) (p : Pool) → h ≡ failed p → is_crash s h ≡ false
  settle-failed (handled q) p e = cc
  settle-failed (failed q) p e = refl
  settle-failed (crashed q) p e = cc

  settle-unmarked :
      (m : Message) (h : Handled) (c : Claim s) (p : Pool)
      → h ≡ failed p
      → (settle s m h c).marks ≡ c.marks
  settle-unmarked m (handled q) c p e = cc
  settle-unmarked m (failed q) c p e = refl
  settle-unmarked m (crashed q) c p e = cc

  -- A message that the worker pool refuses is left unmarked: taking it leaves the marks of the
  -- session as they are. But a message behind it that is handled
  -- in the same claim moves the position past both: whatever else happens before or after, a
  -- consumer that takes the partition over never reads the refused message again.
  pub refused_skipped :
      (t : Turn) (m m' : Message) (es : List (Turn × Event)) (c : Claim s) (p : Pool)
      → handle t m.decoded c.pool ≡ failed p
      → Handles m' es (take_message s t m c)
      → m.offset < m'.offset
      → ((take_message s t m c).marks ≡ c.marks)
        × (m.offset < l.position (consume_claim s ((t, message m) ∷ es) c).marks)
  refused_skipped t m m' es c p e h further = (
    settle-unmarked m (handle t m.decoded c.pool) c p e,
    rw (consume_claim-next t m es c (settle-failed (handle t m.decoded c.pool) p e))
        (omega (arith, further, Handles-position m' h)),
  )
