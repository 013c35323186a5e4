-- ===== src/Pool/Bounds.antt =====
-- internal/worker/pool.go: the queue and the semaphore keep to their sizes.
use go_task_q.Pool.{
  give_back, sent_later, sent_now, panicked, ended, receiving, rejected, with_first, acquiring,
  accepted, hand_over, quit_at, acquire_at, receive_at, receive_from, submit_blocking, submit, Sent,
  Dispatcher, send, remove_at, finish, acquire, receive, close, quit, Pool, start, Config,
}
use go_task_q.Pool.Events.{
  closes, acquires, quits, receives, finishes, waits, becomes, noted, noted_waiting, submits, Event,
  Run, begin, step, run,
}
use go_task_q.Base.{
  ◌||◌, false, true, ltb→lt, ◌==◌, inr, sym, ◌∙◌, subst, ltb, inl, none, Option, Bool-cases,
  if_both, ap, Option-cases, zero, suc, eq_of_some, refl, [], arith, ◌+◌, ◌∷◌, some, ◌≤◌, ◌++◌,
  length, ◌≡◌, ℕ, List, Bool,
}
use go_task_q.Models.{Job}

pub record Inv (p : Pool) : Type 0 where
  pub queue_fits : length p.jobs ≤ p.cfg.queue_size
  pub runs_fit : length p.running ≤ p.cfg.concurrency
  pub token_each : p.tokens ≡ length p.running

length-snoc : (xs : List Job) (x : Job) → length (xs ++ x ∷ []) ≡ length xs + 1
length-snoc [] x = refl
length-snoc (y ∷ xs) x = ground (arith, length-snoc xs x)

abbrev Keeps : Option Pool → Type 0
Keeps none = Unit
Keeps (some q) = Inv q

pub remove_at-length :
    (i : ℕ) (xs ys : List Job) → remove_at i xs ≡ some ys → length xs ≡ length ys + 1
remove_at-length i [] ys h = cc
remove_at-length zero (x ∷ xs) ys h = ap length (ap (◌∷◌ x) (eq_of_some h)) ∙ ground arith
remove_at-length (suc i) (x ∷ xs) ys h = elim (Option-cases (remove_at i xs)) [
  | inl e ↦ absurd (ground arith)
  | inr (zs, e) ↦
      omega
        (arith, remove_at-length i xs zs e, ap length (eq_of_some (sym (ap (with_first x) e) ∙ h)))
]

hand_over-Keeps :
    (d : Dispatcher) (parked : Bool) (job : Job) (p : Pool)
    → Inv p
    → Keeps (hand_over d parked job p)
hand_over-Keeps receiving true job p v =
    if_both Keeps (p.cfg.queue_size == 0)
      (record { queue_fits = v.queue_fits; runs_fit = v.runs_fit; token_each = v.token_each }) tt
hand_over-Keeps receiving false job p v = tt
hand_over-Keeps ended parked job p v = tt
hand_over-Keeps (acquiring j) parked job p v = tt

send-Keeps : (parked : Bool) (job : Job) (p : Pool) → Inv p → Keeps (send parked job p)
send-Keeps parked job p v = elim (Bool-cases (ltb (length p.jobs) p.cfg.queue_size)) [
  | inl t ↦ rw t (record {
    queue_fits = omega (arith, length-snoc p.jobs job, ltb→lt _ _ t);
    runs_fit = v.runs_fit;
    token_each = v.token_each;
  })
  | inr f ↦ rw f (hand_over-Keeps p.dispatcher parked job p v)
]

receive_from-Keeps :
    (jobs : List Job) (p : Pool)
    → Inv p
    → length jobs ≤ p.cfg.queue_size
    → Keeps (receive_from jobs p)
receive_from-Keeps [] p v l =
    if_both Keeps p.closed
      (record { queue_fits = v.queue_fits; runs_fit = v.runs_fit; token_each = v.token_each }) tt
receive_from-Keeps (job ∷ rest) p v l = record {
  queue_fits = omega (arith, l);
  runs_fit = v.runs_fit;
  token_each = v.token_each;
}

receive_at-Keeps : (d : Dispatcher) (p : Pool) → Inv p → Keeps (receive_at d p)
receive_at-Keeps receiving p v = receive_from-Keeps p.jobs p v v.queue_fits
receive_at-Keeps ended p v = tt
receive_at-Keeps (acquiring job) p v = tt

quit_at-Keeps : (d : Dispatcher) (p : Pool) → Inv p → Keeps (quit_at d p)
quit_at-Keeps receiving p v = record {
  queue_fits = v.queue_fits;
  runs_fit = v.runs_fit;
  token_each = v.token_each;
}
quit_at-Keeps ended p v = tt
quit_at-Keeps (acquiring job) p v = tt

acquire_at-Keeps : (d : Dispatcher) (p : Pool) → Inv p → Keeps (acquire_at d p)
acquire_at-Keeps receiving p v = tt
acquire_at-Keeps ended p v = tt
acquire_at-Keeps (acquiring job) p v = elim (Bool-cases (ltb p.tokens p.cfg.concurrency)) [
  | inl t ↦ rw t (record {
    queue_fits = v.queue_fits;
    runs_fit = omega (arith, length-snoc p.running job, ltb→lt _ _ t, v.token_each);
    token_each = omega (arith, length-snoc p.running job, v.token_each);
  })
  | inr f ↦ rw f tt
]

give_back-Keeps :
    (p : Pool) (o : Option (List Job))
    → Inv p
    → ((rest : List Job) → o ≡ some rest → length p.running ≡ length rest + 1)
    → Keeps (give_back p o)
give_back-Keeps p none v l = tt
give_back-Keeps p (some rest) v l = record {
  queue_fits = v.queue_fits;
  runs_fit = omega (arith, l rest refl, v.runs_fit);
  token_each = omega (arith, l rest refl, v.token_each);
}

finish-Keeps : (i : ℕ) (p : Pool) → Inv p → Keeps (finish i p)
unfolding finish
finish-Keeps i p v =
    give_back-Keeps p (remove_at i p.running) v (λ rest e. remove_at-length i p.running rest e)

close-Keeps : (p : Pool) → Inv p → Keeps (close p)
unfolding close
close-Keeps p v =
    if_both Keeps p.closed tt
      (record { queue_fits = v.queue_fits; runs_fit = v.runs_fit; token_each = v.token_each })

becomes-Inv : (o : Option Pool) (s : Run) → Inv s.pool → Keeps o → Inv (becomes o s).pool
becomes-Inv none s v k = v
becomes-Inv (some q) s v k = k

noted-pool : (job : Job) (o : Sent × Pool) (s : Run) → (noted job o s).pool ≡ o.1
noted-pool job (accepted, q) s = refl
noted-pool job (rejected, q) s = refl
noted-pool job (panicked, q) s = refl

sent_now-Inv : (p : Pool) (o : Option Pool) → Inv p → Keeps o → Inv (sent_now p o).1
sent_now-Inv p none v k = v
sent_now-Inv p (some q) v k = k

submit-Inv : (c d parked : Bool) (job : Job) (p : Pool) → Inv p → Inv (submit c d parked job p).1
unfolding submit
submit-Inv c d parked job p v =
    if_both (λ (o : Sent × Pool). Inv o.1) (c || d) v
      (if_both (λ (o : Sent × Pool). Inv o.1) p.closed v
        (sent_now-Inv p (send parked job p) v (send-Keeps parked job p v)))

abbrev KeepsSent : Option (Sent × Pool) → Type 0
KeepsSent none = Unit
KeepsSent (some o) = Inv o.1

sent_later-KeepsSent : (o : Option Pool) → Keeps o → KeepsSent (sent_later o)
sent_later-KeepsSent none k = tt
sent_later-KeepsSent (some q) k = k

submit_blocking-KeepsSent :
    (c d parked : Bool) (job : Job) (p : Pool)
    → Inv p
    → KeepsSent (submit_blocking c d parked job p)
unfolding submit_blocking
submit_blocking-KeepsSent c d parked job p v = if_both KeepsSent (c || d) v (
    if_both KeepsSent p.closed v
      (sent_later-KeepsSent (send parked job p) (send-Keeps parked job p v)))

noted_waiting-Inv :
    (job : Job) (o : Option (Sent × Pool)) (s : Run)
    → Inv s.pool
    → KeepsSent o
    → Inv (noted_waiting job o s).pool
noted_waiting-Inv job none s v k = v
noted_waiting-Inv job (some o) s v k = subst Inv (sym (noted-pool job o s)) k

pub step-Inv : (s : Run) (e : Event) → Inv s.pool → Inv (step s e).pool
unfolding step receive quit acquire
step-Inv s (submits c d parked job) v =
    subst Inv (sym (noted-pool job (submit c d parked job s.pool) s))
      (submit-Inv c d parked job s.pool v)
step-Inv s (waits c d parked job) v =
    noted_waiting-Inv job _ s v (submit_blocking-KeepsSent c d parked job s.pool v)
step-Inv s receives v = becomes-Inv _ s v (receive_at-Keeps s.pool.dispatcher s.pool v)
step-Inv s quits v = becomes-Inv _ s v (quit_at-Keeps s.pool.dispatcher s.pool v)
step-Inv s acquires v = becomes-Inv _ s v (acquire_at-Keeps s.pool.dispatcher s.pool v)
step-Inv s (finishes i) v = becomes-Inv _ s v (finish-Keeps i s.pool v)
step-Inv s closes v = becomes-Inv _ s v (close-Keeps s.pool v)

pub start-Inv : (c : Config) → Inv (start c)
unfolding start
start-Inv c = record { queue_fits = omega arith; runs_fit = omega arith; token_each = refl }

run-Inv : (s : Run) (es : List Event) → Inv s.pool → Inv (run s es).pool
unfolding run
run-Inv s [] v = v
run-Inv s (e ∷ es) v = run-Inv (step s e) es (step-Inv s e v)

-- Whatever the order in which senders, the dispatcher, the jobs and `Stop` take their steps, the
-- queue never holds more jobs than its size, never more jobs run than the pool's concurrency, and
-- the semaphore holds exactly one token for each running job.
pub run-begin-Inv : (c : Config) (es : List Event) → Inv (run (begin c) es).pool
run-begin-Inv c es = run-Inv (begin c) es (start-Inv c)
