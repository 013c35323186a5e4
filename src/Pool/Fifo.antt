-- ===== src/Pool/Fifo.antt =====
-- internal/worker/pool.go: no accepted job is doubled or overtaken.
use go_task_q.Pool.{
  ended, submit_blocking, submit, acquire_at, acquiring, quit_at, send, acquire, receive_from,
  remove_at, sent_later, sent_now, receive_at, hand_over, quit, give_back, receiving, Dispatcher,
  finish, receive, Pool, close, start, Config,
}
use go_task_q.Pool.Events.{
  closes, acquires, quits, receives, finishes, waits, submits, noted_waiting, becomes, noted, fresh,
  Event, Run, begin, step, run,
}
use go_task_q.Models.{Job}
use go_task_q.Base.{
  zero, suc, ◌+◌, drop, false, inr, arith, ◌||◌, true, inl, sym, ◌==◌, ltb, ◌∙◌, ◌≤◌, Bool-cases,
  length, refl, ◌∷◌, ap, none, ◌≡◌, [], ℕ, if_both, some, Option, Bool, List, ◌++◌,
}
use go_task_q.Pool.Bounds.{remove_at-length, step-Inv, start-Inv, Inv}

append_assoc : (xs ys zs : List Job) → (xs ++ ys) ++ zs ≡ xs ++ (ys ++ zs)
append_assoc [] ys zs = refl
append_assoc (x ∷ xs) ys zs = ap (◌∷◌ x) (append_assoc xs ys zs)

append-nil : (xs : List Job) → xs ++ [] ≡ xs
append-nil [] = refl
append-nil (x ∷ xs) = ap (◌∷◌ x) (append-nil xs)

-- The job in the dispatcher's hands.
abbrev pub held : Dispatcher → List Job
held (acquiring job) = job ∷ []
held _ = []

-- What the pool has accepted and not started, the next one first.
abbrev pub left : Pool → List Job
left p = held p.dispatcher ++ p.jobs

drop-append : (xs ys : List Job) → drop (length xs) (xs ++ ys) ≡ ys
drop-append [] ys = refl
drop-append (x ∷ xs) ys = drop-append xs ys

drop-all : (xs : List Job) → drop (length xs) xs ≡ []
drop-all [] = refl
drop-all (x ∷ xs) = drop-all xs

drop-short : (n : ℕ) (xs : List Job) → length xs ≤ n → drop n xs ≡ []
drop-short zero [] h = refl
drop-short zero (x ∷ xs) h = absurd (omega (arith, h))
drop-short (suc n) [] h = refl
drop-short (suc n) (x ∷ xs) h = drop-short n xs (omega (arith, h))

-- A step that starts no job.
none_fresh : (p : Pool) (l m : List Job) → l ≡ m → drop (length p.running) p.running ++ l ≡ m
none_fresh p l m e = ap (λ x. x ++ l) (drop-all p.running) ∙ e

abbrev Same : Pool → Option Pool → Type 0
Same p none = Unit
Same p (some q) = fresh p q ++ left q ≡ left p

abbrev Longer : Job → Pool → Option Pool → Type 0
Longer job p none = Unit
Longer job p (some q) = fresh p q ++ left q ≡ left p ++ job ∷ []

nil_of_length : (xs : List Job) (n : ℕ) → length xs ≤ n → (n == 0) ≡ true → xs ≡ []
nil_of_length [] n l z = refl
nil_of_length (x ∷ xs) n l z = absurd (ground arith)

hand_over-Longer :
    (d : Dispatcher) (parked : Bool) (job : Job) (p : Pool)
    → d ≡ p.dispatcher
    → Inv p
    → Longer job p (hand_over d parked job p)
hand_over-Longer receiving true job p e v = elim (Bool-cases (p.cfg.queue_size == 0)) [
  | inl z ↦
      let bare = nil_of_length p.jobs p.cfg.queue_size v.queue_fits z in
      rw z (
        none_fresh p _ _ (
          ap (λ l. job ∷ l) bare
          ∙ sym (ap (λ x. (held x ++ p.jobs) ++ job ∷ []) (sym e) ∙ ap (λ l. l ++ job ∷ []) bare)))
  | inr n ↦ rw n tt
]
hand_over-Longer receiving false job p e v = tt
hand_over-Longer ended parked job p e v = tt
hand_over-Longer (acquiring j) parked job p e v = tt

send-Longer : (parked : Bool) (job : Job) (p : Pool) → Inv p → Longer job p (send parked job p)
send-Longer parked job p v =
    if_both (Longer job p) (ltb (length p.jobs) p.cfg.queue_size)
      (none_fresh p _ _ (sym (append_assoc (held p.dispatcher) p.jobs (job ∷ []))))
      (hand_over-Longer p.dispatcher parked job p refl v)

receive_from-Same :
    (jobs : List Job) (p : Pool)
    → receiving ≡ p.dispatcher
    → jobs ≡ p.jobs
    → Same p (receive_from jobs p)
receive_from-Same [] p d e =
    if_both (Same p) p.closed (none_fresh p _ _ (ap (λ x. held x ++ p.jobs) d)) tt
receive_from-Same (job ∷ rest) p d e = none_fresh p _ _ (e ∙ ap (λ x. held x ++ p.jobs) d)

receive_at-Same : (d : Dispatcher) (p : Pool) → d ≡ p.dispatcher → Same p (receive_at d p)
receive_at-Same receiving p e = receive_from-Same p.jobs p e refl
receive_at-Same ended p e = tt
receive_at-Same (acquiring job) p e = tt

quit_at-Same : (d : Dispatcher) (p : Pool) → d ≡ p.dispatcher → Same p (quit_at d p)
quit_at-Same receiving p e = none_fresh p _ _ (ap (λ x. held x ++ p.jobs) e)
quit_at-Same ended p e = tt
quit_at-Same (acquiring job) p e = tt

give_back-Same :
    (p : Pool) (o : Option (List Job))
    → ((rest : List Job) → o ≡ some rest → length p.running ≡ length rest + 1)
    → Same p (give_back p o)
give_back-Same p none h = tt
give_back-Same p (some rest) h =
    ap (λ l. l ++ left p) (drop-short (length p.running) rest (omega (arith, h rest refl)))

finish-Same : (i : ℕ) (p : Pool) → Same p (finish i p)
unfolding finish
finish-Same i p =
    give_back-Same p (remove_at i p.running) (λ rest e. remove_at-length i p.running rest e)

-- The goroutine that is started gets the job that was in the dispatcher's hands.
acquire_at-Same : (d : Dispatcher) (p : Pool) → d ≡ p.dispatcher → Same p (acquire_at d p)
acquire_at-Same receiving p e = tt
acquire_at-Same ended p e = tt
acquire_at-Same (acquiring job) p e =
    if_both (Same p) (ltb p.tokens p.cfg.concurrency)
      (ap (λ l. l ++ p.jobs) (drop-append p.running (job ∷ [])) ∙ ap (λ d. held d ++ p.jobs) e) tt

close-Same : (p : Pool) → Same p (close p)
unfolding close
close-Same p = if_both (Same p) p.closed tt (none_fresh p _ _ refl)

-- The jobs started, then those left, are the jobs accepted.
abbrev pub InOrder : Run → Type 0
InOrder s = s.started ++ left s.pool ≡ s.taken_in

becomes-InOrder : (o : Option Pool) (s : Run) → InOrder s → Same s.pool o → InOrder (becomes o s)
becomes-InOrder none s i k = i
becomes-InOrder (some q) s i k =
    append_assoc s.started (fresh s.pool q) (left q) ∙ ap (λ l. s.started ++ l) k ∙ i

noted-InOrder :
    (job : Job) (o : Option Pool) (s : Run)
    → InOrder s
    → Longer job s.pool o
    → InOrder (noted job (sent_now s.pool o) s)
noted-InOrder job none s i k = i
noted-InOrder job (some q) s i k =
    append_assoc s.started (fresh s.pool q) (left q)
    ∙ ap (λ l. s.started ++ l) k
    ∙ sym (append_assoc s.started (left s.pool) (job ∷ []))
    ∙ ap (λ l. l ++ job ∷ []) i

noted_waiting-InOrder :
    (job : Job) (o : Option Pool) (s : Run)
    → InOrder s
    → Longer job s.pool o
    → InOrder (noted_waiting job (sent_later o) s)
noted_waiting-InOrder job none s i k = i
noted_waiting-InOrder job (some q) s i k = noted-InOrder job (some q) s i k

step-InOrder : (s : Run) (e : Event) → Inv s.pool → InOrder s → InOrder (step s e)
unfolding step receive quit acquire submit submit_blocking
step-InOrder s (submits c d parked job) v i =
    if_both (λ o. InOrder (noted job o s)) (c || d) i
      (if_both (λ o. InOrder (noted job o s)) s.pool.closed i
        (noted-InOrder job (send parked job s.pool) s i (send-Longer parked job s.pool v)))
step-InOrder s (waits c d parked job) v i =
    if_both (λ o. InOrder (noted_waiting job o s)) (c || d) i
      (if_both (λ o. InOrder (noted_waiting job o s)) s.pool.closed i
        (noted_waiting-InOrder job (send parked job s.pool) s i (send-Longer parked job s.pool v)))
step-InOrder s receives v i = becomes-InOrder _ s i (receive_at-Same s.pool.dispatcher s.pool refl)
step-InOrder s quits v i = becomes-InOrder _ s i (quit_at-Same s.pool.dispatcher s.pool refl)
step-InOrder s acquires v i = becomes-InOrder _ s i (acquire_at-Same s.pool.dispatcher s.pool refl)
step-InOrder s (finishes n) v i = becomes-InOrder _ s i (finish-Same n s.pool)
step-InOrder s closes v i = becomes-InOrder _ s i (close-Same s.pool)

run-InOrder : (s : Run) (es : List Event) → Inv s.pool → InOrder s → InOrder (run s es)
unfolding run
run-InOrder s [] v i = i
run-InOrder s (e ∷ es) v i = run-InOrder (step s e) es (step-Inv s e v) (step-InOrder s e v i)

begin-InOrder : (c : Config) → InOrder (begin c)
unfolding start
begin-InOrder c = refl

-- Whatever the order of the steps, also with an unbuffered queue, and also when the pool is stopped
-- or cancelled in between: the jobs that have ever been added to the running ones, then the one
-- in the dispatcher's hands, then the queued ones are the accepted jobs in the order of their
-- acceptance. So no job is run twice or before one that was accepted earlier, a job whose submission
-- was rejected is never run, and an accepted job that has not been run is in the dispatcher's hands
-- or in the queue, where the jobs that are left when the dispatcher ends by a cancellation stay.
pub run-begin-InOrder : (c : Config) (es : List Event) → InOrder (run (begin c) es)
run-begin-InOrder c es = run-InOrder (begin c) es (start-Inv c) (begin-InOrder c)
