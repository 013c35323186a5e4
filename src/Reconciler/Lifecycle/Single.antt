-- ===== src/Reconciler/Lifecycle/Single.antt =====
-- internal/reconciler/reconciler.go: at most one loop goes on, whatever `Start` and `Stop` do.
use mathlib.Core.Bool.{false≢true}
use go_task_q.Reconciler.{Config, new}
use go_task_q.Reconciler.Settings.{new-positive}
use go_task_q.Reconciler.Lifecycle.{
  Phase, passing, waiting, Loop, Lifecycle, Event, start, stop, pass_ends, timer_fires, exits,
  parent_done, idle, cancelled, cancel_newest, on_loop, on_phase, end_pass, begin_pass, may_exit,
  without, step, run,
}
use go_task_q.Base.{
  if_given, sym, refl, Bool, zero, [], if_both, suc, ◌<ℤ◌, pos, false, ◌∷◌, true, All, List, ◌≡◌, ℕ,
}

abbrev pub IsDone : Loop → Type 0
IsDone l = l.ctx_done ≡ true

-- The loops behind the newest.
abbrev pub older : List Loop → List Loop
older [] = []
older (l ∷ ls) = ls

-- A timer that runs is positive.
abbrev pub IsTimed : Phase → Type 0
IsTimed passing = Unit
IsTimed (waiting d) = pos 0 <ℤ d

pub record Inv (r : Lifecycle) : Type 0 where
  pub older_done : All IsDone (older r.loops)
  pub stopped_done : r.started ≡ false → All IsDone r.loops
  pub timed : All (λ (l : Loop). IsTimed l.phase) r.loops

All-older : (P : Loop → Type 0) (ls : List Loop) → All P ls → All P (older ls)
All-older P [] h = tt
All-older P (l ∷ ls) (p, h) = h

All-on_loop :
    (P : Loop → Type 0) (i : ℕ) (f : Loop → Loop) (ls : List Loop)
    → ((l : Loop) → P l → P (f l))
    → All P ls
    → All P (on_loop i f ls)
All-on_loop P i f [] keep h = tt
All-on_loop P zero f (l ∷ ls) keep (p, h) = (keep l p, h)
All-on_loop P (suc i) f (l ∷ ls) keep (p, h) = (p, All-on_loop P i f ls keep h)

older-on_loop :
    (P : Loop → Type 0) (i : ℕ) (f : Loop → Loop) (ls : List Loop)
    → ((l : Loop) → P l → P (f l))
    → All P (older ls)
    → All P (older (on_loop i f ls))
older-on_loop P i f [] keep h = tt
older-on_loop P zero f (l ∷ ls) keep h = h
older-on_loop P (suc i) f (l ∷ ls) keep h = All-on_loop P i f ls keep h

All-without : (P : Loop → Type 0) (i : ℕ) (ls : List Loop) → All P ls → All P (without i ls)
All-without P i [] h = tt
All-without P zero (l ∷ ls) (p, h) = if_both (All P) (may_exit l) h (p, h)
All-without P (suc i) (l ∷ ls) (p, h) = (p, All-without P i ls h)

older-without :
    (P : Loop → Type 0) (i : ℕ) (ls : List Loop) → All P (older ls) → All P (older (without i ls))
older-without P i [] h = tt
older-without P zero (l ∷ ls) h = if_both (λ x. All P (older x)) (may_exit l) (All-older P ls h) h
older-without P (suc i) (l ∷ ls) h = All-without P i ls h

cancel_newest-IsDone : (ls : List Loop) → All IsDone (older ls) → All IsDone (cancel_newest ls)
cancel_newest-IsDone [] h = tt
cancel_newest-IsDone (l ∷ ls) h = (refl, h)

cancel_newest-IsTimed :
    (ls : List Loop)
    → All (λ (l : Loop). IsTimed l.phase) ls
    → All (λ (l : Loop). IsTimed l.phase) (cancel_newest ls)
cancel_newest-IsTimed [] h = tt
cancel_newest-IsTimed (l ∷ ls) (p, h) = (p, h)

-- A step of one loop that keeps what holds of it.
on_loop-Inv :
    (f : Loop → Loop) (i : ℕ) (r : Lifecycle)
    → ((l : Loop) → IsDone l → IsDone (f l))
    → ((l : Loop) → IsTimed l.phase → IsTimed (f l).phase)
    → Inv r
    → Inv (record r { loops = on_loop i f r.loops })
on_loop-Inv f i r keep_done keep_timed v = record {
  older_done = older-on_loop IsDone i f r.loops keep_done v.older_done;
  stopped_done = λ s. All-on_loop IsDone i f r.loops keep_done (v.stopped_done s);
  timed = All-on_loop (λ l. IsTimed l.phase) i f r.loops keep_timed v.timed;
}

end_pass-IsTimed : (c : Config) (w : Bool) (p : Phase) → IsTimed p → IsTimed (end_pass (new c) w p)
end_pass-IsTimed c w passing h = (new-positive c w).0
end_pass-IsTimed c w (waiting d) h = h

begin_pass-IsTimed : (p : Phase) → IsTimed p → IsTimed (begin_pass p)
begin_pass-IsTimed passing h = tt
begin_pass-IsTimed (waiting d) h = tt

start-Inv : (c : Config) (finished : Bool) (r : Lifecycle) → Inv r → Inv (step c (start finished) r)
unfolding step
start-Inv c finished r v =
    if_given Inv r.started (λ t. v)
      (λ f. record {
        older_done = v.stopped_done f;
        stopped_done = λ s. absurd (false≢true (sym s));
        timed = (tt, v.timed);
      })

stop-Inv : (c : Config) (r : Lifecycle) → Inv r → Inv (step c stop r)
unfolding step
stop-Inv c r v =
    let finished = cancel_newest-IsDone r.loops v.older_done in
    if_given (λ (ls : List Loop). Inv (record { started = false; loops = ls })) r.started
      (λ t. record {
        older_done = All-older IsDone (cancel_newest r.loops) finished;
        stopped_done = λ s. finished;
        timed = cancel_newest-IsTimed r.loops v.timed;
      })
      (λ f. record {
        older_done = v.older_done;
        stopped_done = λ s. v.stopped_done f;
        timed = v.timed;
      })

step-Inv : (c : Config) (e : Event) (r : Lifecycle) → Inv r → Inv (step (new c) e r)
unfolding step
step-Inv c (start finished) r v = start-Inv (new c) finished r v
step-Inv c stop r v = stop-Inv (new c) r v
step-Inv c (pass_ends i w) r v =
    on_loop-Inv (on_phase (end_pass (new c) w)) i r (λ l h. h) (λ l. end_pass-IsTimed c w l.phase) v
step-Inv c (timer_fires i) r v =
    on_loop-Inv (on_phase begin_pass) i r (λ l h. h) (λ l. begin_pass-IsTimed l.phase) v
step-Inv c (exits i) r v = record {
  older_done = older-without IsDone i r.loops v.older_done;
  stopped_done = λ s. All-without IsDone i r.loops (v.stopped_done s);
  timed = All-without (λ l. IsTimed l.phase) i r.loops v.timed;
}
step-Inv c (parent_done i) r v = on_loop-Inv cancelled i r (λ l h. refl) (λ l h. h) v

run_from-Inv : (c : Config) (es : List Event) (r : Lifecycle) → Inv r → Inv (run (new c) es r)
unfolding run
run_from-Inv c [] r v = v
run_from-Inv c (e ∷ es) r v = run_from-Inv c es (step (new c) e r) (step-Inv c e r v)

-- Whatever settings `New` was given, and in whatever order `Start`, `Stop`, the ends of contexts and
-- the turns of the loops come: of all loops, those that still end among them, at most the newest has
-- a context that is not done; when the reconciler is stopped none has; and each timer that runs is
-- positive.
pub run-Inv : (c : Config) (es : List Event) → Inv (run (new c) es idle)
run-Inv c es =
    run_from-Inv c es idle (record { older_done = tt; stopped_done = λ s. tt; timed = tt })
