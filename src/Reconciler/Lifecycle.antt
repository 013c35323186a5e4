-- ===== src/Reconciler/Lifecycle.antt =====
-- internal/reconciler/reconciler.go: `Start`, `Stop` and the loop, one step at a time.
pub mod Single
use go_task_q.Time.{Duration}
use go_task_q.Reconciler.{Config, next_interval}
use go_task_q.Base.{zero, suc, [], ◌∷◌, Bool, List, if◌then◌else◌, ℕ, false, true}

-- A pass is under way, or the timer runs.
pub data Phase : Type 0 where
  passing : Phase
  waiting : Duration → Phase

-- The goroutine that a `Start` has made; `ctx_done` tells whether its context is done.
pub record Loop : Type 0 where
  pub ctx_done : Bool
  pub phase : Phase

-- `started` is `r.cancel != nil`, which cancels the newest loop, the first of the list.
pub record Lifecycle : Type 0 where
  pub started : Bool
  pub loops : List Loop

-- `start done` has a context that is done already or not. The last three name a loop by its place;
-- `parent_done` is the end of the context that its `Start` was given.
pub data Event : Type 0 where
  start : Bool → Event
  stop : Event
  pass_ends : ℕ → Bool → Event
  timer_fires exits parent_done : ℕ → Event

abbrev pub idle : Lifecycle
idle = record { started = false; loops = [] }

abbrev pub cancelled : Loop → Loop
cancelled l = record l { ctx_done = true }

abbrev pub cancel_newest : List Loop → List Loop
cancel_newest [] = []
cancel_newest (l ∷ ls) = cancelled l ∷ ls

abbrev pub on_loop : ℕ → (Loop → Loop) → List Loop → List Loop
on_loop i f [] = []
on_loop zero f (l ∷ ls) = f l ∷ ls
on_loop (suc i) f (l ∷ ls) = l ∷ on_loop i f ls

-- `r.nextInterval(r.reconcile(childCtx))`, and the timer of the next turn.
abbrev pub end_pass : Config → Bool → Phase → Phase
end_pass c had_work passing = waiting (next_interval c had_work)
end_pass c had_work (waiting d) = waiting d

abbrev pub begin_pass : Phase → Phase
begin_pass passing = passing
begin_pass (waiting d) = passing

abbrev pub on_phase : (Phase → Phase) → Loop → Loop
on_phase f l = record l { phase = f l.phase }

-- The loop ends only between two passes.
abbrev pub may_exit : Loop → Bool
may_exit l = elim l.phase [ passing ↦ false | waiting d ↦ l.ctx_done ]

abbrev pub without : ℕ → List Loop → List Loop
without i [] = []
without zero (l ∷ ls) = if may_exit l then ls else l ∷ ls
without (suc i) (l ∷ ls) = l ∷ without i ls

unfoldable pub step : Config → Event → Lifecycle → Lifecycle
unfolding next_interval
step c (start done) r =
    if r.started
    then r
    else record { started = true; loops = record { ctx_done = done; phase = passing } ∷ r.loops }
step c stop r = record {
  started = false;
  loops = if r.started then cancel_newest r.loops else r.loops;
}
step c (pass_ends i had_work) r = record r {
  loops = on_loop i (on_phase (end_pass c had_work)) r.loops;
}
step c (timer_fires i) r = record r { loops = on_loop i (on_phase begin_pass) r.loops }
step c (exits i) r = record r { loops = without i r.loops }
step c (parent_done i) r = record r { loops = on_loop i cancelled r.loops }

unfoldable pub run : Config → List Event → Lifecycle → Lifecycle
unfolding step
run c [] r = r
run c (e ∷ es) r = run c es (step c e r)
