-- ===== src/Store/State.antt =====
-- internal/store/store.go: `CanTransition`, and the lifecycle it is documented to allow.
use go_task_q.Base.{◌≡◌, refl, ◌↔◌, Bool, true, false, ◌||◌}
use go_task_q.Models.{JobState, pending, running, completed, failed, dead, other, state_eq}

unfoldable pub can_transition : JobState → JobState → Bool
can_transition completed to = false
can_transition dead to = false
can_transition pending to = state_eq to running || state_eq to dead
can_transition running to = state_eq to completed || state_eq to failed || state_eq to dead
can_transition failed to = state_eq to pending || state_eq to dead
can_transition (other s) to = false

-- The edges of the state machine that `UpdateJob` and `CancelJob` may follow.
infix 40 ◌⟶◌
pub data ◌⟶◌ : JobState → JobState → Type 0 where
  start : pending ⟶ running
  finish : running ⟶ completed
  fail : running ⟶ failed
  retry : failed ⟶ pending
  kill_pending : pending ⟶ dead
  kill_running : running ⟶ dead
  kill_failed : failed ⟶ dead

pub ⟶-allowed : {from to : JobState} → from ⟶ to → can_transition from to ≡ true
unfolding can_transition
⟶-allowed start = refl
⟶-allowed finish = refl
⟶-allowed fail = refl
⟶-allowed retry = refl
⟶-allowed kill_pending = refl
⟶-allowed kill_running = refl
⟶-allowed kill_failed = refl

pub allowed-⟶ : (from to : JobState) → can_transition from to ≡ true → from ⟶ to
unfolding can_transition
allowed-⟶ pending running h = start
allowed-⟶ pending dead h = kill_pending
allowed-⟶ running completed h = finish
allowed-⟶ running failed h = fail
allowed-⟶ running dead h = kill_running
allowed-⟶ failed pending h = retry
allowed-⟶ failed dead h = kill_failed
allowed-⟶ _ _ h = cc

-- `CanTransition` allows exactly the edges of the state machine: a pending job may start or die, a
-- running one may complete, fail or die, a failed one may become pending again or die, and from a
-- completed, dead or unknown state nothing is allowed.
pub can_transition_iff : (from to : JobState) → (can_transition from to ≡ true) ↔ (from ⟶ to)
can_transition_iff from to = (allowed-⟶ from to, ⟶-allowed)

-- The moves of a stored job: the edges above, and a running job whose lease is given up or has
-- run out goes back to pending.
pub data Move : JobState → JobState → Type 0 where
  stays : {s : JobState} → Move s s
  edge : {s t : JobState} → s ⟶ t → Move s t
  gives_up : Move running pending

pub data Moves : JobState → JobState → Type 0 where
  here : {s : JobState} → Moves s s
  then : {s t u : JobState} → Moves s t → Move t u → Moves s u

Move-completed : {s t : JobState} → Move s t → s ≡ completed → t ≡ completed
Move-completed stays e = e
Move-completed (edge start) e = cc
Move-completed (edge finish) e = cc
Move-completed (edge fail) e = cc
Move-completed (edge retry) e = cc
Move-completed (edge kill_pending) e = cc
Move-completed (edge kill_running) e = cc
Move-completed (edge kill_failed) e = cc
Move-completed gives_up e = cc

Move-dead : {s t : JobState} → Move s t → s ≡ dead → t ≡ dead
Move-dead stays e = e
Move-dead (edge start) e = cc
Move-dead (edge finish) e = cc
Move-dead (edge fail) e = cc
Move-dead (edge retry) e = cc
Move-dead (edge kill_pending) e = cc
Move-dead (edge kill_running) e = cc
Move-dead (edge kill_failed) e = cc
Move-dead gives_up e = cc

pub Moves-completed : {s t : JobState} → Moves s t → s ≡ completed → t ≡ completed
Moves-completed here e = e
Moves-completed (then ms m) e = Move-completed m (Moves-completed ms e)

pub Moves-dead : {s t : JobState} → Moves s t → s ≡ dead → t ≡ dead
Moves-dead here e = e
Moves-dead (then ms m) e = Move-dead m (Moves-dead ms e)
