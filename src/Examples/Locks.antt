-- ===== src/Examples/Locks.antt =====
-- internal/lock/redlock.go: two workers and three nodes, each of which may be out of reach.
use go_task_q.Lock.{not_run, replied, Redis, Lock, Config, Attempt, acquired, acquire}
use go_task_q.Lock.Exclusive.{acquire_exclusive}
use go_task_q.Lock.Nodes.{IsRedis}
use go_task_q.Base.{
  [], str_eq_iff, str_eq, ◌∷◌, ltb, ◌≢◌, ◌*◌, refl, arith, pos, ◌≡◌, true, some, false, none,
  if◌then◌else◌, List, Option, ℕ, String, Bool,
}
use go_task_q.Examples.Retries.{whole}
use go_task_q.Time.{second}
use go_task_q.Examples.Data.{differ}

abbrev Keys : Type 0
Keys = String → Option String

abbrev put : String → Option String → Keys → Keys
put k o n j = if str_eq j k then o else n j

abbrev nx : Option String → String → String → Keys → Option Bool × Keys
nx none k v n = (some true, put k (some v) n)
nx (some w) k v n = (some false, n)

abbrev set_if : Bool → String → String → Keys → Option Bool × Keys
set_if true k v n = nx (n k) k v n
set_if false k v n = (none, n)

abbrev remove : Option String → String → Keys → ℕ × Keys
remove none k n = (0, n)
remove (some w) k n = (1, put k none n)

-- The environment says whether the node can be reached.
abbrev in_memory : Redis
in_memory = record {
  Node = Keys;
  Env = Bool;
  set_nx = λ e k v d n. set_if e k v n;
  get = λ k n. n k;
  del = λ k n. remove (n k) k n;
  script_fate = λ e. if e then replied else not_run;
}

nx-wins :
    (o : Option String) (k v : String) (n : Keys)
    → (nx o k v n).0 ≡ some true
    → (nx o k v n).1 k ≡ some v
nx-wins none k v n h = rw ((str_eq_iff k k).1 refl) refl
nx-wins (some w) k v n h = absurd (ground arith)

set_if-wins :
    (e : Bool) (k v : String) (n : Keys)
    → (set_if e k v n).0 ≡ some true
    → (set_if e k v n).1 k ≡ some v
set_if-wins true k v n h = nx-wins (n k) k v n h
set_if-wins false k v n h = cc

set_if-keeps :
    (e : Bool) (k v w : String) (n : Keys)
    → n k ≡ some w
    → ((set_if e k v n).1 k ≡ some w) × ((set_if e k v n).0 ≢ some true)
set_if-keeps true k v w n h = rw h (h, (λ q. ground arith))
set_if-keeps false k v w n h = (h, (λ q. cc))

in_memory-IsRedis : IsRedis in_memory
in_memory-IsRedis = record {
  set_nx_wins = λ e k v d n. set_if-wins e k v n;
  set_nx_keeps = λ e k v w d n h. (set_if-keeps e k v w n h).0;
  set_nx_refuses = λ e k v w d n h. (set_if-keeps e k v w n h).1;
}

abbrev lock_settings : Config whole
lock_settings = record {
  quorum = pos 2;
  ttl = pos (10 * second);
  retry_count = pos 3;
  retry_delay = pos 0;
  drift_factor = 0;
}

-- The last node is out of reach.
abbrev two_of_three : ℕ → Attempt in_memory
two_of_three i = record {
  ctx_done = false;
  set_env = λ n. ltb n 2;
  delete_env = λ n. ltb n 2;
  elapsed = pos 1;
  now = 1000;
}

abbrev empty_nodes : List Keys
empty_nodes = (λ k. none) ∷ (λ k. none) ∷ (λ k. none) ∷ []

abbrev held_lock : Lock
held_lock = record { resource = "job"; value = "mine"; expiry = 9998000999 }

first_acquires :
    (acquire whole in_memory lock_settings two_of_three (some "mine") "job" empty_nodes).0
    ≡ acquired held_lock
unfolding acquire
first_acquires = refl

acquire_exclusive_example :
    (acquire whole in_memory lock_settings two_of_three
      (some "other")
      "job"
      (acquire whole in_memory lock_settings two_of_three (some "mine") "job" empty_nodes).1).0
    ≢ acquired held_lock
acquire_exclusive_example =
    acquire_exclusive in_memory in_memory-IsRedis whole lock_settings two_of_three two_of_three
      "job" "mine" "other" 2 empty_nodes held_lock held_lock refl (omega arith)
      (differ "mine" "other" refl) first_acquires
