-- ===== src/Lock.antt =====
-- internal/lock/redlock.go: a lease on a quorum of Redis nodes. A node is a parameter of the model,
-- with the outcome of a call that may fail (`Env`): `set_nx` is SET with NX and PX, `get` and `del`
-- are the commands that a script gives inside the node, and `script_fate` is what becomes of a script.
pub mod Nodes
pub mod Exclusive
use go_task_q.Breaker.{positive_or}
use go_task_q.Retry.{Float}
use go_task_q.Base.{
  true, ltb_ℤ, zero, ◌&&◌, ◌||◌, ◌*◌, none, [], leb_ℤ, not, ltb, ◌∷◌, suc, false, pos, pos_part,
  if◌then◌else◌, ◌+◌, some, ◌-ℤ◌, List, ◌+ℤ◌, ◌/◌, ℤ, Bool, Option, String, ℕ,
}
use go_task_q.Store.Create.{text_is}
use go_task_q.Time.{add, second, millisecond, Time, Duration}

-- A script is not carried out, or it is and its reply gets lost, or it is and the reply arrives.
pub data Fate : Type 0 where
  not_run reply_lost replied : Fate

-- The call's answer is `none` where it gives an error, which says nothing of the node.
pub record Redis : Type 1 where
  pub Node : Type 0
  pub Env : Type 0
  pub set_nx : Env → String → String → Duration → Node → Option Bool × Node
  pub get : String → Node → Option String
  pub del : String → Node → ℕ × Node
  pub script_fate : Env → Fate

pub record Lock : Type 0 where
  pub resource : String
  pub value : String
  pub expiry : Time

pub data Outcome : Type 0 where
  acquired : Lock → Outcome
  cancelled gave_up no_token : Outcome

pub record Config (f : Float) : Type 0 where
  pub quorum : ℤ
  pub ttl : Duration
  pub retry_count : ℤ
  pub retry_delay : Duration
  pub drift_factor : f.Num

-- `NewManager`, with the number of clients and the float 0.01.
unfoldable pub new_manager : (f : Float) → f.Num → ℕ → Config f → Config f
new_manager f hundredth clients c = record {
  quorum = positive_or c.quorum (clients / 2 + 1);
  ttl = positive_or c.ttl (10 * second);
  retry_count = positive_or c.retry_count 3;
  retry_delay = positive_or c.retry_delay (200 * millisecond);
  drift_factor = if f.at_most c.drift_factor f.nought then hundredth else c.drift_factor;
}

-- What one attempt meets: whether the context ends during the wait before it, what becomes of the
-- calls to each client, how long the calls take, and the clock.
pub record Attempt (r : Redis) : Type 0 where
  pub ctx_done : Bool
  pub set_env : ℕ → r.Env
  pub delete_env : ℕ → r.Env
  pub elapsed : Duration
  pub now : Time

module _ (r : Redis) where
  abbrev pub won : Option Bool → ℕ
  won (some true) = 1
  won _ = 0

  -- The script: the number that it returns, and the node behind it.
  unfoldable pub release_script : String → String → r.Node → ℕ × r.Node
  release_script key value node =
      if text_is value (r.get key node) then r.del key node else (0, node)

  -- `releaseScript.Run` on one client: whether a reply arrives, and the node.
  abbrev pub run_script : Fate → ℕ × r.Node → r.Node → Bool × r.Node
  run_script not_run (reply, after) node = (false, node)
  run_script reply_lost (reply, after) node = (false, after)
  run_script replied (reply, after) node = (true, after)

  unfoldable pub release_single : r.Env → String → String → r.Node → Bool × r.Node
  unfolding release_script
  release_single env resource value node =
      run_script (r.script_fate env) (release_script resource value node) node

  -- SetNX on every client, `i` of which have been asked.
  unfoldable pub set_all :
      (ℕ → r.Env) → ℕ → String → String → Duration → List r.Node → ℕ × List r.Node
  set_all env i resource value ttl [] = (0, [])
  set_all env i resource value ttl (node ∷ nodes) =
      let (answer, node') = r.set_nx (env i) resource value ttl node in
      let (n, nodes') = set_all env (i + 1) resource value ttl nodes in
      (won answer + n, node' ∷ nodes')

  unfoldable pub release_all : (ℕ → r.Env) → ℕ → String → String → List r.Node → List r.Node
  unfolding release_single
  release_all env i resource value [] = []
  release_all env i resource value (node ∷ nodes) =
      (release_single (env i) resource value node).1 ∷ release_all env (i + 1) resource value nodes

  -- `Release`: whether one of the scripts failed.
  unfoldable pub release_fails : (ℕ → r.Env) → ℕ → Lock → List r.Node → Bool
  unfolding release_single
  release_fails env i lock [] = false
  release_fails env i lock (node ∷ nodes) =
      not (release_single (env i) lock.resource lock.value node).0
      || release_fails env (i + 1) lock nodes

module _ (f : Float) (r : Redis) (c : Config f) where
  abbrev pub drift : Duration
  drift = f.floor (f.times (f.round c.ttl) c.drift_factor) +ℤ pos (2 * millisecond)

  abbrev pub validity : Attempt r → Duration
  validity a = c.ttl -ℤ a.elapsed -ℤ drift

  -- Behind the SetNX calls; `again` are the attempts that are left.
  abbrev pub settle :
      Attempt r
      → String
      → String
      → (List r.Node → Outcome × List r.Node)
      → ℕ × List r.Node
      → Outcome × List r.Node
  settle a resource value again (n, nodes) =
      if leb_ℤ c.quorum (pos n) && ltb_ℤ (pos 0) (validity a)
      then (
        acquired (record { resource = resource; value = value; expiry = add a.now (validity a) }),
        nodes,
      )
      else again (release_all r a.delete_env 0 resource value nodes)

  -- The attempts that are left, of which `i` have been made.
  unfoldable pub attempt_from :
      (ℕ → Attempt r) → String → String → ℕ → ℕ → List r.Node → Outcome × List r.Node
  unfolding set_all release_all
  attempt_from attempts resource value zero i nodes = (gave_up, nodes)
  attempt_from attempts resource value (suc n) i nodes =
      let again = attempt_from attempts resource value n (i + 1) in
      if ltb 0 i && (attempts i).ctx_done
      then (cancelled, nodes)
      else settle (attempts i) resource value again
          (set_all r (attempts i).set_env 0 resource value c.ttl nodes)

  unfoldable pub acquire :
      (ℕ → Attempt r) → Option String → String → List r.Node → Outcome × List r.Node
  unfolding attempt_from
  acquire attempts none resource nodes = (no_token, nodes)
  acquire attempts (some value) resource nodes =
      attempt_from attempts resource value (pos_part c.retry_count) 0 nodes
