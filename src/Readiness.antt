-- ===== src/Readiness.antt =====
-- cmd/server/main.go: `readinessHandler`, the probe that load balancers ask, with its cache.
pub mod Probes
use go_task_q.Time.{Time, second, before, is_zero}
use go_task_q.Base.{
  ◌++◌, ◌==◌, ltb, ◌&&◌, none, ◌+◌, ◌*◌, length, ◌∷◌, [], not, some, if◌then◌else◌, ◌/◌, String,
  Bool, Option, false, ℕ, List,
}

-- `checks["postgres"]`, `checks["redis[i]"]`, `checks["redis_quorum"]`.
pub data CheckName : Type 0 where
  postgres redis_quorum : CheckName
  redis : ℕ → CheckName

-- `too_few alive clients quorum`.
pub data CheckText : Type 0 where
  fine : CheckText
  failing : String → CheckText
  too_few : ℕ → ℕ → ℕ → CheckText

pub record Snapshot : Type 0 where
  pub ready : Bool
  pub checks : List (CheckName × CheckText)
  pub expires : Time

-- Before the first probe.
abbrev pub no_snapshot : Snapshot
no_snapshot = record { ready = false; checks = []; expires = 0 }

abbrev pub cache_ttl : ℕ
cache_ttl = 2 * second

-- What a ping gives; `none` is no error.
abbrev pub text_of : Option String → CheckText
text_of none = fine
text_of (some e) = failing e

abbrev pub alive_one : Option String → ℕ
alive_one none = 1
alive_one (some e) = 0

unfoldable pub count_alive : List (Option String) → ℕ
count_alive [] = 0
count_alive (p ∷ ps) = alive_one p + count_alive ps

-- The entries of the clients from the `i`-th on.
unfoldable pub redis_checks : ℕ → List (Option String) → List (CheckName × CheckText)
redis_checks i [] = []
redis_checks i (p ∷ ps) = (redis i, text_of p) ∷ redis_checks (i + 1) ps

abbrev pub quorum_of : ℕ → ℕ
quorum_of clients = clients / 2 + 1

abbrev pub quorum_checks : ℕ → ℕ → List (CheckName × CheckText)
quorum_checks alive clients =
    if ltb alive (quorum_of clients)
    then (redis_quorum, too_few alive clients (quorum_of clients)) ∷ []
    else []

-- `ready` is status 200, and its contrary 503.
unfoldable pub probe : Time → Option String → List (Option String) → Snapshot
unfolding count_alive redis_checks
probe now pg pings =
    let alive = count_alive pings in
    let clients = length pings in
    record {
      ready = alive_one pg == 1 && not (ltb alive (quorum_of clients));
      checks = (postgres, text_of pg) ∷ redis_checks 0 pings ++ quorum_checks alive clients;
      expires = now + cache_ttl;
    }

abbrev pub is_fresh : Time → Snapshot → Bool
is_fresh now s = not (is_zero s.expires) && before now s.expires

-- One request: what it is answered, which is also what is cached afterwards.
unfoldable pub respond : Time → Option String → List (Option String) → Snapshot → Snapshot
unfolding probe
respond now pg pings s = if is_fresh now s then s else probe now pg pings
