-- ===== src/Examples/Probes.antt =====
-- cmd/server/main.go: readiness with one Redis client of three out of reach.
use go_task_q.Readiness.{no_snapshot}
use go_task_q.Readiness.Probes.{Request, AreRecent, answers, answers-recent}
use go_task_q.Time.{second}
use go_task_q.Base.{◌*◌, some, String, ◌∷◌, Option, none, [], List}

abbrev two_alive : List (Option String)
two_alive = none ∷ some "timeout" ∷ none ∷ []

abbrev some_requests : List Request
some_requests =
    record { now = 1000; pg = none; pings = two_alive }
    ∷ record { now = 2000; pg = some "down"; pings = two_alive }
    ∷ record { now = 9 * second; pg = some "down"; pings = two_alive }
    ∷ []

answers-recent_example : AreRecent [] some_requests (answers no_snapshot some_requests)
answers-recent_example = answers-recent some_requests
