-- ===== src/Examples/Breakers.antt =====
-- internal/circuitbreaker at the configuration of the service: one probe, two successes.
use go_task_q.Breaker.Recovery.{attempts_close, Attempt, never_closes, attempts, IsTripped}
use go_task_q.Breaker.{succeeds, fails, closed, open_, half_open, new, Call, run, Breaker}
use go_task_q.Base.{refl, [], inl, length, ◌∷◌, true, ◌↔◌, arith, pos, ◌≡◌, List}
use go_task_q.Breaker.Invariant.{run-new-Inv, Inv}
use go_task_q.Breaker.Tripping.{opens_iff_HasRun, HasRun}
use go_task_q.Breaker.{Config, Call, fails, succeeds, new, run, open_, Breaker, half_open, closed}

abbrev service_config : Config
service_config = record {
  failure_threshold = pos 2;
  success_threshold = pos 2;
  open_timeout = pos 60;
  half_open_requests = pos 1;
}

abbrev some_reports : List Call
some_reports = fails 1 ∷ succeeds 2 ∷ fails 3 ∷ fails 4 ∷ succeeds 5 ∷ []

run-new-Inv_example : Inv (run (new service_config) some_reports)
run-new-Inv_example = run-new-Inv service_config some_reports

opens_iff_HasRun_example :
    ((run (new service_config) some_reports).state ≡ open_)
    ↔ HasRun (new service_config).cfg.failure_threshold some_reports
opens_iff_HasRun_example =
    opens_iff_HasRun service_config some_reports (tt, (tt, (tt, (tt, (tt, tt)))))

abbrev opened : Breaker
opened = record {
  cfg = service_config;
  state = open_;
  failures = 2;
  successes = 0;
  opened_at = 100;
}

abbrev three_attempts : List Attempt
three_attempts =
    record { asked_at = 200; ended_at = 210; succeeded = true }
    ∷ record { asked_at = 220; ended_at = 230; succeeded = true }
    ∷ record { asked_at = 9000; ended_at = 9001; succeeded = true }
    ∷ []

never_closes_example : IsTripped (attempts opened three_attempts).0
never_closes_example = never_closes opened three_attempts (omega arith) (omega arith) (inl refl)

abbrev wedged : Breaker
wedged = record opened { state = half_open; failures = 0; successes = 1 }

abbrev generous : Breaker
generous = record opened {
  cfg = record service_config { half_open_requests = pos 3; success_threshold = pos 3 };
  state = half_open;
  failures = 0;
}

attempts_close_example :
    ((attempts generous three_attempts).0.state ≡ closed)
    × ((attempts generous three_attempts).1 ≡ length three_attempts)
attempts_close_example =
    attempts_close generous three_attempts refl (omega arith) (omega arith) refl
      (refl, (refl, (refl, tt)))
