-- ===== src/Sample/Abuse.antt =====
-- Three failures within a minute are penalised.
use sshoosh.Base.{refl, none, List, [], ◌∷◌, arith}
use sshoosh.Base.Tables.{find, count}
use sshoosh.Text.{codes}
use sshoosh.Abuse.{AuthAbuseLimiter}
use sshoosh.Abuse.Burst.{Attempt, IsPenalized, record_failure-IsPenalized}

abbrev abuse_limiter : AuthAbuseLimiter
abuse_limiter = record {
  failure_window = 60;
  failures_before_penalty = 3;
  penalty = 300;
  failures = [];
  penalties = [];
}

abbrev first_attempt : Attempt
first_attempt = record { now = 10; username = codes "root"; key_fp = none }

abbrev more_attempts : List Attempt
more_attempts =
    record { now = 20; username = codes "admin"; key_fp = none }
    ∷ record { now = 65; username = codes "root"; key_fp = none }
    ∷ []

burst_example : IsPenalized 7 300 (first_attempt ∷ more_attempts) abuse_limiter
burst_example =
    record_failure-IsPenalized 7 first_attempt more_attempts abuse_limiter (unfold find in refl)
      (ground arith, (ground arith, tt)) (ground arith) (unfold count in ground arith)
