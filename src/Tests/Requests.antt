-- ===== src/Tests/Requests.antt =====
-- Two requests of one address, with a limit of two.
use service_api.Base.{◌≤◌, arith, [], pos, count_where}
use service_api.RateLimit.{no_attempts}
use service_api.RateLimit.Window.{
  Run, after_request, asked, Reach, start, next, in_window, Reach-le_max,
}

abbrev nobody : Run
nobody = record { attempts = no_attempts; clock = 100; admitted = [] }

abbrev one : Run
one = after_request (pos 2) (pos 60) 100 "ip" nobody

abbrev two : Run
two = after_request (pos 2) (pos 60) 110 "ip" one

twice : Reach (pos 2) (pos 60) two
twice =
    next {r = one} (next {r = nobody} (start 100) (asked 100 "ip" nobody (omega arith)))
      (asked 110 "ip" one (omega arith))

Reach-le_max_example : count_where (in_window (pos 60) "ip" 120) two.admitted ≤ 2
Reach-le_max_example =
    Reach-le_max {max = pos 2} {window = pos 60} {r = two} twice "ip" 120 (omega arith)
