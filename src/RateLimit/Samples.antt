-- ===== src/RateLimit/Samples.antt =====
-- Tests and witnesses of the rate limiter.
use intelli_study_planner_br.Base.{
  ℕ, ◌≤◌, ◌≡◌, refl, true, not, List, [], ◌∷◌, Text, arith, leb, codes, none,
}
use intelli_study_planner_br.RateLimit.{create, expire, allow, reset, granted, run}
use intelli_study_planner_br.RateLimit.Window.{in_window, granted-le_limit}
use intelli_study_planner_br.RateLimit.Exact.{allow-exact}

abbrev user : Text
user = codes "u1"

abbrev calls : List (Text × ℕ)
calls = (user, 1) ∷ (user, 2) ∷ (codes "u2", 2) ∷ (user, 3) ∷ (user, 12) ∷ []

granted-calls : granted user (create 2 10) calls ≡ 1 ∷ 2 ∷ 12 ∷ []
unfolding granted create allow expire
granted-calls = refl

reset_forgets : (allow user 3 (reset none (run (create 2 10) calls))).0 ≡ true
unfolding allow expire reset run create
reset_forgets = refl

granted-le_limit_example : in_window 10 12 (granted user (create 2 10) calls) ≤ 2
granted-le_limit_example = granted-le_limit 2 10 user calls (omega arith) 12

allow-exact_example :
    (allow user 13 (run (create 2 10) calls)).0
    ≡ not (leb 2 (in_window 10 13 (granted user (create 2 10) calls)))
allow-exact_example = allow-exact 2 10 user calls 13 (omega arith)
