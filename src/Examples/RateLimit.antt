-- ===== src/Examples/RateLimit.antt =====
-- The sliding window, with two requests in 100 ms.
use bookit.Common.{ℕ, ◌≡◌, ◌≤◌, refl, List, [], ◌∷◌, arith}
use bookit.SeatLock.Cluster.{Delivery, answered, unanswered}
use bookit.Gateway.RateLimit.{
  Entry, no_entries, remove_old, kept, check_sliding_window, run_requests, Fresh, in_window,
}
use bookit.Gateway.RateLimit.Limit.{window_limit}

abbrev at : ℕ → Entry
at t = record { time = t; random = 7 }

abbrev calls : List (Delivery × Entry)
calls = (answered, at 10) ∷ (answered, at 20) ∷ (unanswered, at 30) ∷ (answered, at 115) ∷ []

-- The third request is refused, the fourth comes when the first one is out of the window.
allowed_test : run_requests 2 100 calls no_entries [] ≡ at 115 ∷ at 20 ∷ at 10 ∷ []
unfolding run_requests check_sliding_window kept remove_old
allowed_test = refl

calls-Fresh : Fresh 2 100 calls no_entries
unfolding check_sliding_window kept remove_old
calls-Fresh = (refl, (refl, (refl, (refl, tt))))

window_limit_example : in_window 100 115 (run_requests 2 100 calls no_entries []) ≤ 2
window_limit_example =
    window_limit 2 100 115 calls (omega arith, (omega arith, (omega arith, (omega arith, tt))))
      calls-Fresh (omega arith, (omega arith, (omega arith, (omega arith, tt))))
