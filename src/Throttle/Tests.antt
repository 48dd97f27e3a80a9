-- ===== src/Throttle/Tests.antt =====
-- internal/middleware/throttle.go: the bound on a client's requests, with another client between.
use nrcc.Base.{ℕ, suc, ◌≡◌, min, refl, String, List, [], ◌∷◌, arith}
use nrcc.Base.Assoc.{lookup}
use nrcc.Throttle.{Throttle, sweep}
use nrcc.Throttle.Window.{passed, requests_of, passed_bounded}

abbrev throttle : Throttle
throttle = record {
  hits = ("10.0.0.1", record { count = 9; start = 10 }) ∷ [];
  limit = 2;
  period = 60;
}

abbrev requests : List (String × ℕ)
requests = ("10.0.0.1", 101) ∷ ("10.0.0.2", 110) ∷ ("10.0.0.1", 120) ∷ ("10.0.0.1", 159) ∷ []

passed_bounded_example :
    passed throttle "10.0.0.1" (("10.0.0.1", 100) ∷ requests)
    ≡ suc (min 1 (requests_of "10.0.0.1" requests))
unfolding sweep lookup
passed_bounded_example = passed_bounded throttle "10.0.0.1" 100 requests refl (ground arith)
