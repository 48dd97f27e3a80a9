-- ===== src/Ring/Tests.antt =====
-- internal/service/metrics_buffer.go, restart_tracker.go: a ring that has wrapped round.
use nrcc.Base.{ℕ, ◌-◌, ◌≡◌, min, some, none, List, [], ◌∷◌, ◌++◌, arith, length, drop}
use nrcc.Ring.{Buffer, new_buffer, recent, restart_events, last, push_all}
use nrcc.Ring.Recent.{recent-push_all, last-push_all}

abbrev pushed : List ℕ
pushed = 1 ∷ 2 ∷ 3 ∷ 4 ∷ 5 ∷ []

recent-push_all_example :
    (b : Buffer ℕ) × (push_all pushed (new_buffer 0 3) ≡ some b)
    × (recent b 2 ≡ some (drop (length pushed - min 2 3) pushed))
recent-push_all_example = recent-push_all 0 3 2 pushed (omega arith)

last-push_all_example :
    (b : Buffer ℕ) × (push_all (pushed ++ 6 ∷ []) (new_buffer 0 3) ≡ some b)
    × (last b ≡ some (some 6))
    × (restart_events b ≡ recent b 3)
    × (last {A = ℕ} (new_buffer 0 3) ≡ some none)
last-push_all_example = last-push_all 0 6 3 pushed (omega arith)
