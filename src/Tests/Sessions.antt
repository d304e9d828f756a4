-- ===== src/Tests/Sessions.antt =====
-- The agent's reconnects.
use scrooge_dlp.Common.{true, false, List, [], ◌∷◌, ◌≡◌, ◌≤◌, map, length, All}
use scrooge_dlp.Agent.Session.{
  connect_failed, session_error, ended_cleanly, Round, run_with_reconnect,
}
use scrooge_dlp.Agent.Session.Backoff.{lived, run_with_reconnect-delays, run_with_reconnect_bounds}

run_with_reconnect-delays_example :
    run_with_reconnect
      (map lived (connect_failed ∷ session_error ∷ ended_cleanly ∷ connect_failed ∷ []))
    ≡ (1 ∷ 2 ∷ 1 ∷ 2 ∷ [], false)
run_with_reconnect-delays_example =
    run_with_reconnect-delays (connect_failed ∷ session_error ∷ ended_cleanly ∷ connect_failed ∷ [])

abbrev rounds : List Round
rounds =
    lived connect_failed
    ∷ record { shutdown = false; attempt = session_error; shutdown_asleep = true }
    ∷ []

run_with_reconnect_bounds_example :
    All (λ d. (1 ≤ d) × (d ≤ 60)) (run_with_reconnect rounds).0
    × (length (run_with_reconnect rounds).0 ≤ 2)
    × ((run_with_reconnect rounds).1 ≡ true)
run_with_reconnect_bounds_example = run_with_reconnect_bounds rounds
