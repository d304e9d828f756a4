-- ===== src/Tests/Uploads.antt =====
-- The event queue of the agent and its uploader, with numbers for events.
use scrooge_dlp.Common.{
  ℕ, true, false, Option, none, some, List, [], ◌∷◌, ◌≡◌, refl, arith, concat, map,
}
use scrooge_dlp.Common.Int.{pos}
use scrooge_dlp.Agent.Queue.Refinement.{
  QueueCall, put, settle, purge, reopen, run, events_of, run-refines,
}
use scrooge_dlp.Agent.Queue.{open_queue, take_batch, pending_count, Row, EventQueue, pending}
use scrooge_dlp.Agent.Uploader.{Conditions, Uploader, run_ticks}
use scrooge_dlp.Agent.Uploader.Laws.{working, run_ticks-delivers}

-- An event is a number, and its encoding the one byte.
abbrev decode : List ℕ → Option ℕ
decode [] = none
decode (b ∷ bs) = some b

abbrev waiting : ℕ → ℕ → Row
waiting id e = record { id = id; created_at = pos 0; sent_at = none; payload = e ∷ [] }

abbrev sent_row : ℕ → Row
sent_row id = record { id = id; created_at = pos 0; sent_at = some (pos 5); payload = 9 ∷ [] }

abbrev queue : EventQueue
queue = record { rows = waiting 1 11 ∷ sent_row 2 ∷ waiting 4 14 ∷ []; next_id = 5 }

abbrev uploader : Uploader ℕ
uploader = record { queue = queue; sent = [] }

run_ticks-delivers_example :
    (concat (run_ticks decode (map (working decode) (pos 9 ∷ pos 12 ∷ [])) uploader).sent
      ≡ 11 ∷ 14 ∷ [])
    × (pending (run_ticks decode (map (working decode) (pos 9 ∷ pos 12 ∷ [])) uploader).queue ≡ [])
run_ticks-delivers_example =
    run_ticks-delivers decode (pos 9 ∷ pos 12 ∷ []) uploader (11 ∷ 14 ∷ [])
      (omega arith, (omega arith, (omega arith, omega arith))) (refl, (refl, tt)) (omega arith)

-- A tick that sends and then fails to mark.
abbrev unmarked : Conditions
unmarked = record { read_fails = false; closed = false; mark_fails = true; now = pos 9 }

-- Events that come in, are sent, purged and found again after a restart.
abbrev calls : List (QueueCall ℕ)
calls =
    put (pos 1) 11
    ∷ put (pos 2) 12
    ∷ settle (pos 3) 1
    ∷ put (pos 4) 13
    ∷ purge (pos 9)
    ∷ reopen
    ∷ []

run-refines_example :
    (events_of
        (λ e. e ∷ [])
        decode
        (λ e. refl)
        (take_batch decode 5 (run (λ e. e ∷ []) calls (open_queue none)))
      ≡ some (12 ∷ 13 ∷ []))
    × (pending_count (run (λ e. e ∷ []) calls (open_queue none)) ≡ 2)
run-refines_example = run-refines (λ e. e ∷ []) decode (λ e. refl) calls 5
