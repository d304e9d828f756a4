-- ===== src/Agent/Session.antt =====
-- crates/scrooge-agent-bin/src/stream.rs: the sessions with the manager, one after the other, and what
-- ends each of them.
pub mod Backoff
pub mod Heartbeats
use scrooge_dlp.Common.{
  ℕ, zero, suc, String, Bool, true, false, Option, none, some, List, [], ◌∷◌, ◌++◌, ◌*◌, Outcome,
  ok, err, if◌then◌else◌,
}
use scrooge_dlp.Manager.Push.{PolicyRef, PolicyAck, Files, apply_update}
use Prim.Native.Nat.{min}

-- `RECONNECT_MIN` and `RECONNECT_MAX`, in seconds.
abbrev pub reconnect_min : ℕ
reconnect_min = 1

abbrev pub reconnect_max : ℕ
reconnect_max = 60

-- How an attempt of the loop ends: the channel cannot be built, or the session that ran on it ends.
pub data Attempt : Type 0 where
  connect_failed session_error ended_cleanly : Attempt

-- A round of the loop: the flag of the shutdown at its start, the attempt, and whether a shutdown
-- comes during the sleep.
pub record Round : Type 0 where
  pub shutdown : Bool
  pub attempt : Attempt
  pub shutdown_asleep : Bool

-- The delay for which the loop sleeps after an attempt.
abbrev pub delay_after : Attempt → ℕ → ℕ
delay_after connect_failed backoff = backoff
delay_after session_error backoff = backoff
delay_after ended_cleanly backoff = reconnect_min

abbrev pub doubled : ℕ → ℕ
doubled backoff = min (backoff * 2) reconnect_max

-- The loop of `run_with_reconnect` from a backoff on: the delays, and whether it has returned.
abbrev pub reconnect : ℕ → List Round → List ℕ × Bool
reconnect backoff [] = ([], false)
reconnect backoff (r ∷ rs) =
    let delay = delay_after r.attempt backoff in
    let rest = reconnect (doubled delay) rs in
    if r.shutdown
    then ([], true)
    else if r.shutdown_asleep
    then (delay ∷ [], true)
    else (delay ∷ rest.0, rest.1)

-- `run_with_reconnect`
unfoldable pub run_with_reconnect : List Round → List ℕ × Bool
run_with_reconnect rs = reconnect reconnect_min rs

-- A `ManagerMessage` by its payload.
pub data ManagerMessage : Type 0 where
  heartbeat_ack : ManagerMessage
  policy : List PolicyRef → ManagerMessage
  command : String → ℕ → ManagerMessage
  no_payload : ManagerMessage

-- `handle_inbound`, where `can_make_dir` and `can_write` say what the file system lets the agent do,
-- and `room` how many answers the channel still takes.
unfoldable pub handle_inbound :
    Bool → (String → Bool) → ℕ → ManagerMessage → Files → List PolicyAck × Files
handle_inbound can_make_dir can_write room heartbeat_ack fs = ([], fs)
handle_inbound can_make_dir can_write room (policy refs) fs =
    apply_update can_make_dir can_write room refs fs
handle_inbound can_make_dir can_write room (command id type) fs = ([], fs)
handle_inbound can_make_dir can_write room no_payload fs = ([], fs)

-- What the loop of a session waits for; a message comes with what the system lets the agent do.
pub data Inbound : Type 0 where
  message : ManagerMessage → Bool → (String → Bool) → ℕ → Inbound
  failed closed shutdown_signal : Inbound

-- The loop of `run_one_session`, with how it ends, `none` where it still waits, and with the answers
-- and the files.
unfoldable pub run_one_session :
    List Inbound → Files → Option (Outcome (Unit {0}) (Unit {0})) × List PolicyAck × Files
unfolding handle_inbound
run_one_session [] fs = (none, [], fs)
run_one_session (message m dir can_write room ∷ ins) fs =
    let (acks, fs') = handle_inbound dir can_write room m fs in
    let (result, more, fs'') = run_one_session ins fs' in (result, acks ++ more, fs'')
run_one_session (failed ∷ ins) fs = (some (err tt), [], fs)
run_one_session (closed ∷ ins) fs = (some (ok tt), [], fs)
run_one_session (shutdown_signal ∷ ins) fs = (some (ok tt), [], fs)

-- What a session's end is for `run_with_reconnect`.
abbrev pub attempt_of : Outcome (Unit {0}) (Unit {0}) → Attempt
attempt_of (ok u) = ended_cleanly
attempt_of (err e) = session_error
