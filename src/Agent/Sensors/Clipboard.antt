-- ===== src/Agent/Sensors/Clipboard.antt =====
-- crates/scrooge-agent-linux/src/clipboard.rs: the task that polls the clipboard and reports what the
-- classifiers find in it.
pub mod Changes
use scrooge_dlp.Common.{
  ℕ, String, Bool, true, false, ◌&&◌, Option, none, some, List, [], ◌∷◌, ◌++◌, ◌+◌, ◌==◌,
  if◌then◌else◌, is_empty, length,
}
use scrooge_dlp.Common.Text.{Text, as_bytes, byte_len}
use scrooge_dlp.Classifier.Defs.{Match}
use scrooge_dlp.Classifier.Registry.{ClassifierRegistry, scan_all}
use scrooge_dlp.Agent.Sensors.{
  Bytes, ClipboardEvent, Details, clipboard, Event, Host, Exit, not_started, waiting,
  channel_closed, panicked, send_all,
}

abbrev pub same_bytes : Bytes → Bytes → Bool
same_bytes [] [] = true
same_bytes [] (b ∷ ys) = false
same_bytes (a ∷ xs) [] = false
same_bytes (a ∷ xs) (b ∷ ys) = (a == b) && same_bytes xs ys

-- What `get_text` answers at a tick.
pub data Reading : Type 0 where
  content : Text → Reading
  not_available read_failed : Reading

-- `prev_hash == Some(hash)`
abbrev pub is_previous : Option Bytes → Bytes → Bool
is_previous none hash = false
is_previous (some p) hash = same_bytes p hash

module _ (host : Host) where
  -- `hash_text`
  unfoldable pub hash_text : Text → Bytes
  hash_text text = host.sha256 (as_bytes text)

  -- `build_event`, for the n-th event.
  unfoldable pub build_event : ℕ → Text → Bytes → Match → Event
  build_event n text text_hash m = record {
    event_id = host.new_v4 n;
    timestamp_ns = host.now_ns n;
    agent_id = "";
    event_type = 30;
    severity = 2;
    direction = 0;
    user_name = host.user_name;
    process_id = 0;
    process_name = "";
    details = clipboard (record {
      content_size = byte_len text;
      content_preview = m.redacted;
      content_hash = text_hash;
      mime_type = "text/plain";
      source_process_name = "";
      was_cleared = false;
    });
    matched_policy_id = "";
    matched_rule_id = "";
    action_taken = 0;
    matches =
        record { classifier_id = m.classifier; match_count = 1; sample_excerpt = m.redacted } ∷ [];
    forward_to_siem = false;
  }

  abbrev pub build_events : ℕ → Text → Bytes → List Match → List Event
  build_events n text hash [] = []
  build_events n text hash (m ∷ ms) = build_event n text hash m ∷ build_events (n + 1) text hash ms

  module _ (classifiers : ClassifierRegistry) where
    -- The loop of `run`, from the previous hash on, with the room of the channel and the number of the
    -- next event.
    unfoldable pub poll : Option Bytes → ℕ → ℕ → List Reading → List Event × Exit
    unfolding hash_text
    poll prev room n [] = ([], waiting)
    poll prev room n (not_available ∷ rs) = poll prev room n rs
    poll prev room n (read_failed ∷ rs) = poll prev room n rs
    poll prev room n (content text ∷ rs) =
        let skipped = poll prev room n rs in
        let hash = hash_text text in
        if is_empty text
        then skipped
        else if is_previous prev hash
        then skipped
        else elim (scan_all classifiers text) [
          | none ↦ ([], panicked)
          | some ms ↦
              (let (sent, left) = send_all room (build_events n text hash ms) in
                elim left [
                  | none ↦ (sent, channel_closed)
                  | some room' ↦
                      (let (more, exit) = poll (some hash) room' (n + length ms) rs in
                        (sent ++ more, exit))
                ])
        ]

    -- `run`, with whether the clipboard can be opened.
    unfoldable pub run : Bool → ℕ → List Reading → List Event × Exit
    unfolding poll
    run opens room rs = if opens then poll none room 0 rs else ([], not_started)
