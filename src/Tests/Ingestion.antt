-- ===== src/Tests/Ingestion.antt =====
-- The storing of event batches.
use scrooge_dlp.Common.{ℕ, true, false, none, some, [], ◌∷◌, ◌≡◌, refl}
use scrooge_dlp.Common.Int.{pos}
use scrooge_dlp.Manager.Details.{Event, clipboard}
use scrooge_dlp.Manager.Events.{Sources, insert_events, insert_event_batch}

abbrev sources : Sources
sources = record {
  parse_uuid = λ s. some 5;
  new_v4 = λ n. n;
  timestamptz = λ t. t;
  event_type_to_str = λ n. "CLIPBOARD_COPY";
}

abbrev event : ℕ → Event
event t = record {
  event_id = "id";
  timestamp_ns = pos t;
  event_type = pos 1;
  severity = pos 3;
  direction = pos 0;
  user_name = "anna";
  process_id = 0;
  process_name = "";
  details = some (
      clipboard (record {
        content_size = 11;
        content_preview = "4404***1359";
        mime_type = "text/plain";
        source_process_name = "";
        was_cleared = false;
      }));
  matched_policy_id = "";
  matched_rule_id = "pesel";
  action_taken = pos 2;
  matches =
      record { classifier_id = "pesel"; match_count = 1; sample_excerpt = "44*******59" } ∷ [];
}

-- The second query of the batch fails.
fault :
    (insert_event_batch sources 7 (event 1 ∷ event 2 ∷ []) (false ∷ false ∷ true ∷ []) []).0 ≡ none
unfolding insert_event_batch insert_events
fault = refl
