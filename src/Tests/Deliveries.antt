-- ===== src/Tests/Deliveries.antt =====
-- An event on its way from the agent to the manager's table.
use scrooge_dlp.Common.{
  Bool, true, false, none, some, List, [], ◌∷◌, ◌≡◌, ◌⊎◌, inl, refl, arith, concat,
}
use scrooge_dlp.Common.Int.{pos}
use scrooge_dlp.Common.Member.{In}
use scrooge_dlp.Manager.Details.{Event}
use scrooge_dlp.Manager.Events.{Sources, insert_event_batch}
use scrooge_dlp.Agent.Queue.{pending, open_queue, enqueue}
use scrooge_dlp.Agent.Uploader.{Conditions, drain_once}
use scrooge_dlp.Agent.Uploader.Laws.{Holds}
use scrooge_dlp.Delivery.{
  Codec, System, initial, ticked, answered, report, tick, store, Reach, start, next,
}
use scrooge_dlp.Delivery.Stored.{row}
use scrooge_dlp.Delivery.Once.{StoredOnce, reached-conserves, reached-invents_nothing}

abbrev event : Event
event = record {
  event_id = "9";
  timestamp_ns = pos 8;
  event_type = pos 30;
  severity = pos 2;
  direction = pos 0;
  user_name = "";
  process_id = 0;
  process_name = "";
  details = none;
  matched_policy_id = "";
  matched_rule_id = "";
  action_taken = pos 0;
  matches = [];
}

abbrev codec : Codec
codec = record { encode = λ e. 7 ∷ []; decode = λ b. some event }

abbrev sources : Sources
sources = record {
  parse_uuid = λ s. some 9;
  new_v4 = λ n. n;
  timestamptz = λ t. t;
  event_type_to_str = λ n. "CLIPBOARD_COPY";
}

abbrev conditions : Bool → Conditions
conditions mark_fails = record {
  read_fails = false;
  closed = false;
  mark_fails = mark_fails;
  now = pos 20;
}

abbrev reported : System
reported = record (initial []) {
  queue = (enqueue codec.encode (pos 10) event (open_queue none)).1;
  recorded = event ∷ [];
}

-- The batch is sent twice, since the first tick fails to mark it.
abbrev sent : System
sent = ticked codec sources 5 (conditions false) (ticked codec sources 5 (conditions true) reported)

abbrev stored : System
stored = record sent {
  wire = (event ∷ []) ∷ [];
  table = (answered codec sources 5 (event ∷ []) [] []).1;
}

abbrev stored_again : System
stored_again = record stored {
  wire = [];
  table = (answered codec sources 5 (event ∷ []) [] stored.table).1;
}

reached : Reach codec sources 5 [] stored_again
unfolding drain_once insert_event_batch enqueue open_queue
reached =
    next
      (next
        (next
          (next (next start (report (initial []) (pos 10) event 9 refl refl))
            (tick reported (conditions true)))
          (tick (ticked codec sources 5 (conditions true) reported) (conditions false)))
        (store sent (event ∷ []) ((event ∷ []) ∷ []) [] 1 refl refl))
      (store stored (event ∷ []) [] [] 0 refl refl)

reached-conserves_example :
    (waiting : List Event) × Holds codec.decode (pending stored_again.queue) waiting
    × (In event waiting
        ⊎ (In event (concat stored_again.wire)
            ⊎ (In event (concat stored_again.lost)
                ⊎ StoredOnce sources 5 stored_again.table event)))
reached-conserves_example =
    reached-conserves codec sources 5 [] (λ r. omega arith) stored_again reached event (inl refl)

reached-invents_nothing_example :
    In (row sources 5 event) []
    ⊎ ((e : Event) × In e stored_again.recorded × (row sources 5 event ≡ row sources 5 e))
unfolding drain_once insert_event_batch enqueue open_queue
reached-invents_nothing_example =
    reached-invents_nothing codec sources 5 [] (λ r. omega arith) stored_again reached
      (row sources 5 event) (inl refl)
