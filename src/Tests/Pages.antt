-- ===== src/Tests/Pages.antt =====
-- Pages of events and sessions of agents.
use scrooge_dlp.Common.Member.{In}
use scrooge_dlp.Common.{
  take, drop, filter, Bool, ℕ, true, false, none, some, List, [], ◌∷◌, ◌≡◌, ◌≤◌, refl, ok, All,
  length,
}
use scrooge_dlp.Common.Int.{pos}
use scrooge_dlp.Manager.World.{World}
use scrooge_dlp.Manager.Api.{Claims}
use scrooge_dlp.Manager.Details.{Event, obj, end}
use scrooge_dlp.Manager.Events.{EventRow, Sources}
use scrooge_dlp.Manager.Events.Listing.{EventQuery, list}
use scrooge_dlp.Manager.Events.Pages.{Matches, NewestFirst, list-page}
use scrooge_dlp.Manager.Registry.{get}
use scrooge_dlp.Manager.Stream.{Inbound, arrived, heartbeat, events, Service, session}
use scrooge_dlp.Manager.Stream.Rows.{Untouched}
use scrooge_dlp.Manager.Stream.Sessions.{session_isolated}

abbrev admin : Claims
admin = record { sub = "7"; username = "root"; role = "admin"; exp = pos 2000; iat = pos 900 }

abbrev stored_at : ℕ → ℕ → EventRow
stored_at agent time = record {
  id = time;
  timestamp = pos time;
  agent_id = agent;
  event_type = "CLIPBOARD_COPY";
  severity = "high";
  direction = none;
  matched_policy = none;
  matched_rule = none;
  action_taken = none;
  details = obj end;
}

abbrev query : EventQuery
query = record {
  agent_id = some 4;
  severity = some "high";
  event_type = none;
  since = none;
  until = none;
  limit = some 2;
  offset = none;
}

abbrev table : List EventRow
table = stored_at 4 1 ∷ stored_at 5 2 ∷ stored_at 4 3 ∷ stored_at 4 2 ∷ []

list-page_example :
    (asked : List EventRow) × (list admin query false table ≡ ok (take 2 (drop 0 asked)))
    × NewestFirst asked
    × All (λ r. Matches query r × In r table) asked
    × ((p : EventRow → Bool)
        → ((r : EventRow) → p r ≡ true → Matches query r)
        → length (filter p asked) ≡ length (filter p table))
    × (length (take 2 (drop 0 asked)) ≤ 1000)
list-page_example = list-page query table admin refl refl

abbrev world : World
world = record {
  policies = [];
  history = [];
  assignments = [];
  agents = [];
  tokens = [];
  users = [];
  refresh_tokens = [];
  pushes = [];
}

abbrev sources : Sources
sources = record {
  parse_uuid = λ s. some 9;
  new_v4 = λ n. n;
  timestamptz = λ t. t;
  event_type_to_str = λ n. "CLIPBOARD_COPY";
}

abbrev event : Event
event = record {
  event_id = "9";
  timestamp_ns = pos 8;
  event_type = pos 30;
  severity = pos 2;
  direction = pos 0;
  user_name = "";
  process_id = 0;
  process_name = "";
  details = none;
  matched_policy_id = "";
  matched_rule_id = "";
  action_taken = pos 0;
  matches = [];
}

abbrev service : Service
service = record { world = world; stored = table; registry = (5, 50) ∷ [] }

abbrev inbound : List Inbound
inbound =
    arrived (heartbeat "0.2") 10 [] sources true
    ∷ arrived (events (event ∷ [])) 11 [] sources true
    ∷ []

session_isolated_example :
    Untouched 4 service (session 4 40 inbound service)
    × (get 4 (session 4 40 inbound service).registry ≡ none)
    × (get 5 (session 4 40 inbound service).registry ≡ some 50)
unfolding get
session_isolated_example = session_isolated 4 40 inbound service 5 refl
