-- ===== src/Agent/Sensors/Filemon.antt =====
-- crates/scrooge-agent-linux/src/filemon.rs: the task that reports what happens to the watched files.
-- The file system as it answers at an event, UTF-8 and the parts of a path are parameters.
pub mod Limits
use scrooge_dlp.Common.{
  ℕ, zero, suc, String, Bool, true, false, Option, none, some, List, [], ◌∷◌, ◌++◌, ◌+◌, ◌^◌,
  if◌then◌else◌, is_empty, ltb, map, length, Outcome, ok, err,
}
use scrooge_dlp.Common.Int.{ℤ, pos}
use scrooge_dlp.Common.Text.{Text}
use scrooge_dlp.Classifier.Defs.{Match}
use scrooge_dlp.Classifier.Registry.{ClassifierRegistry, scan_all}
use scrooge_dlp.Agent.Sensors.{
  Bytes, ProtoMatch, FileEvent, Details, file, Event, Host, Exit, not_started, waiting,
  channel_closed, panicked,
}

-- `CONTENT_SCAN_MAX_BYTES`
abbrev pub content_scan_max_bytes : ℕ
content_scan_max_bytes = 5242880

-- `std::fs::Metadata`
pub record Metadata : Type 0 where
  pub is_file : Bool
  pub len : ℕ

-- `std::fs::metadata` and `std::fs::read`, `std::str::from_utf8`, `Path::extension`.
pub record FileSystem : Type 0 where
  pub metadata : String → Option Metadata
  pub read : String → Option Bytes
  pub from_utf8 : Bytes → Option Text
  pub extension : String → Option String

-- `notify::EventKind`
pub data EventKind : Type 0 where
  create modify remove rare : EventKind

-- A message of the watcher, with the file system as it stands then.
pub data Notified : Type 0 where
  notify_error : Notified
  notify_event : EventKind → List String → FileSystem → Notified

unfoldable pub type_of : EventKind → ℕ
type_of create = 10
type_of modify = 12
type_of remove = 13
type_of rare = 99

abbrev pub to_proto : Match → ProtoMatch
to_proto m = record { classifier_id = m.classifier; match_count = 1; sample_excerpt = m.redacted }

abbrev pub or_empty : Option String → String
or_empty none = ""
or_empty (some s) = s

-- `i64::try_from(size).unwrap_or(0)`
abbrev pub to_i64_or_zero : ℕ → ℤ
to_i64_or_zero n = if ltb n (2 ^ 63) then pos n else pos 0

module _ (host : Host) (classifiers : ClassifierRegistry) where
  -- The content scan, of texts only.
  abbrev pub scan_content : FileSystem → Bytes → Option (List ProtoMatch)
  scan_content fs bytes = elim (fs.from_utf8 bytes) [
    | none ↦ some []
    | some text ↦ elim (scan_all classifiers text) [
      | none ↦ none
      | some ms ↦ some (map to_proto ms)
    ]
  ]

  -- `inspect_file`: the size, the hash and the matches; `none` is a panic.
  unfoldable pub inspect_file : FileSystem → String → Option (ℕ × Bytes × List ProtoMatch)
  inspect_file fs path = elim (fs.metadata path) [
    | none ↦ some (0, [], [])
    | some meta ↦
        if meta.is_file
        then if ltb content_scan_max_bytes meta.len
          then some (meta.len, [], [])
          else elim (fs.read path) [
            | none ↦ some (meta.len, [], [])
            | some bytes ↦ elim (scan_content fs bytes) [
              | none ↦ none
              | some matches ↦ some (meta.len, host.sha256 bytes, matches)
            ]
          ]
        else some (meta.len, [], [])
  ]

  -- `build_event`, for the n-th event, from what was inspected.
  unfoldable pub event_of :
      ℕ → EventKind → FileSystem → String → ℕ × Bytes × List ProtoMatch → Event
  unfolding type_of
  event_of n kind fs path (size, sha, matches) = record {
    event_id = host.new_v4 n;
    timestamp_ns = host.now_ns n;
    agent_id = "";
    event_type = type_of kind;
    severity = if is_empty matches then 1 else 2;
    direction = 0;
    user_name = host.user_name;
    process_id = 0;
    process_name = "";
    details = file (record {
      path = path;
      old_path = "";
      destination_path = "";
      size_bytes = to_i64_or_zero size;
      sha256 = sha;
      mime_type = "";
      file_extension = or_empty (fs.extension path);
    });
    matched_policy_id = "";
    matched_rule_id = "";
    action_taken = 0;
    matches = matches;
    forward_to_siem = false;
  }

  unfoldable pub build_event : ℕ → EventKind → FileSystem → String → Option Event
  unfolding inspect_file event_of
  build_event n kind fs path = elim (inspect_file fs path) [
    | none ↦ none
    | some inspected ↦ some (event_of n kind fs path inspected)
  ]

  -- The paths of one message: the events that went, with the room that is left.
  abbrev pub report_paths :
      ℕ → ℕ → EventKind → FileSystem → List String → List Event × Outcome Exit ℕ
  report_paths room n kind fs [] = ([], ok room)
  report_paths room n kind fs (path ∷ paths) = elim (build_event n kind fs path) [
    | none ↦ ([], err panicked)
    | some e ↦ elim room [
      | zero ↦ ([], err channel_closed)
      | suc room' ↦
          (let (sent, left) = report_paths room' (n + 1) kind fs paths in (e ∷ sent, left))
    ]
  ]

  -- The loop of `run`, from the room of the channel and the number of the next event on.
  unfoldable pub watch : ℕ → ℕ → List Notified → List Event × Exit
  watch room n [] = ([], waiting)
  watch room n (notify_error ∷ rest) = watch room n rest
  watch room n (notify_event kind paths fs ∷ rest) =
      let (sent, left) = report_paths room n kind fs paths in
      elim left [
        | err exit ↦ (sent, exit)
        | ok room' ↦
            (let (more, exit) = watch room' (n + length paths) rest in (sent ++ more, exit))
      ]

  -- `run`, with the watched paths and whether the watcher can be made.
  unfoldable pub run : List String → Bool → ℕ → List Notified → List Event × Exit
  unfolding watch
  run paths watcher_works room ns =
      if is_empty paths
      then ([], not_started)
      else if watcher_works
      then watch room 0 ns
      else ([], not_started)
