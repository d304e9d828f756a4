-- ===== src/Agent/Sensors.antt =====
-- crates/scrooge-agent-linux: the events that the modules of the agent report. The numbers of the
-- enums are those of proto/; SHA-256, new identities, the clock and the environment are parameters.
pub mod Clipboard
pub mod Filemon
use scrooge_dlp.Common.{ℕ, zero, suc, String, Bool, Option, none, some, List, [], ◌∷◌}
use scrooge_dlp.Common.Int.{ℤ}
use scrooge_dlp.Common.Text.{Text}

abbrev pub Bytes : Type 0
Bytes = List ℕ

-- `proto::v1::Match`
pub record ProtoMatch : Type 0 where
  pub classifier_id : String
  pub match_count : ℕ
  pub sample_excerpt : Text

pub record ClipboardEvent : Type 0 where
  pub content_size : ℕ
  pub content_preview : Text
  pub content_hash : Bytes
  pub mime_type : String
  pub source_process_name : String
  pub was_cleared : Bool

pub record FileEvent : Type 0 where
  pub path : String
  pub old_path : String
  pub destination_path : String
  pub size_bytes : ℤ
  pub sha256 : Bytes
  pub mime_type : String
  pub file_extension : String

pub data Details : Type 0 where
  clipboard : ClipboardEvent → Details
  file : FileEvent → Details

pub record Event : Type 0 where
  pub event_id : String
  pub timestamp_ns : ℤ
  pub agent_id : String
  pub event_type : ℕ
  pub severity : ℕ
  pub direction : ℕ
  pub user_name : String
  pub process_id : ℕ
  pub process_name : String
  pub details : Details
  pub matched_policy_id : String
  pub matched_rule_id : String
  pub action_taken : ℕ
  pub matches : List ProtoMatch
  pub forward_to_siem : Bool

-- What a module takes from outside: the identity and the time of its n-th event, the text of the
-- variable `USER`, and SHA-256.
pub record Host : Type 0 where
  pub new_v4 : ℕ → String
  pub now_ns : ℕ → ℤ
  pub user_name : String
  pub sha256 : Bytes → Bytes

-- How a module's task stands: it could not start, it waits, its channel was closed, or a classifier
-- panicked.
pub data Exit : Type 0 where
  not_started waiting channel_closed panicked : Exit

-- The sends of a list of events on a channel that takes `room` more: those that went, and the room
-- that is left, `none` where a send failed.
abbrev pub send_all : ℕ → List Event → List Event × Option ℕ
send_all room [] = ([], some room)
send_all zero (e ∷ es) = ([], none)
send_all (suc room) (e ∷ es) = let (sent, left) = send_all room es in (e ∷ sent, left)
