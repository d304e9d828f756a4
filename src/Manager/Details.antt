-- ===== src/Manager/Details.antt =====
-- crates/scrooge-manager-bin/src/grpc.rs, `build_details_json`: the event of the agents (generated from
-- proto/), and the JSON object of its details. A member of `details` other than the clipboard and the
-- file is given by the text that Rust's `Debug` makes of it.
pub mod Fields
use scrooge_dlp.Common.{
  ℕ, String, Bool, not, Option, none, some, List, [], ◌∷◌, if◌then◌else◌, ◌==◌, str_eq, is_empty,
}
use scrooge_dlp.Common.Int.{ℤ, pos}

mutual
  -- `serde_json::Value`
  pub data Json : Type 0 where
    bool : Bool → Json
    num : ℤ → Json
    str : String → Json
    arr : Elems → Json
    obj : Members → Json

  pub data Elems : Type 0 where
    nil : Elems
    cons : Json → Elems → Elems

  pub data Members : Type 0 where
    end : Members
    member : String → Json → Members → Members

-- `Map::insert`, on a map as the list of its members.
abbrev pub insert : String → Json → Members → Members
insert k v end = member k v end
insert k v (member k' v' ms) =
    let rest = insert k v ms in if str_eq k k' then member k' v ms else member k' v' rest

-- `Match`
pub record Match : Type 0 where
  pub classifier_id : String
  pub match_count : ℕ
  pub sample_excerpt : String

pub record ClipboardEvent : Type 0 where
  pub content_size : ℕ
  pub content_preview : String
  pub mime_type : String
  pub source_process_name : String
  pub was_cleared : Bool

pub record FileEvent : Type 0 where
  pub path : String
  pub size_bytes : ℤ
  pub mime_type : String

pub data Details : Type 0 where
  clipboard : ClipboardEvent → Details
  file : FileEvent → Details
  other : (debug : String) → Details

-- `Event`, with its enums as the `i32` that prost gives, and the time in nanoseconds.
pub record Event : Type 0 where
  pub event_id : String
  pub timestamp_ns : ℤ
  pub event_type : ℤ
  pub severity : ℤ
  pub direction : ℤ
  pub user_name : String
  pub process_id : ℕ
  pub process_name : String
  pub details : Option Details
  pub matched_policy_id : String
  pub matched_rule_id : String
  pub action_taken : ℤ
  pub matches : List Match

abbrev pub match_json : Match → Json
match_json m = obj (
    member "classifier_id" (str m.classifier_id) (
      member "match_count" (num (pos m.match_count))
        (member "sample_excerpt" (str m.sample_excerpt) end)))

abbrev pub matches_json : List Match → Elems
matches_json [] = nil
matches_json (m ∷ ms) = cons (match_json m) (matches_json ms)

abbrev pub clipboard_json : ClipboardEvent → Json
clipboard_json c = obj (
    member "content_size" (num (pos c.content_size)) (
      member "content_preview" (str c.content_preview) (
        member "mime_type" (str c.mime_type) (
          member "source_process_name" (str c.source_process_name)
            (member "was_cleared" (bool c.was_cleared) end)))))

abbrev pub file_json : FileEvent → Json
file_json f = obj (
    member "path" (str f.path)
      (member "size_bytes" (num f.size_bytes) (member "mime_type" (str f.mime_type) end)))

abbrev pub insert_if : Bool → String → Json → Members → Members
insert_if b k v ms = if b then insert k v ms else ms

-- The `match` on the details.
abbrev pub insert_details : Option Details → Members → Members
insert_details none ms = ms
insert_details (some (clipboard c)) ms = insert "clipboard" (clipboard_json c) ms
insert_details (some (file f)) ms = insert "file" (file_json f) ms
insert_details (some (other debug)) ms = insert "other_details" (str debug) ms

-- `build_details_json`
unfoldable pub build_details_json : Event → Members
build_details_json ev =
    let obj1 = insert_if (not (str_eq ev.user_name "")) "user_name" (str ev.user_name) end in
    let obj2 = insert_if (not (ev.process_id == 0)) "process_id" (num (pos ev.process_id)) obj1 in
    let obj3 =
      insert_if (not (str_eq ev.process_name "")) "process_name" (str ev.process_name) obj2 in
    let obj4 =
      insert_if (not (is_empty ev.matches)) "matches" (arr (matches_json ev.matches)) obj3 in
    insert_details ev.details obj4
