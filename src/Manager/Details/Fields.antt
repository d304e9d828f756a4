-- ===== src/Manager/Details/Fields.antt =====
-- grpc.rs, `build_details_json`: what the object holds under each key.
use scrooge_dlp.Common.{
  String, Bool, true, false, not, Option, none, some, ◌≡◌, refl, ◌∙◌, arith, if◌then◌else◌, ◌==◌,
  str_eq, is_empty, eq_iff,
}
use scrooge_dlp.Common.Int.{pos}
use scrooge_dlp.Manager.Details.{
  Json, str, num, arr, Members, end, member, insert, insert_if, insert_details, Event, Details,
  clipboard, file, other, matches_json, clipboard_json, file_json, build_details_json,
}

-- `Map::get`
abbrev pub field : String → Members → Option Json
field k end = none
field k (member k' v ms) = let rest = field k ms in if str_eq k' k then some v else rest

field-insert :
    (k l : String) (v : Json) (ms : Members)
    → field l (insert k v ms) ≡ (if str_eq k l then some v else field l ms)
field-insert k l v end = refl
field-insert k l v (member k' v' ms) =
    ground (arith, field-insert k l v ms, eq_iff k k', eq_iff k l, eq_iff k' l)

field-insert_if_other :
    (b : Bool) (k l : String) (v : Json) (ms : Members)
    → str_eq k l ≡ false
    → field l (insert_if b k v ms) ≡ field l ms
field-insert_if_other true k l v ms ne = field-insert k l v ms ∙ rw ne
field-insert_if_other false k l v ms ne = refl

-- A member that is left out where its text or list is empty, in an object without it.
field-insert_if_self :
    (b : Bool) (k : String) (v : Json) (ms : Members)
    → str_eq k k ≡ true
    → field k ms ≡ none
    → field k (insert_if (not b) k v ms) ≡ (if b then none else some v)
field-insert_if_self true k v ms same absent = absent
field-insert_if_self false k v ms same absent = field-insert k k v ms ∙ rw same

field-insert_details :
    (l : String) (d : Option Details) (ms : Members)
    → str_eq "clipboard" l ≡ false
    → str_eq "file" l ≡ false
    → str_eq "other_details" l ≡ false
    → field l (insert_details d ms) ≡ field l ms
field-insert_details l none ms c f o = refl
field-insert_details l (some (clipboard e)) ms c f o = field-insert "clipboard" l _ ms ∙ rw c
field-insert_details l (some (file e)) ms c f o = field-insert "file" l _ ms ∙ rw f
field-insert_details l (some (other e)) ms c f o = field-insert "other_details" l _ ms ∙ rw o

-- The object under the key of the clipboard, and of the file.
abbrev pub clipboard_of : Option Details → Option Json
clipboard_of none = none
clipboard_of (some (clipboard c)) = some (clipboard_json c)
clipboard_of (some (file f)) = none
clipboard_of (some (other t)) = none

abbrev pub file_of : Option Details → Option Json
file_of none = none
file_of (some (clipboard c)) = none
file_of (some (file f)) = some (file_json f)
file_of (some (other t)) = none

field-clipboard :
    (d : Option Details) (ms : Members)
    → field "clipboard" ms ≡ none
    → field "clipboard" (insert_details d ms) ≡ clipboard_of d
field-clipboard none ms h = h
field-clipboard (some (clipboard c)) ms h = field-insert "clipboard" "clipboard" _ ms
field-clipboard (some (file f)) ms h = field-insert "file" "clipboard" _ ms ∙ h
field-clipboard (some (other t)) ms h = field-insert "other_details" "clipboard" _ ms ∙ h

field-file :
    (d : Option Details) (ms : Members)
    → field "file" ms ≡ none
    → field "file" (insert_details d ms) ≡ file_of d
field-file none ms h = h
field-file (some (clipboard c)) ms h = field-insert "clipboard" "file" _ ms ∙ h
field-file (some (file f)) ms h = field-insert "file" "file" _ ms
field-file (some (other t)) ms h = field-insert "other_details" "file" _ ms ∙ h

module _ (ev : Event) where
  abbrev obj1 : Members
  obj1 = insert_if (not (str_eq ev.user_name "")) "user_name" (str ev.user_name) end

  abbrev obj2 : Members
  obj2 = insert_if (not (ev.process_id == 0)) "process_id" (num (pos ev.process_id)) obj1

  abbrev obj3 : Members
  obj3 = insert_if (not (str_eq ev.process_name "")) "process_name" (str ev.process_name) obj2

  abbrev obj4 : Members
  obj4 = insert_if (not (is_empty ev.matches)) "matches" (arr (matches_json ev.matches)) obj3

  -- A key that is none of the four.
  absent :
      (l : String)
      → str_eq "user_name" l ≡ false
      → str_eq "process_id" l ≡ false
      → str_eq "process_name" l ≡ false
      → str_eq "matches" l ≡ false
      → field l obj4 ≡ none
  absent l u i p m =
      field-insert_if_other _ "matches" l _ obj3 m
      ∙ field-insert_if_other _ "process_name" l _ obj2 p
      ∙ field-insert_if_other _ "process_id" l _ obj1 i
      ∙ field-insert_if_other _ "user_name" l _ end u

  -- The object holds the name of the user, the process and the matches of the event unless they are
  -- empty, and the clipboard or the file if the event is about one.
  pub build_details_json-fields :
      (field "user_name" (build_details_json ev)
        ≡ (if str_eq ev.user_name "" then none else some (str ev.user_name)))
      × (field "process_id" (build_details_json ev)
          ≡ (if ev.process_id == 0 then none else some (num (pos ev.process_id))))
      × (field "process_name" (build_details_json ev)
          ≡ (if str_eq ev.process_name "" then none else some (str ev.process_name)))
      × (field "matches" (build_details_json ev)
          ≡ (if is_empty ev.matches then none else some (arr (matches_json ev.matches))))
      × (field "clipboard" (build_details_json ev) ≡ clipboard_of ev.details)
      × (field "file" (build_details_json ev) ≡ file_of ev.details)
  unfolding build_details_json
  build_details_json-fields = (
    field-insert_details "user_name" ev.details obj4 refl refl refl
        ∙ field-insert_if_other _ "matches" "user_name" _ obj3 refl
        ∙ field-insert_if_other _ "process_name" "user_name" _ obj2 refl
        ∙ field-insert_if_other _ "process_id" "user_name" _ obj1 refl
        ∙ field-insert_if_self (str_eq ev.user_name "") "user_name" _ end refl refl,
    field-insert_details "process_id" ev.details obj4 refl refl refl
        ∙ field-insert_if_other _ "matches" "process_id" _ obj3 refl
        ∙ field-insert_if_other _ "process_name" "process_id" _ obj2 refl
        ∙ field-insert_if_self (ev.process_id == 0) "process_id" _ obj1 refl
            (field-insert_if_other _ "user_name" "process_id" _ end refl),
    field-insert_details "process_name" ev.details obj4 refl refl refl
        ∙ field-insert_if_other _ "matches" "process_name" _ obj3 refl
        ∙ field-insert_if_self (str_eq ev.process_name "") "process_name" _ obj2 refl (
            field-insert_if_other _ "process_id" "process_name" _ obj1 refl
            ∙ field-insert_if_other _ "user_name" "process_name" _ end refl),
    field-insert_details "matches" ev.details obj4 refl refl refl
        ∙ field-insert_if_self (is_empty ev.matches) "matches" _ obj3 refl (
            field-insert_if_other _ "process_name" "matches" _ obj2 refl
            ∙ field-insert_if_other _ "process_id" "matches" _ obj1 refl
            ∙ field-insert_if_other _ "user_name" "matches" _ end refl),
    field-clipboard ev.details obj4 (absent "clipboard" refl refl refl refl),
    field-file ev.details obj4 (absent "file" refl refl refl refl),
  )
