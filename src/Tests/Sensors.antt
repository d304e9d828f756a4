-- ===== src/Tests/Sensors.antt =====
-- The tasks of the agent that watch the clipboard and the files.
use mathlib.Core.List.{filter_map}
use scrooge_dlp.Common.{
  ◌++◌, length, ltb, if◌then◌else◌, true, none, some, List, [], ◌∷◌, ◌≡◌, refl, arith, map,
}
use scrooge_dlp.Common.Int.{pos}
use scrooge_dlp.Common.Text.{Text, codes}
use scrooge_dlp.Classifier.Defs.{Match, Regex}
use scrooge_dlp.Classifier.Luhn
use scrooge_dlp.Classifier.Pesel
use scrooge_dlp.Classifier.Iban
use scrooge_dlp.Classifier.Nip
use scrooge_dlp.Classifier.Registry.Defaults.{defaults, scan_all-defaults}
use scrooge_dlp.Classifier.Registry.{ClassifierRegistry, scan_all, scan_items}
use scrooge_dlp.Agent.Sensors.{Host, waiting, channel_closed}
use scrooge_dlp.Agent.Sensors.Clipboard.{
  Reading, content, not_available, read_failed, hash_text, build_event, poll, run,
}
use scrooge_dlp.Agent.Sensors.Clipboard.Changes.{report, all_reports, run-reports}
use scrooge_dlp.Agent.Sensors.Filemon
use scrooge_dlp.Agent.Sensors.Filemon.{FileSystem, notify_event, modify}

abbrev host : Host
host = record {
  new_v4 = λ n. "id";
  now_ns = λ n. pos n;
  user_name = "anna";
  sha256 = λ bytes. bytes;
}

-- Each text holds a card number.
abbrev card : Match
card = record {
  classifier = "credit_card";
  start = 0;
  end = 1;
  redacted = codes "**** 0366";
  last4 = codes "0366";
}

abbrev classifiers : ClassifierRegistry
classifiers = record { items = record { name = "credit_card"; scan = λ t. some (card ∷ []) } ∷ [] }

-- A text that stays for three ticks, then another one.
abbrev readings : List Reading
readings =
    not_available
    ∷ content (codes "a")
    ∷ content (codes "a")
    ∷ read_failed
    ∷ content (codes "a")
    ∷ content []
    ∷ content (codes "b")
    ∷ []

-- The registry of the agent, where the patterns find a card number in a text of some length.
abbrev letter : Text
letter = codes "karta 4532-0151-1283-0366 wystawiona"

abbrev cards : Regex
cards text =
    if ltb 20 (length text)
    then record { start = 6; end = 25; as_str = codes "4532-0151-1283-0366" } ∷ []
    else []

abbrev never : Regex
never text = []

abbrev registry : ClassifierRegistry
registry = defaults cards never never never

abbrev found_in : Text → List Match
found_in t =
    filter_map Luhn.Scan.reported (cards t)
    ++ (filter_map Pesel.Scan.reported (never t)
        ++ (filter_map Iban.Scan.reported (never t) ++ filter_map Nip.Scan.reported (never t)))

registry_scans : (t : Text) → scan_all registry t ≡ some (found_in t)
registry_scans t = scan_all-defaults cards never never never t tt tt

-- A letter that stays for three ticks, then another text.
abbrev clipboard_texts : List Reading
clipboard_texts =
    not_available
    ∷ content letter
    ∷ content letter
    ∷ read_failed
    ∷ content letter
    ∷ content []
    ∷ content (codes "b")
    ∷ []

run-reports_example :
    (map report (run host registry true 64 clipboard_texts).0
      ≡ all_reports host found_in (letter ∷ codes "b" ∷ []))
    × ((run host registry true 64 clipboard_texts).1 ≡ waiting)
unfolding hash_text filter_map Luhn.Scan.reported Luhn.luhn_check
run-reports_example =
    run-reports host registry found_in 64 clipboard_texts
      (registry_scans letter, (registry_scans (codes "b"), tt)) (omega arith)

-- The channel closes after one event.
closes : (run host classifiers true 1 readings).1 ≡ channel_closed
unfolding run poll hash_text build_event scan_all scan_items
closes = refl

abbrev disk : FileSystem
disk = record {
  metadata = λ p. some (record { is_file = true; len = 6000000 });
  read = λ p. some (1 ∷ []);
  from_utf8 = λ b. some b;
  extension = λ p. none;
}

-- A large file is reported without its content.
large :
    map report
      (Filemon.run host classifiers
        ("/home" ∷ [])
        true
        8
        (notify_event modify ("/home/x" ∷ []) disk ∷ [])).0
    ≡ record { size = 0; hash = []; found = [] } ∷ []
unfolding Filemon.run Filemon.watch Filemon.build_event Filemon.inspect_file Filemon.event_of
large = refl
