-- ===== src/Agent/Sensors/Clipboard/Changes.antt =====
-- clipboard.rs, `run`: each change of the clipboard is reported once, with all that was found in it.
use scrooge_dlp.Common.{
  map-append, length-map, ℕ, zero, suc, true, false, Option, none, some, List, [], ◌∷◌, ◌++◌, ◌+◌,
  ◌≤◌, ◌≡◌, refl, ap, subst, sym, ◌∙◌, arith, if◌then◌else◌, is_empty, length, map, Bool-cases, inl,
  inr, length-append, ◌-◌, All,
}
use scrooge_dlp.Common.Text.{Text, byte_len}
use scrooge_dlp.Classifier.Defs.{Match}
use scrooge_dlp.Classifier.Registry.{ClassifierRegistry, scan_all}
use scrooge_dlp.Agent.Sensors.{
  Bytes, clipboard, file, ProtoMatch, Event, Host, Exit, waiting, send_all,
}
use scrooge_dlp.Agent.Sensors.Clipboard.{
  same_bytes, Reading, content, not_available, read_failed, is_previous, hash_text, build_event,
  build_events, poll, run,
}

-- What an event says, but for its identity and time.
pub record Report : Type 0 where
  pub size : ℕ
  pub hash : Bytes
  pub found : List ProtoMatch

abbrev pub report : Event → Report
report e = elim e.details [
  | clipboard c ↦ record { size = c.content_size; hash = c.content_hash; found = e.matches }
  | file f ↦ record { size = 0; hash = f.sha256; found = e.matches }
]

-- The texts that the clipboard held.
abbrev pub texts : List Reading → List Text
texts [] = []
texts (not_available ∷ rs) = texts rs
texts (read_failed ∷ rs) = texts rs
texts (content t ∷ rs) = if is_empty t then texts rs else t ∷ texts rs

module _ (host : Host) where
  -- The texts that differ by hash from the one before them.
  abbrev pub changes : Option Bytes → List Text → List Text
  changes prev [] = []
  changes prev (t ∷ ts) =
      let rest = changes (some (hash_text host t)) ts in
      if is_previous prev (hash_text host t) then rest else t ∷ rest

  abbrev pub one_report : Text → Match → Report
  one_report t m = record {
    size = byte_len t;
    hash = hash_text host t;
    found =
        record { classifier_id = m.classifier; match_count = 1; sample_excerpt = m.redacted } ∷ [];
  }

  module _ (matches_of : Text → List Match) where
    -- What is reported of a text: a report for each match.
    abbrev pub reports : Text → List Report
    reports t = map (one_report t) (matches_of t)

    abbrev pub all_reports : List Text → List Report
    all_reports [] = []
    all_reports (t ∷ ts) = reports t ++ all_reports ts

same_bytes-eq : (a b : Bytes) → same_bytes a b ≡ true → a ≡ b
same_bytes-eq [] [] h = refl
same_bytes-eq [] (b ∷ ys) h = absurd (cc h)
same_bytes-eq (a ∷ xs) [] h = absurd (cc h)
same_bytes-eq (a ∷ xs) (b ∷ ys) h =
    let head : a ≡ b = ground (arith, h) in
    let tail : same_bytes xs ys ≡ true = ground (arith, h) in cc (head, same_bytes-eq xs ys tail)

-- A hash that is the previous one may stand for it.
previous-eq : (prev : Option Bytes) (hash : Bytes) → is_previous prev hash ≡ true → prev ≡ some hash
previous-eq none hash h = absurd (cc h)
previous-eq (some p) hash h = ap some (same_bytes-eq p hash h)

send_all-fits :
    (room : ℕ) (es : List Event)
    → length es ≤ room
    → send_all room es ≡ (es, some (room - length es))
send_all-fits room [] h = ap (λ k. ([], some k)) (omega arith)
send_all-fits zero (e ∷ es) h = absurd (omega (arith, h))
send_all-fits (suc room) (e ∷ es) h =
    ap (λ r. (e ∷ r.0, r.1)) (send_all-fits room es (omega (arith, h)))
    ∙ ap (λ k. (e ∷ es, some k)) (omega arith)

module _ (host : Host) (t : Text) where
  built :
      (n : ℕ) (ms : List Match)
      → map report (build_events host n t (hash_text host t) ms) ≡ map (one_report host t) ms
  unfolding build_event
  built n [] = refl
  built n (m ∷ ms) = ap (λ rs. one_report host t m ∷ rs) (built (n + 1) ms)

  length_built :
      (n : ℕ) (ms : List Match) → length (build_events host n t (hash_text host t) ms) ≡ length ms
  length_built n [] = refl
  length_built n (m ∷ ms) = ap suc (length_built (n + 1) ms)

module _ (host : Host) (classifiers : ClassifierRegistry) (matches_of : Text → List Match) where
  -- The scan of a text comes to its end, with these matches.
  abbrev pub Scans : Text → Type 0
  Scans t = scan_all classifiers t ≡ some (matches_of t)

  module _ (prev : Option Bytes) (room n : ℕ) (t : Text) (rs : List Reading) where
    poll-skips :
        is_empty t ≡ false
        → is_previous prev (hash_text host t) ≡ true
        → poll host classifiers prev room n (content t ∷ rs) ≡ poll host classifiers prev room n rs
    unfolding poll
    poll-skips e s = rw (poll, e, s)

    -- The events of a new text, and where they leave the channel.
    abbrev events : List Event
    events = build_events host n t (hash_text host t) (matches_of t)

    poll-changed :
        Scans t
        → is_empty t ≡ false
        → is_previous prev (hash_text host t) ≡ false
        → length events ≤ room
        → let rest =
            poll host classifiers
              (some (hash_text host t))
              (room - length events)
              (n + length (matches_of t))
              rs in
          poll host classifiers prev room n (content t ∷ rs) ≡ (events ++ rest.0, rest.1)
    unfolding poll
    poll-changed scans e s fits =
        rw (poll, e, s, scans, send_all-fits room events fits, send_all-fits room events fits)

    report-append :
        (more : List Event)
        → map report (events ++ more) ≡ reports host matches_of t ++ map report more
    report-append more =
        map-append report events more
        ∙ ap (λ us. us ++ map report more) (built host t n (matches_of t))

    room_needed :
        (us : List Report)
        → length (reports host matches_of t ++ us) ≤ room
        → length events + length us ≤ room
    room_needed us h = omega (
      arith,
      h,
      length-append (reports host matches_of t) us,
      length-map (one_report host t) (matches_of t),
      length_built host t n (matches_of t),
    )

    fits :
        (us : List Report) → length (reports host matches_of t ++ us) ≤ room → length events ≤ room
    fits us h = omega (arith, room_needed us h)

    room_left :
        (us : List Report)
        → length (reports host matches_of t ++ us) ≤ room
        → length us ≤ room - length events
    room_left us h = omega (arith, room_needed us h)

  changes_same :
      (prev : Option Bytes) (t : Text) (ts : List Text)
      → is_previous prev (hash_text host t) ≡ true
      → changes host prev (t ∷ ts) ≡ changes host prev ts
  changes_same prev t ts s =
      rw s (ap (λ o. changes host o ts) (sym (previous-eq prev (hash_text host t) s)))

  changes_new :
      (prev : Option Bytes) (t : Text) (ts : List Text)
      → is_previous prev (hash_text host t) ≡ false
      → changes host prev (t ∷ ts) ≡ t ∷ changes host (some (hash_text host t)) ts
  changes_new prev t ts s = rw s

  -- The events that were sent make these reports, and the task goes on.
  abbrev Reported : List Event × Exit → List Report → Type 0
  Reported x us = (map report x.0 ≡ us) × (x.1 ≡ waiting)

  Reported-eq :
      (x y : List Event × Exit) (us vs : List Report)
      → x ≡ y
      → us ≡ vs
      → Reported y vs
      → Reported x us
  Reported-eq x y us vs p q h = rw (p, q) h

  abbrev expected : Option Bytes → List Text → List Report
  expected prev ts = all_reports host matches_of (changes host prev ts)

  texts_empty :
      (t : Text) (rs : List Reading) → is_empty t ≡ true → texts (content t ∷ rs) ≡ texts rs
  texts_empty t rs e = rw e

  texts_content :
      (t : Text) (rs : List Reading) → is_empty t ≡ false → texts (content t ∷ rs) ≡ t ∷ texts rs
  texts_content t rs e = rw e

  poll-empty :
      (prev : Option Bytes) (room n : ℕ) (t : Text) (rs : List Reading)
      → is_empty t ≡ true
      → poll host classifiers prev room n (content t ∷ rs) ≡ poll host classifiers prev room n rs
  unfolding poll
  poll-empty prev room n t rs e = rw (poll, e)

  poll-reports :
      (prev : Option Bytes) (room n : ℕ) (rs : List Reading)
      → All Scans (changes host prev (texts rs))
      → length (expected prev (texts rs)) ≤ room
      → Reported (poll host classifiers prev room n rs) (expected prev (texts rs))
  unfolding poll
  poll-reports prev room n [] c h = (refl, refl)
  poll-reports prev room n (not_available ∷ rs) c h = poll-reports prev room n rs c h
  poll-reports prev room n (read_failed ∷ rs) c h = poll-reports prev room n rs c h
  poll-reports prev room n (content t ∷ rs) c h = elim (Bool-cases (is_empty t)) [
    | inl e ↦
        let same = ap (expected prev) (texts_empty t rs e) in
        Reported-eq _ _ _ _ (poll-empty prev room n t rs e) same (
          poll-reports prev room n rs
            (subst (λ ts. All Scans (changes host prev ts)) (texts_empty t rs e) c)
            (subst (λ us. length us ≤ room) same h))
    | inr e ↦ elim (Bool-cases (is_previous prev (hash_text host t))) [
      | inl s ↦
          let kept =
            ap (changes host prev) (texts_content t rs e) ∙ changes_same prev t (texts rs) s in
          let same = ap (all_reports host matches_of) kept in
          Reported-eq _ _ _ _ (poll-skips prev room n t rs e s) same (
            poll-reports prev room n rs (subst (All Scans) kept c)
              (subst (λ us. length us ≤ room) same h))
      | inr s ↦
          let changed =
            ap (changes host prev) (texts_content t rs e) ∙ changes_new prev t (texts rs) s in
          let new = ap (all_reports host matches_of) changed in
          let c' = subst (All Scans) changed c in
          let h' = subst (λ us. length us ≤ room) new h in
          let left =
            poll-reports (some (hash_text host t)) (room - length (events prev room n t rs))
              (n + length (matches_of t)) rs c'.1
              (room_left prev room n t rs (expected _ (texts rs)) h') in
          Reported-eq _ _ _ _
            (poll-changed prev room n t rs c'.0 e s
              (fits prev room n t rs (expected _ (texts rs)) h'))
            new
            (
              report-append prev room n t rs _ ∙ ap (λ us. reports host matches_of t ++ us) left.0,
              left.1,
            )
    ]
  ]

  -- On a channel that takes all of it, and where the scan of each changed text comes to its end, the
  -- task reports each change of the clipboard by its matches and nothing else: empty texts, failed
  -- readings and repeated texts give no report, and an event says the size and the hash of the text
  -- and the redacted match.
  pub run-reports :
      (room : ℕ) (rs : List Reading)
      → All Scans (changes host none (texts rs))
      → length (expected none (texts rs)) ≤ room
      → (map report (run host classifiers true room rs).0
          ≡ all_reports host matches_of (changes host none (texts rs)))
        × ((run host classifiers true room rs).1 ≡ waiting)
  unfolding run
  run-reports room rs c h = poll-reports none room 0 rs c h
