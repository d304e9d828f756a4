-- ===== src/Agent/Collector.antt =====
-- crates/scrooge-agent-bin/src/main.rs: the collector, which puts the events of the modules into the
-- queue, and `--emit-test-event`; crates/scrooge-agent-linux/src/lib.rs: the tasks of the modules.
-- Failures of SQLite are lists; new identities, the clock and the text of a number are parameters.
use scrooge_dlp.Common.{
  ℕ, zero, suc, String, Bool, true, false, List, [], ◌∷◌, ◌++◌, ◌+◌, ◌≡◌, ◌≤◌, refl, sym, ap, ◌∙◌,
  arith, Bool-cases, inl, inr, append-nil, append_assoc, Outcome, ok, err, map, filter-append,
  map-append, is_empty, if◌then◌else◌,
}
use scrooge_dlp.Common.Int.{ℤ}
use scrooge_dlp.Common.Text.{Text, codes}
use scrooge_dlp.Agent.Queue.{Bytes, EventQueue, QueueError, sqlite, is_unsent, pending, enqueue}
use scrooge_dlp.Agent.Sensors.{Event, clipboard}

-- A module of `LinuxAgent` that runs as a task of its own.
pub data Task : Type 0 where
  clipscreen : Task
  filemon : (watch_paths : List Text) → Task

-- `LinuxAgent`, but for its classifiers.
pub record LinuxAgent : Type 0 where
  pub watch_paths : List Text
  pub tasks : List Task

-- `register_task`
abbrev pub register_task : Task → LinuxAgent → LinuxAgent
register_task t a = record a { tasks = a.tasks ++ t ∷ [] }

abbrev pub start_clipscreen : LinuxAgent → LinuxAgent
start_clipscreen a = register_task clipscreen a

abbrev pub start_filemon : LinuxAgent → LinuxAgent
start_filemon a = if is_empty a.watch_paths then a else register_task (filemon a.watch_paths) a

-- `shutdown`, with the tasks that it aborts.
abbrev pub shutdown : LinuxAgent → List Task × LinuxAgent
shutdown a = (a.tasks, record a { tasks = [] })

-- `new`, and what `main` starts.
abbrev pub started : List Text → LinuxAgent
started watch_paths =
    start_filemon (start_clipscreen (record { watch_paths = watch_paths; tasks = [] }))

-- What a test event takes from outside.
pub record TestHost : Type 0 where
  pub new_v4 : ℕ → String
  pub now_ns : ℕ → ℤ
  pub test_user : ℕ → String
  pub now_secs : ℕ → ℤ

-- `build_test_event`
abbrev pub build_test_event : TestHost → ℕ → Event
build_test_event host i = record {
  event_id = host.new_v4 i;
  timestamp_ns = host.now_ns i;
  agent_id = "";
  event_type = 30;
  severity = 2;
  direction = 0;
  user_name = host.test_user i;
  process_id = 0;
  process_name = "scrooge-agent --emit-test-event";
  details = clipboard (record {
    content_size = 16;
    content_preview = codes "**** **** **** 0366";
    content_hash = [];
    mime_type = "text/plain";
    source_process_name = "";
    was_cleared = false;
  });
  matched_policy_id = "";
  matched_rule_id = "";
  action_taken = 0;
  matches =
      record {
        classifier_id = "credit_card";
        match_count = 1;
        sample_excerpt = codes "**** **** **** 0366";
      }
      ∷ [];
  forward_to_siem = false;
}

-- The test events from the i-th on, so many of them.
abbrev pub test_events : TestHost → ℕ → ℕ → List Event
test_events host i zero = []
test_events host i (suc n) = build_test_event host i ∷ test_events host (i + 1) n

payloads : EventQueue → List Bytes
payloads q = map (λ r. r.payload) (pending q)

-- An event from the channel, at a time, and whether SQLite refuses it.
pub record Arrival : Type 0 where
  pub event : Event
  pub now : ℤ
  pub refused : Bool

module _ (encode : Event → Bytes) where
  -- The step of the collector.
  abbrev pub collect_one : Arrival → EventQueue → EventQueue
  collect_one a q = if a.refused then q else (enqueue encode a.now a.event q).1

  -- The loop of the collector.
  unfoldable pub collect : List Arrival → EventQueue → EventQueue
  collect [] q = q
  collect (a ∷ xs) q = collect xs (collect_one a q)

  -- `--emit-test-event`, from the i-th event on, with the queue that it leaves.
  unfoldable pub emit_test_events :
      TestHost → List Bool → ℕ → ℕ → EventQueue → Outcome QueueError (Unit {0}) × EventQueue
  emit_test_events host fs i zero q = (ok tt, q)
  emit_test_events host [] i (suc n) q =
      emit_test_events host [] (i + 1) n
        (enqueue encode (host.now_secs i) (build_test_event host i) q).1
  emit_test_events host (true ∷ fs) i (suc n) q = (err sqlite, q)
  emit_test_events host (false ∷ fs) i (suc n) q =
      emit_test_events host fs (i + 1) n
        (enqueue encode (host.now_secs i) (build_test_event host i) q).1

  -- The events that SQLite does not refuse.
  abbrev pub taken : List Arrival → List Event
  taken [] = []
  taken (a ∷ xs) = let rest = taken xs in if a.refused then rest else a.event ∷ rest

  payloads-enqueue :
      (now : ℤ) (e : Event) (q : EventQueue)
      → payloads (enqueue encode now e q).1 ≡ payloads q ++ encode e ∷ []
  unfolding enqueue payloads
  payloads-enqueue now e q =
      ap (map (λ r. r.payload)) (filter-append is_unsent q.rows _)
      ∙ map-append (λ r. r.payload) (pending q) _

  one_more :
      (now : ℤ) (e : Event) (q q' : EventQueue) (bs : List Bytes)
      → payloads q' ≡ payloads (enqueue encode now e q).1 ++ bs
      → payloads q' ≡ payloads q ++ encode e ∷ bs
  one_more now e q q' bs h =
      h
      ∙ ap (λ xs. xs ++ bs) (payloads-enqueue now e q)
      ∙ append_assoc (payloads q) (encode e ∷ []) bs

  -- The collector adds to what waits in the queue the events that SQLite takes, in their order, and
  -- those alone.
  pub pending-collect :
      (xs : List Arrival) (q : EventQueue)
      → map (λ r. r.payload) (pending (collect xs q))
        ≡ map (λ r. r.payload) (pending q) ++ map encode (taken xs)
  unfolding collect payloads
  pending-collect [] q = sym (append-nil _)
  pending-collect (a ∷ xs) q = elim (Bool-cases a.refused) [
    | inl e ↦ rw e (pending-collect xs q)
    | inr e ↦ rw e (
        one_more a.now a.event q (collect xs (enqueue encode a.now a.event q).1)
          (map encode (taken xs)) (pending-collect xs (enqueue encode a.now a.event q).1))
  ]

  -- What a run that enters test events leaves.
  pub record Entered (host : TestHost) (i n : ℕ) (q : EventQueue)
      (r : Outcome QueueError (Unit {0}) × EventQueue) : Type 0 where
    pub count : ℕ
    pub bound : count ≤ n
    pub waiting :
        map (λ x. x.payload) (pending r.1)
        ≡ map (λ x. x.payload) (pending q) ++ map encode (test_events host i count)
    pub all_if_ok : r.0 ≡ ok tt → count ≡ n
    pub ok_if_all : count ≡ n → r.0 ≡ ok tt

  Entered-one :
      (host : TestHost) (i n : ℕ) (q : EventQueue) (r : Outcome QueueError (Unit {0}) × EventQueue)
      → Entered host (i + 1) n (enqueue encode (host.now_secs i) (build_test_event host i) q).1 r
      → Entered host i (suc n) q r
  unfolding payloads
  Entered-one host i n q r h = record {
    count = suc h.count;
    bound = (let below = h.bound in omega (arith, below));
    waiting =
        one_more (host.now_secs i) (build_test_event host i) q r.1
          (map encode (test_events host (i + 1) h.count)) h.waiting;
    all_if_ok = λ o. ap suc (h.all_if_ok o);
    ok_if_all = λ e. h.ok_if_all (omega (arith, e));
  }

  -- The test events that are entered before a failure wait in the queue, in their order; the run ends
  -- well exactly if it has entered them all.
  pub emit_test_events-Entered :
      (host : TestHost) (fs : List Bool) (i n : ℕ) (q : EventQueue)
      → Entered host i n q (emit_test_events host fs i n q)
  unfolding emit_test_events payloads
  emit_test_events-Entered host fs i zero q = record {
    count = zero;
    bound = omega arith;
    waiting = sym (append-nil _);
    all_if_ok = λ o. refl;
    ok_if_all = λ e. refl;
  }
  emit_test_events-Entered host [] i (suc n) q =
      Entered-one host i n q _ (emit_test_events-Entered host [] (i + 1) n _)
  emit_test_events-Entered host (true ∷ fs) i (suc n) q = record {
    count = zero;
    bound = omega arith;
    waiting = sym (append-nil _);
    all_if_ok = λ o. absurd (cc o);
    ok_if_all = λ e. absurd (cc e);
  }
  emit_test_events-Entered host (false ∷ fs) i (suc n) q =
      Entered-one host i n q _ (emit_test_events-Entered host fs (i + 1) n _)
