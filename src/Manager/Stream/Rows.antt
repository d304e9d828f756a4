-- ===== src/Manager/Stream/Rows.antt =====
-- grpc.rs, `stream`: each change that a message of an agent makes is to the rows of the agent.
use scrooge_dlp.Common.{
  ℕ, String, Bool, true, false, not, Option, none, some, List, [], ◌∷◌, ◌++◌, ◌≡◌, refl, subst, ◌+◌,
  arith, ◌==◌, any, filter, if-intro,
}
use scrooge_dlp.Common.Int.{ℤ}
use scrooge_dlp.Manager.World.{AgentRow, AssignmentRow, Uuid, World, Faults, execute, query}
use scrooge_dlp.Manager.Push.{set_acked, logged}
use scrooge_dlp.Manager.Details.{Event}
use scrooge_dlp.Manager.Events.{
  EventRow, Sources, same_key, insert_row, insert_events, event_row, insert_event_batch, commit,
}
use scrooge_dlp.Manager.Stream.{see_agent, Service}

-- The rows of the other agents.
abbrev pub foreign_events : Uuid → List EventRow → List EventRow
foreign_events agent rows = filter (λ r. not (r.agent_id == agent)) rows

abbrev pub foreign_agents : Uuid → List AgentRow → List AgentRow
foreign_agents agent rows = filter (λ a. not (a.id == agent)) rows

abbrev pub foreign_assignments : Uuid → List AssignmentRow → List AssignmentRow
foreign_assignments agent rows = filter (λ a. not (a.agent_id == agent)) rows

-- Nothing but the rows of the agent differs.
pub record Untouched (agent : Uuid) (s s' : Service) : Type 0 where
  pub events : foreign_events agent s'.stored ≡ foreign_events agent s.stored
  pub agents : foreign_agents agent s'.world.agents ≡ foreign_agents agent s.world.agents
  pub assignments :
      foreign_assignments agent s'.world.assignments ≡ foreign_assignments agent s.world.assignments
  pub policies : s'.world.policies ≡ s.world.policies
  pub history : s'.world.history ≡ s.world.history
  pub tokens : s'.world.tokens ≡ s.world.tokens
  pub users : s'.world.users ≡ s.world.users
  pub refresh_tokens : s'.world.refresh_tokens ≡ s.world.refresh_tokens
  pub pushes : s'.world.pushes ≡ s.world.pushes

module _ (agent : Uuid) where
  pub foreign-see_agent :
      (now : ℕ) (version : String) (rows : List AgentRow)
      → foreign_agents agent (see_agent agent now version rows) ≡ foreign_agents agent rows
  foreign-see_agent now version [] = refl
  foreign-see_agent now version (a ∷ rows) = ground (arith, foreign-see_agent now version rows)

  pub foreign-set_acked :
      (name : String) (version : ℤ) (rows : List AssignmentRow)
      → foreign_assignments agent (set_acked agent name version rows)
        ≡ foreign_assignments agent rows
  foreign-set_acked name version [] = refl
  foreign-set_acked name version (a ∷ rows) = ground (arith, foreign-set_acked name version rows)

  foreign-append :
      (r : EventRow) (table : List EventRow)
      → r.agent_id ≡ agent
      → foreign_events agent (table ++ r ∷ []) ≡ foreign_events agent table
  foreign-append r [] own = ground (arith, own)
  foreign-append r (x ∷ table) own = ground (arith, foreign-append r table)

  -- Where a batch leaves a table, it holds these rows of the other agents.
  abbrev Leaves : List EventRow → Option (ℕ × List EventRow × List Bool) → Type 0
  Leaves rows none = Unit
  Leaves rows (some (n, table, fs)) = foreign_events agent table ≡ rows

  Leaves-counted :
      (rows : List EventRow) (k : ℕ) (o : Option (ℕ × List EventRow × List Bool))
      → Leaves rows o
      → Leaves rows (elim o [ none ↦ none | some (m, table, fs) ↦ some (k + m, table, fs) ])
  Leaves-counted rows k none h = tt
  Leaves-counted rows k (some (m, table, fs)) h = h

  foreign-commit :
      (o : Option (ℕ × List EventRow × List Bool)) (sources : Sources) (table : List EventRow)
      → Leaves (foreign_events agent table) o
      → foreign_events agent (commit sources agent o table).1 ≡ foreign_events agent table
  foreign-commit none sources table h = refl
  foreign-commit (some (n, table', (true ∷ fs))) sources table h = refl
  foreign-commit (some (n, table', (false ∷ fs))) sources table h = h
  foreign-commit (some (n, table', [])) sources table h = h

  module _ (sources : Sources) where
    foreign-insert_row :
        (n : ℕ) (ev : Event) (table : List EventRow)
        → foreign_events agent (insert_row (event_row sources agent n ev) table).1
          ≡ foreign_events agent table
    unfolding event_row
    foreign-insert_row n ev table =
        if-intro (λ (x : ℕ × List EventRow). foreign_events agent x.1 ≡ foreign_events agent table)
          (any (same_key (event_row sources agent n ev)) table) _ _ (λ e. refl)
          (λ e. foreign-append (event_row sources agent n ev) table refl)

    insert_events-Leaves :
        (n : ℕ) (evs : List Event) (fs : List Bool) (table : List EventRow)
        → Leaves (foreign_events agent table) (insert_events sources agent n evs fs table)
    unfolding insert_events
    insert_events-Leaves n [] fs table = refl
    insert_events-Leaves n (ev ∷ evs) (true ∷ fs) table = tt
    insert_events-Leaves n (ev ∷ evs) (false ∷ fs) table = Leaves-counted _ _ _ (
        subst
          (λ rows. Leaves rows (
            insert_events sources agent (n + 1) evs fs
              (insert_row (event_row sources agent n ev) table).1))
          (foreign-insert_row n ev table)
          (insert_events-Leaves (n + 1) evs fs (insert_row (event_row sources agent n ev) table).1))
    insert_events-Leaves n (ev ∷ evs) [] table = Leaves-counted _ _ _ (
        subst
          (λ rows. Leaves rows (
            insert_events sources agent (n + 1) evs []
              (insert_row (event_row sources agent n ev) table).1))
          (foreign-insert_row n ev table)
          (insert_events-Leaves (n + 1) evs [] (insert_row (event_row sources agent n ev) table).1))

    pub foreign-insert_event_batch :
        (evs : List Event) (fs : List Bool) (table : List EventRow)
        → foreign_events agent (insert_event_batch sources agent evs fs table).1
          ≡ foreign_events agent table
    unfolding insert_event_batch
    foreign-insert_event_batch evs [] table =
        foreign-commit _ sources table (insert_events-Leaves 0 evs [] table)
    foreign-insert_event_batch evs (true ∷ fs) table = refl
    foreign-insert_event_batch evs (false ∷ fs) table =
        foreign-commit _ sources table (insert_events-Leaves 0 evs fs table)

-- A query whose error is only logged is done or not.
pub logged-either :
    (P : World → Type 0) (f : World → World) (fs : Faults) (w : World)
    → P w
    → P (f w)
    → P (logged f fs w).2
unfolding execute query
logged-either P f [] w h k = k
logged-either P f (true ∷ fs) w h k = h
logged-either P f (false ∷ fs) w h k = k
