-- ===== src/Manager/Stream/Sessions.antt =====
-- grpc.rs, `stream`: what a session of an agent can change.
use scrooge_dlp.Common.{
  ℕ, Bool, false, none, List, [], ◌∷◌, ◌≡◌, refl, ap, ◌∙◌, ◌==◌, if-intro, Bool-cases, inl, inr,
}
use scrooge_dlp.Manager.World.{AgentRow, AssignmentRow, Uuid, Faults, pure}
use scrooge_dlp.Manager.Push.{receive_ack, mark_acked, PolicyAck, to_i32_or_zero}
use scrooge_dlp.Manager.Registry.{
  AgentTx, AgentRegistry, get, register, unregister, get-filter_self, get-filter_other,
  get-on_stream, on_stream,
}
use scrooge_dlp.Manager.Details.{Event}
use scrooge_dlp.Manager.Events.{EventRow, Sources, insert_event_batch}
use scrooge_dlp.Manager.Stream.{
  touch_agent, AgentMessage, heartbeat, policy_ack, events, event, other, Inbound, arrived,
  inbound_error, Service, receive, inbound_loop, session,
}
use scrooge_dlp.Manager.Stream.Rows.{
  foreign_events, foreign_agents, foreign_assignments, Untouched, foreign-see_agent,
  foreign-set_acked, foreign-insert_event_batch, logged-either,
}

module _ (agent : Uuid) where
  Untouched-refl : (s : Service) → Untouched agent s s
  Untouched-refl s = record {
    events = refl;
    agents = refl;
    assignments = refl;
    policies = refl;
    history = refl;
    tokens = refl;
    users = refl;
    refresh_tokens = refl;
    pushes = refl;
  }

  Untouched-trans :
      (s s' s'' : Service) → Untouched agent s s' → Untouched agent s' s'' → Untouched agent s s''
  Untouched-trans s s' s'' h k = record {
    events = k.events ∙ h.events;
    agents = k.agents ∙ h.agents;
    assignments = k.assignments ∙ h.assignments;
    policies = k.policies ∙ h.policies;
    history = k.history ∙ h.history;
    tokens = k.tokens ∙ h.tokens;
    users = k.users ∙ h.users;
    refresh_tokens = k.refresh_tokens ∙ h.refresh_tokens;
    pushes = k.pushes ∙ h.pushes;
  }

  -- A change of the agent's own rows.
  Untouched-own :
      (s : Service) (stored : List EventRow) (agents : List AgentRow)
      (assignments : List AssignmentRow) (registry : AgentRegistry)
      → foreign_events agent stored ≡ foreign_events agent s.stored
      → foreign_agents agent agents ≡ foreign_agents agent s.world.agents
      → foreign_assignments agent assignments ≡ foreign_assignments agent s.world.assignments
      → Untouched agent s (record {
        world = record s.world { agents = agents; assignments = assignments };
        stored = stored;
        registry = registry;
      })
  Untouched-own s stored agents assignments registry e a b = record {
    events = e;
    agents = a;
    assignments = b;
    policies = refl;
    history = refl;
    tokens = refl;
    users = refl;
    refresh_tokens = refl;
    pushes = refl;
  }

  stored-Untouched :
      (s : Service) (sources : Sources) (evs : List Event) (fs : Faults)
      → Untouched agent s
          (record s { stored = (insert_event_batch sources agent evs fs s.stored).1 })
  stored-Untouched s sources evs fs =
      Untouched-own s _ s.world.agents s.world.assignments s.registry
        (foreign-insert_event_batch agent sources evs fs s.stored) refl refl

  unregistered-Untouched :
      (s : Service) (registry : AgentRegistry)
      → Untouched agent s (record s { registry = registry })
  unregistered-Untouched s registry =
      Untouched-own s s.stored s.world.agents s.world.assignments registry refl refl refl

  acked-Untouched :
      (ack : PolicyAck) (fs : Faults) (s : Service)
      → Untouched agent s (record s { world = (receive_ack agent ack fs s.world).2 })
  unfolding receive_ack mark_acked pure
  acked-Untouched ack fs s = elim (Bool-cases (ack.status == 1)) [
    | inl e ↦ rw e (
        logged-either (λ w. Untouched agent s (record s { world = w })) _ fs s.world
          (Untouched-refl s)
          (Untouched-own s s.stored s.world.agents _ s.registry refl refl (
            foreign-set_acked agent ack.policy_id (to_i32_or_zero ack.version)
              s.world.assignments)))
    | inr e ↦ rw e (Untouched-refl s)
  ]

  receive-Untouched :
      (m : AgentMessage) (now : ℕ) (fs : Faults) (sources : Sources) (answered : Bool) (s : Service)
      → Untouched agent s (receive agent m now fs sources answered s).1
  unfolding receive
  receive-Untouched (heartbeat version) now fs sources answered s =
      logged-either (λ w. Untouched agent s (record s { world = w }))
        (touch_agent agent now version) fs s.world (Untouched-refl s)
        (Untouched-own s s.stored _ s.world.assignments s.registry refl
          (foreign-see_agent agent now version s.world.agents) refl)
  receive-Untouched (policy_ack ack) now fs sources answered s = acked-Untouched ack fs s
  receive-Untouched (events evs) now fs sources answered s = stored-Untouched s sources evs fs
  receive-Untouched (event ev) now fs sources answered s = stored-Untouched s sources (ev ∷ []) fs
  receive-Untouched other now fs sources answered s = Untouched-refl s

  receive-registry :
      (m : AgentMessage) (now : ℕ) (fs : Faults) (sources : Sources) (answered : Bool) (s : Service)
      → (receive agent m now fs sources answered s).1.registry ≡ s.registry
  unfolding receive
  receive-registry (heartbeat version) now fs sources answered s = refl
  receive-registry (policy_ack ack) now fs sources answered s = refl
  receive-registry (events evs) now fs sources answered s = refl
  receive-registry (event ev) now fs sources answered s = refl
  receive-registry other now fs sources answered s = refl

  -- The registry at the end of the inbound messages is the one before without the agent.
  inbound_loop-registry :
      (ins : List Inbound) (s : Service)
      → (inbound_loop agent ins s).registry ≡ unregister agent s.registry
  unfolding inbound_loop
  inbound_loop-registry [] s = refl
  inbound_loop-registry (inbound_error ∷ ins) s = refl
  inbound_loop-registry (arrived m now fs sources answered ∷ ins) s =
      let same = ap (unregister agent) (receive-registry m now fs sources answered s) in
      if-intro (λ (x : Service). x.registry ≡ unregister agent s.registry)
        (receive agent m now fs sources answered s).0 _ _ (λ e. inbound_loop-registry ins _ ∙ same)
        (λ e. same)

  inbound_loop-Untouched :
      (ins : List Inbound) (s : Service) → Untouched agent s (inbound_loop agent ins s)
  unfolding inbound_loop
  inbound_loop-Untouched [] s = unregistered-Untouched s _
  inbound_loop-Untouched (inbound_error ∷ ins) s = unregistered-Untouched s _
  inbound_loop-Untouched (arrived m now fs sources answered ∷ ins) s =
      let step = receive-Untouched m now fs sources answered s in
      if-intro (Untouched agent s) (receive agent m now fs sources answered s).0 _ _
        (λ e. Untouched-trans s _ _ step (inbound_loop-Untouched ins _))
        (λ e. Untouched-trans s _ _ step (unregistered-Untouched _ _))

  unregistered : (r : AgentRegistry) → get agent (unregister agent r) ≡ none
  unfolding unregister
  unregistered r = get-filter_self agent r

  left_alone :
      (tx : AgentTx) (r : AgentRegistry) (peer : Uuid)
      → (peer == agent) ≡ false
      → get peer (unregister agent (register agent tx r)) ≡ get peer r
  unfolding unregister on_stream
  left_alone tx r peer ne =
      get-filter_other agent peer (register agent tx r) ne ∙ (get-on_stream agent peer tx r ne).2

  -- Whatever an agent sends in its session and whichever queries fail, the session changes no row of
  -- another agent in the tables of the agents, of the assignments and of the events, and nothing in
  -- the other tables; after it the agent has no channel, and every other agent the one it had.
  pub session_isolated :
      (tx : AgentTx) (ins : List Inbound) (s : Service) (peer : Uuid)
      → (peer == agent) ≡ false
      → Untouched agent s (session agent tx ins s)
        × (get agent (session agent tx ins s).registry ≡ none)
        × (get peer (session agent tx ins s).registry ≡ get peer s.registry)
  unfolding session
  session_isolated tx ins s peer ne =
      let start : Service = record s { registry = register agent tx s.registry } in
      let done = inbound_loop-registry ins start in
      (
        Untouched-trans s start _ (unregistered-Untouched s _) (inbound_loop-Untouched ins start),
        ap (get agent) done ∙ unregistered start.registry,
        ap (get peer) done ∙ left_alone tx s.registry peer ne,
      )
