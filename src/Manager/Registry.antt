-- ===== src/Manager/Registry.antt =====
-- crates/scrooge-manager-bin/src/grpc.rs: `AgentRegistry`, the channels to the connected agents, and
-- the sessions of `stream` that enter and leave it.
use scrooge_dlp.Common.{
  ℕ, false, not, Option, none, some, List, [], ◌∷◌, ◌≡◌, refl, arith, if◌then◌else◌, ◌==◌, filter,
  map,
}
use scrooge_dlp.Manager.World.{Uuid}

-- A channel to an agent, told apart by a number: the handle that `stream` clones.
abbrev pub AgentTx : Type 0
AgentTx = ℕ

-- The map of `AgentRegistry`, an agent at most once.
abbrev pub AgentRegistry : Type 0
AgentRegistry = List (Uuid × AgentTx)

-- `AgentRegistry::new`
unfoldable pub new : AgentRegistry
new = []

-- `unregister`
unfoldable pub unregister : Uuid → AgentRegistry → AgentRegistry
unregister agent = filter (λ e. not (e.0 == agent))

-- `register`, which replaces the channel of an agent that is there.
unfoldable pub register : Uuid → AgentTx → AgentRegistry → AgentRegistry
register agent tx r = (agent, tx) ∷ filter (λ e. not (e.0 == agent)) r

-- `get`
unfoldable pub get : Uuid → AgentRegistry → Option AgentTx
get agent [] = none
get agent ((a, tx) ∷ r) = let rest = get agent r in if a == agent then some tx else rest

-- `all_agent_ids`
unfoldable pub all_agent_ids : AgentRegistry → List Uuid
all_agent_ids r = map (λ e. e.0) r

-- What the streams do to the registry: one is accepted with its channel, one has ended.
pub data StreamEvent : Type 0 where
  accepted : Uuid → AgentTx → StreamEvent
  ended : Uuid → StreamEvent

unfoldable pub on_stream : StreamEvent → AgentRegistry → AgentRegistry
unfolding register unregister
on_stream (accepted agent tx) r = register agent tx r
on_stream (ended agent) r = unregister agent r

pub get-filter_self :
    (agent : Uuid) (r : AgentRegistry) → get agent (filter (λ e. not (e.0 == agent)) r) ≡ none
unfolding get
get-filter_self agent [] = refl
get-filter_self agent ((a, tx) ∷ r) = ground (arith, get-filter_self agent r)

pub get-filter_other :
    (agent other : Uuid) (r : AgentRegistry)
    → (other == agent) ≡ false
    → get other (filter (λ e. not (e.0 == agent)) r) ≡ get other r
unfolding get
get-filter_other agent other [] ne = refl
get-filter_other agent other ((a, tx) ∷ r) ne = ground (arith, get-filter_other agent other r ne)

-- The channel of an accepted stream is found under its agent, none is found after the stream's end,
-- and neither changes what is found for another agent.
pub get-on_stream :
    (agent other : Uuid) (tx : AgentTx) (r : AgentRegistry)
    → (other == agent) ≡ false
    → (get agent (on_stream (accepted agent tx) r) ≡ some tx)
      × (get agent (on_stream (ended agent) r) ≡ none)
      × (get other (on_stream (accepted agent tx) r) ≡ get other r)
      × (get other (on_stream (ended agent) r) ≡ get other r)
unfolding on_stream register unregister get
get-on_stream agent other tx r ne = (
  ground arith,
  get-filter_self agent r,
  ground (arith, get-filter_other agent other r ne),
  get-filter_other agent other r ne,
)
